-- ===== src/SiteState/Examples.antt =====
-- A change of the pools after which nginx does not come up, on which the theorems about the
-- transaction are applied.
use hosting_control_panel.Common.{◌≡◌, refl, not, true, false, none, some, [], ◌∷◌, text_eq}
use hosting_control_panel.SiteState.Transaction.{
  Files, Rendered, Disk, Answers, failed, write_sites_map, write_pools, write, restored_file,
  restore, activate, apply_external, rolls_back, attempt, undone, apply_site_state_transaction,
}

abbrev before : Files
before = record { sites_map = 1 ∷ []; pools = 2 ∷ []; site_state = none; cache_map = some (3 ∷ []) }

abbrev wanted : Rendered
wanted = record { sites_map = 1 ∷ []; pools = 9 ∷ []; site_state = 8 ∷ []; cache_map = 3 ∷ [] }

abbrev works : Disk
works = record { sites_map = true; pools = true; site_state = true; cache_map = true }

-- nginx refuses the new pools only.
abbrev new_refused : Answers
new_refused = record {
  disk = works;
  validate = λ f. true;
  reload_php = λ f. true;
  reload_nginx = λ f. not (text_eq f.pools (9 ∷ []));
  verify_ports = λ pools. true;
  external = none;
}

-- The file of the pools cannot be written again.
abbrev stuck : Answers
stuck = record new_refused { disk = record works { pools = false } }

stuck-failed : (apply_site_state_transaction before (some wanted) new_refused stuck).1 ≡ failed
unfolding apply_site_state_transaction attempt undone write write_pools write_sites_map restore
    restored_file activate apply_external rolls_back text_eq
stuck-failed = refl
