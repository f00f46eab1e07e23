-- ===== src/SiteState/Parts.antt =====
-- What the writes, the restoration and the steps of
-- ui-manager/app/lib/site-state-transaction.js do.
use hosting_control_panel.Common.{
  ◌≡◌, ◌≢◌, ◌⊎◌, refl, sym, ap, subst, ◌∙◌, Bool, true, false, Option, none, some, Text, text_eq,
  text_eq_sound, Bool-cases, Option-cases, and_both, inl, inr, arith,
}
use hosting_control_panel.SiteState.Transaction.{
  Files, Rendered, Disk, Answers, Progress, write_sites_map, write_pools, write, restored_file,
  restore, activate, apply_external, rolls_back, pools_changed, cache_changed, attempt, undone,
}

-- The files that hold what was rendered.
abbrev pub written_files : Rendered → Files
written_files r = record {
  sites_map = r.sites_map;
  pools = r.pools;
  site_state = some r.site_state;
  cache_map = some r.cache_map;
}

write_sites_map-whole :
    (d : Disk) (r : Rendered) (f : Files)
    → (write_sites_map d r f).1 ≡ true
    → (write_sites_map d r f).0 ≡ record f { sites_map = r.sites_map }
unfolding write_sites_map
write_sites_map-whole d r f e = elim (Bool-cases (text_eq r.sites_map f.sites_map)) [
  | inl same ↦ rw same (
      ap (λ (t : Text). record f { sites_map = t })
        (sym (text_eq_sound r.sites_map f.sites_map same)))
  | inr new ↦ elim (Bool-cases (d.sites_map)) [
    | inl works ↦ rw (new, works) refl
    | inr fails ↦ absurd (ground (arith, new, fails, e))
  ]
]

write_pools-whole :
    (d : Disk) (r : Rendered) (f : Files)
    → (write_pools d r f).1 ≡ true
    → (write_pools d r f).0 ≡ record f { sites_map = r.sites_map; pools = r.pools }
unfolding write_pools
write_pools-whole d r f e = elim (Bool-cases (text_eq r.pools f.pools)) [
  | inl same ↦ rw same (
      write_sites_map-whole d r f (rw same at e)
      ∙ ap (λ (t : Text). record f { sites_map = r.sites_map; pools = t })
          (sym (text_eq_sound r.pools f.pools same)))
  | inr new ↦ elim (Bool-cases (d.pools)) [
    | inl works ↦
        rw (new, works)
          (write_sites_map-whole d r (record f { pools = r.pools }) (rw (new, works) at e))
    | inr fails ↦ absurd (ground (arith, new, fails, e))
  ]
]

-- Writes that all succeed leave the rendered contents in the four files.
write-whole :
    (d : Disk) (f : Files) (r : Rendered)
    → (write d f r).1 ≡ true
    → (write d f r).0 ≡ written_files r
unfolding write
write-whole d f r e = elim (Bool-cases (d.site_state)) [
  | inr fails ↦ absurd (ground (arith, fails, e))
  | inl works ↦ elim (Bool-cases (d.cache_map)) [
    | inr fails ↦ absurd (ground (arith, works, fails, e))
    | inl too ↦
        rw (works, too)
          (write_pools-whole d r
            (record f { site_state = some r.site_state; cache_map = some r.cache_map })
            (rw (works, too) at e))
  ]
]

restored_file-same :
    (works : Bool) (old now : Option Text) {o : Option Text}
    → restored_file works old now ≡ some o
    → o ≡ old
unfolding restored_file
restored_file-same true (some c) now e = cc
restored_file-same false (some c) now e = absurd (cc (e))
restored_file-same true none (some c) e = cc
restored_file-same false none (some c) e = absurd (cc (e))
restored_file-same works none none e = cc

-- A restoration that succeeds leaves the files of the snapshot.
restore-whole :
    (d : Disk) (snap f : Files) → (restore d snap f).1 ≡ true → (restore d snap f).0 ≡ snap
unfolding restore
restore-whole d snap f e = elim (Bool-cases (d.sites_map)) [
  | inr fails ↦ absurd (ground (arith, fails, e))
  | inl sites ↦ elim (Bool-cases (d.pools)) [
    | inr fails ↦ absurd (ground (arith, sites, fails, e))
    | inl pools ↦ elim (Option-cases (restored_file d.site_state snap.site_state f.site_state)) [
      | inl fails ↦ absurd (ground (arith, sites, pools, fails, e))
      | inr (state, there) ↦
          elim (Option-cases (restored_file d.cache_map snap.cache_map f.cache_map)) [
            | inl fails ↦ absurd (ground (arith, sites, pools, there, fails, e))
            | inr (cache, here) ↦
                rw (sites, pools, there, here)
                  (ap (λ (o : Option Text). record snap { site_state = o; cache_map = cache })
                      (restored_file-same d.site_state snap.site_state f.site_state there)
                    ∙ ap (λ (o : Option Text). record snap { cache_map = o })
                        (restored_file-same d.cache_map snap.cache_map f.cache_map here))
          ]
    ]
  ]
]

pub attempt-written :
    (f : Files) (r : Rendered) (a : Answers)
    → (attempt f r a).1.done ≡ true
    → (write a.disk f r).1 ≡ true
unfolding attempt
attempt-written f r a e = elim (Bool-cases (write a.disk f r).1) [
  | inl w ↦ w
  | inr stop ↦ absurd (ground (arith, stop, e))
]

pub attempt-files :
    (f : Files) (r : Rendered) (a : Answers)
    → (write a.disk f r).1 ≡ true
    → (attempt f r a).0 ≡ written_files r
unfolding attempt
attempt-files f r a w = rw w (write-whole a.disk f r w)

pub attempt-steps :
    (f : Files) (r : Rendered) (a : Answers)
    → (write a.disk f r).1 ≡ true
    → (attempt f r a).1
      ≡ activate (pools_changed f r) (cache_changed f r) a (written_files r) r.pools
unfolding attempt
attempt-steps f r a w = rw w (
    ap (λ (x : Files). activate (pools_changed f r) (cache_changed f r) a x r.pools)
      (write-whole a.disk f r w))

pub undone-true :
    (snap f : Files) (p : Progress) (undo : Answers)
    → (undone snap f p undo).1 ≡ true
    → ((undone snap f p undo).0 ≡ snap) × (rolls_back p undo snap snap.pools ≡ true)
unfolding undone
undone-true snap f p undo e =
    let files = (restore undo.disk snap f).0 in
    let (whole, steps) =
      and_both (restore undo.disk snap f).1 (rolls_back p undo files snap.pools) e in
    let same = restore-whole undo.disk snap f whole in
    (same, subst (λ (x : Files). rolls_back p undo x snap.pools ≡ true) same steps)

pub undone-false :
    (snap f : Files) (p : Progress) (undo : Answers)
    → (undone snap f p undo).1 ≡ false
    → ((restore undo.disk snap f).1 ≡ false) ⊎ (rolls_back p undo snap snap.pools ≡ false)
unfolding undone
undone-false snap f p undo e = elim (Bool-cases (restore undo.disk snap f).1) [
  | inr fails ↦ inl fails
  | inl works ↦ inr (
      subst (λ (x : Files). rolls_back p undo x snap.pools ≡ false)
        (restore-whole undo.disk snap f works) (rw works at e))
]

pub activate-php :
    (caches : Bool) (a : Answers) (f : Files) (pools : Text)
    → a.validate f ≡ true
    → (activate true caches a f pools).php_attempted ≡ true
unfolding activate apply_external
activate-php caches a f pools v = ground (arith, v)

pub activate-nginx :
    (caches : Bool) (a : Answers) (f : Files) (pools : Text)
    → a.validate f ≡ true
    → a.reload_php f ≡ true
    → (activate true caches a f pools).nginx_attempted ≡ true
unfolding activate apply_external
activate-nginx caches a f pools v p = ground (arith, v, p)

pub activate-cache :
    (a : Answers) (f : Files) (pools : Text)
    → a.validate f ≡ true
    → (activate false true a f pools).nginx_attempted ≡ true
unfolding activate apply_external
activate-cache a f pools v = ground (arith, v)

-- What a rollback that passed has checked.
pub rolls_back-checks :
    (p : Progress) (undo : Answers) (f : Files) (pools : Text)
    → rolls_back p undo f pools ≡ true
    → (undo.validate f ≡ true)
      × (p.external_attempted ≡ true → undo.external ≢ some false)
      × (p.php_attempted ≡ true → (undo.reload_php f ≡ true) × (undo.verify_ports pools ≡ true))
      × (p.nginx_attempted ≡ true → undo.reload_nginx f ≡ true)
unfolding rolls_back
rolls_back-checks p undo f pools e = (
  ground (arith, e),
  λ h x. absurd (ground (arith, e, h, x)),
  λ h. (ground (arith, e, h), ground (arith, e, h)),
  λ h. ground (arith, e, h),
)
