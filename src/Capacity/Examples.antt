-- ===== src/Capacity/Examples.antt =====
-- Two pools on a host with room, on which the theorems about the capacity are applied.
use hosting_control_panel.Common.{
  ℕ, ◌*◌, ◌≡◌, ◌≤◌, refl, true, Option, none, some, List, [], ◌∷◌, Text, text, text_eq,
}
use hosting_control_panel.Enforcement.Plan.{to_lower_case}
use hosting_control_panel.Capacity.Summary.{
  Pool, Host, healthy, totals, tally_all, tally, pool_estimate_mb, worker_memory_mb,
  default_memory_mb, bounded_memory_mb, memory_status, cpu_status, status_for_ratio,
  summarize_status, compute_capacity_summary,
}
use hosting_control_panel.Capacity.Health.{healthy_means}

abbrev two_pools : List Pool
two_pools =
    record { tier = text "Low"; max_children = some 5 }
    ∷ record { tier = text "custom"; max_children = some 3 }
    ∷ []

abbrev no_presets : Text → Option ℕ
no_presets tier = none

abbrev roomy : Host
roomy = record {
  cpu_count = some 4;
  memory_total_bytes = some 17179869184;
  php_memory_limit_mb = some 256;
}

roomy-healthy : (compute_capacity_summary two_pools no_presets roomy true).status ≡ healthy
unfolding compute_capacity_summary totals tally_all tally pool_estimate_mb worker_memory_mb
    default_memory_mb bounded_memory_mb memory_status cpu_status status_for_ratio summarize_status
    text text_eq to_lower_case
roomy-healthy = refl

healthy_means_example :
    let t = totals no_presets roomy two_pools in
    (true ≡ true)
    × (t.invalid_pools ≡ 0)
    × ((ram : ℕ) × (roomy.memory_total_bytes ≡ some ram)
        × (t.estimated_memory_bytes * 100 ≤ 50 * ram)
        × (t.ceiling_bytes * 100 ≤ 75 * ram))
    × ((cpus : ℕ) × (roomy.cpu_count ≡ some cpus) × (t.worker_slots ≤ 4 * cpus))
healthy_means_example = healthy_means two_pools no_presets roomy true roomy-healthy
