-- ===== src/Capacity/Health.antt =====
-- What a healthy report of ui-manager/app/lib/php-fpm-capacity.js means.
use hosting_control_panel.Common.{
  ℕ, ◌+◌, ◌*◌, ◌≡◌, ◌≤◌, refl, Bool, true, false, ◌&&◌, Option, none, some, List, Text, arith, ◌==◌,
  Bool-cases, Option-cases, inl, inr,
}
use native.Mathlib.Nat.{mul-le-mul_left}
use hosting_control_panel.Common.{length, take, ltb, length-take, [], ◌∷◌}
use hosting_control_panel.Enforcement.Plan.{to_lower_case}
use hosting_control_panel.Capacity.Summary.{
  tally, tally_all, start_totals, bounded_memory_mb, worker_memory_mb, default_memory_mb,
  pool_estimate_mb, Pool, Host, Totals, Health, healthy, totals, memory_status, cpu_status,
  status_for_ratio, summarize_status, compute_capacity_summary,
}

memory_status-healthy :
    (complete : Bool) (h : Host) (t : Totals)
    → memory_status complete h t ≡ healthy
    → (complete ≡ true)
      × ((ram : ℕ) × (h.memory_total_bytes ≡ some ram)
          × (t.estimated_memory_bytes * 100 ≤ 50 * ram)
          × (t.ceiling_bytes * 100 ≤ 75 * ram))
unfolding memory_status status_for_ratio
memory_status-healthy false h t e = absurd (cc)
memory_status-healthy true h t e = elim (Option-cases h.memory_total_bytes) [
  | inl missing ↦ absurd (ground (arith, missing, e))
  | inr (ram, known) ↦ elim (Option-cases h.php_memory_limit_mb) [
    | inl missing ↦ absurd (ground (arith, known, missing, e))
    | inr (limit, given) ↦
        (refl, (ram, known, ground (arith, known, given, e), ground (arith, known, given, e)))
  ]
]

cpu_status-healthy :
    (complete : Bool) (h : Host) (t : Totals)
    → cpu_status complete h t ≡ healthy
    → (cpus : ℕ) × (h.cpu_count ≡ some cpus) × (t.worker_slots ≤ 4 * cpus)
unfolding cpu_status
cpu_status-healthy false h t e = absurd (cc)
cpu_status-healthy true h t e = elim (Option-cases h.cpu_count) [
  | inl missing ↦ absurd (ground (arith, missing, e))
  | inr (cpus, known) ↦ (cpus, known, ground (arith, known, e))
]

summarize_status-healthy :
    (memory cpu : Health)
    → summarize_status memory cpu ≡ healthy
    → (memory ≡ healthy) × (cpu ≡ healthy)
unfolding summarize_status
summarize_status-healthy memory cpu e = ground arith

-- A host is reported healthy only if that is known: the pools were read, none is invalid, the estimated
-- memory is at most half of the host's and the ceiling at most three quarters, and there are at most
-- four workers for each processor.
pub healthy_means :
    (pools : List Pool) (presets : Text → Option ℕ) (host : Host) (available : Bool)
    → (compute_capacity_summary pools presets host available).status ≡ healthy
    → let t = totals presets host pools in
      (available ≡ true)
      × (t.invalid_pools ≡ 0)
      × ((ram : ℕ) × (host.memory_total_bytes ≡ some ram)
          × (t.estimated_memory_bytes * 100 ≤ 50 * ram)
          × (t.ceiling_bytes * 100 ≤ 75 * ram))
      × ((cpus : ℕ) × (host.cpu_count ≡ some cpus) × (t.worker_slots ≤ 4 * cpus))
unfolding compute_capacity_summary
healthy_means pools presets host available e =
    let t = totals presets host pools in
    let complete = available && (t.invalid_pools == 0) in
    let (memory, cpu) =
      summarize_status-healthy (memory_status complete host t) (cpu_status complete host t) e in
    let (known, fits) = memory_status-healthy complete host t memory in
    (ground (arith, known), ground (arith, known), fits, cpu_status-healthy complete host t cpu)

bounded_memory_mb-le :
    (o : Option ℕ) (fallback : ℕ) → fallback ≤ 4096 → bounded_memory_mb o fallback ≤ 4096
unfolding bounded_memory_mb
bounded_memory_mb-le none fallback h = h
bounded_memory_mb-le (some n) fallback h = ground (arith, h)

default_memory_mb-le : (tier : Text) → default_memory_mb tier ≤ 4096
unfolding default_memory_mb
default_memory_mb-le tier = ground arith

pool_estimate_mb-le : (p : Pool) (presets : Text → Option ℕ) → (pool_estimate_mb p presets).0 ≤ 4096
unfolding pool_estimate_mb worker_memory_mb
pool_estimate_mb-le p presets = ground (
  arith,
  bounded_memory_mb-le (presets (to_lower_case p.tier)) (default_memory_mb (to_lower_case p.tier))
      (default_memory_mb-le (to_lower_case p.tier)),
)

-- The totals so far, within what so many pools can ask for.
record IsWithin (n : ℕ) (t : Totals) : Type 0 where
  slots : t.worker_slots ≤ n * 10000
  memory : t.estimated_memory_bytes ≤ t.worker_slots * 4294967296

scale_le : (mb children : ℕ) → mb ≤ 4096 → mb * children * 1048576 ≤ children * 4294967296
scale_le mb children h = omega (arith, mul-le-mul_left children h)

tally-IsWithin :
    (presets : Text → Option ℕ) (host : Host) (p : Pool) (n : ℕ) (t : Totals)
    → IsWithin n t
    → IsWithin (n + 1) (tally presets host p t)
unfolding tally
tally-IsWithin presets host p n t w = elim (Option-cases p.max_children) [
  | inl missing ↦ rw missing (record { slots = omega (arith, w.slots); memory = w.memory })
  | inr (children, given) ↦ elim (Bool-cases (ltb 10000 children)) [
    | inl many ↦ rw (given, many) (record { slots = omega (arith, w.slots); memory = w.memory })
    | inr few ↦
        rw (given, few)
          (record {
            slots = ground (arith, w.slots, few);
            memory = omega (
              arith,
              w.memory,
              scale_le (pool_estimate_mb p presets).0 children (pool_estimate_mb-le p presets),
            );
          })
  ]
]

tally_all-IsWithin :
    (presets : Text → Option ℕ) (host : Host) (ps : List Pool) (n : ℕ) (t : Totals)
    → IsWithin n t
    → IsWithin (n + length ps) (tally_all presets host ps t)
unfolding tally_all
tally_all-IsWithin presets host [] n t w = record {
  slots = omega (arith, w.slots);
  memory = w.memory;
}
tally_all-IsWithin presets host (p ∷ ps) n t w =
    let rest =
      tally_all-IsWithin presets host ps (n + 1) (tally presets host p t)
        (tally-IsWithin presets host p n t w) in
    record { slots = omega (arith, rest.slots); memory = rest.memory }

-- However many pools there are and whatever they ask for, the sums stay within 10,000 workers for each
-- of at most 10,000 pools, and 4096 megabytes for each worker.
pub totals_bounded :
    (presets : Text → Option ℕ) (host : Host) (pools : List Pool)
    → let t = totals presets host pools in
      (t.worker_slots ≤ 100000000) × (t.estimated_memory_bytes ≤ t.worker_slots * 4294967296)
unfolding totals
totals_bounded presets host pools =
    let kept = take 10000 pools in
    let w =
      tally_all-IsWithin presets host kept 0 (start_totals pools)
        (record { slots = omega arith; memory = omega arith }) in
    (omega (arith, w.slots, length-take 10000 pools), w.memory)
