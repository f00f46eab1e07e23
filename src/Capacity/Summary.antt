-- ===== src/Capacity/Summary.antt =====
-- `computeCapacitySummary` of ui-manager/app/lib/php-fpm-capacity.js. A ratio is compared by cross
-- multiplication, where the code divides floating-point numbers.
use hosting_control_panel.Common.{
  ℕ, ◌+◌, ◌-◌, ◌*◌, Bool, true, false, ◌&&◌, ◌||◌, Option, none, some, List, [], ◌∷◌, length, take,
  ltb, ◌==◌, if◌then◌else◌, Text, text, text_eq,
}
use hosting_control_panel.Enforcement.Plan.{to_lower_case}

abbrev pub mb_bytes : ℕ
mb_bytes = 1048576

abbrev pub max_pools : ℕ
max_pools = 10000

abbrev pub max_workers : ℕ
max_workers = 10000

-- `boundedMemoryMb(value, fallback)`
unfoldable pub bounded_memory_mb : Option ℕ → ℕ → ℕ
bounded_memory_mb none fallback = fallback
bounded_memory_mb (some n) fallback = if ltb n 32 || ltb 4096 n then fallback else n

-- `DEFAULT_WORKER_MEMORY_MB[tierName]`, or the fallback, of a tier that is no name every object has: under
-- `constructor` and `__proto__` the source finds a value that is no number.
unfoldable pub default_memory_mb : Text → ℕ
unfolding text text_eq
default_memory_mb tier =
    if text_eq tier (text "low")
    then 96
    else if text_eq tier (text "medium")
    then 128
    else if text_eq tier (text "high")
    then 192
    else 256

-- `workerMemoryMbForTier(tier, presets)`; the presets give the number stored for a tier, if any.
unfoldable pub worker_memory_mb : Text → (Text → Option ℕ) → ℕ
unfolding bounded_memory_mb default_memory_mb to_lower_case
worker_memory_mb tier presets =
    let name = to_lower_case tier in bounded_memory_mb (presets name) (default_memory_mb name)

-- A pool: its tier, which is neither `constructor` nor `__proto__`, and `maxChildren` where it is a number that is an integer and not negative.
pub record Pool : Type 0 where
  pub tier : Text
  pub max_children : Option ℕ

abbrev pub is_custom : Pool → Bool
is_custom p = text_eq (to_lower_case p.tier) (text "custom")

-- `poolEstimateMb(pool, presets)`
unfoldable pub pool_estimate_mb : Pool → (Text → Option ℕ) → ℕ × Bool
unfolding text text_eq to_lower_case worker_memory_mb
pool_estimate_mb p presets =
    if is_custom p then (256, true) else (worker_memory_mb p.tier presets, false)

pub data Health : Type 0 where
  healthy warning critical unknown : Health

-- `statusForRatio`, on a ratio of two numbers and limits in hundredths.
unfoldable pub status_for_ratio : ℕ → ℕ → ℕ → ℕ → Health
status_for_ratio warn crit n d =
    if ltb (crit * d) (n * 100)
    then critical
    else if ltb (warn * d) (n * 100)
    then warning
    else healthy

abbrev pub is_critical : Health → Bool
is_critical critical = true
is_critical _ = false

abbrev pub is_warning : Health → Bool
is_warning warning = true
is_warning _ = false

abbrev pub is_unknown : Health → Bool
is_unknown unknown = true
is_unknown _ = false

-- `summarizeStatus(memoryStatus, cpuStatus)`
unfoldable pub summarize_status : Health → Health → Health
summarize_status memory cpu =
    if is_critical memory || is_critical cpu
    then critical
    else if is_warning memory || is_warning cpu
    then warning
    else if is_unknown memory || is_unknown cpu
    then unknown
    else healthy

-- The host's numbers, `none` where they are not positive.
pub record Host : Type 0 where
  pub cpu_count : Option ℕ
  pub memory_total_bytes : Option ℕ
  pub php_memory_limit_mb : Option ℕ

pub record Totals : Type 0 where
  pub worker_slots : ℕ
  pub estimated_memory_bytes : ℕ
  pub ceiling_bytes : ℕ
  pub custom_pools : ℕ
  pub fallback_pools : ℕ
  pub invalid_pools : ℕ

abbrev one_if : Bool → ℕ
one_if true = 1
one_if false = 0

abbrev limit_of : Host → ℕ
limit_of h = elim h.php_memory_limit_mb [ none ↦ 0 | some n ↦ n ]

-- One turn of the loop over the pools.
unfoldable pub tally : (Text → Option ℕ) → Host → Pool → Totals → Totals
unfolding pool_estimate_mb
tally presets host p t = elim p.max_children [
  | none ↦ record t { invalid_pools = t.invalid_pools + 1 }
  | some children ↦
      if ltb max_workers children
      then record t { invalid_pools = t.invalid_pools + 1 }
      else let (mb, fallback) = pool_estimate_mb p presets in
        record t {
          worker_slots = t.worker_slots + children;
          estimated_memory_bytes = t.estimated_memory_bytes + mb * children * mb_bytes;
          ceiling_bytes = t.ceiling_bytes + limit_of host * children * mb_bytes;
          fallback_pools = t.fallback_pools + one_if fallback;
          custom_pools = t.custom_pools + one_if (is_custom p);
        }
]

unfoldable pub tally_all : (Text → Option ℕ) → Host → List Pool → Totals → Totals
unfolding tally
tally_all presets host [] t = t
tally_all presets host (p ∷ ps) t = tally_all presets host ps (tally presets host p t)

-- The totals that the loop starts from: the pools beyond the limit count as invalid.
abbrev pub start_totals : List Pool → Totals
start_totals pools = record {
  worker_slots = 0;
  estimated_memory_bytes = 0;
  ceiling_bytes = 0;
  custom_pools = 0;
  fallback_pools = 0;
  invalid_pools = length pools - max_pools;
}

unfoldable pub totals : (Text → Option ℕ) → Host → List Pool → Totals
unfolding tally_all
totals presets host pools = tally_all presets host (take max_pools pools) (start_totals pools)

unfoldable pub memory_status : Bool → Host → Totals → Health
unfolding status_for_ratio
memory_status false h t = unknown
memory_status true h t = elim h.memory_total_bytes [
  | none ↦ unknown
  | some ram ↦ elim h.php_memory_limit_mb [
    | none ↦ unknown
    | some limit ↦
        let estimated = status_for_ratio 50 75 t.estimated_memory_bytes ram in
        let ceiling =
          if t.ceiling_bytes == 0 then healthy else status_for_ratio 75 90 t.ceiling_bytes ram in
        if is_critical estimated || is_critical ceiling
        then critical
        else if is_warning estimated || is_warning ceiling
        then warning
        else healthy
  ]
]

unfoldable pub cpu_status : Bool → Host → Totals → Health
cpu_status false h t = unknown
cpu_status true h t = elim h.cpu_count [
  | none ↦ unknown
  | some cpus ↦
      if ltb (8 * cpus) t.worker_slots
      then critical
      else if ltb (4 * cpus) t.worker_slots
      then warning
      else healthy
]

-- The part of the answer that says how the host stands.
pub record Summary : Type 0 where
  pub source_available : Bool
  pub invalid_pool_count : ℕ
  pub worker_slots : Option ℕ
  pub estimated_worker_memory_bytes : Option ℕ
  pub memory_status : Health
  pub cpu_status : Health
  pub status : Health
  pub custom_pool_count : Option ℕ
  pub fallback_pool_count : Option ℕ

abbrev when : Bool → ℕ → Option ℕ
when true n = some n
when false n = none

-- `computeCapacitySummary`, on an array of pools.
unfoldable pub compute_capacity_summary : List Pool → (Text → Option ℕ) → Host → Bool → Summary
unfolding totals memory_status cpu_status summarize_status
compute_capacity_summary pools presets host available =
    let t = totals presets host pools in
    let complete = available && (t.invalid_pools == 0) in
    let memory = memory_status complete host t in
    let cpu = cpu_status complete host t in
    record {
      source_available = complete;
      invalid_pool_count = t.invalid_pools;
      worker_slots = when complete t.worker_slots;
      estimated_worker_memory_bytes = when complete t.estimated_memory_bytes;
      memory_status = memory;
      cpu_status = cpu;
      status = summarize_status memory cpu;
      custom_pool_count = when complete t.custom_pools;
      fallback_pool_count = when complete t.fallback_pools;
    }
