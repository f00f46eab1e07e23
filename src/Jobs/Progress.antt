-- ===== src/Jobs/Progress.antt =====
-- The microtask of `schedule` launches every job that it can.
use hosting_control_panel.Common.{
  ℕ, suc, ◌≡◌, ◌≢◌, ◌⊎◌, ◌∙◌, refl, sym, ap, Bool, true, false, List, [], ◌∷◌, is_empty, select,
  All, All-select, Bool-cases, inl, inr, Memᴰ, Text, text_eq, text_eq_sound, text_eq_ne, arith,
}
use hosting_control_panel.Jobs.Job.{Distinct, Absent, Job, Active, Manager}
use hosting_control_panel.Jobs.Store.{persist, save, change, change_job, emit}
use hosting_control_panel.Jobs.Queue.{
  blockers, launchable, set_running, active_of, mark_running, launch, pass, passes, ends_within,
  job_queued, run_queue,
}
use hosting_control_panel.Jobs.Prune.{All-prune}
use hosting_control_panel.Jobs.Exclusion.{All-set_running}

-- The ids of the jobs are distinct, and no queued job is among the running ones.
pub record IsKeyed (m : Manager) : Type 0 where
  pub distinct : Distinct m.jobs
  pub idle : All (λ j. job_queued j ≡ true → Absent m.running j) m.jobs

select-set_running :
    (p : Active → Bool) (a : Active) (active : List Active)
    → All (λ b. b.id ≢ a.id) active
    → is_empty (select p active) ≡ false
    → is_empty (select p (set_running a active)) ≡ false
unfolding select set_running
select-set_running p a [] h e = cc
select-set_running p a (b ∷ bs) h e =
    ground (arith, text_eq_sound b.id a.id, select-set_running p a bs h.1)

blockers-set_running :
    (j : Job) (a : Active) (active : List Active)
    → All (λ b. b.id ≢ a.id) active
    → is_empty (blockers active j) ≡ false
    → is_empty (blockers (set_running a active) j) ≡ false
unfolding blockers
blockers-set_running j a active h e = elim (Bool-cases (is_empty j.conflicts)) [
  | inl none ↦ cc (rw none at e)
  | inr wants ↦ rw wants (select-set_running _ a active h (rw wants at e))
]

-- A job that cannot be launched cannot be launched after another one was.
launchable-launch :
    (m : Manager) (now : ℕ) (first j : Job)
    → Absent m.running first
    → launchable m j ≡ false
    → launchable (launch m now first) j ≡ false
unfolding launchable launch save persist emit change
launchable-launch m now first j h e =
    ground (arith, blockers-set_running j (active_of first) m.running h)

-- A queued job is still to be looked at, or cannot be launched.
abbrev Ready : List Job → Manager → Job → Type 0
Ready js m j = job_queued j ≡ true → Memᴰ j js ⊎ (launchable m j ≡ false)

Ready-passed :
    (j : Job) (js : List Job) (m : Manager) (xs : List Job)
    → launchable m j ≡ false
    → All (Ready (j ∷ js) m) xs
    → All (Ready js m) xs
Ready-passed j js m [] e h = tt
Ready-passed j js m (x ∷ xs) e h = ((λ q. settle (h.0 q)), Ready-passed j js m xs e h.1)
  where
    settle : Memᴰ x (j ∷ js) ⊎ (launchable m x ≡ false) → Memᴰ x js ⊎ (launchable m x ≡ false)
    settle (inl (Memᴰ.head same)) = inr (rw same e)
    settle (inl (Memᴰ.tail later)) = inl later
    settle (inr waits) = inr waits

Ready-launched :
    (m : Manager) (now : ℕ) (j : Job) (js : List Job) (xs : List Job)
    → Absent m.running j
    → All (Ready (j ∷ js) m) xs
    → All (Ready js (launch m now j)) (change_job j.id (mark_running now) xs)
unfolding change_job
Ready-launched m now j js [] a h = tt
Ready-launched m now j js (x ∷ xs) a h = elim (Bool-cases (text_eq x.id j.id)) [
  | inl same ↦ rw same ((λ q. cc), Ready-launched m now j js xs a h.1)
  | inr other ↦ rw other ((λ q. settle other (h.0 q)), Ready-launched m now j js xs a h.1)
]
  where
    settle :
        text_eq x.id j.id ≡ false
        → Memᴰ x (j ∷ js) ⊎ (launchable m x ≡ false)
        → Memᴰ x js ⊎ (launchable (launch m now j) x ≡ false)
    settle other (inl (Memᴰ.head same)) =
        absurd (text_eq_ne x.id j.id other (ap (λ (y : Job). y.id) same))
    settle other (inl (Memᴰ.tail later)) = inl later
    settle other (inr waits) = inr (launchable-launch m now j x a waits)

pub Absent-launch :
    (m : Manager) (now : ℕ) (j : Job) (js : List Job)
    → All (λ k. k.id ≢ j.id) js
    → All (Absent m.running) js
    → All (Absent (launch m now j).running) js
unfolding launch save persist emit change
Absent-launch m now j [] d h = tt
Absent-launch m now j (k ∷ ks) d h = (
  All-set_running (λ a. a.id ≢ k.id) (active_of j) m.running (λ e. d.0 (sym e)) h.0,
  Absent-launch m now j ks d.1 h.1,
)

pass-Ready :
    (clock : Text → ℕ) (m : Manager) (js : List Job)
    → Distinct js
    → All (Absent m.running) js
    → All (Ready js m) m.jobs
    → All (Ready [] (pass clock m js).0) (pass clock m js).0.jobs
unfolding pass
pass-Ready clock m [] d a h = h
pass-Ready clock m (j ∷ js) d a h = elim (Bool-cases (launchable m j)) [
  | inl runs ↦ rw runs (
      pass-Ready clock (launch m (clock j.id) j) js d.1 (Absent-launch m (clock j.id) j js d.0 a.1)
        (unfold launch save persist change emit in
          All-prune (Ready js (launch m (clock j.id) j)) m.history_limit _
            (Ready-launched m (clock j.id) j js m.jobs a.0 h)))
  | inr waits ↦ rw waits (pass-Ready clock m js d.1 a.1 (Ready-passed j js m m.jobs waits h))
]

pub Distinct-select : (p : Job → Bool) (js : List Job) → Distinct js → Distinct (select p js)
unfolding select
Distinct-select p [] d = tt
Distinct-select p (j ∷ js) d =
    ground (arith, Distinct-select p js d.1, All-select (λ k. k.id ≢ j.id) p js d.0)

Absent-queued :
    (active : List Active) (js : List Job)
    → All (λ j. job_queued j ≡ true → Absent active j) js
    → All (Absent active) (select job_queued js)
unfolding select
Absent-queued active [] h = tt
Absent-queued active (j ∷ js) h = elim (Bool-cases (job_queued j)) [
  | inl q ↦ rw q (h.0 q, Absent-queued active js h.1)
  | inr q ↦ rw q (Absent-queued active js h.1)
]

-- At the start of a pass every queued job is still to be looked at.
Ready-start :
    (m : Manager) (xs js : List Job)
    → ((x : Job) → Memᴰ x (select job_queued xs) → Memᴰ x js)
    → All (Ready js m) xs
unfolding select
Ready-start m [] js sub = tt
Ready-start m (x ∷ xs) js sub = elim (Bool-cases (job_queued x)) [
  | inl q ↦
      let sub' : (y : Job) → Memᴰ y (x ∷ select job_queued xs) → Memᴰ y js = rw q at sub in
      ((λ _. inl (sub' x (Memᴰ.head refl))), Ready-start m xs js (λ y h. sub' y (Memᴰ.tail h)))
  | inr q ↦ ((λ e. cc), Ready-start m xs js (rw q at sub))
]

unfoldable pub one_pass : (clock : Text → ℕ) → Manager → Manager
unfolding pass select
one_pass clock m = (pass clock m (select job_queued m.jobs)).0

pass-All-Ready :
    (clock : Text → ℕ) (m : Manager)
    → IsKeyed m
    → All (Ready [] (one_pass clock m)) (one_pass clock m).jobs
unfolding one_pass
pass-All-Ready clock m v =
    pass-Ready clock m (select job_queued m.jobs) (Distinct-select job_queued m.jobs v.distinct)
      (Absent-queued m.running m.jobs v.idle) (Ready-start m m.jobs _ (λ x h. h))

-- A pass over jobs that cannot be launched changes nothing.
pass-idle :
    (clock : Text → ℕ) (m : Manager) (js : List Job)
    → All (λ j. launchable m j ≡ false) js
    → pass clock m js ≡ (m, false)
unfolding pass
pass-idle clock m [] h = refl
pass-idle clock m (j ∷ js) h = rw (h.0) (pass-idle clock m js h.1)

stuck_of_Ready :
    (m : Manager) (xs : List Job)
    → All (Ready [] m) xs
    → All (λ j. launchable m j ≡ false) (select job_queued xs)
unfolding select
stuck_of_Ready m [] h = tt
stuck_of_Ready m (x ∷ xs) h = elim (Bool-cases (job_queued x)) [
  | inl q ↦ rw q (settle (h.0 q), stuck_of_Ready m xs h.1)
  | inr q ↦ rw q (stuck_of_Ready m xs h.1)
]
  where
    settle : Memᴰ x [] ⊎ (launchable m x ≡ false) → launchable m x ≡ false
    settle (inl none) = elim none [ ]
    settle (inr waits) = waits

passes-idle :
    (clock : Text → ℕ) (n : ℕ) (m : Manager)
    → pass clock m (select job_queued m.jobs) ≡ (m, false)
    → passes clock (suc n) m ≡ m
unfolding passes
passes-idle clock n m e =
    rw (ap (λ (r : Manager × Bool). r.1) e, passes) (ap (λ (r : Manager × Bool). r.0) e)

passes-more :
    (clock : Text → ℕ) (n : ℕ) (m : Manager)
    → (pass clock m (select job_queued m.jobs)).1 ≡ true
    → passes clock (suc n) m ≡ passes clock n (one_pass clock m)
unfolding passes one_pass
passes-more clock n m e = rw (e, passes)

passes-done :
    (clock : Text → ℕ) (n : ℕ) (m : Manager)
    → (pass clock m (select job_queued m.jobs)).1 ≡ false
    → passes clock (suc n) m ≡ one_pass clock m
unfolding passes one_pass
passes-done clock n m e = rw (e, passes)

pub passes-one :
    (clock : Text → ℕ) (n : ℕ) (m : Manager)
    → IsKeyed m
    → passes clock (suc (suc n)) m ≡ one_pass clock m
passes-one clock n m v =
    let next = one_pass clock m in
    let idle =
      pass-idle clock next (select job_queued next.jobs)
        (stuck_of_Ready next next.jobs (pass-All-Ready clock m v)) in
    elim (Bool-cases (pass clock m (select job_queued m.jobs)).1) [
      | inl more ↦ passes-more clock (suc n) m more ∙ passes-idle clock n next idle
      | inr done ↦ passes-done clock (suc n) m done
    ]

waits_of_Ready :
    (m : Manager) (xs : List Job)
    → All (Ready [] m) xs
    → All (λ j. job_queued j ≡ true → launchable (record m { processing = false }) j ≡ false) xs
unfolding launchable
waits_of_Ready m [] h = tt
waits_of_Ready m (x ∷ xs) h = ((λ q. settle (h.0 q)), waits_of_Ready m xs h.1)
  where
    settle : Memᴰ x [] ⊎ (launchable m x ≡ false) → launchable m x ≡ false
    settle (inl none) = elim none [ ]
    settle (inr waits) = waits

ends-idle :
    (clock : Text → ℕ) (n : ℕ) (m : Manager)
    → pass clock m (select job_queued m.jobs) ≡ (m, false)
    → ends_within clock (suc n) m ≡ true
unfolding ends_within
ends-idle clock n m e = rw (ap (λ (r : Manager × Bool). r.1) e, ends_within) refl

ends-more :
    (clock : Text → ℕ) (n : ℕ) (m : Manager)
    → (pass clock m (select job_queued m.jobs)).1 ≡ true
    → ends_within clock (suc n) m ≡ ends_within clock n (one_pass clock m)
unfolding ends_within one_pass
ends-more clock n m e = rw (e, ends_within)

ends-done :
    (clock : Text → ℕ) (n : ℕ) (m : Manager)
    → (pass clock m (select job_queued m.jobs)).1 ≡ false
    → ends_within clock (suc n) m ≡ true
unfolding ends_within
ends-done clock n m e = rw (e, ends_within) refl

-- From a state whose jobs have distinct ids and whose queued jobs are not running, the loop ends by its
-- own test within two passes, and fuel for more passes gives the same state.
pub passes_two :
    (clock : Text → ℕ) (n : ℕ) (m : Manager)
    → IsKeyed m
    → (ends_within clock 2 m ≡ true) × (passes clock (suc (suc n)) m ≡ passes clock 2 m)
passes_two clock n m v = (ends, passes-one clock n m v ∙ sym (passes-one clock 0 m v))
  where
    ends : ends_within clock 2 m ≡ true
    ends = elim (Bool-cases (pass clock m (select job_queued m.jobs)).1) [
      | inl more ↦
          ends-more clock 1 m more
          ∙ ends-idle clock 0 (one_pass clock m) (
              pass-idle clock (one_pass clock m) (select job_queued (one_pass clock m).jobs) (
                stuck_of_Ready (one_pass clock m) (one_pass clock m).jobs
                  (pass-All-Ready clock m v)))
      | inr done ↦ ends-done clock 1 m done
    ]

-- From a state whose jobs have distinct ids and whose queued jobs are not running, the microtask
-- ends with every job that is still queued unable to start: it has no handler, is not allowed, or
-- conflicts with a job that runs.
pub run_queue_complete :
    (clock : Text → ℕ) (m : Manager)
    → IsKeyed m
    → All
        (λ j. job_queued j ≡ true → launchable (run_queue clock m) j ≡ false)
        (run_queue clock m).jobs
unfolding run_queue
run_queue_complete clock m v =
    rw (passes-one clock 0 m v)
      (waits_of_Ready (one_pass clock m) (one_pass clock m).jobs (pass-All-Ready clock m v))
