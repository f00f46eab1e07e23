-- ===== src/Jobs/Exclusion.antt =====
-- Jobs that run at the same time share no conflict key.
use hosting_control_panel.Common.{
  ℕ, zero, suc, ◌≡◌, ◌≢◌, ◌∙◌, sym, ap, Bool, true, false, not, ◌&&◌, Option, List, [], ◌∷◌,
  is_empty, select, any, All, All-select, Bool-cases, inl, inr, Text, text_eq, text_eq_sound,
  text_eq_ne, includes, arith,
}
use hosting_control_panel.Jobs.Job.{Job, Active, Manager, PublicJob, ok}
use hosting_control_panel.Jobs.Store.{persist, save, change, emit}
use hosting_control_panel.Jobs.Queue.{
  shares, blockers, launchable, set_running, active_of, launch, pass, passes, job_queued, run_queue,
  schedule,
}
use hosting_control_panel.Jobs.Create.{
  CreateInput, boot, register, start, create, retry, retry_input, retry_inverts,
}
use hosting_control_panel.Jobs.Run.{Patch, delete_running, settle, update, finish, fail, cancel}
use hosting_control_panel.Jobs.Step.{
  Step, registered, was_started, created, retried, was_cancelled, microtask, updated, finished,
  failed, settled, Reach, booted, next,
}

-- No key stands in both lists.
abbrev pub Disjoint : List Text → List Text → Type 0
Disjoint xs ys = (key : Text) → includes key xs ≡ true → includes key ys ≡ true → ⊥

-- Two entries of the map of running jobs: different keys, no common conflict.
abbrev pub Apart : Active → Active → Type 0
Apart a b = (a.id ≢ b.id) × Disjoint a.conflicts b.conflicts

abbrev pub Exclusive : List Active → Type 0
Exclusive [] = Unit
Exclusive (a ∷ rest) = All (Apart a) rest × Exclusive rest

shares-false : (xs ys : List Text) → shares xs ys ≡ false → Disjoint xs ys
unfolding shares includes any
shares-false [] ys h key p q = cc
shares-false (x ∷ xs) ys h key p q = elim (Bool-cases (text_eq key x)) [
  | inl same ↦ let e = text_eq_sound key x same in cc (ap (λ k. includes k ys) e, first, q)
  | inr other ↦ shares-false xs ys (ground arith) key (ground arith) q
]
  where
    first : includes x ys ≡ false
    first = ground arith

none-Disjoint : (xs ys : List Text) → is_empty ys ≡ true → Disjoint xs ys
unfolding includes any
none-Disjoint xs [] e key p q = cc
none-Disjoint xs (y ∷ ys) e key p q = cc

clear_of_none :
    (id : Text) (wanted : List Text) (active : List Active)
    → is_empty wanted ≡ true
    → All (λ a. a.id ≢ id → Disjoint a.conflicts wanted) active
clear_of_none id wanted [] e = tt
clear_of_none id wanted (a ∷ rest) e =
    ((λ n. none-Disjoint a.conflicts wanted e), clear_of_none id wanted rest e)

clear_of :
    (id : Text) (wanted : List Text) (active : List Active)
    → is_empty (select (λ a. not (text_eq a.id id) && shares a.conflicts wanted) active) ≡ true
    → All (λ a. a.id ≢ id → Disjoint a.conflicts wanted) active
unfolding select
clear_of id wanted [] h = tt
clear_of id wanted (a ∷ rest) h = elim (Bool-cases (text_eq a.id id)) [
  | inl same ↦
      ((λ n. absurd (n (text_eq_sound a.id id same))), clear_of id wanted rest (ground arith))
  | inr other ↦ (
    (λ n. shares-false a.conflicts wanted (ground arith)),
    clear_of id wanted rest (ground arith),
  )
]

-- Whom a job with no blockers leaves alone.
blockers_none :
    (active : List Active) (job : Job)
    → is_empty (blockers active job) ≡ true
    → All (λ a. a.id ≢ job.id → Disjoint a.conflicts job.conflicts) active
unfolding blockers
blockers_none active job h = elim (Bool-cases (is_empty job.conflicts)) [
  | inl e ↦ clear_of_none job.id job.conflicts active e
  | inr e ↦ clear_of job.id job.conflicts active (rw e at h)
]

pub All-set_running :
    (P : Active → Type 0) (a : Active) (active : List Active)
    → P a
    → All P active
    → All P (set_running a active)
unfolding set_running
All-set_running P a [] p h = (p, tt)
All-set_running P a (b ∷ bs) p h = ground (arith, All-set_running P a bs p h.1)

Apart-replaced :
    (a b : Active) (active : List Active)
    → b.id ≡ a.id
    → All (λ c. c.id ≢ a.id → Disjoint c.conflicts a.conflicts) active
    → All (Apart b) active
    → All (Apart a) active
Apart-replaced a b [] e clear h = tt
Apart-replaced a b (c ∷ cs) e clear h =
    let other : a.id ≢ c.id = λ same. h.0.0 (e ∙ same) in
    (
      (other, λ key p q. clear.0 (λ same. other (sym same)) key q p),
      Apart-replaced a b cs e clear.1 h.1,
    )

-- The map keeps its keys distinct, and the new entry keeps clear of those under other keys.
Exclusive-set_running :
    (a : Active) (active : List Active)
    → All (λ b. b.id ≢ a.id → Disjoint b.conflicts a.conflicts) active
    → Exclusive active
    → Exclusive (set_running a active)
unfolding set_running
Exclusive-set_running a [] clear h = (tt, tt)
Exclusive-set_running a (b ∷ bs) clear h = elim (Bool-cases (text_eq b.id a.id)) [
  | inl same ↦ rw same (Apart-replaced a b bs (text_eq_sound b.id a.id same) clear.1 h.0, h.1)
  | inr other ↦
      let apart = text_eq_ne b.id a.id other in
      rw other (
        All-set_running (Apart b) a bs (apart, clear.0 apart) h.0,
        Exclusive-set_running a bs clear.1 h.1,
      )
]

launch-Exclusive :
    (m : Manager) (now : ℕ) (job : Job)
    → launchable m job ≡ true
    → Exclusive m.running
    → Exclusive (launch m now job).running
unfolding launch launchable save persist
launch-Exclusive m now job h x =
    Exclusive-set_running (active_of job) m.running (blockers_none m.running job (ground arith)) x

pass-Exclusive :
    (clock : Text → ℕ) (m : Manager) (js : List Job)
    → Exclusive m.running
    → Exclusive (pass clock m js).0.running
unfolding pass
pass-Exclusive clock m [] x = x
pass-Exclusive clock m (j ∷ js) x = elim (Bool-cases (launchable m j)) [
  | inl runs ↦
      rw runs (
        pass-Exclusive clock (launch m (clock j.id) j) js
          (launch-Exclusive m (clock j.id) j runs x))
  | inr waits ↦ rw waits (pass-Exclusive clock m js x)
]

Exclusive-select :
    (p : Active → Bool) (active : List Active) → Exclusive active → Exclusive (select p active)
unfolding select
Exclusive-select p [] h = tt
Exclusive-select p (a ∷ rest) h =
    ground (arith, Exclusive-select p rest h.1, All-select (Apart a) p rest h.0)

passes-Exclusive :
    (clock : Text → ℕ) (fuel : ℕ) (m : Manager)
    → Exclusive m.running
    → Exclusive (passes clock fuel m).running
unfolding passes
passes-Exclusive clock zero m x = x
passes-Exclusive clock (suc fuel) m x =
    let js = select job_queued m.jobs in
    let after = pass-Exclusive clock m js x in
    elim (Bool-cases (pass clock m js).1) [
      | inl more ↦ rw (more, passes) (passes-Exclusive clock fuel (pass clock m js).0 after)
      | inr done ↦ rw (done, passes) after
    ]

pub start-running :
    (m : Manager) (types : Option (List Text)) (standby : Bool) (now : ℕ)
    → (start m types standby now).running ≡ m.running
unfolding start persist schedule
start-running m types standby now = ground arith

pub register-running :
    (m : Manager) (t : Text) {m' : Manager} → register m t ≡ ok m' → m'.running ≡ m.running
unfolding register schedule
register-running m t e = ground arith

pub create-running :
    (m : Manager) (id : Text) (now : ℕ) (input : CreateInput) {m' : Manager} {p : PublicJob}
    → create m id now input ≡ ok (m', p)
    → m'.running ≡ m.running
unfolding create persist emit schedule
create-running m id now input e = ground arith

pub retry-running :
    (m : Manager) (id operator new_id : Text) (now : ℕ) {m' : Manager} {p : PublicJob}
    → retry m id operator new_id now ≡ ok (m', p)
    → m'.running ≡ m.running
retry-running m id operator new_id now e =
    let (job, found, ended, again, made) = retry_inverts m id operator new_id now e in
    create-running m new_id now (retry_input job operator) made

pub cancel-running :
    (m : Manager) (id : Text) (now : ℕ) {m' : Manager} {p : PublicJob}
    → cancel m id now ≡ ok (m', p)
    → m'.running ≡ m.running
unfolding cancel save persist emit change
cancel-running m id now e = ground arith

update-running : (m : Manager) (job : Job) (p : Patch) → (update m job p).running ≡ m.running
unfolding update save persist emit change
update-running m job p = ground arith

settle-Exclusive : (m : Manager) (id : Text) → Exclusive m.running → Exclusive (settle m id).running
unfolding settle delete_running schedule emit
settle-Exclusive m id x = ground (arith, Exclusive-select (λ a. not (text_eq a.id id)) m.running x)

-- Every step keeps the running jobs exclusive.
Step-Exclusive : {m m' : Manager} → Step m m' → Exclusive m.running → Exclusive m'.running
unfolding run_queue finish fail persist change
Step-Exclusive {m} (registered t e) x = rw (register-running m t e) x
Step-Exclusive {m} (was_started types standby now) x = rw (start-running m types standby now) x
Step-Exclusive {m} (created id now input p f e) x = rw (create-running m id now input e) x
Step-Exclusive {m} (retried id operator new_id now p f e) x =
    rw (retry-running m id operator new_id now e) x
Step-Exclusive {m} (was_cancelled id now p e) x = rw (cancel-running m id now e) x
Step-Exclusive {m} (microtask clock e) x = passes-Exclusive clock 2 m x
Step-Exclusive {m} (updated id job p e) x = rw (update-running m job p) x
Step-Exclusive (finished id job r now e s) x = x
Step-Exclusive (failed id job r now e s) x = x
Step-Exclusive {m} (settled id) x = settle-Exclusive m id x

-- In every reachable state, two jobs of the map of running jobs have different ids and no conflict
-- key in common.
pub Reach-Exclusive : {m : Manager} → Reach m → Exclusive m.running
unfolding boot persist
Reach-Exclusive (booted now limit loaded d) = tt
Reach-Exclusive (next r s) = Step-Exclusive s (Reach-Exclusive r)
