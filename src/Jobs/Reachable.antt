-- ===== src/Jobs/Reachable.antt =====
-- The operations of the job manager keep its list of jobs in order.
use hosting_control_panel.Common.{
  ℕ, ◌≡◌, ◌≢◌, ◌⊎◌, refl, sym, ap, subst, ◌∙◌, Bool, true, false, not, ◌&&◌, Option, none,
  Option-cases, some, List, [], ◌∷◌, ◌++◌, map, any, All, All-map, All-append, All-select,
  Bool-cases, inl, inr, Memᴰ, Text, includes, text_eq, arith,
}
use hosting_control_panel.Jobs.Job.{
  Status, queued, running, cancelling, cancelled, is_terminal, is_queued, Job, Active, Manager,
  PublicJob, ok, is_active, ◌>>=◌, Distinct, Absent,
}
use hosting_control_panel.Jobs.Store.{prune, persist, save, change, emit, get}
use hosting_control_panel.Jobs.Queue.{job_queued, schedule}
use hosting_control_panel.Jobs.Create.{
  CreateInput, register, start, create, new_job, suppress, suppressed, suppress_all,
}
use hosting_control_panel.Jobs.Run.{
  Patch, HandlerResult, Rejection, job_cancelled, thrown, is_started, final_status, terminal_status,
  update, patched, finish, finished, fail, rejected, settle, delete_running, cancel,
  cancelled_early, cancel_requested,
}
use hosting_control_panel.Jobs.Step.{Fresh}
use hosting_control_panel.Jobs.Prune.{All-prune}
use hosting_control_panel.Jobs.Progress.{IsKeyed}
use hosting_control_panel.Jobs.Exclusion.{register-running, create-running, start-running}
use hosting_control_panel.Jobs.Keyed.{Distinct-prune}
use hosting_control_panel.Jobs.Kept.{Kept, edited, unchanged, saved}
use hosting_control_panel.Jobs.Lifecycle.{follows, follows_refl, CameFrom, IsNew, CameFrom-self}

final_status-terminal : (job : Job) (r : HandlerResult) → is_terminal (final_status job r) ≡ true
unfolding final_status terminal_status
final_status-terminal job r = ground arith

ended : (s t : Status) → is_started s ≡ true → is_terminal t ≡ true → follows s t ≡ true
ended running t h e = ground arith
ended cancelling t h e = ground arith
ended _ t h e = cc

module _ (f : Job → Job) (keeps : (j : Job) → (f j).id ≡ j.id)
    (arrow : (j : Job) → follows j.status (f j).status ≡ true) where
  CameFrom-map :
      (xs jobs : List Job) → ((x : Job) → Memᴰ x xs → Memᴰ x jobs) → All (CameFrom jobs) (map f xs)
  CameFrom-map [] jobs sub = tt
  CameFrom-map (x ∷ xs) jobs sub = (
    (x, sub x (Memᴰ.head refl), keeps x, arrow x),
    CameFrom-map xs jobs (λ y h. sub y (Memᴰ.tail h)),
  )

  All-map-id : (i : Text) (xs : List Job) → All (λ k. k.id ≢ i) xs → All (λ k. k.id ≢ i) (map f xs)
  All-map-id i [] h = tt
  All-map-id i (x ∷ xs) h = ((λ e. h.0 (sym (keeps x) ∙ e)), All-map-id i xs h.1)

  pub Distinct-map : (xs : List Job) → Distinct xs → Distinct (map f xs)
  Distinct-map [] d = tt
  Distinct-map (x ∷ xs) d = (
    subst (λ i. All (λ (k : Job). k.id ≢ i) (map f xs)) (sym (keeps x)) (All-map-id x.id xs d.0),
    Distinct-map xs d.1,
  )

suppress_id : (types : List Text) (now : ℕ) (j : Job) → (suppress types now j).id ≡ j.id
suppress_id types now j = ground arith

suppress_arrow :
    (types : List Text) (now : ℕ) (j : Job) → follows j.status (suppress types now j).status ≡ true
suppress_arrow types now j = elim (Bool-cases (job_queued j && not (includes j.job_type types))) [
  | inl drops ↦ rw drops (queued_drops j.status (ground arith))
  | inr stays ↦ rw stays (follows_refl j.status)
]
  where
    queued_drops : (s : Status) → is_queued s ≡ true → follows s cancelled ≡ true
    queued_drops queued q = refl
    queued_drops _ q = cc

suppress_all-Kept :
    (m m' : Manager) (types : Option (List Text)) (standby : Bool) (now : ℕ)
    → IsKeyed m
    → m'.jobs ≡ (suppress_all types standby now (record m { allowlist = types })).jobs
    → m'.running ≡ m.running
    → Kept m m'
unfolding persist
suppress_all-Kept m m' none standby now v e r = unchanged m m' v e (λ j a. rw r a)
suppress_all-Kept m m' (some types) false now v e r = unchanged m m' v e (λ j a. rw r a)
suppress_all-Kept m m' (some types) true now v e r =
    elim (Bool-cases (any (suppressed types) m.jobs)) [
      | inl changes ↦
          let e' : m'.jobs ≡ prune m.history_limit (map (suppress types now) m.jobs) =
            rw changes at e in
          edited m m' v
            (rw e' (
              Distinct-prune m.history_limit _ (
                Distinct-map (suppress types now) (suppress_id types now) (suppress_arrow types now)
                  m.jobs v.distinct)))
            (rw e' (
              All-prune (CameFrom m.jobs) m.history_limit _ (
                CameFrom-map (suppress types now) (suppress_id types now) (suppress_arrow types now)
                  m.jobs m.jobs (λ x h. h))))
            (λ j a. rw r a)
      | inr same ↦ unchanged m m' v (rw same at e) (λ j a. rw r a)
    ]

pub start-Kept :
    (m : Manager) (types : Option (List Text)) (standby : Bool) (now : ℕ)
    → IsKeyed m
    → Kept m (start m types standby now)
unfolding start schedule
start-Kept m types standby now v =
    suppress_all-Kept m (start m types standby now) types standby now v (ground arith)
      (start-running m types standby now)

pub register-Kept :
    (m : Manager) (t : Text) {m' : Manager} → IsKeyed m → register m t ≡ ok m' → Kept m m'
unfolding register schedule
register-Kept m t {m'} v e = unchanged m m' v (ground arith) (λ j a. rw (register-running m t e) a)

pub update-Kept :
    (m : Manager) (id : Text) (job : Job) (p : Patch)
    → IsKeyed m
    → get m id ≡ some job
    → Kept m (update m job p)
unfolding update save change persist emit
update-Kept m id job p v e = elim (Bool-cases (is_active job.status)) [
  | inl lives ↦
      rw lives (saved m _ id job (patched p) v e (λ j. refl) (follows_refl job.status) refl refl)
  | inr ended ↦ rw ended (unchanged m m v refl (λ j a. a))
]

pub finish-Kept :
    (m : Manager) (id : Text) (job : Job) (r : HandlerResult) (now : ℕ)
    → IsKeyed m
    → get m id ≡ some job
    → is_started job.status ≡ true
    → Kept m (finish m job r now)
unfolding finish finished change persist
finish-Kept m id job r now v e s =
    saved m (finish m job r now) id job (finished r now) v e (λ j. refl)
      (ended job.status _ s (final_status-terminal job r)) refl refl

rejected_id : (e : Rejection) (now : ℕ) (j : Job) → (rejected e now j).id ≡ j.id
rejected_id (job_cancelled t) now j = refl
rejected_id (thrown t) now j = refl

rejected-terminal :
    (e : Rejection) (now : ℕ) (j : Job) → is_terminal (rejected e now j).status ≡ true
rejected-terminal (job_cancelled t) now j = refl
rejected-terminal (thrown t) now j = refl

pub fail-Kept :
    (m : Manager) (id : Text) (job : Job) (x : Rejection) (now : ℕ)
    → IsKeyed m
    → get m id ≡ some job
    → is_started job.status ≡ true
    → Kept m (fail m job x now)
unfolding fail change persist
fail-Kept m id job x now v e s =
    saved m (fail m job x now) id job (rejected x now) v e (rejected_id x now)
      (ended job.status _ s (rejected-terminal x now job)) refl refl

settle-running : (m : Manager) (id : Text) → (settle m id).running ≡ delete_running id m.running
unfolding settle emit schedule
settle-running m id = ground arith

pub settle-Kept : (m : Manager) (id : Text) → IsKeyed m → Kept m (settle m id)
unfolding settle delete_running schedule emit
settle-Kept m id v = unchanged m (settle m id) v (ground arith) (λ j a.
    rw (settle-running m id)
      (All-select (λ (b : Active). b.id ≢ j.id) (λ b. not (text_eq b.id id)) m.running a))

cancel_inverts :
    (m : Manager) (id : Text) (now : ℕ) {m' : Manager} {p : PublicJob}
    → cancel m id now ≡ ok (m', p)
    → (job : Job) × (get m id ≡ some job)
      × (((job.status ≡ queued) × (m' ≡ save job.id (cancelled_early now) m))
          ⊎ ((is_started job.status ≡ true) × (m' ≡ save job.id cancel_requested m)))
unfolding cancel
cancel_inverts m id now e = elim (Option-cases (get m id)) [
  | inl missing ↦ absurd (cc (rw (missing, ◌>>=◌) at e))
  | inr (job, found) ↦ (job, found, ground arith)
]

asked : (s : Status) → is_started s ≡ true → follows s cancelling ≡ true
asked running h = refl
asked cancelling h = refl
asked _ h = cc

pub cancel-Kept :
    (m : Manager) (id : Text) (now : ℕ) {m' : Manager} {p : PublicJob}
    → IsKeyed m
    → cancel m id now ≡ ok (m', p)
    → Kept m m'
unfolding save change persist emit
cancel-Kept m id now {m'} v e =
    let (job, found, cases) = cancel_inverts m id now e in
    elim cases [
      | inl (q, made) ↦
          saved m m' id job (cancelled_early now) v found (λ j. refl) (rw q)
            (ap (λ (n : Manager). n.jobs) made) (ap (λ (n : Manager). n.running) made)
      | inr (s, made) ↦
          saved m m' id job cancel_requested v found (λ j. refl) (asked job.status s)
            (ap (λ (n : Manager). n.jobs) made) (ap (λ (n : Manager). n.running) made)
    ]

create_inverts :
    (m : Manager) (id : Text) (now : ℕ) (input : CreateInput) {m' : Manager} {p : PublicJob}
    → create m id now input ≡ ok (m', p)
    → (m'.jobs ≡ m.jobs) ⊎ (m'.jobs ≡ prune m.history_limit (m.jobs ++ new_job id now input ∷ []))
unfolding create persist emit schedule
create_inverts m id now input e = ground arith

Distinct-snoc :
    (xs : List Job) (j : Job) → Distinct xs → All (λ k. k.id ≢ j.id) xs → Distinct (xs ++ j ∷ [])
Distinct-snoc [] j d h = (tt, tt)
Distinct-snoc (x ∷ xs) j d h = (
  All-append (λ k. k.id ≢ x.id) xs (j ∷ []) d.0 ((λ e. h.0 (sym e)), tt),
  Distinct-snoc xs j d.1 h.1,
)

pub create-Kept :
    (m : Manager) (id : Text) (now : ℕ) (input : CreateInput) {m' : Manager} {p : PublicJob}
    → IsKeyed m
    → Fresh id m
    → create m id now input ≡ ok (m', p)
    → Kept m m'
unfolding new_job
create-Kept m id now input {m'} v fresh e = elim (create_inverts m id now input e) [
  | inl same ↦ unchanged m m' v same (λ j a. rw (create-running m id now input e) a)
  | inr added ↦
      let job = new_job id now input in
      record {
        keyed = record {
          distinct =
              rw added
                (Distinct-prune m.history_limit _ (Distinct-snoc m.jobs job v.distinct fresh.0));
          idle =
              rw (added, create-running m id now input e)
                (All-prune (λ j. job_queued j ≡ true → Absent m.running j) m.history_limit _
                  (All-append (λ j. job_queued j ≡ true → Absent m.running j) m.jobs (job ∷ [])
                    v.idle ((λ q. fresh.1), tt)));
        };
        lives = rw added (
            All-prune (λ k. IsNew m.jobs k ⊎ CameFrom m.jobs k) m.history_limit _
              (All-append (λ k. IsNew m.jobs k ⊎ CameFrom m.jobs k) m.jobs (job ∷ [])
                (All-map (λ k. IsNew m.jobs k ⊎ CameFrom m.jobs k) m.jobs (λ k c. inr c)
                  (CameFrom-self m.jobs))
                (inl (refl, fresh.0), tt)));
      }
]
