-- ===== src/Jobs/History.antt =====
-- What holds of the job manager after any history of calls.
use hosting_control_panel.Common.{
  mem-All, ℕ, ◌≡◌, ◌≢◌, ◌⊎◌, sym, subst, ◌∙◌, true, false, List, [], ◌∷◌, All, inl, inr, Memᴰ, Text,
  map, arith,
}
use hosting_control_panel.Jobs.Job.{Status, is_terminal, Job, Manager, Distinct, Absent}
use hosting_control_panel.Jobs.Store.{persist}
use hosting_control_panel.Jobs.Queue.{job_queued, launchable, run_queue}
use hosting_control_panel.Jobs.Create.{boot, recover_job, retry_input, retry_inverts}
use hosting_control_panel.Jobs.Step.{
  Step, registered, was_started, created, retried, was_cancelled, microtask, updated, finished,
  failed as handler_failed, settled, Reach, booted, next,
}
use hosting_control_panel.Jobs.Progress.{IsKeyed, run_queue_complete}
use hosting_control_panel.Jobs.Keyed.{Distinct-prune, Distinct-unique}
use hosting_control_panel.Jobs.Kept.{Kept}
use hosting_control_panel.Jobs.Reachable.{
  register-Kept, start-Kept, create-Kept, cancel-Kept, update-Kept, finish-Kept, fail-Kept,
  settle-Kept,
}
use hosting_control_panel.Jobs.Life.{run_queue-Kept}
use hosting_control_panel.Jobs.Lifecycle.{follows, CameFrom, IsNew}

Step-Kept : {m m' : Manager} → Step m m' → IsKeyed m → Kept m m'
Step-Kept {m} (registered t e) v = register-Kept m t v e
Step-Kept {m} (was_started types standby now) v = start-Kept m types standby now v
Step-Kept {m} (created id now input p f e) v = create-Kept m id now input v f e
Step-Kept {m} (retried id operator new_id now p f e) v =
    let (job, found, ended, again, made) = retry_inverts m id operator new_id now e in
    create-Kept m new_id now (retry_input job operator) v f made
Step-Kept {m} (was_cancelled id now p e) v = cancel-Kept m id now v e
Step-Kept {m} (microtask clock e) v = run_queue-Kept clock m v
Step-Kept {m} (updated id job p e) v = update-Kept m id job p v e
Step-Kept {m} (finished id job r now e s) v = finish-Kept m id job r now v e s
Step-Kept {m} (handler_failed id job x now e s) v = fail-Kept m id job x now v e s
Step-Kept {m} (settled id) v = settle-Kept m id v

recover_id : (now : ℕ) (j : Job) → (recover_job now j).id ≡ j.id
unfolding recover_job
recover_id now j = ground arith

Distinct-recover : (now : ℕ) (xs : List Job) → Distinct xs → Distinct (map (recover_job now) xs)
Distinct-recover now [] d = tt
Distinct-recover now (x ∷ xs) d = (
  subst (λ i. All (λ (k : Job). k.id ≢ i) (map (recover_job now) xs)) (sym (recover_id now x))
      (others xs d.0),
  Distinct-recover now xs d.1,
)
  where
    others :
        (ys : List Job)
        → All (λ k. k.id ≢ x.id) ys
        → All (λ k. k.id ≢ x.id) (map (recover_job now) ys)
    others [] h = tt
    others (y ∷ ys) h = ((λ e. h.0 (sym (recover_id now y) ∙ e)), others ys h.1)

nobody_runs : (xs : List Job) → All (λ j. job_queued j ≡ true → Absent [] j) xs
nobody_runs [] = tt
nobody_runs (x ∷ xs) = ((λ q. tt), nobody_runs xs)

-- In every reachable state no two jobs have one id, and no queued job is among the running ones.
pub Reach-IsKeyed : {m : Manager} → Reach m → IsKeyed m
unfolding boot persist
Reach-IsKeyed (booted now limit loaded d) = record {
  distinct = Distinct-prune _ _ (Distinct-recover now loaded d);
  idle = nobody_runs _;
}
Reach-IsKeyed (next r s) = (Step-Kept s (Reach-IsKeyed r)).keyed

-- Over any step from a reachable state, each job in the list afterwards is new and queued, or was
-- there under the same id, in the same status or in one that the diagram lets follow it.
pub Step-lifecycle :
    {m m' : Manager} → Reach m → Step m m' → All (λ k. IsNew m.jobs k ⊎ CameFrom m.jobs k) m'.jobs
Step-lifecycle r s = (Step-Kept s (Reach-IsKeyed r)).lives

terminal_stays : (s t : Status) → is_terminal s ≡ true → follows s t ≡ true → t ≡ s
terminal_stays s t h f = ground arith

-- A job that has ended never changes its status again, whatever step is made: while it is kept in
-- the list, the job under its id has the status that it ended with.
pub terminal_final :
    {m m' : Manager} (j k : Job)
    → Reach m
    → Step m m'
    → Memᴰ j m.jobs
    → is_terminal j.status ≡ true
    → Memᴰ k m'.jobs
    → k.id ≡ j.id
    → k.status ≡ j.status
terminal_final {m} {m'} j k r s here ended after same =
    settle (mem-All (λ x. IsNew m.jobs x ⊎ CameFrom m.jobs x) m'.jobs after (Step-lifecycle r s))
  where
    settle : IsNew m.jobs k ⊎ CameFrom m.jobs k → k.status ≡ j.status
    settle (inl (waits, others)) = absurd (mem-All (λ x. x.id ≢ k.id) m.jobs here others (sym same))
    settle (inr (i, there, e, arrow)) =
        let i-is-j : i ≡ j =
          Distinct-unique m.jobs j i (Reach-IsKeyed r).distinct here there (sym e ∙ same) in
        terminal_stays j.status k.status ended
          (subst (λ x. follows x.status k.status ≡ true) i-is-j arrow)

-- After the microtask, from any reachable state, each job that is still queued cannot be launched:
-- it has no handler, its type is not allowed, or it conflicts with a running job.
pub Reach-run_queue_complete :
    {m : Manager} (clock : Text → ℕ)
    → Reach m
    → All
        (λ j. job_queued j ≡ true → launchable (run_queue clock m) j ≡ false)
        (run_queue clock m).jobs
Reach-run_queue_complete {m} clock r = run_queue_complete clock m (Reach-IsKeyed r)
