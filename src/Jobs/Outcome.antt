-- ===== src/Jobs/Outcome.antt =====
-- How a job ends when its handler's promise is fulfilled.
use hosting_control_panel.Common.{◌≡◌, ◌≢◌, ◌<◌, ◌⊎◌, false, none, some, arith}
use hosting_control_panel.Jobs.Redact.{bounded_text}
use hosting_control_panel.Jobs.Job.{cancelling, succeeded, partially_succeeded, cancelled, Job}
use hosting_control_panel.Jobs.Run.{
  HandlerResult, given, terminal_status, count_failed, count_succeeded, safe_items, final_status,
}

-- Where the handler names no status of its own: a job is reported as succeeded only if none of its
-- items failed and the handler did not answer `ok: false`; as partially succeeded only if some item
-- failed and, with `ok: false`, some item did not; as cancelled only if the cancellation was
-- requested and fewer steps were done than planned.
pub final_status_means :
    (job : Job) (r : HandlerResult)
    → terminal_status (bounded_text r.status 2000) ≡ none
    → (final_status job r ≡ succeeded
        → (count_failed (safe_items r.results) ≡ 0) × (r.ok_flag ≢ some false))
      × (final_status job r ≡ partially_succeeded
          → (0 < count_failed (safe_items r.results))
            × ((0 < count_succeeded (safe_items r.results)) ⊎ (r.ok_flag ≢ some false)))
      × (final_status job r ≡ cancelled
          → (job.status ≡ cancelling) × (given r.completed job.completed < given r.total job.total))
unfolding final_status
final_status_means job r plain = ground arith
