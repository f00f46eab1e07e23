-- ===== src/Jobs/Kept.antt =====
-- Steps of the job manager that keep the ids distinct and move the jobs along the diagram.
use hosting_control_panel.Common.{
  mem-All, ◌≡◌, ◌≢◌, ◌⊎◌, refl, sym, subst, true, some, List, All, All-map, inr, Text,
}
use hosting_control_panel.Jobs.Job.{
  Status, queued, running, cancelling, is_queued, Job, Active, Manager, Distinct, Absent,
}
use hosting_control_panel.Jobs.Store.{prune, change_job, get}
use hosting_control_panel.Jobs.Queue.{job_queued}
use hosting_control_panel.Jobs.Prune.{All-prune}
use hosting_control_panel.Jobs.Progress.{IsKeyed}
use hosting_control_panel.Jobs.Keyed.{Distinct-prune}
use hosting_control_panel.Jobs.Lifecycle.{
  follows, CameFrom, IsNew, CameFrom-self, CameFrom-change_job, Distinct-change_job, get-mem,
}

-- What a step does to the list of jobs.
pub record Kept (m m' : Manager) : Type 0 where
  pub keyed : IsKeyed m'
  pub lives : All (λ k. IsNew m.jobs k ⊎ CameFrom m.jobs k) m'.jobs

pub queued_before : (s t : Status) → follows s t ≡ true → is_queued t ≡ true → is_queued s ≡ true
queued_before queued t h q = refl
queued_before running queued h q = cc
queued_before running _ h q = cc
queued_before cancelling queued h q = cc
queued_before cancelling _ h q = cc
queued_before _ queued h q = cc
queued_before _ _ h q = cc

pub idle-CameFrom :
    (jobs xs : List Job) (active active' : List Active)
    → ((j : Job) → Absent active j → Absent active' j)
    → All (λ j. job_queued j ≡ true → Absent active j) jobs
    → All (CameFrom jobs) xs
    → All (λ j. job_queued j ≡ true → Absent active' j) xs
idle-CameFrom jobs xs active active' sub idle came =
    All-map (λ j. job_queued j ≡ true → Absent active' j) xs
      (λ k (j, here, same, arrow) q.
        subst (λ i. All (λ (a : Active). a.id ≢ i) active') (sym same)
          (sub j (
            mem-All (λ j. job_queued j ≡ true → Absent active j) jobs here idle
              (queued_before j.status k.status arrow q))))
      came

-- A step that only moves jobs along the diagram, and adds no running one.
pub edited :
    (m m' : Manager)
    → IsKeyed m
    → Distinct m'.jobs
    → All (CameFrom m.jobs) m'.jobs
    → ((j : Job) → Absent m.running j → Absent m'.running j)
    → Kept m m'
edited m m' v d came sub = record {
  keyed = record {
    distinct = d;
    idle = idle-CameFrom m.jobs m'.jobs m.running m'.running sub v.idle came;
  };
  lives = All-map (λ k. IsNew m.jobs k ⊎ CameFrom m.jobs k) m'.jobs (λ k c. inr c) came;
}

pub unchanged :
    (m m' : Manager)
    → IsKeyed m
    → m'.jobs ≡ m.jobs
    → ((j : Job) → Absent m.running j → Absent m'.running j)
    → Kept m m'
unchanged m m' v e sub = edited m m' v (rw e (v.distinct)) (rw e (CameFrom-self m.jobs)) sub

-- The assignments to one job, and `persist()`.
pub saved :
    (m m' : Manager) (id : Text) (job : Job) (f : Job → Job)
    → IsKeyed m
    → get m id ≡ some job
    → ((j : Job) → (f j).id ≡ j.id)
    → follows job.status (f job).status ≡ true
    → m'.jobs ≡ prune m.history_limit (change_job job.id f m.jobs)
    → m'.running ≡ m.running
    → Kept m m'
saved m m' id job f v found keeps arrow e r =
    edited m m' v
      (rw e
        (Distinct-prune m.history_limit _ (Distinct-change_job job.id f m.jobs keeps v.distinct)))
      (rw e (
        All-prune (CameFrom m.jobs) m.history_limit _ (
          CameFrom-change_job m.jobs v.distinct job (get-mem m id found) f keeps arrow m.jobs
            (λ x h. h))))
      (λ j a. rw r a)
