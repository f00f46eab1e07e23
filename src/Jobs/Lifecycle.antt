-- ===== src/Jobs/Lifecycle.antt =====
-- The life of a job: which statuses follow which, over every step of the manager.
use hosting_control_panel.Common.{
  ◌≡◌, ◌≢◌, refl, sym, ap, subst, ◌∙◌, Bool, true, false, some, List, [], ◌∷◌, All, All-of_mem,
  All-find, Bool-cases, inl, inr, Memᴰ, Text, text_eq, text_eq_sound, arith,
}
use hosting_control_panel.Jobs.Job.{
  Status, queued, running, cancelling, succeeded, failed, partially_succeeded, cancelled,
  is_terminal, Job, Manager, Distinct,
}
use hosting_control_panel.Jobs.Store.{change_job, get}
use hosting_control_panel.Jobs.Keyed.{Distinct-unique}

-- The diagram of the statuses: what may follow what. Every status may follow itself.
abbrev pub follows : Status → Status → Bool
follows queued queued = true
follows queued running = true
follows queued cancelled = true
follows running running = true
follows running cancelling = true
follows running s = is_terminal s
follows cancelling cancelling = true
follows cancelling s = is_terminal s
follows succeeded succeeded = true
follows failed failed = true
follows partially_succeeded partially_succeeded = true
follows cancelled cancelled = true
follows _ _ = false

-- A job comes from one of these jobs, of the same id, along an arrow of the diagram.
abbrev pub CameFrom : List Job → Job → Type 0
CameFrom jobs k = (j : Job) × Memᴰ j jobs × (k.id ≡ j.id) × (follows j.status k.status ≡ true)

-- A job is new: queued, under an id that none of these jobs has.
abbrev pub IsNew : List Job → Job → Type 0
IsNew jobs k = (k.status ≡ queued) × All (λ j. j.id ≢ k.id) jobs

pub follows_refl : (s : Status) → follows s s ≡ true
follows_refl queued = refl
follows_refl _ = refl

pub CameFrom-self : (jobs : List Job) → All (CameFrom jobs) jobs
CameFrom-self jobs = All-of_mem (CameFrom jobs) jobs (λ j m. (j, m, refl, follows_refl j.status))

pub get-mem : (m : Manager) (id : Text) {j : Job} → get m id ≡ some j → Memᴰ j m.jobs
unfolding get
get-mem m id e =
    All-find (λ j. Memᴰ j m.jobs) (λ j. text_eq j.id id) m.jobs
      (All-of_mem (λ j. Memᴰ j m.jobs) m.jobs (λ j h. h)) e

-- A change of one job object, as the list sees it.
module _ (jobs : List Job) (d : Distinct jobs) (job : Job) (here : Memᴰ job jobs) (f : Job → Job)
    (keeps_id : (j : Job) → (f j).id ≡ j.id)
    (arrow : follows job.status (f job).status ≡ true) where
  pub CameFrom-change_job :
      (xs : List Job)
      → ((x : Job) → Memᴰ x xs → Memᴰ x jobs)
      → All (CameFrom jobs) (change_job job.id f xs)
  unfolding change_job
  CameFrom-change_job [] sub = tt
  CameFrom-change_job (x ∷ xs) sub = elim (Bool-cases (text_eq x.id job.id)) [
    | inl same ↦
        let e : x ≡ job =
          Distinct-unique jobs job x d here (sub x (Memᴰ.head refl))
            (text_eq_sound x.id job.id same) in
        rw same (
          (
            job,
            here,
            keeps_id x ∙ ap (λ (y : Job). y.id) e,
            subst (λ y. follows job.status (f y).status ≡ true) (sym e) arrow,
          ),
          CameFrom-change_job xs (λ y h. sub y (Memᴰ.tail h)),
        )
    | inr other ↦ rw other (
      (x, sub x (Memᴰ.head refl), refl, follows_refl x.status),
      CameFrom-change_job xs (λ y h. sub y (Memᴰ.tail h)),
    )
  ]

All-change_job :
    (P : Job → Type 0) (id : Text) (f : Job → Job) (xs : List Job)
    → ((x : Job) → P x → P (f x))
    → All P xs
    → All P (change_job id f xs)
unfolding change_job
All-change_job P id f [] keep h = tt
All-change_job P id f (x ∷ xs) keep h =
    ground (arith, keep x h.0, All-change_job P id f xs keep h.1)

pub Distinct-change_job :
    (id : Text) (f : Job → Job) (xs : List Job)
    → ((x : Job) → (f x).id ≡ x.id)
    → Distinct xs
    → Distinct (change_job id f xs)
unfolding change_job
Distinct-change_job id f [] keep d = tt
Distinct-change_job id f (x ∷ xs) keep d =
    let rest = All-change_job (λ k. k.id ≢ x.id) id f xs (λ k n e. n (sym (keep k) ∙ e)) d.0 in
    elim (Bool-cases (text_eq x.id id)) [
      | inl same ↦ rw same (
        subst (λ i. All (λ (k : Job). k.id ≢ i) (change_job id f xs)) (sym (keep x)) rest,
        Distinct-change_job id f xs keep d.1,
      )
      | inr other ↦ rw other (rest, Distinct-change_job id f xs keep d.1)
    ]
