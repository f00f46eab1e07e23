-- ===== src/Jobs/Requests.antt =====
-- Requests made twice under one idempotency key.
use hosting_control_panel.Common.{
  ℕ, ◌≡◌, ◌≢◌, refl, sym, subst, ◌∙◌, Bool, true, false, ◌&&◌, none, some, List, [], ◌∷◌, ◌++◌,
  find, is_empty, Memᴰ, All, Bool-cases, and_both, inl, inr, Text, text_eq, text_eq_refl,
  text_eq_sound, includes, arith,
}
use hosting_control_panel.Jobs.Redact.{bounded_text}
use hosting_control_panel.Jobs.Value.{contains_sensitive_key}
use hosting_control_panel.Jobs.Job.{Job, Manager, PublicJob, ok, ◌>>=◌}
use hosting_control_panel.Jobs.Store.{prune, job_active, persist, emit}
use hosting_control_panel.Jobs.Queue.{public_job, schedule}
use hosting_control_panel.Jobs.Create.{CreateInput, new_job, existing, create}
use hosting_control_panel.Jobs.Prune.{All-prune, mem-append_left, prune_keeps_active}

module _ {ℓ} {A : Type ℓ} where
  find-some :
      (p : A → Bool) (xs : List A) (x : A) → Memᴰ x xs → p x ≡ true → (y : A) × (find p xs ≡ some y)
  unfolding find
  find-some p [] x m t = elim m [ ]
  find-some p (z ∷ zs) x (Memᴰ.head e) t = (z, rw (← e, t))
  find-some p (z ∷ zs) x (Memᴰ.tail m) t = elim (Bool-cases (p z)) [
    | inl here ↦ (z, rw here)
    | inr later ↦ let (y, e) = find-some p zs x m t in (y, rw later e)
  ]

  mem-snoc : (xs : List A) (x : A) → Memᴰ x (xs ++ x ∷ [])
  mem-snoc [] x = Memᴰ.head refl
  mem-snoc (y ∷ ys) x = Memᴰ.tail (mem-snoc ys x)

  find-snoc_ne :
      (p : A → Bool) (xs : List A) (x : A) → p x ≡ false → find p (xs ++ x ∷ []) ≡ find p xs
  unfolding find
  find-snoc_ne p [] x f = rw f
  find-snoc_ne p (y ∷ ys) x f = ground (arith, find-snoc_ne p ys x f)

abbrev holds_key : Text → Job → Bool
holds_key key j = job_active j && text_eq j.idempotency_key key

new_job-idempotency_key :
    (id : Text) (now : ℕ) (input : CreateInput)
    → is_empty input.idempotency_key ≡ false
    → (new_job id now input).idempotency_key ≡ bounded_text input.idempotency_key 200
unfolding new_job
new_job-idempotency_key id now input k = rw k

new_job-active :
    (id : Text) (now : ℕ) (input : CreateInput) → job_active (new_job id now input) ≡ true
unfolding new_job
new_job-active id now input = refl

existing-find :
    (m : Manager) (key : Text) → is_empty key ≡ false → existing m key ≡ find (holds_key key) m.jobs
unfolding existing
existing-find m key k = rw k

create-guards :
    (m : Manager) (id : Text) (now : ℕ) (input : CreateInput) {r : Manager × PublicJob}
    → create m id now input ≡ ok r
    → (includes input.job_type m.handlers ≡ true) × (contains_sensitive_key input.payload ≡ false)
unfolding create
create-guards m id now input e = ground arith

create-adds :
    (m : Manager) (id : Text) (now : ℕ) (input : CreateInput) {m' : Manager} {p : PublicJob}
    → existing m input.idempotency_key ≡ none
    → create m id now input ≡ ok (m', p)
    → (m'.jobs ≡ prune m.history_limit (m.jobs ++ new_job id now input ∷ []))
      × (m'.handlers ≡ m.handlers)
unfolding create persist emit schedule
create-adds m id now input n e = ground arith

create-existing :
    (m : Manager) (id : Text) (now : ℕ) (input : CreateInput) (j : Job)
    → includes input.job_type m.handlers ≡ true
    → contains_sensitive_key input.payload ≡ false
    → existing m input.idempotency_key ≡ some j
    → create m id now input ≡ ok (m, public_job m j)
unfolding create
create-existing m id now input j h s e = rw (h, s, e, ◌>>=◌)

-- A job that `find` returns is of the list and passes the test.
found :
    (key : Text) (xs : List Job) {j : Job}
    → find (holds_key key) xs ≡ some j
    → Memᴰ j xs × (holds_key key j ≡ true)
unfolding find
found key [] e = absurd (cc)
found key (x ∷ xs) {j} e = elim (Bool-cases (holds_key key x)) [
  | inl here ↦
      let same : x ≡ j = ground (arith, here, e) in (Memᴰ.head (sym same), rw (← same) here)
  | inr later ↦ let rest = found key xs (rw later at e) in (Memᴰ.tail rest.0, rest.1)
]

-- After a successful request with a key that the text cleaning leaves as it is, the same request made
-- again finds an active job of the list that has this key, returns that job and changes nothing, whatever
-- the time and the fresh id.
pub create_twice :
    (m : Manager) (id id' : Text) (now now' : ℕ) (input : CreateInput) {m' : Manager}
    {p : PublicJob}
    → is_empty input.idempotency_key ≡ false
    → bounded_text input.idempotency_key 200 ≡ input.idempotency_key
    → existing m input.idempotency_key ≡ none
    → create m id now input ≡ ok (m', p)
    → (j : Job) × (Memᴰ j m'.jobs
        × (job_active j ≡ true)
        × (j.idempotency_key ≡ input.idempotency_key)
        × (create m' id' now' input ≡ ok (m', public_job m' j)))
create_twice m id id' now now' input {m'} k clean n e =
    let (known, public) = create-guards m id now input e in
    let (jobs, handlers) = create-adds m id now input n e in
    let key = input.idempotency_key in
    let job = new_job id now input in
    let active = new_job-active id now input in
    let kept =
      prune_keeps_active m.history_limit (m.jobs ++ job ∷ []) job (mem-snoc m.jobs job) active in
    let stored : job.idempotency_key ≡ key = new_job-idempotency_key id now input k ∙ clean in
    let same : holds_key key job ≡ true = rw (active, stored) (text_eq_refl key) in
    let (j, there) =
      find-some (holds_key key) m'.jobs job (subst (Memᴰ job) (sym jobs) kept) same in
    let (member, held) = found key m'.jobs there in
    let (alive, named) = and_both (job_active j) (text_eq j.idempotency_key key) held in
    (
      j,
      (
        member,
        alive,
        text_eq_sound j.idempotency_key key named,
        create-existing m' id' now' input j (rw handlers known) public
            (existing-find m' key k ∙ there),
      ),
    )

find-none : (p : Job → Bool) (xs : List Job) → find p xs ≡ none → All (λ x. p x ≡ false) xs
unfolding find
find-none p [] e = tt
find-none p (x ∷ xs) e = elim (Bool-cases (p x)) [
  | inl here ↦ absurd (ground (arith, here, e))
  | inr later ↦ (later, find-none p xs (rw later at e))
]

find-All : (p : Job → Bool) (xs : List Job) → All (λ x. p x ≡ false) xs → find p xs ≡ none
unfolding find
find-All p [] h = refl
find-All p (x ∷ xs) h = rw (h.0) (find-All p xs h.1)

-- A request under a key that the cleaning changes leaves no job that holds this key.
forgotten :
    (m : Manager) (id : Text) (now : ℕ) (input : CreateInput) {m' : Manager} {p : PublicJob}
    → is_empty input.idempotency_key ≡ false
    → bounded_text input.idempotency_key 200 ≢ input.idempotency_key
    → existing m input.idempotency_key ≡ none
    → create m id now input ≡ ok (m', p)
    → existing m' input.idempotency_key ≡ none
forgotten m id now input {m'} k changed n e =
    let key = input.idempotency_key in
    let job = new_job id now input in
    let other : text_eq job.idempotency_key key ≡ false =
      elim (Bool-cases (text_eq job.idempotency_key key)) [
        | inl same ↦ absurd (
            changed (
              sym (new_job-idempotency_key id now input k)
              ∙ text_eq_sound job.idempotency_key key same))
        | inr differs ↦ differs
      ] in
    let before =
      find-snoc_ne (holds_key key) m.jobs job (rw (new_job-active id now input) other)
      ∙ sym (existing-find m key k)
      ∙ n in
    let none_holds =
      All-prune (λ x. holds_key key x ≡ false) m.history_limit (m.jobs ++ job ∷ [])
        (find-none (holds_key key) (m.jobs ++ job ∷ []) before) in
    existing-find m' key k
    ∙ find-All (holds_key key) m'.jobs (
        subst (All (λ x. holds_key key x ≡ false)) (sym (create-adds m id now input n e).0)
          none_holds)

create-new :
    (m : Manager) (id : Text) (now : ℕ) (input : CreateInput)
    → includes input.job_type m.handlers ≡ true
    → contains_sensitive_key input.payload ≡ false
    → existing m input.idempotency_key ≡ none
    → (m' : Manager) × ((p : PublicJob) × (create m id now input ≡ ok (m', p)))
unfolding create
create-new m id now input h s n = rw (h, s, n, ◌>>=◌) (_, (_, refl))

-- The defect: under a key that the text cleaning changes, such as one of more than 200 characters, a
-- request that finds no active job and is accepted is not found by the same request made again, which is
-- accepted too, so that the list holds a job for each of the two.
pub changed_key_forgotten :
    (m : Manager) (id id' : Text) (now now' : ℕ) (input : CreateInput) {m' : Manager}
    {p : PublicJob}
    → is_empty input.idempotency_key ≡ false
    → bounded_text input.idempotency_key 200 ≢ input.idempotency_key
    → existing m input.idempotency_key ≡ none
    → create m id now input ≡ ok (m', p)
    → (m2 : Manager) × ((p2 : PublicJob) × ((create m' id' now' input ≡ ok (m2, p2))
          × Memᴰ (new_job id now input) m2.jobs
          × Memᴰ (new_job id' now' input) m2.jobs))
changed_key_forgotten m id id' now now' input {m'} {p} k changed n e =
    let (known, public) = create-guards m id now input e in
    let (jobs, handlers) = create-adds m id now input n e in
    let n' = forgotten m id now input k changed n e in
    let job = new_job id now input in
    let job' = new_job id' now' input in
    let first =
      prune_keeps_active m.history_limit (m.jobs ++ job ∷ []) job (mem-snoc m.jobs job)
        (new_job-active id now input) in
    let (m2, (p2, e2)) = create-new m' id' now' input (rw handlers known) public n' in
    let jobs2 = (create-adds m' id' now' input n' e2).0 in
    let both : (j : Job) → Memᴰ j (m'.jobs ++ job' ∷ []) → job_active j ≡ true → Memᴰ j m2.jobs =
      λ j here a.
        subst (Memᴰ j) (sym jobs2)
          (prune_keeps_active m'.history_limit (m'.jobs ++ job' ∷ []) j here a) in
    (
      m2,
      (
        p2,
        (
          e2,
          both job (mem-append_left m'.jobs (job' ∷ []) (subst (Memᴰ job) (sym jobs) first))
              (new_job-active id now input),
          both job' (mem-snoc m'.jobs job') (new_job-active id' now' input),
        ),
      ),
    )
