-- ===== src/Jobs/Keyed.antt =====
-- The ids of the jobs stay distinct through every operation on the list.
use hosting_control_panel.Common.{
  insert, sort, mem-All, ℕ, ◌-◌, ◌≡◌, ◌≢◌, sym, ap, subst, ◌∙◌, Bool, true, List, [], ◌∷◌, ◌++◌,
  length, take, select, All, All-of_mem, All-map, All-select_holds, All-append, All-take,
  Bool-cases, inl, inr, Memᴰ, arith,
}
use hosting_control_panel.Jobs.Job.{Distinct, Job}
use hosting_control_panel.Jobs.Store.{older_first, newer_first, job_active, job_terminal, prune}
use hosting_control_panel.Jobs.Prune.{All-sort}
use hosting_control_panel.Jobs.Progress.{Distinct-select}

abbrev Other : Job → Job → Type 0
Other j k = k.id ≢ j.id

module _ (le : Job → Job → Bool) where
  All-insert :
      (P : Job → Type 0) (x : Job) (xs : List Job) → P x → All P xs → All P (insert le x xs)
  unfolding insert
  All-insert P x [] hx h = (hx, tt)
  All-insert P x (y ∷ ys) hx h = ground (arith, All-insert P x ys hx h.1)

  Distinct-insert :
      (x : Job) (xs : List Job) → All (Other x) xs → Distinct xs → Distinct (insert le x xs)
  unfolding insert
  Distinct-insert x [] h d = (tt, tt)
  Distinct-insert x (y ∷ ys) h d = elim (Bool-cases (le x y)) [
    | inl first ↦ rw first (h, d)
    | inr later ↦
        rw later (All-insert (Other y) x ys (λ e. h.0 (sym e)) d.0, Distinct-insert x ys h.1 d.1)
  ]

  Distinct-sort : (xs : List Job) → Distinct xs → Distinct (sort le xs)
  unfolding sort
  Distinct-sort [] d = tt
  Distinct-sort (x ∷ xs) d =
      Distinct-insert x (sort le xs) (All-sort le (Other x) xs d.0) (Distinct-sort xs d.1)

Distinct-take : (n : ℕ) (xs : List Job) → Distinct xs → Distinct (take n xs)
Distinct-take ℕ.zero xs d = tt
Distinct-take (ℕ.suc n) [] d = tt
Distinct-take (ℕ.suc n) (x ∷ xs) d = (All-take (Other x) n xs d.0, Distinct-take n xs d.1)

-- In a list with distinct ids, an id tells the job.
pub Distinct-unique :
    (xs : List Job) (j k : Job) → Distinct xs → Memᴰ j xs → Memᴰ k xs → k.id ≡ j.id → k ≡ j
Distinct-unique [] j k d m n e = elim m [ ]
Distinct-unique (x ∷ xs) j k d (Memᴰ.head p) (Memᴰ.head q) e = q ∙ sym p
Distinct-unique (x ∷ xs) j k d (Memᴰ.head p) (Memᴰ.tail n) e =
    absurd (mem-All (Other x) xs n d.0 (e ∙ ap (λ (y : Job). y.id) p))
Distinct-unique (x ∷ xs) j k d (Memᴰ.tail m) (Memᴰ.head q) e =
    absurd (mem-All (Other x) xs m d.0 (sym e ∙ ap (λ (y : Job). y.id) q))
Distinct-unique (x ∷ xs) j k d (Memᴰ.tail m) (Memᴰ.tail n) e = Distinct-unique xs j k d.1 m n e

abbrev pub From : List Job → (Job → Bool) → Job → Type 0
From jobs p j = Memᴰ j jobs × (p j ≡ true)

pub From-select : (p : Job → Bool) (jobs : List Job) → All (From jobs p) (select p jobs)
From-select p jobs =
    All-select_holds (λ j. Memᴰ j jobs) p jobs (All-of_mem (λ j. Memᴰ j jobs) jobs (λ j m. m))

active_not_terminal : (j : Job) → job_active j ≡ true → job_terminal j ≡ true → ⊥
active_not_terminal j a t = ground arith

Distinct-append :
    (jobs xs ys : List Job)
    → Distinct jobs
    → Distinct xs
    → Distinct ys
    → All (From jobs job_active) xs
    → All (From jobs job_terminal) ys
    → Distinct (xs ++ ys)
Distinct-append jobs [] ys d dx dy hx hy = dy
Distinct-append jobs (x ∷ xs) ys d dx dy hx hy =
    let apart : (t : Job) → From jobs job_terminal t → t.id ≢ x.id = λ t h e.
      active_not_terminal x hx.0.1
        (subst (λ k. job_terminal k ≡ true) (Distinct-unique jobs x t d hx.0.0 h.0 e) h.1) in
    (
      All-append (Other x) xs ys dx.0 (All-map (Other x) ys apart hy),
      Distinct-append jobs xs ys d dx.1 dy hx.1 hy,
    )

pub Distinct-prune : (limit : ℕ) (jobs : List Job) → Distinct jobs → Distinct (prune limit jobs)
unfolding prune
Distinct-prune limit jobs d =
    let active = select job_active jobs in
    let ended = sort newer_first (select job_terminal jobs) in
    let room = limit - length active in
    let kept = Distinct-sort older_first (active ++ take room ended) (
      Distinct-append jobs active (take room ended) d (Distinct-select job_active jobs d)
        (Distinct-take room ended
          (Distinct-sort newer_first _ (Distinct-select job_terminal jobs d)))
        (From-select job_active jobs)
        (All-take (From jobs job_terminal) room ended
          (All-sort newer_first (From jobs job_terminal) _ (From-select job_terminal jobs)))) in
    ground (arith, kept)
