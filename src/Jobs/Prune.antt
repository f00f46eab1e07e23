-- ===== src/Jobs/Prune.antt =====
-- What `prune` keeps.
use hosting_control_panel.Common.{
  insert, sort, ℕ, suc, ◌-◌, ◌≤◌, ◌≡◌, refl, Bool, true, List, [], ◌∷◌, ◌++◌, length, length-append,
  length-take, take, select, All, All-append, All-take, All-select, max, inl, inr, Bool-cases,
  arith, Memᴰ, leb,
}
use hosting_control_panel.Jobs.Job.{Job}
use hosting_control_panel.Jobs.Store.{older_first, newer_first, job_active, job_terminal, prune}

module _ {ℓ} {A : Type ℓ} (le : A → A → Bool) where
  All-insert {κ} : (P : A → Type κ) (x : A) (xs : List A) → P x → All P xs → All P (insert le x xs)
  unfolding insert
  All-insert P x [] hx h = (hx, tt)
  All-insert P x (y ∷ ys) hx h = ground (arith, All-insert P x ys hx h.1)

  pub All-sort {κ} : (P : A → Type κ) (xs : List A) → All P xs → All P (sort le xs)
  unfolding sort
  All-sort P [] h = tt
  All-sort P (x ∷ xs) h = All-insert P x (sort le xs) h.0 (All-sort P xs h.1)

  length-insert : (x : A) (xs : List A) → length (insert le x xs) ≡ suc (length xs)
  unfolding insert
  length-insert x [] = refl
  length-insert x (y ∷ ys) = ground (arith, length-insert x ys)

  pub length-sort : (xs : List A) → length (sort le xs) ≡ length xs
  unfolding sort
  length-sort [] = refl
  length-sort (x ∷ xs) = omega (arith, length-insert x (sort le xs), length-sort xs)

-- A property that every job has is a property of every job that is kept.
pub All-prune {κ} :
    (P : Job → Type κ) (limit : ℕ) (jobs : List Job) → All P jobs → All P (prune limit jobs)
unfolding prune
All-prune P limit jobs h =
    let kept = All-sort older_first P _ (
      All-append P (select job_active jobs) _ (All-select P job_active jobs h) (
        All-take P (limit - length (select job_active jobs)) _
          (All-sort newer_first P _ (All-select P job_terminal jobs h)))) in
    ground (arith, kept)

-- Pruning leaves at most as many jobs as the limit, or as there are active jobs if those are more.
pub length-prune :
    (limit : ℕ) (jobs : List Job)
    → length (prune limit jobs) ≤ max limit (length (select job_active jobs))
unfolding prune
length-prune limit jobs =
    let active = select job_active jobs in
    let ended = sort newer_first (select job_terminal jobs) in
    let kept = take (limit - length active) ended in
    ground (
      arith,
      length-sort older_first (active ++ kept),
      length-append active kept,
      length-take (limit - length active) ended,
    )

module _ {ℓ} {A : Type ℓ} where
  pub mem-append_left : (xs ys : List A) {a : A} → Memᴰ a xs → Memᴰ a (xs ++ ys)
  mem-append_left [] ys h = elim h [ ]
  mem-append_left (x ∷ xs) ys (Memᴰ.head e) = Memᴰ.head e
  mem-append_left (x ∷ xs) ys (Memᴰ.tail h) = Memᴰ.tail (mem-append_left xs ys h)

  mem-select : (p : A → Bool) (xs : List A) {a : A} → Memᴰ a xs → p a ≡ true → Memᴰ a (select p xs)
  unfolding select
  mem-select p [] h t = elim h [ ]
  mem-select p (x ∷ xs) (Memᴰ.head e) t = rw (← e, t) (Memᴰ.head refl)
  mem-select p (x ∷ xs) (Memᴰ.tail h) t = elim (Bool-cases (p x)) [
    | inl keeps ↦ rw keeps (Memᴰ.tail (mem-select p xs h t))
    | inr drops ↦ rw drops (mem-select p xs h t)
  ]

  mem-insert_self : (le : A → A → Bool) (x : A) (xs : List A) → Memᴰ x (insert le x xs)
  unfolding insert
  mem-insert_self le x [] = Memᴰ.head refl
  mem-insert_self le x (y ∷ ys) = elim (Bool-cases (le x y)) [
    | inl first ↦ rw first (Memᴰ.head refl)
    | inr later ↦ rw later (Memᴰ.tail (mem-insert_self le x ys))
  ]

  mem-insert :
      (le : A → A → Bool) (x : A) (xs : List A) {a : A} → Memᴰ a xs → Memᴰ a (insert le x xs)
  unfolding insert
  mem-insert le x [] h = elim h [ ]
  mem-insert le x (y ∷ ys) (Memᴰ.head e) = elim (Bool-cases (le x y)) [
    | inl first ↦ rw first (Memᴰ.tail (Memᴰ.head e))
    | inr later ↦ rw later (Memᴰ.head e)
  ]
  mem-insert le x (y ∷ ys) (Memᴰ.tail h) = elim (Bool-cases (le x y)) [
    | inl first ↦ rw first (Memᴰ.tail (Memᴰ.tail h))
    | inr later ↦ rw later (Memᴰ.tail (mem-insert le x ys h))
  ]

  mem-sort : (le : A → A → Bool) (xs : List A) {a : A} → Memᴰ a xs → Memᴰ a (sort le xs)
  unfolding sort
  mem-sort le [] h = elim h [ ]
  mem-sort le (x ∷ xs) (Memᴰ.head e) = rw e (mem-insert_self le x (sort le xs))
  mem-sort le (x ∷ xs) (Memᴰ.tail h) = mem-insert le x (sort le xs) (mem-sort le xs h)

-- Pruning drops no job that is queued, running or cancelling.
pub prune_keeps_active :
    (limit : ℕ) (jobs : List Job) (j : Job)
    → Memᴰ j jobs
    → job_active j ≡ true
    → Memᴰ j (prune limit jobs)
unfolding prune
prune_keeps_active limit jobs j h a = elim (Bool-cases (leb (length jobs) limit)) [
  | inl short ↦ rw short h
  | inr long ↦ rw long (
      mem-sort older_first _
        (mem-append_left (select job_active jobs) _ (mem-select job_active jobs h a)))
]
