-- ===== src/Billing/Keys/Refinement.antt =====
-- The life of the signing keys as phases, and that the calls on the table implement it
-- (billing-service/app/lib/database.js).
use mathlib.Core.Path.{fun_ext}
use hosting_control_panel.Common.{
  ℕ, ◌≡◌, ◌≢◌, refl, sym, ap, subst, ◌∙◌, Bool, true, false, Option, none, some, List, [], ◌∷◌,
  ◌++◌, find, find_holds, All, mem-All, Bool-cases, Option-cases, inl, inr, if◌then◌else◌, Text,
  text_eq, text_eq_sound, text_eq_refl, arith,
}
use hosting_control_panel.Billing.Keys.Ring.{
  Key, NewKey, is_key, is_retired, active_key, update_keys, key_of, init_signing_key, superseded,
  is_current, retired, Step, initialized, rotated, was_retired,
}
use hosting_control_panel.Billing.Keys.Phases.{
  Tame, find_self, find-mem, find-none, find-update_keys,
}
use hosting_control_panel.Billing.Keys.Secrets.{
  IsSecret, IsRing, Tame-superseded, Tame-retired, Inserted, insert-Inserted, rotate-Rotated,
  Retired, again, at_last, retire-Retired, Reach, Reach-IsRing,
}

pub data Phase : Type 0 where
  absent active overlapping over : Phase

abbrev pub phase_of : Option Key → Phase
phase_of none = absent
phase_of (some k) = if k.is_active then active else if is_retired k then over else overlapping

-- The phase of every id.
abbrev pub phases : List Key → Text → Phase
phases ks id = phase_of (find (is_key id) ks)

-- A function, changed at one id.
abbrev pub enter : (Text → Phase) → Text → Phase → Text → Phase
enter p id w q = if text_eq id q then w else p q

-- What the keys promise: one key signs at a time, and each id goes through its phases in order, once.
pub data Lives (p : Text → Phase) : (Text → Phase) → Type 0 where
  begin : (id : Text) → ((q : Text) → p q ≢ active) → p id ≡ absent → Lives p (enter p id active)
  succeed :
      (old id : Text)
      → p old ≡ active
      → p id ≡ absent
      → Lives p (enter (enter p old overlapping) id active)
  finish : (id : Text) → p id ≡ overlapping → Lives p (enter p id over)
  stay : (id : Text) → p id ≡ over → Lives p p

find-append :
    (test : Key → Bool) (ks : List Key) (n : Key)
    → find test (ks ++ n ∷ [])
      ≡ elim (find test ks) [ some k ↦ some k | none ↦ if test n then some n else none ]
unfolding find
find-append test [] n = refl
find-append test (k ∷ ks) n = elim (Bool-cases (test k)) [
  | inl t ↦ rw t refl
  | inr t ↦ rw t (find-append test ks n)
]

All-find-none :
    (test : Key → Bool) (ks : List Key) → All (λ k. test k ≡ false) ks → find test ks ≡ none
unfolding find
All-find-none test [] a = refl
All-find-none test (k ∷ ks) a = rw a.0 (All-find-none test ks a.1)

phases-insert :
    {n : NewKey} {now : ℕ} {ks ks' : List Key}
    → Inserted n now ks ks'
    → phases ks' ≡ enter (phases ks) n.key_id active
phases-insert {n} {now} {ks} i = fun_ext λ q.
    let after =
      ap (λ xs. phases xs q) i.row ∙ ap phase_of (find-append (is_key q) ks (key_of n now)) in
    elim (Bool-cases (text_eq n.key_id q)) [
      | inl t ↦
          let fresh : find (is_key q) ks ≡ none =
            subst (λ x. find (is_key x) ks ≡ none) (text_eq_sound n.key_id q t)
              (All-find-none (is_key n.key_id) ks i.fresh) in
          after ∙ rw (fresh, t) refl
      | inr t ↦ after ∙ elim (Option-cases (find (is_key q) ks)) [
        | inl m ↦ rw m (rw t refl)
        | inr (k, f) ↦ rw (f, t) refl
      ]
    ]

fresh-absent :
    {n : NewKey} {now : ℕ} {ks ks' : List Key} → Inserted n now ks ks' → phases ks n.key_id ≡ absent
fresh-absent {n} {now} {ks} i = ap phase_of (All-find-none (is_key n.key_id) ks i.fresh)

-- A change of the rows with one id, of which the table has one.
phases-update :
    (test : Key → Bool) (f : Key → Key) (ks : List Key) (k : Key) (w : Phase)
    → Tame f
    → find (is_key k.key_id) ks ≡ some k
    → test k ≡ true
    → ((x : Key) → test x ≡ true → is_key k.key_id x ≡ true)
    → phase_of (some (f k)) ≡ w
    → phases (update_keys test f ks) ≡ enter (phases ks) k.key_id w
phases-update test f ks k w tame found hit mine becomes = fun_ext λ q.
    let after = ap phase_of (find-update_keys test f q ks tame) in
    elim (Bool-cases (text_eq k.key_id q)) [
      | inl t ↦
          let there : find (is_key q) ks ≡ some k =
            subst (λ x. find (is_key x) ks ≡ some k) (text_eq_sound k.key_id q t) found in
          after ∙ rw (there, hit, t) becomes
      | inr t ↦ after ∙ elim (Option-cases (find (is_key q) ks)) [
        | inl m ↦ rw (m, t) refl
        | inr (x, there) ↦
            let is_q = text_eq_sound x.key_id q (find_holds (is_key q) ks there) in
            let miss : test x ≡ false = elim (Bool-cases (test x)) [
              | inr h ↦ h
              | inl h ↦
                  let is_k = text_eq_sound x.key_id k.key_id (mine x h) in
                  absurd (
                    cc (
                      t,
                      text_eq_refl q,
                      subst (λ y. text_eq y q ≡ true) (sym is_q ∙ is_k) (text_eq_refl q),
                    ))
            ] in
            rw (there, miss, t) refl
      ]
    ]

phases-supersede :
    (now : ℕ) (ks : List Key) {k : Key}
    → IsRing ks
    → find active_key ks ≡ some k
    → phases (update_keys (is_current k.key_id) (superseded now) ks)
      ≡ enter (phases ks) k.key_id overlapping
phases-supersede now ks {k} r found =
    let m = find-mem active_key ks found in
    let on : k.is_active ≡ true = find_holds active_key ks found in
    let live : k.retired_at ≡ none = (mem-All IsSecret ks m r.secrets).live on in
    phases-update (is_current k.key_id) (superseded now) ks k overlapping (Tame-superseded now)
      (find_self ks r.apart m) (rw (text_eq_refl k.key_id, on) refl) (λ x h. ground (arith, h))
      (rw live refl)

active-phase :
    (ks : List Key) {k : Key}
    → IsRing ks
    → find active_key ks ≡ some k
    → phases ks k.key_id ≡ active
active-phase ks {k} r found =
    let on : k.is_active ≡ true = find_holds active_key ks found in
    ap phase_of (find_self ks r.apart (find-mem active_key ks found)) ∙ rw on refl

none-active : (ks : List Key) → find active_key ks ≡ none → (q : Text) → phases ks q ≢ active
none-active ks e q p = elim (Option-cases (find (is_key q) ks)) [
  | inl m ↦ absurd (ground (arith, m, p))
  | inr (k, f) ↦
      let off : k.is_active ≡ false =
        mem-All (λ x. x.is_active ≡ false) ks (find-mem (is_key q) ks f)
          (find-none active_key ks e) in
      elim (Bool-cases (is_retired k)) [
        | inl t ↦ absurd (ground (arith, f, off, t, p))
        | inr t ↦ absurd (ground (arith, f, off, t, p))
      ]
]

Retired-Lives :
    {id : Text} {emergency : Bool} {now : ℕ} {ks ks' : List Key} {already : Bool}
    → Retired id emergency now ks ks' already
    → Lives (phases ks) (phases ks')
Retired-Lives {id} {emergency} {now} {ks} (again k f off t same) =
    subst (λ xs. Lives (phases ks) (phases xs)) (sym same)
      (stay id (ap phase_of f ∙ rw (off, t) refl))
Retired-Lives {id} {emergency} {now} {ks} {ks'} (at_last k f off t gone done) =
    let is_id = text_eq_sound k.key_id id (find_holds (is_key id) ks f) in
    let found : find (is_key k.key_id) ks ≡ some k =
      subst (λ x. find (is_key x) ks ≡ some k) (sym is_id) f in
    let change =
      phases-update (is_key k.key_id) (retired now) ks k over (Tame-retired now) found
        (text_eq_refl k.key_id) (λ x h. h) (rw off refl) in
    subst (Lives (phases ks)) (sym (ap phases done ∙ change))
      (finish k.key_id (ap phase_of found ∙ rw (off, t) refl))

Step-Lives : {ks ks' : List Key} → IsRing ks → Step ks ks' → Lives (phases ks) (phases ks')
unfolding init_signing_key
Step-Lives {ks} r (initialized n now e) = elim (Option-cases (find active_key ks)) [
  | inl m ↦
      let i = insert-Inserted n now ks (ground (arith, m, e)) in
      subst (Lives (phases ks)) (sym (phases-insert i))
        (begin n.key_id (none-active ks m) (fresh-absent i))
  | inr (k, f) ↦ absurd (ground (arith, f, e))
]
Step-Lives {ks} r (rotated n expected now e) =
    let h = rotate-Rotated ks n expected now e in
    let old = h.previous.key_id in
    let change = phases-supersede now ks r h.found in
    let fresh : enter (phases ks) old overlapping n.key_id ≡ absent =
      subst (λ (p : Text → Phase). p n.key_id ≡ absent) change (fresh-absent h.inserted) in
    let unheld : phases ks n.key_id ≡ absent = elim (Bool-cases (text_eq old n.key_id)) [
      | inl t ↦ absurd (ground (arith, t, fresh))
      | inr t ↦ ground (arith, t, fresh)
    ] in
    subst (Lives (phases ks))
      (sym (phases-insert h.inserted ∙ ap (λ p. enter p n.key_id active) change))
      (succeed old n.key_id (active-phase ks r h.found) unheld)
Step-Lives {ks} r (was_retired id emergency now already e) =
    Retired-Lives (retire-Retired ks id emergency now already e)

-- Every call on a table that the calls reach is a step of the life of keys: one key signs at a time, a
-- key id is used once, the successor takes over in the call that ends the active key, and only a key that
-- was succeeded is retired.
pub Step-refines : {ks ks' : List Key} → Reach ks → Step ks ks' → Lives (phases ks) (phases ks')
Step-refines reached step = Step-Lives (Reach-IsRing reached) step
