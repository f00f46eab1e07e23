-- ===== src/Billing/Keys/Phases.antt =====
-- Rows of `signing_keys` by their id, before and after a call (billing-service/app/lib/database.js).
use hosting_control_panel.Common.{
  ◌≡◌, ◌≢◌, refl, sym, ap, subst, ◌∙◌, Bool, true, false, ◌&&◌, Option, none, some, List, [], ◌∷◌,
  ◌++◌, Memᴰ, find, any, All, All-append, All-map, mem-All, Bool-cases, inl, inr, if◌then◌else◌,
  Text, text_eq, text_eq_sound, text_eq_refl, arith,
}
use hosting_control_panel.Billing.Keys.Ring.{Key, is_key, update_keys}

-- Two rows that may stand in one table.
pub record Apart (x y : Key) : Type 0 where
  pub ids : y.key_id ≢ x.key_id
  pub activity : (x.is_active && y.is_active) ≡ false

abbrev pub Pairwise : List Key → Type 0
Pairwise [] = Unit
Pairwise (k ∷ ks) = All (Apart k) ks × Pairwise ks

pub Pairwise-append :
    (ks : List Key) (n : Key) → Pairwise ks → All (λ k. Apart k n) ks → Pairwise (ks ++ n ∷ [])
Pairwise-append [] n p a = (tt, tt)
Pairwise-append (k ∷ ks) n p a =
    (All-append (Apart k) ks (n ∷ []) p.0 (a.0, tt), Pairwise-append ks n p.1 a.1)

-- A change of rows that keeps the ids and makes no row active.
pub record Tame (f : Key → Key) : Type 0 where
  pub key_id : (k : Key) → (f k).key_id ≡ k.key_id
  pub inactive : (k : Key) → k.is_active ≡ false → (f k).is_active ≡ false

module _ (test : Key → Bool) (f : Key → Key) where
  pub All-update_keys :
      (P Q : Key → Type 0) (ks : List Key)
      → ((k : Key) → P k → test k ≡ true → Q (f k))
      → ((k : Key) → P k → test k ≡ false → Q k)
      → All P ks
      → All Q (update_keys test f ks)
  unfolding update_keys
  All-update_keys P Q [] hit other a = tt
  All-update_keys P Q (k ∷ ks) hit other a = elim (Bool-cases (test k)) [
    | inl t ↦ rw t (hit k a.0 t, All-update_keys P Q ks hit other a.1)
    | inr t ↦ rw t (other k a.0 t, All-update_keys P Q ks hit other a.1)
  ]

  Apart-Tame : (x y : Key) → Tame f → Apart x y → Apart (f x) y
  Apart-Tame x y t a = record {
    ids = λ e. a.ids (e ∙ t.key_id x);
    activity = elim (Bool-cases (x.is_active)) [
      | inl on ↦ elim (Bool-cases (y.is_active)) [
        | inl too ↦ absurd (ground (arith, a.activity, on, too))
        | inr off ↦ elim (Bool-cases ((f x).is_active)) [
          | inl h ↦ rw (h, off) refl
          | inr h ↦ rw h refl
        ]
      ]
      | inr off ↦ rw (t.inactive x off) refl
    ];
  }

  Apart-Tame_right : (x y : Key) → Tame f → Apart x y → Apart x (f y)
  Apart-Tame_right x y t a = record {
    ids = λ e. a.ids (sym (t.key_id y) ∙ e);
    activity = elim (Bool-cases (x.is_active)) [
      | inl on ↦
          let off : y.is_active ≡ false = ground (arith, a.activity, on) in
          rw (on, t.inactive y off) refl
      | inr off ↦ rw off refl
    ];
  }

  pub Pairwise-update_keys :
      (ks : List Key) → Tame f → Pairwise ks → Pairwise (update_keys test f ks)
  unfolding update_keys
  Pairwise-update_keys [] t p = tt
  Pairwise-update_keys (k ∷ ks) t p =
      let rest = Pairwise-update_keys ks t p.1 in
      let beyond : (x : Key) → All (Apart x) ks → All (Apart x) (update_keys test f ks) = λ x.
        All-update_keys (Apart x) (Apart x) ks (λ y a h. Apart-Tame_right x y t a) (λ y a h. a) in
      elim (Bool-cases (test k)) [
        | inl h ↦
            rw h (beyond (f k) (All-map (Apart (f k)) ks (λ y a. Apart-Tame k y t a) p.0), rest)
        | inr h ↦ rw h (beyond k p.0, rest)
      ]

  abbrev pub changed : Option Key → Option Key
  changed none = none
  changed (some k) = some (if test k then f k else k)

  pub find-update_keys :
      (id : Text) (ks : List Key)
      → Tame f
      → find (is_key id) (update_keys test f ks) ≡ changed (find (is_key id) ks)
  unfolding find update_keys
  find-update_keys id [] t = refl
  find-update_keys id (k ∷ ks) t =
      let rest = find-update_keys id ks t in
      let kept : is_key id (f k) ≡ is_key id k = ap (λ x. text_eq x id) (t.key_id k) in
      elim (Bool-cases (is_key id k)) [
        | inl here ↦ elim (Bool-cases (test k)) [
          | inl h ↦ rw (h, kept, here) (rw h refl)
          | inr h ↦ rw (h, here) (rw h refl)
        ]
        | inr away ↦ elim (Bool-cases (test k)) [
          | inl h ↦ rw (h, kept, away) rest
          | inr h ↦ rw (h, away) rest
        ]
      ]

-- A test that holds of one row of a table at most holds only of the row that it finds.
pub find_only :
    (test : Key → Bool) (ks : List Key) {row : Key}
    → ((x y : Key) → Apart x y → test x ≡ true → test y ≡ true → x ≡ y)
    → Pairwise ks
    → find test ks ≡ some row
    → All (λ k. test k ≡ true → k ≡ row) ks
unfolding find
find_only test [] one p e = tt
find_only test (k ∷ ks) {row} one p e = elim (Bool-cases (test k)) [
  | inl t ↦
      let same : k ≡ row = ground (arith, t, e) in
      (
        λ h. same,
        All-map (λ y. test y ≡ true → y ≡ row) ks (λ y a h. sym (one k y a t h) ∙ same) p.0,
      )
  | inr t ↦ (λ h. absurd (cc (t, h)), find_only test ks one p.1 (ground (arith, t, e)))
]

pub id_once : (id : Text) (x y : Key) → Apart x y → is_key id x ≡ true → is_key id y ≡ true → x ≡ y
id_once id x y a h l =
    absurd (a.ids (text_eq_sound y.key_id id l ∙ sym (text_eq_sound x.key_id id h)))

pub active_once : (x y : Key) → Apart x y → x.is_active ≡ true → y.is_active ≡ true → x ≡ y
active_once x y a h l = absurd (ground (arith, a.activity, h, l))

pub find-mem :
    (test : Key → Bool) (ks : List Key) {row : Key} → find test ks ≡ some row → Memᴰ row ks
unfolding find
find-mem test [] e = absurd (cc)
find-mem test (k ∷ ks) {row} e = elim (Bool-cases (test k)) [
  | inl t ↦ Memᴰ.head (ground (arith, t, e))
  | inr t ↦ Memᴰ.tail (find-mem test ks (ground (arith, t, e)))
]

pub find-none :
    (test : Key → Bool) (ks : List Key) → find test ks ≡ none → All (λ k. test k ≡ false) ks
unfolding find
find-none test [] e = tt
find-none test (k ∷ ks) e = elim (Bool-cases (test k)) [
  | inl t ↦ absurd (ground (arith, t, e))
  | inr t ↦ (t, find-none test ks (ground (arith, t, e)))
]

pub any-none :
    (test : Key → Bool) (ks : List Key) → any test ks ≡ false → All (λ k. test k ≡ false) ks
unfolding any
any-none test [] e = tt
any-none test (k ∷ ks) e = (ground (arith, e), any-none test ks (ground (arith, e)))

-- A row of the table is what its id finds.
pub find_self :
    (ks : List Key) {row : Key} → Pairwise ks → Memᴰ row ks → find (is_key row.key_id) ks ≡ some row
unfolding find
find_self [] p m = elim m [ ]
find_self (k ∷ ks) {row} p (Memᴰ.head e) =
    let here : is_key row.key_id k ≡ true =
      subst (λ (x : Key). text_eq x.key_id row.key_id ≡ true) e (text_eq_refl row.key_id) in
    rw here (ap (λ (x : Key). some x) (sym e))
find_self (k ∷ ks) {row} p (Memᴰ.tail m) = elim (Bool-cases (is_key row.key_id k)) [
  | inl here ↦
      absurd ((mem-All (Apart k) ks m p.0).ids (sym (text_eq_sound k.key_id row.key_id here)))
  | inr away ↦ rw away (find_self ks p.1 m)
]
