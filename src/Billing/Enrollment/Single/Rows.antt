-- ===== src/Billing/Enrollment/Single/Rows.antt =====
-- The tables of enrollment before and after a call, row by row.
use hosting_control_panel.Common.{
  ◌≡◌, ◌≢◌, refl, sym, ap, subst, ◌∙◌, Bool, true, false, List, [], ◌∷◌, ◌++◌, All, All-append, ◌⊎◌,
  if◌then◌else◌, inl, inr, Memᴰ, Text,
}
use hosting_control_panel.Billing.Enrollment.Tables.{
  Code, Installation, is_set, update_codes, update_installations,
}

-- `PRIMARY KEY`
abbrev pub Distinct : List Code → Type 0
Distinct [] = Unit
Distinct (c ∷ cs) = All (λ d. d.code_id ≢ c.code_id) cs × Distinct cs

-- A code after a call: the same one, and still used if it was.
pub record CodeKept (c d : Code) : Type 0 where
  pub code_id : d.code_id ≡ c.code_id
  pub spent : is_set c.used_at ≡ true → is_set d.used_at ≡ true

abbrev pub CodesKept : List Code → List Code → Type 0
CodesKept [] ds = ds ≡ []
CodesKept (c ∷ cs) [] = ⊥
CodesKept (c ∷ cs) (d ∷ ds) = CodeKept c d × CodesKept cs ds

pub CodesKept-refl : (cs : List Code) → CodesKept cs cs
CodesKept-refl [] = refl
CodesKept-refl (c ∷ cs) = (record { code_id = refl; spent = λ h. h }, CodesKept-refl cs)

pub CodesKept-update :
    (test : Code → Bool) (f : Code → Code) (cs : List Code)
    → ((c : Code) → CodeKept c (f c))
    → CodesKept cs (update_codes test f cs)
unfolding update_codes
CodesKept-update test f [] k = refl
CodesKept-update test f (c ∷ cs) k = (kept (test c), CodesKept-update test f cs k)
  where
    kept : (b : Bool) → CodeKept c (if b then f c else c)
    kept true = k c
    kept false = record { code_id = refl; spent = λ h. h }

All-kept_ids :
    (id : Text) (cs ds : List Code)
    → CodesKept cs ds
    → All (λ d. d.code_id ≢ id) cs
    → All (λ d. d.code_id ≢ id) ds
All-kept_ids id [] [] k h = tt
All-kept_ids id [] (d ∷ ds) k h = absurd (cc)
All-kept_ids id (c ∷ cs) [] k h = absurd k
All-kept_ids id (c ∷ cs) (d ∷ ds) k h =
    ((λ e. h.0 (sym k.0.code_id ∙ e)), All-kept_ids id cs ds k.1 h.1)

pub Distinct-kept : (cs ds : List Code) → CodesKept cs ds → Distinct cs → Distinct ds
Distinct-kept [] [] k h = tt
Distinct-kept [] (d ∷ ds) k h = absurd (cc)
Distinct-kept (c ∷ cs) [] k h = absurd k
Distinct-kept (c ∷ cs) (d ∷ ds) k h = (
  subst (λ (x : Text). All (λ e. e.code_id ≢ x) ds) (sym k.0.code_id)
      (All-kept_ids c.code_id cs ds k.1 h.0),
  Distinct-kept cs ds k.1 h.1,
)

-- A code with an id is in the table, and used.
abbrev pub IsSpent : List Code → Text → Type 0
IsSpent cs id = (c : Code) × Memᴰ c cs × (c.code_id ≡ id) × (is_set c.used_at ≡ true)

pub IsSpent-kept : (id : Text) (cs ds : List Code) → CodesKept cs ds → IsSpent cs id → IsSpent ds id
IsSpent-kept id [] ds k (c, here, e, u) = elim here [ ]
IsSpent-kept id (b ∷ cs) [] k s = absurd k
IsSpent-kept id (b ∷ cs) (d ∷ ds) k (c, Memᴰ.head same, e, u) =
    let used : is_set b.used_at ≡ true = subst (λ (x : Code). is_set x.used_at ≡ true) same u in
    (d, Memᴰ.head refl, k.0.code_id ∙ sym (ap (λ (x : Code). x.code_id) same) ∙ e, k.0.spent used)
IsSpent-kept id (b ∷ cs) (d ∷ ds) k (c, Memᴰ.tail there, e, u) =
    let (x, here, same, used) = IsSpent-kept id cs ds k.1 (c, there, e, u) in
    (x, Memᴰ.tail here, same, used)

pub IsSpent-append : (id : Text) (cs ds : List Code) → IsSpent cs id → IsSpent (cs ++ ds) id
IsSpent-append id [] ds (c, here, e, u) = elim here [ ]
IsSpent-append id (b ∷ cs) ds (c, Memᴰ.head same, e, u) = (c, Memᴰ.head same, e, u)
IsSpent-append id (b ∷ cs) ds (c, Memᴰ.tail there, e, u) =
    let (x, here, same, used) = IsSpent-append id cs ds (c, there, e, u) in
    (x, Memᴰ.tail here, same, used)

-- An installation after a call: the same claim, and still revoked if it was.
pub record Kept (i j : Installation) : Type 0 where
  pub service_id : j.service_id ≡ i.service_id
  pub canonical_domain : j.canonical_domain ≡ i.canonical_domain
  pub enrollment_code_id : j.enrollment_code_id ≡ i.enrollment_code_id
  pub installation_id : j.installation_id ≡ i.installation_id
  pub revoked : is_set i.credential_revoked_at ≡ true → is_set j.credential_revoked_at ≡ true

abbrev pub AllKept : List Installation → List Installation → Type 0
AllKept [] js = js ≡ []
AllKept (i ∷ is) [] = ⊥
AllKept (i ∷ is) (j ∷ js) = Kept i j × AllKept is js

pub Kept-refl : (i : Installation) → Kept i i
Kept-refl i = record {
  service_id = refl;
  canonical_domain = refl;
  enrollment_code_id = refl;
  installation_id = refl;
  revoked = λ h. h;
}

pub AllKept-refl : (is : List Installation) → AllKept is is
AllKept-refl [] = refl
AllKept-refl (i ∷ is) = (Kept-refl i, AllKept-refl is)

pub AllKept-update :
    (test : Installation → Bool) (f : Installation → Installation) (is : List Installation)
    → ((i : Installation) → Kept i (f i))
    → AllKept is (update_installations test f is)
unfolding update_installations
AllKept-update test f [] k = refl
AllKept-update test f (i ∷ is) k = (kept (test i), AllKept-update test f is k)
  where
    kept : (b : Bool) → Kept i (if b then f i else i)
    kept true = k i
    kept false = Kept-refl i

-- Two installations that come from different codes, and do not both hold a live credential for one
-- service and domain.
pub record Apart (i j : Installation) : Type 0 where
  pub codes : j.enrollment_code_id ≢ i.enrollment_code_id
  pub claims :
      j.service_id ≡ i.service_id
      → j.canonical_domain ≡ i.canonical_domain
      → (is_set i.credential_revoked_at ≡ true) ⊎ (is_set j.credential_revoked_at ≡ true)

abbrev pub Pairwise : List Installation → Type 0
Pairwise [] = Unit
Pairwise (i ∷ is) = All (Apart i) is × Pairwise is

Apart-Kept : (i j i' j' : Installation) → Kept i i' → Kept j j' → Apart i j → Apart i' j'
Apart-Kept i j i' j' k l a = record {
  codes = λ e. a.codes (sym l.enrollment_code_id ∙ e ∙ k.enrollment_code_id);
  claims = λ s d.
      elim (a.claims (sym l.service_id ∙ s ∙ k.service_id)
        (sym l.canonical_domain ∙ d ∙ k.canonical_domain)) [
          | inl r ↦ inl (k.revoked r)
          | inr r ↦ inr (l.revoked r)
        ];
}

All-Apart-Kept :
    (i i' : Installation) (js ks : List Installation)
    → Kept i i'
    → AllKept js ks
    → All (Apart i) js
    → All (Apart i') ks
All-Apart-Kept i i' [] [] k l h = tt
All-Apart-Kept i i' [] (x ∷ ks) k l h = absurd (cc)
All-Apart-Kept i i' (j ∷ js) [] k l h = absurd l
All-Apart-Kept i i' (j ∷ js) (x ∷ ks) k l h =
    (Apart-Kept i j i' x k l.0 h.0, All-Apart-Kept i i' js ks k l.1 h.1)

pub Pairwise-kept : (is js : List Installation) → AllKept is js → Pairwise is → Pairwise js
Pairwise-kept [] [] k h = tt
Pairwise-kept [] (j ∷ js) k h = absurd (cc)
Pairwise-kept (i ∷ is) [] k h = absurd k
Pairwise-kept (i ∷ is) (j ∷ js) k h =
    (All-Apart-Kept i j is js k.0 k.1 h.0, Pairwise-kept is js k.1 h.1)

pub Pairwise-append :
    (is : List Installation) (n : Installation)
    → Pairwise is
    → All (λ i. Apart i n) is
    → Pairwise (is ++ n ∷ [])
Pairwise-append [] n h a = (tt, tt)
Pairwise-append (i ∷ is) n h a =
    (All-append (Apart i) is (n ∷ []) h.0 (a.0, tt), Pairwise-append is n h.1 a.1)

pub All-IsSpent_kept :
    (cs ds : List Code) (is js : List Installation)
    → ((id : Text) → IsSpent cs id → IsSpent ds id)
    → AllKept is js
    → All (λ i. IsSpent cs i.enrollment_code_id) is
    → All (λ i. IsSpent ds i.enrollment_code_id) js
All-IsSpent_kept cs ds [] [] g k h = tt
All-IsSpent_kept cs ds [] (j ∷ js) g k h = absurd (cc)
All-IsSpent_kept cs ds (i ∷ is) [] g k h = absurd k
All-IsSpent_kept cs ds (i ∷ is) (j ∷ js) g k h = (
  subst (λ (x : Text). IsSpent ds x) (sym k.0.enrollment_code_id) (g i.enrollment_code_id h.0),
  All-IsSpent_kept cs ds is js g k.1 h.1,
)
