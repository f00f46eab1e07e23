-- ===== src/Billing/Rows.antt =====
-- The table of payments before and after an operation, row by row.
use hosting_control_panel.Common.{
  ◌≡◌, ◌≢◌, refl, sym, ap, subst, ◌∙◌, Bool, true, false, some, List, [], ◌∷◌, ◌++◌, find, All,
  All-find, All-of_mem, Bool-cases, inl, inr, Memᴰ, text_eq_sound,
}
use hosting_control_panel.Billing.Payment.{
  PaymentStatus, pending, paid, expired, cancelled, review, Payment,
}
use hosting_control_panel.Billing.Ledger.{update_where, has_id}

-- The diagram: a payment waits until it is paid, expires, is cancelled or goes to review; an expired
-- one can still be cancelled. Every status may follow itself.
abbrev pub follows : PaymentStatus → PaymentStatus → Bool
follows pending s = true
follows expired expired = true
follows expired cancelled = true
follows paid paid = true
follows cancelled cancelled = true
follows review review = true
follows _ _ = false

-- A row after an operation: the same sale, along an arrow of the diagram.
pub record Moved (p q : Payment) : Type 0 where
  pub payment_id : q.payment_id ≡ p.payment_id
  pub order : q.woo_order_id ≡ p.woo_order_id
  pub amount : q.amount_minor ≡ p.amount_minor
  pub currency : q.currency ≡ p.currency
  pub arrow : follows p.status q.status ≡ true

-- Row by row, with new pending rows at the end.
abbrev pub Evolved : List Payment → List Payment → Type 0
Evolved [] qs = All (λ q. q.status ≡ pending) qs
Evolved (p ∷ ps) [] = ⊥
Evolved (p ∷ ps) (q ∷ qs) = Moved p q × Evolved ps qs

-- `PRIMARY KEY`
abbrev pub Keyed : List Payment → Type 0
Keyed [] = Unit
Keyed (p ∷ ps) = All (λ q. q.payment_id ≢ p.payment_id) ps × Keyed ps

pub follows_refl : (s : PaymentStatus) → follows s s ≡ true
follows_refl pending = refl
follows_refl _ = refl

pub Moved-refl : (p : Payment) → Moved p p
Moved-refl p = record {
  payment_id = refl;
  order = refl;
  amount = refl;
  currency = refl;
  arrow = follows_refl p.status;
}

pub Evolved-refl : (ps : List Payment) → Evolved ps ps
Evolved-refl [] = tt
Evolved-refl (p ∷ ps) = (Moved-refl p, Evolved-refl ps)

pub Evolved-append :
    (ps qs : List Payment) → All (λ q. q.status ≡ pending) qs → Evolved ps (ps ++ qs)
Evolved-append [] qs h = h
Evolved-append (p ∷ ps) qs h = (Moved-refl p, Evolved-append ps qs h)

pub Evolved-update_where :
    (test : Payment → Bool) (f : Payment → Payment) (ps : List Payment)
    → ((p : Payment) → Memᴰ p ps → test p ≡ true → Moved p (f p))
    → Evolved ps (update_where test f ps)
unfolding update_where
Evolved-update_where test f [] h = tt
Evolved-update_where test f (p ∷ ps) h = elim (Bool-cases (test p)) [
  | inl t ↦ rw t (h p (Memᴰ.head refl) t, Evolved-update_where test f ps (λ q m. h q (Memᴰ.tail m)))
  | inr n ↦ rw n (Moved-refl p, Evolved-update_where test f ps (λ q m. h q (Memᴰ.tail m)))
]

mem-All : (P : Payment → Type 0) (ps : List Payment) {p : Payment} → Memᴰ p ps → All P ps → P p
mem-All P [] m h = elim m [ ]
mem-All P (q ∷ qs) (Memᴰ.head e) h = subst P (sym e) h.0
mem-All P (q ∷ qs) (Memᴰ.tail m) h = mem-All P qs m h.1

Keyed-unique :
    (ps : List Payment) (p q : Payment)
    → Keyed ps
    → Memᴰ p ps
    → Memᴰ q ps
    → q.payment_id ≡ p.payment_id
    → q ≡ p
Keyed-unique [] p q k m n e = elim m [ ]
Keyed-unique (x ∷ xs) p q k (Memᴰ.head a) (Memᴰ.head b) e = b ∙ sym a
Keyed-unique (x ∷ xs) p q k (Memᴰ.head a) (Memᴰ.tail n) e =
    absurd (
      mem-All (λ y. y.payment_id ≢ x.payment_id) xs n k.0
        (e ∙ ap (λ (y : Payment). y.payment_id) a))
Keyed-unique (x ∷ xs) p q k (Memᴰ.tail m) (Memᴰ.head b) e = absurd (
    mem-All (λ y. y.payment_id ≢ x.payment_id) xs m k.0
      (sym e ∙ ap (λ (y : Payment). y.payment_id) b))
Keyed-unique (x ∷ xs) p q k (Memᴰ.tail m) (Memᴰ.tail n) e = Keyed-unique xs p q k.1 m n e

pub find-mem :
    (test : Payment → Bool) (ps : List Payment) {p : Payment} → find test ps ≡ some p → Memᴰ p ps
find-mem test ps e = All-find (λ p. Memᴰ p ps) test ps (All-of_mem (λ p. Memᴰ p ps) ps (λ p m. m)) e

-- An update of the rows under a key that a row is known to have is an update of that row.
pub Evolved-at :
    (ps : List Payment) (p : Payment) (f : Payment → Payment)
    → Keyed ps
    → Memᴰ p ps
    → Moved p (f p)
    → Evolved ps (update_where (has_id p.payment_id) f ps)
Evolved-at ps p f k here moved = Evolved-update_where (has_id p.payment_id) f ps (λ q m t.
    subst (λ x. Moved x (f x))
      (sym (Keyed-unique ps p q k here m (text_eq_sound q.payment_id p.payment_id t))) moved)
