-- ===== src/Billing/Renewals/Clear.antt =====
-- What holds of the offers of billing-service/app/lib/payment-reconciler.js.
use hosting_control_panel.Common.{
  ℕ, ◌≡◌, ◌<◌, ◌⊎◌, refl, sym, ap, subst, ◌∙◌, Bool, true, false, not, ◌&&◌, Option, none, some,
  List, [], ◌∷◌, map, select, All, All-append, Bool-cases, and_both, not-true, inl, inr,
  if◌then◌else◌, Text, arith,
}
use hosting_control_panel.Billing.Payment.{
  Selection, hosting, domain, both, other, Payment, Database, expired,
}
use hosting_control_panel.Billing.Ledger.{
  update_where, set_status, overdue, expire, newest, open_for, active_payment,
}
use hosting_control_panel.Billing.Renewals.{
  View, hosting_due, domain_due, is_some, Offer, missing, latest, offer, preview_service, preview,
}

update_where-twice :
    (now : ℕ) (ps : List Payment)
    → update_where
        (overdue now)
        (set_status expired)
        (update_where (overdue now) (set_status expired) ps)
      ≡ update_where (overdue now) (set_status expired) ps
unfolding update_where
update_where-twice now [] = refl
update_where-twice now (p ∷ ps) =
    let rest = update_where-twice now ps in
    elim (Bool-cases (overdue now p)) [
      | inl t ↦ rw t (ap (λ qs. set_status expired p ∷ qs) rest)
      | inr t ↦ rw (t, t) (ap (λ qs. p ∷ qs) rest)
    ]

-- A second sweep at the same time finds nothing.
pub expire-twice : (db : Database) (now : ℕ) → expire (expire db now) now ≡ expire db now
unfolding expire
expire-twice db now = ap (λ ps. record db { payments = ps }) (update_where-twice now db.payments)

-- No link of the service is open for the selection.
abbrev pub Free : Database → Text → ℕ → Selection → Type 0
Free db id now selection = (active_payment db id selection now).1 ≡ none

-- An offer that collides with no open link and asks for money.
pub record IsClear (now : ℕ) (db : Database) (o : Offer) : Type 0 where
  pub own : Free db o.service_id now o.selection
  pub joint : Free db o.service_id now both
  pub parts :
      o.selection ≡ both → Free db o.service_id now hosting × Free db o.service_id now domain
  pub priced : 0 < o.amount_minor

not_some : {A : Type 0} (o : Option A) → is_some o ≡ false → o ≡ none
not_some none e = refl
not_some (some a) e = absurd (cc)

-- Why a selection is missing.
abbrev Wanted : Bool → Bool → Bool → Bool → Bool → Selection → Type 0
Wanted dh dd oh od ob hosting = (dh ≡ true) × (oh ≡ false) × (ob ≡ false)
Wanted dh dd oh od ob domain = (dd ≡ true) × (od ≡ false) × (ob ≡ false)
Wanted dh dd oh od ob both = (dh ≡ true) × (oh ≡ false) × (od ≡ false) × (ob ≡ false)
Wanted dh dd oh od ob _ = true ≡ false

one-Wanted :
    (P : Selection → Type 0) (due is_open : Bool) (s : Selection)
    → (due ≡ true → is_open ≡ false → P s)
    → All P (if due && not is_open then s ∷ [] else [])
one-Wanted P true true s f = tt
one-Wanted P true false s f = (f refl refl, tt)
one-Wanted P false o s f = tt

missing-Wanted : (dh dd oh od ob : Bool) → All (Wanted dh dd oh od ob) (missing dh dd oh od ob)
unfolding missing
missing-Wanted dh dd oh od true = tt
missing-Wanted dh dd oh od false = elim (Bool-cases (dh && dd && not oh && not od)) [
  | inl t ↦
      let (three, no_domain) = and_both (dh && dd && not oh) (not od) t in
      let (two, no_hosting) = and_both (dh && dd) (not oh) three in
      rw t (((and_both dh dd two).0, not-true oh no_hosting, not-true od no_domain, refl), tt)
  | inr f ↦ rw f (
      All-append (Wanted dh dd oh od false) (if dh && not oh then hosting ∷ [] else [])
        (if dd && not od then domain ∷ [] else [])
        (one-Wanted (Wanted dh dd oh od false) dh oh hosting (λ d o. (d, o, refl)))
        (one-Wanted (Wanted dh dd oh od false) dd od domain (λ d o. (d, o, refl))))
]

-- The offers of one service, by what is open in a database.
offers-IsClear :
    (now : ℕ) (db : Database) (v : View) (payments : List Payment) (ss : List Selection)
    → All
        (Wanted
          (hosting_due v)
          (domain_due v)
          (is_some (active_payment db v.service.service_id hosting now).1)
          (is_some (active_payment db v.service.service_id domain now).1)
          (is_some (active_payment db v.service.service_id both now).1))
        ss
    → All (IsClear now db) (map (offer payments v.service) ss)
unfolding offer
offers-IsClear now db v payments [] w = tt
offers-IsClear now db v payments (s ∷ ss) w = (one s w.0, offers-IsClear now db v payments ss w.1)
  where
    one :
        (s : Selection)
        → Wanted
            (hosting_due v)
            (domain_due v)
            (is_some (active_payment db v.service.service_id hosting now).1)
            (is_some (active_payment db v.service.service_id domain now).1)
            (is_some (active_payment db v.service.service_id both now).1)
            s
        → IsClear now db (offer payments v.service s)
    one hosting (due, free, joint) = record {
      own = not_some _ free;
      joint = not_some _ joint;
      parts = λ e. absurd (cc (e));
      priced = ground (arith, due);
    }
    one domain (due, free, joint) = record {
      own = not_some _ free;
      joint = not_some _ joint;
      parts = λ e. absurd (cc (e));
      priced = ground (arith, due);
    }
    one both (due, no_hosting, no_domain, joint) = record {
      own = not_some _ joint;
      joint = not_some _ joint;
      parts = λ e. (not_some _ no_hosting, not_some _ no_domain);
      priced = ground (arith, due);
    }
    one (other n) w = absurd (cc (w))

abbrev open_in : Database → View → ℕ → Selection → Bool
open_in db v now s = is_some (active_payment db v.service.service_id s now).1

-- The offers of a service that is due, by the database once swept.
abbrev swept_offers : Database → View → ℕ → List Offer
swept_offers db v now = map (offer (latest db v.service.service_id) v.service) (
    missing (hosting_due v) (domain_due v) (open_in db v now hosting) (open_in db v now domain)
      (open_in db v now both))

is_open : Database → Text → Selection → Bool
is_open db id s = is_some (newest (select (open_for id s) db.payments))

-- The offers by the databases that the queries of one service read.
read_offers : View → ℕ → Database → Database → Database → Database → Database × List Offer
read_offers v now last on_hosting on_domain on_both =
    let id = v.service.service_id in
    (
      last,
      map (offer (latest last id) v.service) (
          missing (hosting_due v) (domain_due v) (is_open on_hosting id hosting)
            (is_open on_domain id domain) (is_open on_both id both)),
    )

preview_service-due :
    (db : Database) (v : View) (now : ℕ)
    → (not (hosting_due v) && not (domain_due v)) ≡ false
    → preview_service db v now ≡ (expire db now, swept_offers (expire db now) v now)
unfolding preview_service active_payment read_offers is_open
preview_service-due db v now due =
    let d = expire db now in
    let once = expire-twice db now in
    let twice = ap (λ x. expire x now) once ∙ once in
    rw due (
      ap (λ x. read_offers v now x d (expire d now) x) twice
      ∙ ap (λ x. read_offers v now d d x d) once
      ∙ sym (ap (λ x. read_offers v now d x x x) once))

preview_service-idle :
    (db : Database) (v : View) (now : ℕ)
    → (not (hosting_due v) && not (domain_due v)) ≡ true
    → preview_service db v now ≡ (db, [])
unfolding preview_service
preview_service-idle db v now t = rw t refl

preview_service-IsClear :
    (db : Database) (v : View) (now : ℕ)
    → All (IsClear now (expire db now)) (preview_service db v now).1
      × (((preview_service db v now).0 ≡ db) ⊎ ((preview_service db v now).0 ≡ expire db now))
preview_service-IsClear db v now = elim (Bool-cases (not (hosting_due v) && not (domain_due v))) [
  | inl t ↦ let idle = preview_service-idle db v now t in rw idle (tt, inl refl)
  | inr f ↦
      let d = expire db now in
      rw (preview_service-due db v now f) (
        offers-IsClear now d v (latest d v.service.service_id) _ (
            missing-Wanted (hosting_due v) (domain_due v) (open_in d v now hosting)
              (open_in d v now domain) (open_in d v now both)),
        inr refl,
      )
]

preview-IsClear_swept :
    (db : Database) (vs : List View) (now : ℕ)
    → All (IsClear now (expire db now)) (preview db vs now).1
      × (((preview db vs now).0 ≡ db) ⊎ ((preview db vs now).0 ≡ expire db now))
unfolding preview
preview-IsClear_swept db [] now = (tt, inl refl)
preview-IsClear_swept db (v ∷ vs) now =
    let (here, there) = preview_service-IsClear db v now in
    let db' = (preview_service db v now).0 in
    let (rest, last) = preview-IsClear_swept db' vs now in
    let same : expire db' now ≡ expire db now = elim there [
      | inl e ↦ ap (λ x. expire x now) e
      | inr e ↦ ap (λ x. expire x now) e ∙ expire-twice db now
    ] in
    (
      All-append (IsClear now (expire db now)) (preview_service db v now).1 (preview db' vs now).1
          here (subst (λ x. All (IsClear now x) (preview db' vs now).1) same rest),
      elim last [
        | inl e ↦ elim there [ inl f ↦ inl (e ∙ f) | inr f ↦ inr (e ∙ f) ]
        | inr e ↦ inr (e ∙ same)
      ],
    )

-- Every offer that the preview makes, blocked or not, asks for money, and once the overdue links are
-- expired no link of its service is open for its selection or for both parts together; an offer of both
-- parts stands beside no open link at all.
pub preview-IsClear :
    (db : Database) (vs : List View) (now : ℕ)
    → All (IsClear now (expire db now)) (preview db vs now).1
preview-IsClear db vs now = (preview-IsClear_swept db vs now).0
