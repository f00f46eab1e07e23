-- ===== src/Billing/Inventory/Stale.antt =====
-- That a stale edit of the inventory is refused (billing-service/app/lib/database.js).
use hosting_control_panel.Common.{
  ℕ, ◌≡◌, ◌≢◌, ◌<◌, ◌≤◌, false, refl, ap, subst, ◌∙◌, Bool, true, not, ◌&&◌, ◌||◌, ◌++◌, and_both,
  Option, some, List, [], ◌∷◌, find, any, length, leb, ◌==◌, Bool-cases, inl, inr, Text, text_eq,
  arith,
}
use hosting_control_panel.Billing.Validation.{bounded}
use hosting_control_panel.Billing.Payment.{
  ok, guard, or_fail, bad_request, not_found, conflict, >>=-eq-ok,
}
use hosting_control_panel.Billing.Inventory.{
  create_service, Fields, InventoryRow, Inventory, row_is, row_current, same_domain, next_timestamp,
  update_rows, current_row, write_row, edited, update_service, shelved, archive_service,
  manual_state, manual, apply_manual_action,
}
use hosting_control_panel.Billing.Inventory.Moved.{
  Edit, update, archive, act, perform, Moved, next-later, perform-Moved, Moved-unperformed,
}

-- A change of the inventory that was accepted: a new service, or an edit of any service.
pub data Accepted (v v' : Inventory) : Type 0 where
  created :
      (id : Text) (fields : Fields) (archived : Bool) (actor : Text) (now : ℕ)
      → create_service v id fields archived actor now ≡ ok v'
      → Accepted v v'
  performed :
      (c : Edit) (id : Text) (expected : Option ℕ) (actor : Text) (now : ℕ)
      → perform c v id expected actor now ≡ ok v'
      → Accepted v v'

pub data AllAccepted : Inventory → Inventory → Type 0 where
  nothing_more : {v : Inventory} → AllAccepted v v
  and_then : {v v' v2 : Inventory} → AllAccepted v v' → Accepted v' v2 → AllAccepted v v2

find-append :
    (id : Text) (rs more : List InventoryRow) {r : InventoryRow}
    → find (row_is id) rs ≡ some r
    → find (row_is id) (rs ++ more) ≡ some r
unfolding find
find-append id [] more h = absurd (cc)
find-append id (x ∷ xs) more h = elim (Bool-cases (row_is id x)) [
  | inl here ↦ rw here (rw here at h)
  | inr away ↦ rw away (find-append id xs more (rw away at h))
]

-- A write leaves every row at its version or moves it on.
find-written :
    (id id' : Text) (version t : ℕ) (f : InventoryRow → InventoryRow) (rs : List InventoryRow)
    {r : InventoryRow}
    → ((x : InventoryRow) → (f x).service_id ≡ x.service_id)
    → ((x : InventoryRow) → (f x).updated_at ≡ t)
    → version < t
    → find (row_is id) rs ≡ some r
    → (r' : InventoryRow) × (find (row_is id) (update_rows (row_current id' version) f rs)
        ≡ some r')
      × (r.updated_at ≤ r'.updated_at)
unfolding find update_rows
find-written id id' version t f [] kept stamped later h = absurd (cc)
find-written id id' version t f (x ∷ xs) {r} kept stamped later h =
    elim (Bool-cases (row_is id x)) [
      | inr away ↦
          let rest = find-written id id' version t f xs kept stamped later (rw away at h) in
          elim (Bool-cases (row_current id' version x)) [
            | inl it ↦
                let away' : row_is id (f x) ≡ false = ap (λ y. text_eq y id) (kept x) ∙ away in
                (rest.0, rw it (rw away' (rest.1)), rest.2)
            | inr not_it ↦ (rest.0, rw not_it (rw away (rest.1)), rest.2)
          ]
      | inl here ↦
          let same : x ≡ r = ground (arith, here, h) in
          elim (Bool-cases (row_current id' version x)) [
            | inl it ↦
                let here' : row_is id (f x) ≡ true = ap (λ y. text_eq y id) (kept x) ∙ here in
                let at_version = (and_both (row_is id' x) (x.updated_at == version) it).1 in
                (
                  f x,
                  rw it (rw here' refl),
                  subst (λ (y : InventoryRow). y.updated_at ≤ (f x).updated_at) same
                      (ground (arith, at_version, stamped x, later)),
                )
            | inr not_it ↦ (
              x,
              rw not_it (rw here refl),
              subst (λ (y : InventoryRow). y.updated_at ≤ x.updated_at) same (omega arith),
            )
          ]
    ]

Moved-written :
    (v : Inventory) (id id' : Text) (e now : ℕ) (cur : InventoryRow)
    (f : ℕ → InventoryRow → InventoryRow) {v' : Inventory}
    → ((t : ℕ) (x : InventoryRow) → (f t x).service_id ≡ x.service_id)
    → ((t : ℕ) (x : InventoryRow) → (f t x).updated_at ≡ t)
    → Moved v id e
    → write_row v id' cur (f (next_timestamp cur.updated_at now)) ≡ ok v'
    → Moved v' id e
unfolding write_row
Moved-written v id id' e now cur f {v'} kept stamped (r, there, past) h =
    let t = next_timestamp cur.updated_at now in
    let rows : v'.rows ≡ update_rows (row_current id' cur.updated_at) (f t) v.rows =
      ground (arith, h) in
    let (r', found, grown) =
      find-written id id' cur.updated_at t (f t) v.rows (kept t) (stamped t)
        (next-later cur.updated_at now) there in
    (r', ap (find (row_is id)) rows ∙ found, omega (arith, past, grown))

Moved-performed :
    (c : Edit) (v : Inventory) (id id' actor : Text) (e : ℕ) (expected : Option ℕ) (now : ℕ)
    {v' : Inventory}
    → Moved v id e
    → perform c v id' expected actor now ≡ ok v'
    → Moved v' id e
unfolding update_service archive_service apply_manual_action
Moved-performed (update fields) v id id' actor e expected now moved h =
    let (cur, read, h1) = >>=-eq-ok (current_row v id' expected) _ h in
    let taken = any (λ r. not (row_is id' r) && same_domain fields.primary_domain r) v.rows in
    let (u, free, h2) = >>=-eq-ok (guard (not taken) conflict) _ h1 in
    let (w, wrote, h3) =
      >>=-eq-ok (write_row v id' cur (edited fields (next_timestamp cur.updated_at now))) _ h2 in
    let (r, found, later) =
      Moved-written v id id' e now cur (edited fields) (λ t x. refl) (λ t x. refl) moved wrote in
    (r, ground (arith, found, h3), later)
Moved-performed (archive archived) v id id' actor e expected now moved h =
    let (cur, read, h1) = >>=-eq-ok (current_row v id' expected) _ h in
    let (w, wrote, h3) =
      >>=-eq-ok (write_row v id' cur (shelved archived (next_timestamp cur.updated_at now))) _ h1 in
    let (r, found, later) =
      Moved-written v id id' e now cur (shelved archived) (λ t x. refl) (λ t x. refl) moved wrote in
    (r, ground (arith, found, h3), later)
Moved-performed (act action reason) v id id' actor e expected now moved h =
    let (state, known, h1) = >>=-eq-ok (or_fail (manual_state action) bad_request) _ h in
    let (u1, long, h2) = >>=-eq-ok (guard (leb 3 (length (bounded reason 500))) bad_request) _ h1 in
    let (seen, there, h3) = >>=-eq-ok (or_fail (find (row_is id') v.rows) not_found) _ h2 in
    let (u2, live, h4) = >>=-eq-ok (guard (not seen.archived) conflict) _ h3 in
    let (cur, read, h5) = >>=-eq-ok (current_row v id' expected) _ h4 in
    let (w, wrote, h6) =
      >>=-eq-ok (write_row v id' cur (manual state (next_timestamp cur.updated_at now))) _ h5 in
    let (r, found, later) =
      Moved-written v id id' e now cur (manual state) (λ t x. refl) (λ t x. refl) moved wrote in
    (r, ground (arith, found, h6), later)

Moved-created :
    (v : Inventory) (id id' : Text) (e : ℕ) (fields : Fields) (archived : Bool) (actor : Text)
    (now : ℕ) {v' : Inventory}
    → Moved v id e
    → create_service v id' fields archived actor now ≡ ok v'
    → Moved v' id e
unfolding create_service
Moved-created v id id' e fields archived actor now {v'} (r, there, past) h =
    let taken = any (λ x. row_is id' x || same_domain fields.primary_domain x) v.rows in
    let row : InventoryRow = record {
      service_id = id';
      fields = fields;
      archived = archived;
      created_at = now;
      updated_at = now;
    } in
    let (u, free, h1) = >>=-eq-ok (guard (not taken) conflict) _ h in
    let rows : v'.rows ≡ v.rows ++ row ∷ [] = ground (arith, h1) in
    (r, ap (find (row_is id)) rows ∙ find-append id v.rows (row ∷ []) there, past)

Moved-stays :
    {v v' : Inventory} (id : Text) (e : ℕ) → AllAccepted v v' → Moved v id e → Moved v' id e
Moved-stays id e nothing_more moved = moved
Moved-stays id e (and_then {v' = v'} before (created id' fields archived actor now h)) moved =
    Moved-created v' id id' e fields archived actor now (Moved-stays id e before moved) h
Moved-stays id e (and_then {v' = v'} before (performed c id' expected actor now h)) moved =
    Moved-performed c v' id id' actor e expected now (Moved-stays id e before moved) h

-- No lost update: after an edit of a service was accepted, and any number of services were created and
-- edits of any services accepted after it, an edit of that service that is based on the version before
-- the first one is refused, whatever either of them changes and whatever the clock shows. Only calls
-- that edit the inventory come in between.
pub no_lost_update :
    (first second : Edit) (v : Inventory) (id actor actor' : Text) (e now now' : ℕ)
    {v' v2 v3 : Inventory}
    → perform first v id (some e) actor now ≡ ok v'
    → AllAccepted v' v2
    → perform second v2 id (some e) actor' now' ≢ ok v3
no_lost_update first second v id actor actor' e now now' {v'} {v2} h between =
    Moved-unperformed second v2 id actor' e now'
      (Moved-stays id e between (perform-Moved first v id actor e now h))
