-- ===== src/Billing/Inventory/Moved.antt =====
-- How an edit moves a row of the inventory to a new version
-- (billing-service/app/lib/database.js).
use hosting_control_panel.Common.{
  ℕ, ◌≡◌, ◌≢◌, ◌<◌, refl, sym, ap, subst, ◌∙◌, Bool, true, not, ◌&&◌, Option, some, List, [], ◌∷◌,
  find, any, length, leb, ◌==◌, Bool-cases, Option-cases, inl, inr, Text, text_eq, arith,
}
use hosting_control_panel.Billing.Validation.{bounded}
use hosting_control_panel.Billing.Payment.{
  Result, ok, guard, or_fail, bad_request, not_found, conflict, >>=-eq-ok,
}
use hosting_control_panel.Billing.Inventory.{
  Fields, InventoryRow, Inventory, row_is, row_current, same_domain, next_timestamp, update_rows,
  current_row, write_row, edited, update_service, shelved, archive_service, manual_state, manual,
  apply_manual_action,
}

-- The edits that name the version that they are based on.
pub data Edit : Type 0 where
  update : Fields → Edit
  archive : Bool → Edit
  act : Text → Text → Edit

abbrev pub perform : Edit → Inventory → Text → Option ℕ → Text → ℕ → Result Inventory
perform (update fields) v id expected actor now = update_service v id fields expected actor now
perform (archive archived) v id expected actor now =
    archive_service v id archived expected actor now
perform (act action reason) v id expected actor now =
    apply_manual_action v id action reason expected actor now

-- The first row with the id has moved on from a version.
abbrev pub Moved : Inventory → Text → ℕ → Type 0
Moved v id e = (r : InventoryRow) × (find (row_is id) v.rows ≡ some r) × (e < r.updated_at)

current_row-found :
    (v : Inventory) (id : Text) (e : ℕ) {r : InventoryRow}
    → current_row v id (some e) ≡ ok r
    → (find (row_is id) v.rows ≡ some r) × (r.updated_at ≡ e)
unfolding current_row
current_row-found v id e {r} h = elim (Option-cases (find (row_is id) v.rows)) [
  | inl m ↦ absurd (ground (arith, m, h))
  | inr (x, f) ↦ elim (Bool-cases (x.updated_at == e)) [
    | inr n ↦ absurd (ground (arith, f, n, h))
    | inl t ↦
        let same : x ≡ r = ground (arith, f, t, h) in
        (
          f ∙ ap (λ y. some y) same,
          subst (λ (y : InventoryRow). y.updated_at ≡ e) same (ground (arith, t)),
        )
  ]
]

Moved-refused :
    (v : Inventory) (id : Text) (e : ℕ) {r : InventoryRow}
    → Moved v id e
    → current_row v id (some e) ≢ ok r
Moved-refused v id e (x, f, later) h =
    let (g, same) = current_row-found v id e h in ground (arith, f, g, same, later)

find-update_rows :
    (id : Text) (e : ℕ) (f : InventoryRow → InventoryRow) (rs : List InventoryRow)
    {r : InventoryRow}
    → ((x : InventoryRow) → (f x).service_id ≡ x.service_id)
    → find (row_is id) rs ≡ some r
    → r.updated_at ≡ e
    → find (row_is id) (update_rows (row_current id e) f rs) ≡ some (f r)
unfolding find update_rows
find-update_rows id e f [] k h v = absurd (cc)
find-update_rows id e f (x ∷ xs) {r} k h v = elim (Bool-cases (row_is id x)) [
  | inl here ↦
      let same : x ≡ r = ground (arith, here, h) in
      let version : (x.updated_at == e) ≡ true =
        subst (λ (y : InventoryRow). (y.updated_at == e) ≡ true) (sym same) (ground (arith, v)) in
      let kept : row_is id (f x) ≡ true = ap (λ y. text_eq y id) (k x) ∙ here in
      rw (here, version) (rw kept (ap (λ (y : InventoryRow). some (f y)) same))
  | inr away ↦ rw (away, away) (find-update_rows id e f xs k (ground (arith, away, h)) v)
]

write_row-Moved :
    (v : Inventory) (id : Text) (cur : InventoryRow) (f : InventoryRow → InventoryRow)
    {v' : Inventory}
    → ((x : InventoryRow) → (f x).service_id ≡ x.service_id)
    → cur.updated_at < (f cur).updated_at
    → find (row_is id) v.rows ≡ some cur
    → write_row v id cur f ≡ ok v'
    → Moved v' id cur.updated_at
unfolding write_row
write_row-Moved v id cur f {v'} k later found h =
    let rows : v'.rows ≡ update_rows (row_current id cur.updated_at) f v.rows = ground (arith, h) in
    (
      f cur,
      ap (find (row_is id)) rows ∙ find-update_rows id cur.updated_at f v.rows k found refl,
      later,
    )

pub next-later : (previous now : ℕ) → previous < next_timestamp previous now
next-later previous now = omega arith

-- A version that was read and then written has moved on.
read_and_written :
    (v : Inventory) (id : Text) (e now : ℕ) (f : InventoryRow → ℕ → InventoryRow → InventoryRow)
    {cur : InventoryRow} {v' : Inventory}
    → ((t : ℕ) (x : InventoryRow) → (f cur t x).service_id ≡ x.service_id)
    → ((t : ℕ) (x : InventoryRow) → (f cur t x).updated_at ≡ t)
    → current_row v id (some e) ≡ ok cur
    → write_row v id cur (f cur (next_timestamp cur.updated_at now)) ≡ ok v'
    → Moved v' id e
read_and_written v id e now f {cur} {v'} kept stamped read wrote =
    let (found, version) = current_row-found v id e read in
    let t = next_timestamp cur.updated_at now in
    let later : cur.updated_at < (f cur t cur).updated_at =
      subst (λ n. cur.updated_at < n) (sym (stamped t cur)) (next-later cur.updated_at now) in
    subst (λ n. Moved v' id n) version
      (write_row-Moved v id cur (f cur t) (kept t) later found wrote)

pub perform-Moved :
    (c : Edit) (v : Inventory) (id actor : Text) (e now : ℕ) {v' : Inventory}
    → perform c v id (some e) actor now ≡ ok v'
    → Moved v' id e
unfolding update_service archive_service apply_manual_action
perform-Moved (update fields) v id actor e now h =
    let (cur, read, h1) = >>=-eq-ok (current_row v id (some e)) _ h in
    let taken = any (λ r. not (row_is id r) && same_domain fields.primary_domain r) v.rows in
    let (u, free, h2) = >>=-eq-ok (guard (not taken) conflict) _ h1 in
    let (w, wrote, h3) =
      >>=-eq-ok (write_row v id cur (edited fields (next_timestamp cur.updated_at now))) _ h2 in
    let (r, found, later) =
      read_and_written v id e now (λ x t. edited fields t) (λ t x. refl) (λ t x. refl) read wrote in
    (r, ground (arith, found, h3), later)
perform-Moved (archive archived) v id actor e now h =
    let (cur, read, h1) = >>=-eq-ok (current_row v id (some e)) _ h in
    let (w, wrote, h3) =
      >>=-eq-ok (write_row v id cur (shelved archived (next_timestamp cur.updated_at now))) _ h1 in
    let (r, found, later) =
      read_and_written v id e now (λ x t. shelved archived t) (λ t x. refl) (λ t x. refl) read
        wrote in
    (r, ground (arith, found, h3), later)
perform-Moved (act action reason) v id actor e now h =
    let (state, known, h1) = >>=-eq-ok (or_fail (manual_state action) bad_request) _ h in
    let (u1, long, h2) = >>=-eq-ok (guard (leb 3 (length (bounded reason 500))) bad_request) _ h1 in
    let (seen, there, h3) = >>=-eq-ok (or_fail (find (row_is id) v.rows) not_found) _ h2 in
    let (u2, live, h4) = >>=-eq-ok (guard (not seen.archived) conflict) _ h3 in
    let (cur, read, h5) = >>=-eq-ok (current_row v id (some e)) _ h4 in
    let (w, wrote, h6) =
      >>=-eq-ok (write_row v id cur (manual state (next_timestamp cur.updated_at now))) _ h5 in
    let (r, found, later) =
      read_and_written v id e now (λ x t. manual state t) (λ t x. refl) (λ t x. refl) read wrote in
    (r, ground (arith, found, h6), later)

pub Moved-unperformed :
    (c : Edit) (v : Inventory) (id actor : Text) (e now : ℕ) {v' : Inventory}
    → Moved v id e
    → perform c v id (some e) actor now ≢ ok v'
unfolding update_service archive_service apply_manual_action
Moved-unperformed (update fields) v id actor e now moved h =
    let (cur, read, h1) = >>=-eq-ok (current_row v id (some e)) _ h in
    Moved-refused v id e moved read
Moved-unperformed (archive archived) v id actor e now moved h =
    let (cur, read, h1) = >>=-eq-ok (current_row v id (some e)) _ h in
    Moved-refused v id e moved read
Moved-unperformed (act action reason) v id actor e now moved h =
    let (state, known, h1) = >>=-eq-ok (or_fail (manual_state action) bad_request) _ h in
    let (u1, long, h2) = >>=-eq-ok (guard (leb 3 (length (bounded reason 500))) bad_request) _ h1 in
    let (seen, there, h3) = >>=-eq-ok (or_fail (find (row_is id) v.rows) not_found) _ h2 in
    let (u2, live, h4) = >>=-eq-ok (guard (not seen.archived) conflict) _ h3 in
    let (cur, read, h5) = >>=-eq-ok (current_row v id (some e)) _ h4 in
    Moved-refused v id e moved read
