-- ===== src/Billing/Inventory.antt =====
-- The billing inventory of billing-service/app/lib/database.js: the rows of services and the calls that
-- an administrator makes on them.
pub mod Moved
pub mod Stale
pub mod Examples
use hosting_control_panel.Common.{
  ℕ, suc, max, Bool, true, false, not, ◌&&◌, ◌||◌, Option, none, some, List, [], ◌∷◌, ◌++◌, map,
  any, find, select, length, leb, ◌==◌, if◌then◌else◌, Text, text, text_eq, lower,
}
use hosting_control_panel.Billing.Validation.{bounded}
use hosting_control_panel.Billing.Payment.{
  AuditRow, on_service, Event, Result, ok, err, ◌>>=◌, ◌>>◌, guard, or_fail, bad_request, not_found,
  conflict,
}
use hosting_control_panel.Billing.Ledger.{audit_entry}

-- The columns that an edit replaces; a date is the text that the table holds.
pub record Fields : Type 0 where
  pub primary_domain : Text
  pub aliases_json : Text
  pub customer_name : Text
  pub contact_email : Text
  pub contact_phone : Text
  pub location : Text
  pub provider : Text
  pub hosting_paid_through : Text
  pub domain_paid_through : Text
  pub renewal_months : ℕ
  pub domain_renewal_months : ℕ
  pub hosting_price_minor : ℕ
  pub domain_price_minor : ℕ
  pub currency : Text
  pub grace_days : ℕ
  pub enforcement_mode : Text
  pub manual_state : Text
  pub timezone : Text
  pub notes : Text
  pub source_ref : Text

-- A row of `services`.
pub record InventoryRow : Type 0 where
  pub service_id : Text
  pub fields : Fields
  pub archived : Bool
  pub created_at : ℕ
  pub updated_at : ℕ

pub record Inventory : Type 0 where
  pub rows : List InventoryRow
  pub events : List Event
  pub audit : List AuditRow

abbrev pub row_is : Text → InventoryRow → Bool
row_is id r = text_eq r.service_id id

abbrev pub row_current : Text → ℕ → InventoryRow → Bool
row_current id expected r = row_is id r && (r.updated_at == expected)

-- `COLLATE NOCASE`
abbrev pub same_domain : Text → InventoryRow → Bool
same_domain name r = text_eq (map lower r.fields.primary_domain) (map lower name)

-- `nextTimestamp(previous)`
abbrev pub next_timestamp : ℕ → ℕ → ℕ
next_timestamp previous now = max now (suc previous)

-- `UPDATE services SET … WHERE …`
unfoldable pub update_rows :
    (InventoryRow → Bool) → (InventoryRow → InventoryRow) → List InventoryRow → List InventoryRow
update_rows test f [] = []
update_rows test f (r ∷ rs) = (if test r then f r else r) ∷ update_rows test f rs

-- The row of `events` and the audit entry of a call.
abbrev pub noted : Text → Text → Text → Text → ℕ → Inventory → Inventory
noted actor event_type action id timestamp v = record v {
  events =
      record { service_id = id; event_type = event_type; payment_id = []; happened_at = timestamp }
      ∷ v.events;
  audit = audit_entry (record { actor = actor; action = action; target = on_service id }) v.audit;
}

-- `createService(service, actor)`: a row that collides with another one is a conflict.
unfoldable pub create_service : Inventory → Text → Fields → Bool → Text → ℕ → Result Inventory
unfolding any text
create_service v id fields archived actor now = do
  guard (not (any (λ r. row_is id r || same_domain fields.primary_domain r) v.rows)) conflict
  let row : InventoryRow = record {
    service_id = id;
    fields = fields;
    archived = archived;
    created_at = now;
    updated_at = now;
  }
  ok (
      noted actor (text "inventory.created") (text "inventory.create") id now
        (record v { rows = v.rows ++ row ∷ [] }))

-- The row that a call is about, if nobody changed it since the caller read it.
unfoldable pub current_row : Inventory → Text → Option ℕ → Result InventoryRow
unfolding find
current_row v id expected = do
  current ← or_fail (find (row_is id) v.rows) not_found
  since ← or_fail expected bad_request
  guard (current.updated_at == since) conflict
  ok current

-- The conditional `UPDATE`, which must change one row.
unfoldable pub write_row :
    Inventory → Text → InventoryRow → (InventoryRow → InventoryRow) → Result Inventory
unfolding select update_rows
write_row v id current f = do
  guard (length (select (row_current id current.updated_at) v.rows) == 1) conflict
  ok (record v { rows = update_rows (row_current id current.updated_at) f v.rows })

abbrev pub edited : Fields → ℕ → InventoryRow → InventoryRow
edited fields timestamp r = record r { fields = fields; updated_at = timestamp }

-- `updateService(serviceId, service, expectedUpdatedAt, actor)`: a domain that another row has is a
-- conflict.
unfoldable pub update_service : Inventory → Text → Fields → Option ℕ → Text → ℕ → Result Inventory
unfolding current_row any write_row text
update_service v id fields expected actor now = do
  current ← current_row v id expected
  let timestamp = next_timestamp current.updated_at now
  guard (not (any (λ r. not (row_is id r) && same_domain fields.primary_domain r) v.rows)) conflict
  v' ← write_row v id current (edited fields timestamp)
  ok (noted actor (text "inventory.updated") (text "inventory.update") id timestamp v')

abbrev pub shelved : Bool → ℕ → InventoryRow → InventoryRow
shelved archived timestamp r = record r { archived = archived; updated_at = timestamp }

-- `archiveService(serviceId, archived, expectedUpdatedAt, actor)`
unfoldable pub archive_service : Inventory → Text → Bool → Option ℕ → Text → ℕ → Result Inventory
unfolding current_row write_row text
archive_service v id archived expected actor now = do
  current ← current_row v id expected
  let timestamp = next_timestamp current.updated_at now
  v' ← write_row v id current (shelved archived timestamp)
  let action = if archived then text "inventory.archive" else text "inventory.restore"
  ok (noted actor action action id timestamp v')

-- `MANUAL_ACTIONS[action]`, of an action that is no name every object has.
unfoldable pub manual_state : Text → Option Text
unfolding text text_eq
manual_state action =
    if text_eq action (text "exempt")
    then some (text "exempt")
    else if text_eq action (text "resume")
    then some []
    else if text_eq action (text "suspend")
    then some (text "suspended")
    else none

abbrev pub manual : Text → ℕ → InventoryRow → InventoryRow
manual state timestamp r = record r {
  fields = record r.fields { manual_state = state };
  updated_at = timestamp;
}

-- `applyManualAction(serviceId, action, reason, expectedUpdatedAt, actor)`
unfoldable pub apply_manual_action :
    Inventory → Text → Text → Text → Option ℕ → Text → ℕ → Result Inventory
unfolding manual_state bounded find current_row write_row text
apply_manual_action v id action reason expected actor now = do
  state ← or_fail (manual_state action) bad_request
  guard (leb 3 (length (bounded reason 500))) bad_request
  seen ← or_fail (find (row_is id) v.rows) not_found
  guard (not seen.archived) conflict
  current ← current_row v id expected
  let timestamp = next_timestamp current.updated_at now
  v' ← write_row v id current (manual state timestamp)
  let event_type = text "inventory.manual_" ++ action
  ok (noted actor event_type event_type id timestamp v')
