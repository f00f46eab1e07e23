-- ===== src/Billing/Inventory/Examples.antt =====
-- A service that two administrators edit, on which the theorem about stale edits is applied.
use hosting_control_panel.Common.{
  ◌≡◌, ◌≢◌, refl, true, false, some, [], ◌∷◌, text, text_eq, find, select,
}
use hosting_control_panel.Billing.Payment.{ok}
use hosting_control_panel.Billing.Inventory.{
  Fields, Inventory, update_rows, current_row, write_row, archive_service,
}
use hosting_control_panel.Billing.Inventory.Moved.{update, archive, perform}
use hosting_control_panel.Billing.Inventory.Stale.{
  nothing_more, and_then, performed, no_lost_update,
}

abbrev contract : Fields
contract = record {
  primary_domain = text "a.io";
  aliases_json = text "[]";
  customer_name = [];
  contact_email = [];
  contact_phone = [];
  location = text "shared";
  provider = [];
  hosting_paid_through = [];
  domain_paid_through = [];
  renewal_months = 12;
  domain_renewal_months = 12;
  hosting_price_minor = 1200;
  domain_price_minor = 1500;
  currency = text "EUR";
  grace_days = 7;
  enforcement_mode = text "none";
  manual_state = [];
  timezone = text "UTC";
  notes = [];
  source_ref = [];
}

abbrev inventory : Inventory
inventory = record {
  rows =
      record {
        service_id = text "s";
        fields = contract;
        archived = false;
        created_at = 1;
        updated_at = 4;
      }
      ∷ [];
  events = [];
  audit = [];
}

archived_first :
    (v : Inventory) × (perform (archive true) inventory (text "s") (some 4) (text "a") 4 ≡ ok v)
unfolding archive_service current_row write_row update_rows find select text text_eq
archived_first = (_, refl)

-- The service is brought back under the version that the archiving gave it, at the same time.
restored_next :
    (v : Inventory) × (perform (archive false) archived_first.0 (text "s") (some 5) (text "c") 4
      ≡ ok v)
unfolding archived_first archive_service current_row write_row update_rows find select text text_eq
restored_next = (_, refl)

no_lost_update_example :
    perform (update contract) restored_next.0 (text "s") (some 4) (text "b") 4 ≢ ok restored_next.0
no_lost_update_example =
    no_lost_update (archive true) (update contract) inventory (text "s") (text "a") (text "b") 4 4 4
      archived_first.1
      (and_then nothing_more
        (performed (archive false) (text "s") (some 5) (text "c") 4 restored_next.1))
