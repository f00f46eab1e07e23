-- ===== src/Witness/Platform.antt =====
-- What witness-worker/src and ui-manager/app/lib/fence-receipt.js use of the JavaScript platform:
-- HMAC, the hexadecimal reading of a buffer, and ISO dates.
use hosting_control_panel.Common.{ℕ, ◌*◌, ◌/◌, ◌≡◌, Option, none, some, List, [], Text}

-- `iso` is `new Date(value).toISOString()` without its milliseconds.
pub record Platform : Type 0 where
  pub hmac_sha256 : Text → Text → List ℕ
  pub hex_bytes : Text → List ℕ
  pub iso : ℕ → Text
  pub date_parse : Text → Option ℕ

-- What the date functions are documented to do: a date that was written to the second reads back to
-- that second, and the empty text is no date.
pub record IsCalendar (platform : Platform) : Type 0 where
  pub date_parse-iso : (t : ℕ) → platform.date_parse (platform.iso t) ≡ some (t / 1000 * 1000)
  pub date_parse-empty : platform.date_parse [] ≡ none
