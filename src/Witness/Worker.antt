-- ===== src/Witness/Worker.antt =====
-- `WitnessState` and the router of witness-worker/src/worker.js, with witness-worker/src/protocol.js.
use hosting_control_panel.Common.{
  number_text, ℕ, ◌+◌, ◌-◌, ◌*◌, ◌/◌, ◌%◌, Bool, true, false, not, ◌&&◌, ◌||◌, Option, none, some,
  List, [], ◌∷◌, ◌++◌, any, is_empty, length, ltb, leb, ◌==◌, if◌then◌else◌, Text, text, text_eq,
  text_le,
}
use hosting_control_panel.Witness.Platform.{Platform}

abbrev pub is_digit : ℕ → Bool
is_digit c = leb 48 c && leb c 57

abbrev pub is_alnum : ℕ → Bool
is_alnum c = is_digit c || (leb 65 c && leb c 90) || (leb 97 c && leb c 122)

abbrev is_server_unit : ℕ → Bool
is_server_unit c = is_alnum c || (c == b'.') || (c == b'_') || (c == b'-')

-- `SERVER_ID`, `/^[A-Za-z0-9][A-Za-z0-9._-]{0,63}$/`
unfoldable pub valid_server_id : Text → Bool
unfolding any
valid_server_id [] = false
valid_server_id (c ∷ cs) =
    is_alnum c && not (any (λ d. not (is_server_unit d)) cs) && leb (length cs) 63

-- A text of a fixed shape, in which `d` stands for a digit.
unfoldable pub has_shape : Text → Text → Bool
has_shape [] [] = true
has_shape [] (c ∷ cs) = false
has_shape (p ∷ ps) [] = false
has_shape (p ∷ ps) (c ∷ cs) = (if p == b'd' then is_digit c else c == p) && has_shape ps cs

-- `RECOVERY_ID`, `/^\d{4}-\d{2}-\d{2}T\d{2}-\d{2}-\d{2}Z$/`
unfoldable pub valid_recovery_id : Text → Bool
unfolding has_shape text
valid_recovery_id s = has_shape (text "dddd-dd-ddTdd-dd-ddZ") s

-- `boundedSeconds(value, fallback, minimum, maximum)`, of the number that `parseInt` finds.
unfoldable pub bounded_seconds : Option ℕ → ℕ → ℕ → ℕ → ℕ
bounded_seconds none fallback minimum maximum = fallback
bounded_seconds (some n) fallback minimum maximum =
    if leb minimum n && leb n maximum then n else fallback

abbrev hex_digit : ℕ → ℕ
hex_digit n = if ltb n 10 then 48 + n else 87 + n

-- `byte.toString(16).padStart(2, "0")`, joined.
unfoldable pub hex : List ℕ → Text
hex [] = []
hex (byte ∷ bytes) = hex_digit (byte / 16) ∷ hex_digit (byte % 16) ∷ hex bytes

-- The record under the key "state". An absent text is empty.
pub record Witness : Type 0 where
  pub primary_server_id : Text
  pub lease_expires_at : Text
  pub fenced : Bool
  pub fenced_at : Text
  pub last_recovery_id : Text

pub record Receipt : Type 0 where
  pub version : ℕ
  pub status : Text
  pub primary_server_id : Text
  pub recovery_id : Text
  pub method : Text
  pub fenced_at : Text
  pub expires_at : Text
  pub nonce : Text
  pub signature : Text

-- `canonicalReceipt(value)`
unfoldable pub canonical_receipt : Receipt → Text
unfolding number_text
canonical_receipt r =
    number_text r.version
    ++ (b'|' ∷ r.status
        ++ (b'|' ∷ r.primary_server_id
            ++ (b'|' ∷ r.recovery_id
                ++ (b'|' ∷ r.method
                    ++ (b'|' ∷ r.fenced_at ++ (b'|' ∷ r.expires_at ++ (b'|' ∷ r.nonce)))))))

-- The environment of the worker, with the numbers that `parseInt` finds in it.
pub record Env : Type 0 where
  pub lease_ttl : Option ℕ
  pub receipt_ttl : Option ℕ
  pub signing_key : Text
  pub primary_token : Text
  pub standby_token : Text
  pub admin_token : Text

-- The body of a request. An absent text is empty.
pub record Input : Type 0 where
  pub version : ℕ
  pub primary_server_id : Text
  pub recovery_id : Text
  pub confirm : Text

pub data Route : Type 0 where
  lease fence reset unknown : Route

pub data Refusal : Type 0 where
  invalid_request identity_mismatch primary_fenced stale_recovery : Refusal
  confirmation_required unauthorized not_found : Refusal
  lease_active : ℕ → Refusal

pub data Response : Type 0 where
  refused : Refusal → Response
  leased : Text → Response
  fenced_with : Receipt → Response
  was_reset : Response

abbrev pub lease_ttl : Env → ℕ
lease_ttl env = bounded_seconds env.lease_ttl 90 60 300

abbrev pub receipt_ttl : Env → ℕ
receipt_ttl env = bounded_seconds env.receipt_ttl 600 60 900

-- `current.primaryServerId && current.primaryServerId !== input.primaryServerId`
abbrev pub mismatch : Witness → Input → Bool
mismatch w input =
    not (is_empty w.primary_server_id) && not (text_eq w.primary_server_id input.primary_server_id)

-- The branch for `/lease`.
unfoldable pub take_lease : Platform → Env → Witness → Input → ℕ → Witness × Response
take_lease platform env w input now =
    if mismatch w input
    then (w, refused identity_mismatch)
    else if w.fenced
    then (w, refused primary_fenced)
    else let until = platform.iso (now + lease_ttl env * 1000) in
      (
        record {
          primary_server_id = input.primary_server_id;
          lease_expires_at = until;
          fenced = false;
          fenced_at = [];
          last_recovery_id = [];
        },
        leased until,
      )

unfoldable pub unsigned : Platform → Env → Input → ℕ → Text → Receipt
unfolding text
unsigned platform env input now nonce = record {
  version = 1;
  status = text "fenced";
  primary_server_id = input.primary_server_id;
  recovery_id = input.recovery_id;
  method = text "service";
  fenced_at = platform.iso now;
  expires_at = platform.iso (now + receipt_ttl env * 1000);
  nonce = nonce;
  signature = [];
}

-- The receipt with its signature, `hmacHex(SIGNING_KEY, canonicalReceipt(receipt))`.
unfoldable pub signed : Platform → Env → Receipt → Receipt
unfolding hex canonical_receipt
signed platform env r = record r {
  signature = hex (platform.hmac_sha256 env.signing_key (canonical_receipt r));
}

-- The end of a lease that has not passed.
unfoldable pub active_lease : Platform → Witness → ℕ → Option ℕ
active_lease platform w now = elim (platform.date_parse w.lease_expires_at) [
  | none ↦ none
  | some expires ↦ if ltb now expires then some expires else none
]

-- `current.lastRecoveryId && input.recoveryId <= current.lastRecoveryId`
abbrev pub is_stale : Witness → Input → Bool
is_stale w input = not (is_empty w.last_recovery_id) && text_le input.recovery_id w.last_recovery_id

-- The branch for `/fence`. The delay is rounded up to a second.
unfoldable pub take_fence : Platform → Env → Witness → Input → ℕ → Text → Witness × Response
unfolding active_lease unsigned signed
take_fence platform env w input now nonce =
    if not (valid_recovery_id input.recovery_id)
    then (w, refused invalid_request)
    else if mismatch w input
    then (w, refused identity_mismatch)
    else elim (active_lease platform w now) [
      | some expires ↦ (w, refused (lease_active ((expires - now + 999) / 1000)))
      | none ↦ if is_stale w input then (w, refused stale_recovery) else (
        record w {
          primary_server_id = input.primary_server_id;
          fenced = true;
          fenced_at = platform.iso now;
          last_recovery_id = input.recovery_id;
        },
        fenced_with (signed platform env (unsigned platform env input now nonce)),
      )
    ]

-- The branch for `/reset`.
unfoldable pub take_reset : Witness → Input → Witness × Response
unfolding text text_eq
take_reset w input =
    if text_eq input.confirm (text "RESET-FENCING-WITNESS")
    then (
      record {
        primary_server_id = input.primary_server_id;
        lease_expires_at = [];
        fenced = false;
        fenced_at = [];
        last_recovery_id = w.last_recovery_id;
      },
      was_reset,
    )
    else (w, refused confirmation_required)

unfoldable pub respond : Platform → Env → Witness → Route → Input → ℕ → Text → Witness × Response
unfolding take_lease take_fence take_reset
respond platform env w lease input now nonce = take_lease platform env w input now
respond platform env w fence input now nonce = take_fence platform env w input now nonce
respond platform env w reset input now nonce = take_reset w input
respond platform env w unknown input now nonce = (w, refused not_found)

-- `WitnessState.fetch(request)`: `none` is a body that `body(request)` does not take.
unfoldable pub state_fetch :
    Platform → Env → Witness → Route → Option Input → ℕ → Text → Witness × Response
unfolding respond
state_fetch platform env w route none now nonce = (w, refused invalid_request)
state_fetch platform env w route (some input) now nonce =
    if not (input.version == 1) || not (valid_server_id input.primary_server_id)
    then (w, refused invalid_request)
    else respond platform env w route input now nonce

-- The token that a route asks for.
unfoldable pub route_token : Env → Route → Text
route_token env lease = env.primary_token
route_token env fence = env.standby_token
route_token env reset = env.admin_token
route_token env unknown = []

-- The router, on a `POST`. `matches` says whether the request carries a token: `tokenMatches`.
unfoldable pub worker_fetch :
    (Text → Bool) → Platform → Env → Witness → Route → Option Input → ℕ → Text → Witness × Response
unfolding state_fetch route_token
worker_fetch matches platform env w route input now nonce =
    if is_empty (route_token env route)
    then (w, refused not_found)
    else if not (matches (route_token env route))
    then (w, refused unauthorized)
    else state_fetch platform env w route input now nonce
