-- ===== src/Enforcement/Plan.antt =====
-- `buildPlan` and `validRenewalUrl` of ui-manager/app/lib/billing-enforcement.js: which hosts the
-- panel redirects to their renewal page.
use hosting_control_panel.Common.{
  after_prefix, lower, ℕ, Bool, false, not, ◌&&◌, ◌||◌, Option, none, some, List, [], ◌∷◌, ◌++◌,
  map, any, select, length, is_empty, leb, ◌==◌, if◌then◌else◌, Text, text, text_eq, includes,
}

-- The parts of a URL that `new URL` gives.
pub record Url : Type 0 where
  pub protocol : Text
  pub username : Text
  pub password : Text
  pub href : Text
  pub pathname : Text

-- `s.toLowerCase()`, on ASCII.
unfoldable pub to_lower_case : Text → Text
to_lower_case s = map lower s

abbrev is_token_unit : ℕ → Bool
is_token_unit c =
    (leb 65 c && leb c 90)
    || (leb 97 c && leb c 122)
    || (leb 48 c && leb c 57)
    || (c == b'_')
    || (c == b'-')

-- `/^\/renew\/[A-Za-z0-9_-]+$/`
unfoldable pub renewal_path : Text → Bool
unfolding after_prefix any text
renewal_path s = elim (after_prefix (text "/renew/") s) [
  | none ↦ false
  | some token ↦ not (is_empty token) && not (any (λ c. not (is_token_unit c)) token)
]

-- `validRenewalUrl(value)`, where `none` is a value that `new URL` does not take.
unfoldable pub valid_renewal_url : Option Url → Text
unfolding renewal_path text text_eq
valid_renewal_url none = []
valid_renewal_url (some u) =
    if text_eq u.protocol (text "https:")
      && is_empty u.username
      && is_empty u.password
      && leb (length u.href) 2048
      && renewal_path u.pathname
    then u.href
    else []

-- The settings as `normalizeSettings` leaves them.
pub record Settings : Type 0 where
  pub enabled : Bool
  pub pilot_domains : List Text

-- A service of the signed snapshot, matched with a website of the panel.
pub record Match : Type 0 where
  pub service_id : Text
  pub local_domain : Text
  pub renewal_url : Text
  pub enforcement_mode : Text
  pub state : Text
  pub primary_domain : Text
  pub aliases : List Text

pub record Snapshot : Type 0 where
  pub fresh : Bool
  pub generated_at : Text
  pub matches : List Match

pub record Site : Type 0 where
  pub host : Text
  pub is_alias : Bool
  pub aliases : List Text

pub data Action : Type 0 where
  block unblocked : Action

pub record Row : Type 0 where
  pub service_id : Text
  pub local_domain : Text
  pub state : Text
  pub enforcement_mode : Text
  pub action : Action
  pub reason : Text

-- An entry of the map: a host and its renewal page.
abbrev pub Entry : Type 0
Entry = Text × Text

pub record Plan : Type 0 where
  pub entries : List Entry
  pub rows : List Row
  pub snapshot_generated_at : Text
  pub safe_to_apply : Bool
  pub reason : Text

-- `localSites.get(domain)`: of two sites with one host the later one counts.
unfoldable pub local_site : List Site → Text → Option Site
unfolding to_lower_case
local_site [] domain = none
local_site (s ∷ ss) domain = elim (local_site ss domain) [
  | some found ↦ some found
  | none ↦ if not s.is_alias && text_eq (to_lower_case s.host) domain then some s else none
]

-- `entries[domain] = renewalUrl`: a key that is there keeps its place.
unfoldable pub assign : Text → Text → List Entry → List Entry
assign domain url [] = (domain, url) ∷ []
assign domain url (e ∷ es) =
    let rest = assign domain url es in if text_eq e.0 domain then (domain, url) ∷ es else e ∷ rest

unfoldable pub assign_all : List Text → Text → List Entry → List Entry
assign_all [] url es = es
assign_all (d ∷ ds) url es = assign_all ds url (assign d url es)

-- The hosts of a site that the billing service approves.
unfoldable pub approved_hosts : Match → Text → Site → List Text
unfolding select to_lower_case includes
approved_hosts m local_domain site =
    select (λ d. includes d (m.primary_domain ∷ m.aliases))
      (map to_lower_case (local_domain ∷ site.aliases))

-- What the chain of conditions says about one match: why not, or the site and the page.
pub data Decision : Type 0 where
  spared : Text → Decision
  blocked : Site → Text → Decision

unfoldable pub decide : (Text → Option Url) → Settings → Bool → List Site → Match → Decision
unfolding text text_eq includes to_lower_case
decide parse settings fresh sites m =
    let domain = to_lower_case m.local_domain in
    let url = valid_renewal_url (parse m.renewal_url) in
    if not settings.enabled
    then spared (text "Global enforcement is disabled")
    else if not fresh
    then spared (text "Signed entitlement snapshot is stale")
    else if not (includes domain settings.pilot_domains)
    then spared (text "Website is not in the pilot allowlist")
    else if not (text_eq m.enforcement_mode (text "payment_page"))
    then spared (text "Service policy is not payment_page")
    else if not (text_eq m.state (text "suspended"))
    then spared (text "Billing state is " ++ m.state)
    else if is_empty url
    then spared (text "Signed renewal URL is unavailable or invalid")
    else elim (local_site sites domain) [
      | none ↦ spared (text "Local website mapping is unavailable")
      | some site ↦ blocked site url
    ]

abbrev pub row_of : Match → Action → Text → Row
row_of m action reason = record {
  service_id = m.service_id;
  local_domain = to_lower_case m.local_domain;
  state = m.state;
  enforcement_mode = m.enforcement_mode;
  action = action;
  reason = reason;
}

-- The loop over the matches, from the entries so far.
unfoldable pub plan_matches :
    (Text → Option Url)
    → Settings
    → Bool
    → List Site
    → List Match
    → List Entry
    → List Entry × List Row
unfolding decide approved_hosts assign_all text
plan_matches parse settings fresh sites [] entries = (entries, [])
plan_matches parse settings fresh sites (m ∷ ms) entries =
    elim (decide parse settings fresh sites m) [
      | spared why ↦
          let (last, rows) = plan_matches parse settings fresh sites ms entries in
          (last, row_of m unblocked why ∷ rows)
      | blocked site url ↦
          let hosts = approved_hosts m (to_lower_case m.local_domain) site in
          let (last, rows) =
            plan_matches parse settings fresh sites ms (assign_all hosts url entries) in
          (last, row_of m block (text "Fresh signed suspended entitlement") ∷ rows)
    ]

abbrev pub is_fresh : Option Snapshot → Bool
is_fresh none = false
is_fresh (some s) = s.fresh

abbrev pub matches_of : Option Snapshot → List Match
matches_of none = []
matches_of (some s) = s.matches

abbrev generated_at_of : Option Snapshot → Text
generated_at_of none = []
generated_at_of (some s) = s.generated_at

-- `buildPlan(observer, sites, settings)`; the keys of `entries` are `blockedHosts`.
unfoldable pub build_plan : (Text → Option Url) → Option Snapshot → List Site → Settings → Plan
unfolding plan_matches text
build_plan parse snapshot sites settings =
    let (entries, rows) =
      plan_matches parse settings (is_fresh snapshot) sites (matches_of snapshot) [] in
    record {
      entries = entries;
      rows = rows;
      snapshot_generated_at = generated_at_of snapshot;
      safe_to_apply = not settings.enabled || is_fresh snapshot;
      reason =
          if not settings.enabled
          then text "Global enforcement is disabled"
          else if is_fresh snapshot
          then text "Fresh signed snapshot verified"
          else text "No fresh signed snapshot; fail-open map required";
    }
