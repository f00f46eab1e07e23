-- ===== src/Enforcement/Render.antt =====
-- The file that nginx reads: `renderMap` of ui-manager/app/lib/billing-enforcement.js.
use hosting_control_panel.Common.{
  ℕ, ◌+◌, ◌/◌, ◌%◌, not, ◌||◌, Option, none, some, List, [], ◌∷◌, ◌++◌, map, sort, is_empty, ltb,
  ◌==◌, if◌then◌else◌, Text, text, text_eq, text_le, valid_host,
}
use hosting_control_panel.Enforcement.Plan.{Url, valid_renewal_url, Entry}

abbrev hex_digit : ℕ → ℕ
hex_digit n = if ltb n 10 then 48 + n else 87 + n

-- One unit of a text as `JSON.stringify` writes it, where no surrogate stands alone.
abbrev json_unit : ℕ → Text
json_unit c =
    if c == 34
    then 92 ∷ 34 ∷ []
    else if c == 92
    then 92 ∷ 92 ∷ []
    else if c == 8
    then 92 ∷ b'b' ∷ []
    else if c == 9
    then 92 ∷ b't' ∷ []
    else if c == 10
    then 92 ∷ b'n' ∷ []
    else if c == 12
    then 92 ∷ b'f' ∷ []
    else if c == 13
    then 92 ∷ b'r' ∷ []
    else if ltb c 32
    then text "\\u00" ++ hex_digit (c / 16) ∷ hex_digit (c % 16) ∷ []
    else c ∷ []

unfoldable pub json_units : Text → Text
json_units [] = []
json_units (c ∷ cs) = json_unit c ++ json_units cs

-- `entries[domain]`
unfoldable pub url_of : Text → List Entry → Text
unfolding text_eq
url_of domain [] = []
url_of domain (e ∷ es) = let rest = url_of domain es in if text_eq e.0 domain then e.1 else rest

-- `Object.keys(entries).sort()`
unfoldable pub sorted_hosts : List Entry → List Text
unfolding sort text_le
sorted_hosts entries = sort text_le (map (λ e. e.0) entries)

-- The lines of the hosts; `none` where the loop of `renderMap` throws.
unfoldable pub host_lines : (Text → Option Url) → List Entry → List Text → Option Text
unfolding url_of valid_renewal_url valid_host json_units text
host_lines parse entries [] = some []
host_lines parse entries (domain ∷ domains) =
    let rest = host_lines parse entries domains in
    let url = valid_renewal_url (parse (url_of domain entries)) in
    if not (valid_host domain) || is_empty url then none else elim rest [
      | none ↦ none
      | some lines ↦
          some (text "  " ++ domain ++ text " \"" ++ json_units url ++ text "\";\n" ++ lines)
    ]

-- `renderMap(entries)`
unfoldable pub render_map : (Text → Option Url) → List Entry → Option Text
unfolding host_lines sorted_hosts text
render_map parse entries = elim (host_lines parse entries (sorted_hosts entries)) [
  | none ↦ none
  | some lines ↦
      some (text "map $host $billing_renewal_url {\n  default \"\";\n" ++ lines ++ text "}\n")
]

-- `renderMap()`
abbrev pub empty_map : Text
empty_map = text "map $host $billing_renewal_url {\n  default \"\";\n}\n"
