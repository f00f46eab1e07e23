-- ===== src/Billing/Validation.antt =====
-- `bounded` and `domain` of billing-service/app/lib/validation.js.
use mathlib.Core.List.{reverse}
use hosting_control_panel.Common.{
  is_space, ℕ, Bool, false, not, ◌&&◌, ◌||◌, Option, none, some, [], ◌∷◌, map, any, take, ◌==◌,
  if◌then◌else◌, Text, text, valid_host, after_prefix, lower,
}

-- `.replace(/[\r\n\t]+/g, " ")`
collapse_breaks : Bool → Text → Text
collapse_breaks in_run [] = []
collapse_breaks in_run (c ∷ cs) =
    let breaks = (c == 13) || (c == 10) || (c == 9) in
    let rest = collapse_breaks breaks cs in
    if breaks then (if in_run then rest else 32 ∷ rest) else c ∷ rest

skip_blanks : Text → Text
skip_blanks [] = []
skip_blanks (c ∷ cs) = let rest = skip_blanks cs in if is_space c then rest else c ∷ cs

-- `.trim()`
unfoldable pub trim : Text → Text
unfolding skip_blanks
trim s = reverse (skip_blanks (reverse (skip_blanks s)))

-- `bounded(value, maximum)`
unfoldable pub bounded : Text → ℕ → Text
unfolding collapse_breaks trim
bounded value maximum = take maximum (trim (collapse_breaks false value))

-- `.replace(/^https?:\/\//, "")`
unfoldable pub without_scheme : Text → Text
unfolding after_prefix text
without_scheme s = elim (after_prefix (text "https://") s) [
  | some rest ↦ rest
  | none ↦ elim (after_prefix (text "http://") s) [ some rest ↦ rest | none ↦ s ]
]

abbrev is_line_end : ℕ → Bool
is_line_end c = (c == 10) || (c == 13) || (c == 8232) || (c == 8233)

-- `.replace(/\/.*$/, "")`: from the first slash after which no line ends.
unfoldable pub without_path : Text → Text
unfolding any
without_path [] = []
without_path (c ∷ cs) =
    let rest = without_path cs in if (c == b'/') && not (any is_line_end cs) then [] else c ∷ rest

-- `.replace(/\.$/, "")`
unfoldable pub without_last_dot : Text → Text
without_last_dot [] = []
without_last_dot (c ∷ []) = if c == b'.' then [] else c ∷ []
without_last_dot (c ∷ d ∷ ds) = c ∷ without_last_dot (d ∷ ds)

-- `domain(value)`, `none` where it throws.
unfoldable pub domain : Text → Option Text
unfolding trim without_scheme without_path without_last_dot
domain value =
    let s = map lower (trim value) in
    let name = without_last_dot (without_path (without_scheme s)) in
    if valid_host name then some name else none
