-- ===== src/Common/Hosts.antt =====
-- Host names: the labels between the dots, as the patterns of the billing service and the panel have
-- them.
use Prim.Native.Nat.{ℕ}
use mathlib.Core.Bool.{Bool, true, false, not, ◌&&◌, ◌||◌}
use mathlib.Core.List.{List, [], ◌∷◌}
use hosting_control_panel.Common.Tests.{ltb, leb, ◌==◌, if◌then◌else◌}
use hosting_control_panel.Common.Lists.{any, length}
use hosting_control_panel.Common.Texts.{Text}

-- `[a-z0-9]`
abbrev pub is_lower_alnum : ℕ → Bool
is_lower_alnum c = (leb 97 c && leb c 122) || (leb 48 c && leb c 57)

-- The parts of a text between the units `c`, the first part first.
unfoldable pub split : ℕ → Text → List Text
split sep [] = [] ∷ []
split sep (c ∷ cs) =
    let rest = split sep cs in
    if c == sep
    then [] ∷ rest
    else elim rest [ [] ↦ (c ∷ []) ∷ [] | part ∷ parts ↦ (c ∷ part) ∷ parts ]

-- The last unit of a text that begins with `c`.
unfoldable pub last_of : ℕ → Text → ℕ
last_of c [] = c
last_of c (d ∷ ds) = last_of d ds

-- `[a-z0-9](?:[a-z0-9-]{0,61}[a-z0-9])?`
unfoldable pub is_label : Text → Bool
unfolding any last_of
is_label [] = false
is_label (c ∷ cs) =
    is_lower_alnum c
    && is_lower_alnum (last_of c cs)
    && leb (length cs) 62
    && not (any (λ d. not (is_lower_alnum d || (d == b'-'))) cs)

unfoldable pub all_labels : List Text → Bool
unfolding is_label
all_labels [] = true
all_labels (l ∷ ls) = is_label l && all_labels ls

-- `/^(?=.{1,253}$)(?:label\.)+label$/`: two labels at least.
unfoldable pub valid_host : Text → Bool
unfolding split all_labels
valid_host s = leb (length s) 253 && ltb 1 (length (split b'.' s)) && all_labels (split b'.' s)
