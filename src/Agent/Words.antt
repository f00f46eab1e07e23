-- ===== src/Agent/Words.antt =====
-- Tests on the words of a command, with the patterns of control-agent/app/policy.js written out.
use hosting_control_panel.Common.{
  is_space, ℕ, ◌+◌, ◌*◌, ◌-◌, Bool, true, false, not, ◌&&◌, ◌||◌, Option, none, some, List, [], ◌∷◌,
  ◌++◌, map, any, length, leb, ltb, ◌==◌, if◌then◌else◌, Text, text_eq, starts_with, split,
  all_labels, is_empty, drop, after_prefix, lower, zero, suc,
}

-- The bytes of a code unit; a low surrogate that follows a high one completes four bytes.
abbrev unit_bytes : Bool → ℕ → ℕ
unit_bytes after_high c =
    if ltb c 128
    then 1
    else if ltb c 2048
    then 2
    else if after_high && leb 56320 c && leb c 57343
    then 1
    else 3

abbrev is_high : ℕ → Bool
is_high c = leb 55296 c && leb c 56319

byte_length_from : Bool → Text → ℕ
byte_length_from after_high [] = 0
byte_length_from after_high (c ∷ cs) = unit_bytes after_high c + byte_length_from (is_high c) cs

-- `Buffer.byteLength(text)`
unfoldable pub byte_length : Text → ℕ
unfolding byte_length_from
byte_length s = byte_length_from false s

-- `boundedText(value, maximum)` does not throw.
unfoldable pub bounded_text : ℕ → Text → Bool
unfolding any byte_length
bounded_text maximum value = not (any (λ c. c == 0) value || ltb maximum (byte_length value))

-- Every unit of a text passes a test.
unfoldable pub every : (ℕ → Bool) → Text → Bool
every p [] = true
every p (c ∷ cs) = p c && every p cs

unfoldable pub all_words : (Text → Bool) → List Text → Bool
all_words p [] = true
all_words p (w ∷ ws) = p w && all_words p ws

-- `words[n]`, where `none` is `undefined`.
unfoldable pub word : ℕ → List Text → Option Text
word n [] = none
word zero (w ∷ ws) = some w
word (suc n) (w ∷ ws) = word n ws

-- `words[n] === literal`
unfoldable pub word_is : ℕ → List Text → Text → Bool
unfolding word text_eq
word_is n ws literal = elim (word n ws) [ none ↦ false | some w ↦ text_eq w literal ]

-- `test(words[n])`, where a pattern sees `undefined` as a text and does not match it.
unfoldable pub word_passes : ℕ → List Text → (Text → Bool) → Bool
unfolding word
word_passes n ws p = elim (word n ws) [ none ↦ false | some w ↦ p w ]

-- `words.join("\0")`
unfoldable pub join_nul : List Text → Text
join_nul [] = []
join_nul (w ∷ []) = w
join_nul (w ∷ v ∷ ws) = w ++ 0 ∷ join_nul (v ∷ ws)

-- `words.join("\0") === literals.join("\0")`
unfoldable pub joins_as : List Text → List Text → Bool
unfolding join_nul text_eq
joins_as ws literals = text_eq (join_nul ws) (join_nul literals)

-- `s.includes(part)`
unfoldable pub contains : Text → Text → Bool
unfolding starts_with
contains part [] = is_empty part
contains part (c ∷ cs) = starts_with (c ∷ cs) part || contains part cs

-- `s.endsWith(suffix)`
unfoldable pub ends_with : Text → Text → Bool
unfolding text_eq
ends_with s suffix =
    leb (length suffix) (length s) && text_eq (drop (length s - length suffix) s) suffix

abbrev pub is_digit : ℕ → Bool
is_digit c = leb 48 c && leb c 57

abbrev pub is_alpha : ℕ → Bool
is_alpha c = (leb 97 c && leb c 122) || (leb 65 c && leb c 90)

abbrev pub is_alnum : ℕ → Bool
is_alnum c = is_alpha c || is_digit c

-- `[A-Za-z0-9._-]`
abbrev pub is_file_unit : ℕ → Bool
is_file_unit c = is_alnum c || (c == b'.') || (c == b'_') || (c == b'-')

-- `[A-Za-z0-9._/-]`
abbrev pub is_path_unit : ℕ → Bool
is_path_unit c = is_file_unit c || (c == b'/')

-- `^prefix[class]+$`
unfoldable pub prefixed : Text → (ℕ → Bool) → Text → Bool
unfolding after_prefix every
prefixed prefix p s = elim (after_prefix prefix s) [
  | none ↦ false
  | some rest ↦ not (is_empty rest) && every p rest
]

-- `^[class]{least,most}$`
unfoldable pub counted : ℕ → ℕ → (ℕ → Bool) → Text → Bool
unfolding every
counted least most p s = leb least (length s) && leb (length s) most && every p s

-- The value of a run of digits.
unfoldable pub digits_value : ℕ → Text → ℕ
digits_value n [] = n
digits_value n (c ∷ cs) = digits_value (n * 10 + (c - 48)) cs

-- A dot with a unit before and after it.
dot_inside : Text → Bool
dot_inside [] = false
dot_inside (c ∷ []) = false
dot_inside (c ∷ d ∷ []) = false
dot_inside (c ∷ d ∷ e ∷ es) = (d == b'.') || dot_inside (d ∷ e ∷ es)

-- `/^[^@\s]+@[^@\s]+\.[^@\s]+$/`
unfoldable pub is_email : Text → Bool
unfolding split dot_inside every
is_email s = every (λ c. not (is_space c)) s && two_parts (split b'@' s)
  where
    two_parts : List Text → Bool
    two_parts (a ∷ b ∷ []) = not (is_empty a) && dot_inside b
    two_parts _ = false

-- The labels before the last one, and the last one.
unfoldable pub is_domain_labels : List Text → Bool
unfolding all_labels counted
is_domain_labels [] = false
is_domain_labels (l ∷ []) = counted 2 63 is_alpha l
is_domain_labels (l ∷ k ∷ ks) = all_labels (l ∷ []) && is_domain_labels (k ∷ ks)

-- `DOMAIN`
unfoldable pub is_domain : Text → Bool
unfolding split is_domain_labels
is_domain s =
    let labels = split b'.' (map lower s) in
    leb (length s) 253 && ltb 1 (length labels) && is_domain_labels labels
