-- ===== src/Jobs/Value.antt =====
-- JSON values in job payloads and results: `SENSITIVE_KEY`, `containsSensitiveKey` and `safeResult`
-- of ui-manager/app/lib/job-manager.js.
use hosting_control_panel.Common.{
  ℕ, zero, suc, Bool, true, false, ◌||◌, List, [], ◌∷◌, if◌then◌else◌, ◌==◌, Option, none, some,
  any, Text, text,
}
use hosting_control_panel.Jobs.Redact.{literal, bounded_text}

mutual
  -- `other` is a value of no JSON type, such as `undefined`, by its `String(value)`.
  pub data Value : Type 0 where
    null : Value
    bool : Bool → Value
    num : ℕ → Value
    str : Text → Value
    arr : Items → Value
    obj : Fields → Value
    other : Text → Value

  pub data Items : Type 0 where
    nil : Items
    cons : Value → Items → Items

  pub data Fields : Type 0 where
    end : Fields
    field : Text → Value → Fields → Fields

abbrev is_match : Option Text → Bool
is_match none = false
is_match (some _) = true

-- What follows one code unit that is no line terminator: the dot of a pattern.
any_unit : Text → Option Text
any_unit [] = none
any_unit (c ∷ cs) = if (c == 10) || (c == 13) || (c == 8232) || (c == 8233) then none else some cs

sensitive_words : List Text
unfolding text
sensitive_words =
    text "password"
    ∷ text "passwd"
    ∷ text "userpass"
    ∷ text "user_pass"
    ∷ text "secret"
    ∷ text "token"
    ∷ text "privatekey"
    ∷ text "authorization"
    ∷ text "cookie"
    ∷ text "sql"
    ∷ text "dump"
    ∷ []

-- `private.key`
private_key : Text → Bool
unfolding literal any_unit text
private_key s = elim (literal (text "private") s) [
  | none ↦ false
  | some after ↦ elim (any_unit after) [
    | none ↦ false
    | some rest ↦ is_match (literal (text "key") rest)
  ]
]

sensitive_here : Text → Bool
unfolding sensitive_words private_key literal any
sensitive_here s = any (λ w. is_match (literal w s)) sensitive_words || private_key s

-- `SENSITIVE_KEY.test(key)`: one of the words begins somewhere in the key.
unfoldable pub sensitive_key : Text → Bool
unfolding sensitive_here
sensitive_key [] = false
sensitive_key (c ∷ cs) = sensitive_here (c ∷ cs) || sensitive_key cs

unfoldable mutual
  -- `containsSensitiveKey(value)`
  pub contains_sensitive_key : Value → Bool
  contains_sensitive_key (arr xs) = items_sensitive xs
  contains_sensitive_key (obj fs) = fields_sensitive fs
  contains_sensitive_key null = false
  contains_sensitive_key (bool _) = false
  contains_sensitive_key (num _) = false
  contains_sensitive_key (str _) = false
  contains_sensitive_key (other _) = false

  pub items_sensitive : Items → Bool
  items_sensitive nil = false
  items_sensitive (cons x xs) = contains_sensitive_key x || items_sensitive xs

  pub fields_sensitive : Fields → Bool
  fields_sensitive end = false
  fields_sensitive (field k v fs) =
      (sensitive_key k || contains_sensitive_key v) || fields_sensitive fs

-- `array.slice(0, n)`
unfoldable pub take_items : ℕ → Items → Items
take_items zero xs = nil
take_items (suc n) nil = nil
take_items (suc n) (cons x xs) = cons x (take_items n xs)

unfoldable pub take_fields : ℕ → Fields → Fields
take_fields zero fs = end
take_fields (suc n) end = end
take_fields (suc n) (field k v fs) = field k v (take_fields n fs)

-- The loops of `safeResult` over an array and over an object's entries.
unfoldable pub map_items : (Value → Value) → Items → Items
map_items f nil = nil
map_items f (cons x xs) = cons (f x) (map_items f xs)

unfoldable pub keep_fields : (Value → Value) → Fields → Fields
keep_fields f end = end
keep_fields f (field k v fs) =
    let rest = keep_fields f fs in if sensitive_key k then rest else field k (f v) rest

-- `safeResult(value, depth)` by the number of levels that are left, `6 - depth`.
unfoldable pub safe_value : ℕ → Value → Value
unfolding map_items keep_fields take_items take_fields text
safe_value zero v = str (text "[truncated]")
safe_value (suc left) null = null
safe_value (suc left) (bool b) = bool b
safe_value (suc left) (num n) = num n
safe_value (suc left) (str s) = str (bounded_text s 2000)
safe_value (suc left) (arr xs) = arr (map_items (safe_value left) (take_items 250 xs))
safe_value (suc left) (obj fs) = obj (keep_fields (safe_value left) (take_fields 100 fs))
safe_value (suc left) (other s) = str s

-- `safeResult(value)`
unfoldable pub safe_result : Value → Value
unfolding safe_value
safe_result v = safe_value 6 v
