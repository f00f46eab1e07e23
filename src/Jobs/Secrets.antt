-- ===== src/Jobs/Secrets.antt =====
-- What `safeResult` lets through.
use hosting_control_panel.Common.{ℕ, zero, suc, ◌≡◌, refl, false, arith}
use hosting_control_panel.Jobs.Value.{
  Value, Items, Fields, null, bool, num, str, arr, obj, other, nil, cons, end, field,
  contains_sensitive_key, items_sensitive, fields_sensitive, map_items, keep_fields, safe_value,
  safe_result,
}

module _ (f : Value → Value) (safe : (v : Value) → contains_sensitive_key (f v) ≡ false) where
  items_sensitive-map_items : (xs : Items) → items_sensitive (map_items f xs) ≡ false
  unfolding contains_sensitive_key map_items
  items_sensitive-map_items nil = refl
  items_sensitive-map_items (cons x xs) = ground (arith, safe x, items_sensitive-map_items xs)

  fields_sensitive-keep_fields : (fs : Fields) → fields_sensitive (keep_fields f fs) ≡ false
  unfolding contains_sensitive_key keep_fields
  fields_sensitive-keep_fields end = refl
  fields_sensitive-keep_fields (field k v fs) =
      ground (arith, safe v, fields_sensitive-keep_fields fs)

safe_value_public : (left : ℕ) (v : Value) → contains_sensitive_key (safe_value left v) ≡ false
unfolding contains_sensitive_key safe_value
safe_value_public zero v = refl
safe_value_public (suc left) null = refl
safe_value_public (suc left) (bool b) = refl
safe_value_public (suc left) (num n) = refl
safe_value_public (suc left) (str s) = refl
safe_value_public (suc left) (arr xs) =
    items_sensitive-map_items (safe_value left) (safe_value_public left) _
safe_value_public (suc left) (obj fs) =
    fields_sensitive-keep_fields (safe_value left) (safe_value_public left) _
safe_value_public (suc left) (other s) = refl

-- Whatever a handler returns, at any depth, the result that is kept has no key that the pattern for
-- sensitive keys matches.
pub safe_result_public : (v : Value) → contains_sensitive_key (safe_result v) ≡ false
unfolding safe_result
safe_result_public v = safe_value_public 6 v
