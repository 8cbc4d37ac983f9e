-- ===== src/Json/Normal.antt =====
-- Normalised parameters are JSON, and normalising again changes nothing.
use deterministic_agent_runt.Base.{◌≡◌, ◌↔◌, refl, ap}
use mathlib.Core.Path.{ap₂, subst}
use deterministic_agent_runt.Json.{
  Value, Items, Fields, null, bool, num, text, arr, tuple, obj, runtime_override, other, no_items,
  item, end, field, normalize_value, normalize_items, normalize_fields, IsJson, AreJson,
  FieldsAreJson,
}

mutual
  unfolding normalize_value normalize_items normalize_fields

  value-IsJson : (v : Value) → IsJson (normalize_value v)
  value-IsJson null = tt
  value-IsJson (bool b) = tt
  value-IsJson (num n) = tt
  value-IsJson (text s) = tt
  value-IsJson (arr xs) = items-AreJson xs
  value-IsJson (tuple xs) = items-AreJson xs
  value-IsJson (obj fs) = fields_are_json fs
  value-IsJson (runtime_override c s) = tt
  value-IsJson (other s) = tt

  items-AreJson : (xs : Items) → AreJson (normalize_items xs)
  items-AreJson no_items = tt
  items-AreJson (item v vs) = (value-IsJson v, items-AreJson vs)

  fields_are_json : (fs : Fields) → FieldsAreJson (normalize_fields fs)
  fields_are_json end = tt
  fields_are_json (field k v fs) = (value-IsJson v, fields_are_json fs)

mutual
  unfolding normalize_value normalize_items normalize_fields

  value_fixed : (v : Value) → IsJson v → normalize_value v ≡ v
  value_fixed null h = refl
  value_fixed (bool b) h = refl
  value_fixed (num n) h = refl
  value_fixed (text s) h = refl
  value_fixed (arr xs) h = ap arr (items_fixed xs h)
  value_fixed (tuple xs) h = absurd h
  value_fixed (obj fs) h = ap obj (fields_fixed fs h)
  value_fixed (runtime_override c s) h = absurd h
  value_fixed (other s) h = absurd h

  items_fixed : (xs : Items) → AreJson xs → normalize_items xs ≡ xs
  items_fixed no_items h = refl
  items_fixed (item v vs) h = ap₂ item (value_fixed v h.0) (items_fixed vs h.1)

  fields_fixed : (fs : Fields) → FieldsAreJson fs → normalize_fields fs ≡ fs
  fields_fixed end h = refl
  fields_fixed (field k v fs) h = ap₂ (field k) (value_fixed v h.0) (fields_fixed fs h.1)

-- A normalised value holds no tuple and no foreign object at any depth, and the values that
-- normalising leaves as they are are exactly those.
normalize_value_canonical :
    (v : Value) → IsJson (normalize_value v) × (IsJson v ↔ (normalize_value v ≡ v))
normalize_value_canonical v =
    (value-IsJson v, (value_fixed v, λ e. subst IsJson e (value-IsJson v)))
