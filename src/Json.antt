-- ===== src/Json.antt =====
-- The values that tool parameters and stored rules are made of, and the helper of
-- dare_framework/tool/_internal/control/approval_manager.py that normalises them. A number is a
-- natural that codes it; `other` is an object that is none of the JSON types, with its `str()`;
-- `runtime_override` is `RuntimeContextOverride`, with its context and its `str()`. Dict keys are
-- texts, so `str(k)` is the key.
pub mod Normal
use deterministic_agent_runt.Base.{ℕ, String, Bool}

mutual
  pub data Value : Type 0 where
    null : Value
    bool : Bool → Value
    num : ℕ → Value
    text : String → Value
    arr : Items → Value
    tuple : Items → Value
    obj : Fields → Value
    runtime_override : Value → String → Value
    other : String → Value

  pub data Fields : Type 0 where
    end : Fields
    field : String → Value → Fields → Fields

  pub data Items : Type 0 where
    no_items : Items
    item : Value → Items → Items

-- `_normalize_value`
unfoldable mutual
  pub normalize_value : Value → Value
  normalize_value null = null
  normalize_value (bool b) = bool b
  normalize_value (num n) = num n
  normalize_value (text s) = text s
  normalize_value (arr xs) = arr (normalize_items xs)
  normalize_value (tuple xs) = arr (normalize_items xs)
  normalize_value (obj fs) = obj (normalize_fields fs)
  normalize_value (runtime_override c s) = text s
  normalize_value (other s) = text s

  pub normalize_items : Items → Items
  normalize_items no_items = no_items
  normalize_items (item v vs) = item (normalize_value v) (normalize_items vs)

  pub normalize_fields : Fields → Fields
  normalize_fields end = end
  normalize_fields (field k v fs) = field k (normalize_value v) (normalize_fields fs)

-- what `json.dumps` writes with no `default`: no tuple and no foreign object is left
abbrev mutual
  pub IsJson : Value → Type 0
  IsJson null = Unit
  IsJson (bool b) = Unit
  IsJson (num n) = Unit
  IsJson (text s) = Unit
  IsJson (arr xs) = AreJson xs
  IsJson (tuple xs) = ⊥
  IsJson (obj fs) = FieldsAreJson fs
  IsJson (runtime_override c s) = ⊥
  IsJson (other s) = ⊥

  pub AreJson : Items → Type 0
  AreJson no_items = Unit
  AreJson (item v vs) = IsJson v × AreJson vs

  pub FieldsAreJson : Fields → Type 0
  FieldsAreJson end = Unit
  FieldsAreJson (field k v fs) = IsJson v × FieldsAreJson fs
