-- ===== src/Json.antt =====
-- What the program uses of the vendored cJSON: documents are a parameter.
use Prim.Native.String.{String}
use dungeon.Base.{ℕ, Bool, Option, none, some, List, [], ◌∷◌, ℤ, Run, ok, fault}

-- The `type` of a cJSON node.
pub data Kind : Type 0 where
  json_false json_true json_null json_number json_string json_array json_object : Kind

-- What a call of `cJSON_AddTrueToObject`, `cJSON_AddNumberToObject`, … adds to an object. The text
-- is the pointer that the call is given, `none` for NULL.
pub data Entry : Type 0 where
  boolean : Bool → Entry
  number : ℤ → Entry
  text : Option String → Entry

-- cJSON documents; `create` is `cJSON_CreateObject` with the additions that follow it.
-- `object_item` and `array_item` are `none` where cJSON answers NULL.
pub record Cjson : Type 1 where
  pub Json : Type 0
  pub kind : Json → Kind
  pub valueint : Json → ℤ
  pub valuestring : Json → String
  pub array_size : Json → ℕ
  pub array_item : Json → ℕ → Option Json
  pub object_item : Json → String → Option Json
  pub create : List (String × Entry) → Json

-- `cJSON_AddStringToObject` takes the length of the text before anything else: NULL is a fault.
unfoldable pub readable : List (String × Entry) → Run (Unit {0})
readable [] = ok tt
readable ((name, text none) ∷ es) = fault
readable ((name, text (some s)) ∷ es) = readable es
readable ((name, boolean b) ∷ es) = readable es
readable ((name, number n) ∷ es) = readable es
