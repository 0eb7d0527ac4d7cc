-- ===== src/Brsapi/Json.antt =====
-- The JSON values of integrations/brsapi/parser.py, as `_load_json` gives them: integers and
-- decimals are apart, and each decimal is finite. An object lists its members; the decoder keeps one
-- member for each key.
use bisfin.Base.{Bool, Option, none, some, if◌then◌else◌}
use bisfin.Base.Int.{ℤ}
use bisfin.Base.Texts.{Text, same_text}
use bisfin.Decimal.{Decimal}

mutual
  pub data JsonValue : Type 0 where
    null : JsonValue
    bool : Bool → JsonValue
    int : ℤ → JsonValue
    decimal : Decimal → JsonValue
    str : Text → JsonValue
    array : JsonArray → JsonValue
    object : JsonObject → JsonValue

  pub data JsonArray : Type 0 where
    empty_array : JsonArray
    item : JsonValue → JsonArray → JsonArray

  pub data JsonObject : Type 0 where
    empty_object : JsonObject
    member : Text → JsonValue → JsonObject → JsonObject

-- `payload.get(key)`, where a missing key is apart from a null.
unfoldable pub get : Text → JsonObject → Option JsonValue
get k empty_object = none
get k (member j v o) = if same_text j k then some v else get k o
