-- ===== src/Brsapi/Envelope.antt =====
-- `parse_candlestick_envelope` of integrations/brsapi/parser.py, on the decoded payload.
pub mod Shapes
use bisfin.Brsapi.Contracts.{
  ParseError, ambiguous_empty_array, undocumented_response, invalid_no_data_metadata,
  no_data_with_message, provider_error, non_object_row, type_error,
}
use bisfin.Base.Result.{Result, ok, err, ◌>>=◌}
use bisfin.Base.Int.{ℤ, pos}
use bisfin.Base.Texts.{Text, codes, same_text}
use bisfin.Brsapi.Json.{
  JsonArray, JsonValue, get, JsonObject, bool, int, str, array, object, item, decimal, empty_array,
  null,
}
use bisfin.Base.{
  List, Option, Bool, false, some, true, not, none, if◌then◌else◌, [], ◌==◌, ◌||◌, ◌∷◌,
}

pub data Envelope : Type 0 where
  candlesticks : List JsonObject → Envelope
  no_data : JsonObject → Envelope

-- The rows of a success array: every item is an object.
unfoldable pub rows_of : JsonArray → Result ParseError (List JsonObject)
rows_of empty_array = ok []
rows_of (item (object o) rest) = do rows ← rows_of rest; ok (o ∷ rows)
rows_of (item null rest) = err non_object_row
rows_of (item (bool b) rest) = err non_object_row
rows_of (item (int z) rest) = err non_object_row
rows_of (item (decimal d) rest) = err non_object_row
rows_of (item (str t) rest) = err non_object_row
rows_of (item (array a) rest) = err non_object_row

abbrev array_envelope : JsonArray → Result ParseError Envelope
array_envelope empty_array = err ambiguous_empty_array
array_envelope (item v rest) = do rows ← rows_of (item v rest); ok (candlesticks rows)

-- `value == text`, which a value of another type never is.
abbrev is_text : Text → Option JsonValue → Bool
is_text t (some (str u)) = same_text u t
is_text t _ = false

abbrev is_bool : Bool → Option JsonValue → Bool
is_bool true (some (bool b)) = b
is_bool false (some (bool b)) = not b
is_bool c _ = false

-- `_is_plain_int(value) and value == 200`.
abbrev is_200 : Option JsonValue → Bool
is_200 (some (int (pos n))) = n == 200
is_200 _ = false

-- `value is not None`, for the result of `payload.get`.
abbrev is_given : Option JsonValue → Bool
is_given none = false
is_given (some null) = false
is_given _ = true

abbrev int_value : Option JsonValue → Option ℤ
int_value (some (int z)) = some z
int_value _ = none

abbrev text_value : Option JsonValue → Option Text
text_value (some (str t)) = some t
text_value _ = none

-- `value in {...}` hashes the value first, which raises for a list or a dict.
abbrev is_container : Option JsonValue → Bool
is_container (some (array a)) = true
is_container (some (object o)) = true
is_container _ = false

abbrev is_failure : Option JsonValue → Bool
is_failure v =
    is_text (codes "error") v || is_text (codes "failed") v || is_text (codes "failure") v

-- An object: the documented no-data envelope, a provider's error, or neither.
unfoldable pub object_envelope : JsonObject → Result ParseError Envelope
unfolding get
object_envelope payload =
    let status = get (codes "status") payload in
    let successful = get (codes "successful") payload in
    let code_http = get (codes "code_http") payload in
    let message = get (codes "message_error") payload in
    if is_text (codes "no_data") status
    then if not (is_bool true successful) || not (is_200 code_http)
      then err invalid_no_data_metadata
      else if is_given message
      then err no_data_with_message
      else ok (no_data payload)
    else if is_bool false successful || is_given message
    then err (provider_error (int_value code_http) (text_value status))
    else if is_container status
    then err type_error
    else if is_failure status
    then err (provider_error (int_value code_http) (text_value status))
    else err undocumented_response

unfoldable pub parse_candlestick_envelope : JsonValue → Result ParseError Envelope
unfolding rows_of object_envelope
parse_candlestick_envelope (array items) = array_envelope items
parse_candlestick_envelope (object payload) = object_envelope payload
parse_candlestick_envelope null = err undocumented_response
parse_candlestick_envelope (bool b) = err undocumented_response
parse_candlestick_envelope (int z) = err undocumented_response
parse_candlestick_envelope (decimal d) = err undocumented_response
parse_candlestick_envelope (str t) = err undocumented_response
