-- ===== src/Brsapi/Envelope/Shapes.antt =====
-- The payloads that `parse_candlestick_envelope` of integrations/brsapi/parser.py takes for rows.
use bisfin.Base.Result.{ok, ok_injective, >>=-inv}
use bisfin.Base.Texts.{Text, codes, same_text, same_text_sound}
use bisfin.Base.Int.{pos, negsuc}
use bisfin.Base.{
  Option, none, some, true, false, ◌⊎◌, ◌↔◌, sym, inl, inr, List, ◌≡◌, ◌∷◌, subst, [], ◌<◌, arith,
  refl, length, ap,
}
use bisfin.Brsapi.Json.{
  JsonArray, JsonObject, JsonValue, get, array, empty_array, item, object, bool, int, decimal, str,
  null,
}
use bisfin.Brsapi.Envelope.{
  Envelope, no_data, is_text, is_bool, is_200, is_given, object_envelope,
  parse_candlestick_envelope, rows_of, array_envelope, candlesticks,
}

-- The payload of some rows.
abbrev pub array_of : List JsonObject → JsonArray
array_of [] = empty_array
array_of (o ∷ os) = item (object o) (array_of os)

rows_of-array_of : (os : List JsonObject) → rows_of (array_of os) ≡ ok os
unfolding rows_of
rows_of-array_of [] = refl
rows_of-array_of (o ∷ os) = rw (rows_of-array_of os) refl

rows_of-inv : (a : JsonArray) (os : List JsonObject) → rows_of a ≡ ok os → a ≡ array_of os
unfolding rows_of
rows_of-inv empty_array os e =
    subst (λ (z : List JsonObject). empty_array ≡ array_of z) (ok_injective e) refl
rows_of-inv (item (object o) rest) os e =
    let (rows, e1, e2) = >>=-inv (rows_of rest) _ e in
    subst (λ (z : List JsonObject). item (object o) rest ≡ array_of z) (ok_injective e2)
      (ap (item (object o)) (rows_of-inv rest rows e1))
rows_of-inv (item null rest) os e = absurd (ground arith)
rows_of-inv (item (bool b) rest) os e = absurd (ground arith)
rows_of-inv (item (int z) rest) os e = absurd (ground arith)
rows_of-inv (item (decimal d) rest) os e = absurd (ground arith)
rows_of-inv (item (str t) rest) os e = absurd (ground arith)
rows_of-inv (item (array a) rest) os e = absurd (ground arith)

is_text-inv : (t : Text) (v : Option JsonValue) → is_text t v ≡ true → v ≡ some (str t)
is_text-inv t none h = cc
is_text-inv t (some (str u)) h = rw (same_text_sound u t h) refl
is_text-inv t (some null) h = cc
is_text-inv t (some (bool b)) h = cc
is_text-inv t (some (int z)) h = cc
is_text-inv t (some (decimal d)) h = cc
is_text-inv t (some (array a)) h = cc
is_text-inv t (some (object o)) h = cc

is_true-inv : (v : Option JsonValue) → is_bool true v ≡ true → v ≡ some (bool true)
is_true-inv none h = cc
is_true-inv (some (bool b)) h = rw h refl
is_true-inv (some null) h = cc
is_true-inv (some (str t)) h = cc
is_true-inv (some (int z)) h = cc
is_true-inv (some (decimal d)) h = cc
is_true-inv (some (array a)) h = cc
is_true-inv (some (object o)) h = cc

is_200-inv : (v : Option JsonValue) → is_200 v ≡ true → v ≡ some (int (pos 200))
is_200-inv none h = cc
is_200-inv (some (int (pos n))) h = ground arith
is_200-inv (some (int (negsuc n))) h = cc
is_200-inv (some null) h = cc
is_200-inv (some (bool b)) h = cc
is_200-inv (some (str t)) h = cc
is_200-inv (some (decimal d)) h = cc
is_200-inv (some (array a)) h = cc
is_200-inv (some (object o)) h = cc

is_given-inv : (v : Option JsonValue) → is_given v ≡ false → (v ≡ none) ⊎ (v ≡ some null)
is_given-inv none h = inl refl
is_given-inv (some null) h = inr refl
is_given-inv (some (bool b)) h = cc
is_given-inv (some (str t)) h = cc
is_given-inv (some (int z)) h = cc
is_given-inv (some (decimal d)) h = cc
is_given-inv (some (array a)) h = cc
is_given-inv (some (object o)) h = cc

-- The documented answer of a provider that has no data.
pub record IsNoData (o : JsonObject) : Type 0 where
  pub status : get (codes "status") o ≡ some (str (codes "no_data"))
  pub successful : get (codes "successful") o ≡ some (bool true)
  pub code_http : get (codes "code_http") o ≡ some (int (pos 200))
  pub message : (get (codes "message_error") o ≡ none) ⊎ (get (codes "message_error") o ≡ some null)

object_envelope_flags :
    (o : JsonObject) (e : Envelope)
    → object_envelope o ≡ ok e
    → (e ≡ no_data o)
      × (is_text (codes "no_data") (get (codes "status") o) ≡ true)
      × (is_bool true (get (codes "successful") o) ≡ true)
      × (is_200 (get (codes "code_http") o) ≡ true)
      × (is_given (get (codes "message_error") o) ≡ false)
unfolding object_envelope
object_envelope_flags o e h = ground arith

object_envelope-IsNoData :
    (o : JsonObject) (e : Envelope) → object_envelope o ≡ ok e → (e ≡ no_data o) × IsNoData o
object_envelope-IsNoData o e h =
    let (same, s, b, c, m) = object_envelope_flags o e h in
    (
      same,
      record {
        status = is_text-inv (codes "no_data") (get (codes "status") o) s;
        successful = is_true-inv (get (codes "successful") o) b;
        code_http = is_200-inv (get (codes "code_http") o) c;
        message = is_given-inv (get (codes "message_error") o) m;
      },
    )

array_envelope-inv :
    (a : JsonArray) (os : List JsonObject)
    → array_envelope a ≡ ok (candlesticks os)
    → (a ≡ array_of os) × (0 < length os)
array_envelope-inv empty_array os e = absurd (ground arith)
array_envelope-inv (item v rest) os e =
    let (rows, e1, e2) = >>=-inv (rows_of (item v rest)) _ e in
    let shape = rows_of-inv (item v rest) rows e1 in
    let same = candlesticks_injective rows (ok_injective e2) in
    (subst (λ (z : List JsonObject). item v rest ≡ array_of z) same shape, nonempty rows same shape)
  where
    candlesticks_injective :
        (rows : List JsonObject) → candlesticks rows ≡ candlesticks os → rows ≡ os
    candlesticks_injective rows q = cc

    nonempty : (rows : List JsonObject) → rows ≡ os → item v rest ≡ array_of rows → 0 < length os
    nonempty [] q s = absurd (ground arith)
    nonempty (r ∷ rows) q s = subst (λ (z : List JsonObject). 0 < length z) q (omega arith)

-- What the payload of an envelope is.
abbrev pub IsPayloadOf : Envelope → JsonValue → Type 0
IsPayloadOf (candlesticks os) v = (v ≡ array (array_of os)) × (0 < length os)
IsPayloadOf (no_data o) v = (v ≡ object o) × IsNoData o

array_envelope-IsPayloadOf :
    (a : JsonArray) (e : Envelope) → array_envelope a ≡ ok e → IsPayloadOf e (array a)
array_envelope-IsPayloadOf a (candlesticks os) h =
    let (shape, n) = array_envelope-inv a os h in (ap array shape, n)
array_envelope-IsPayloadOf empty_array (no_data o) h = cc
array_envelope-IsPayloadOf (item v rest) (no_data o) h =
    let (rows, _, e) = >>=-inv (rows_of (item v rest)) _ h in absurd (cc)

object_envelope-IsPayloadOf :
    (o : JsonObject) (e : Envelope) → object_envelope o ≡ ok e → IsPayloadOf e (object o)
object_envelope-IsPayloadOf o e h =
    let (same, none_given) = object_envelope-IsNoData o e h in
    subst (λ (x : Envelope). IsPayloadOf x (object o)) (sym same) (refl, none_given)

envelope-IsPayloadOf :
    (v : JsonValue) (e : Envelope) → parse_candlestick_envelope v ≡ ok e → IsPayloadOf e v
unfolding parse_candlestick_envelope
envelope-IsPayloadOf (array a) e h = array_envelope-IsPayloadOf a e h
envelope-IsPayloadOf (object o) e h = object_envelope-IsPayloadOf o e h
envelope-IsPayloadOf null e h = absurd (cc)
envelope-IsPayloadOf (bool b) e h = absurd (cc)
envelope-IsPayloadOf (int z) e h = absurd (cc)
envelope-IsPayloadOf (decimal d) e h = absurd (cc)
envelope-IsPayloadOf (str t) e h = absurd (cc)

not_given : (v : Option JsonValue) → (v ≡ none) ⊎ (v ≡ some null) → is_given v ≡ false
not_given v (inl e) = rw e refl
not_given v (inr e) = rw e refl

IsNoData-envelope : (o : JsonObject) → IsNoData o → object_envelope o ≡ ok (no_data o)
unfolding object_envelope same_text
IsNoData-envelope o n =
    rw (n.status, n.successful, n.code_http, not_given (get (codes "message_error") o) n.message)
      refl

IsPayloadOf-envelope :
    (v : JsonValue) (e : Envelope) → IsPayloadOf e v → parse_candlestick_envelope v ≡ ok e
unfolding parse_candlestick_envelope
IsPayloadOf-envelope v (no_data o) (same, n) = rw same (IsNoData-envelope o n)
IsPayloadOf-envelope v (candlesticks []) (same, n) = absurd (omega arith)
IsPayloadOf-envelope v (candlesticks (o ∷ os)) (same, n) = rw (same, rows_of-array_of os) refl

-- An envelope is returned exactly for its payload: candlesticks for an array of exactly these objects,
-- at least one, and no data for an object that says so in its status, with success, the code 200 and
-- no message.
pub parse_candlestick_envelope_iff :
    (v : JsonValue) (e : Envelope) → (parse_candlestick_envelope v ≡ ok e) ↔ IsPayloadOf e v
parse_candlestick_envelope_iff v e = (envelope-IsPayloadOf v e, IsPayloadOf-envelope v e)
