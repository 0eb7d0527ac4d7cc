-- ===== src/Ingestion/Transitions/Merge.antt =====
-- What `metadata || patch` of repositories/ingestion_batch_repository.py holds under a key.
use bisfin.Base.Texts.{Text, same_text_sound}
use bisfin.Ingestion.Transitions.{merge}
use bisfin.Brsapi.Json.{get, JsonValue, JsonObject, member, empty_object}
use bisfin.Base.{Option, some, none, ◌≡◌, refl, sym, arith}

abbrev pub or_old : Option JsonValue → Option JsonValue → Option JsonValue
or_old none old = old
or_old (some v) old = some v

-- The patch goes first.
pub get-merge : (k : Text) (o p : JsonObject) → get k (merge o p) ≡ or_old (get k p) (get k o)
unfolding get merge
get-merge k empty_object p = sym (or_old_none (get k p))
  where
    or_old_none : (v : Option JsonValue) → or_old v none ≡ v
    or_old_none none = refl
    or_old_none (some v) = refl
get-merge k (member j v o) p = ground (arith, get-merge k o p, same_text_sound j k)
