-- ===== src/Combos/Local.antt =====
-- pylib/omniroute_combos.py, `ensure_local_combo`: the one combo that the tool owns, on the documents that
-- OmniRoute sends and gets. What OmniRoute lists after a request is up to a server, an argument of `after_request`.
pub mod Matches
pub mod Owned
mod Tests
use Prim.Native.Char.{Char}
use Prim.Native.String.{String}
use llm_env.Prelude.{
  ℕ, Bool, true, false, not, ◌&&◌, ◌||◌, Option, none, some, List, [], ◌∷◌, map, is_some, str_eq,
  str_mem, if◌then◌else◌,
}
use llm_env.Prelude.Chars.{same_char, append_text, is_empty}
use llm_env.Prelude.Int.{pos}
use llm_env.Json.{
  Value, null, integer, text, array, object, Items, nil, item, Fields, end, field, get,
}
use llm_env.Config.Raw.Values.{Floats, equals}

abbrev pub local_combo_name : String
local_combo_name = "my-coding-lite"

-- `alias.replace('.', '-')`
abbrev pub dash_dots : String → String
dash_dots String.[] = String.[]
dash_dots (String.◌∷◌ c s) = String.◌∷◌ (if same_char c "." then "-" else c) (dash_dots s)

abbrev pub member_id : String → String → String
member_id alias connection_id = append_text local_combo_name (
    append_text "-model-1-llama-cpp-"
      (append_text (dash_dots alias) (append_text "-" connection_id)))

-- The member of the payload.
abbrev pub local_member : String → String → Fields
local_member alias connection_id = field "id" (text (member_id alias connection_id)) (
    field "kind" (text "model") (
      field "model" (text (append_text "llama-cpp/" alias)) (
        field "providerId" (text "llama-cpp") (
          field "connectionId" (text connection_id)
            (field "weight" (integer (pos 0)) (field "label" (text "llm-env-local") end))))))

-- `local_combo_payload`
unfoldable pub local_combo_payload : String → String → ℕ → Fields
local_combo_payload alias connection_id context_length = field "name" (text local_combo_name) (
    field "strategy" (text "priority") (
      field "models" (array (item (object (local_member alias connection_id)) nil))
        (field "context_length" (integer (pos context_length)) end)))

abbrev pub member_keys : List String
member_keys = "model" ∷ "providerId" ∷ "connectionId" ∷ "label" ∷ []

-- The mappings of a list.
unfoldable pub dicts : Items → List Fields
dicts nil = []
dicts (item (object m) ms) = m ∷ dicts ms
dicts (item v ms) = dicts ms

-- `combo.get("models") or []`, of which what is no list has no mappings; a number or True, which raise, are not sent.
abbrev pub list_of : Option Value → Items
list_of (some (array ms)) = ms
list_of _ = nil

abbrev pub models_of : Fields → Items
models_of combo = list_of (get "models" combo)

-- `_members`
unfoldable pub members : Fields → List (List (Option Value))
unfolding dicts
members combo = map (λ m. map (λ k. get k m) member_keys) (dicts (models_of combo))

abbrev pub is_text : String → Option Value → Bool
is_text t (some (text s)) = str_eq s t
is_text t _ = false

abbrev is_none : Option Value → Bool
is_none none = true
is_none (some null) = true
is_none _ = false

-- `a == b`, where the second is of the payload: a text, a whole number, or None
unfoldable pub same_value : Floats → Option Value → Option Value → Bool
unfolding equals
same_value fl a none = is_none a
same_value fl a (some (text t)) = is_text t a
same_value fl a (some (integer (pos n))) = equals fl n a
same_value fl a (some v) = false

unfoldable pub same_values : Floats → List (Option Value) → List (Option Value) → Bool
unfolding same_value
same_values fl [] [] = true
same_values fl (a ∷ us) (b ∷ vs) = same_value fl a b && same_values fl us vs
same_values fl _ _ = false

-- `_members(existing) == _members(desired)`
unfoldable pub same_members :
    Floats → List (List (Option Value)) → List (List (Option Value)) → Bool
unfolding same_values
same_members fl [] [] = true
same_members fl (m ∷ ms) (n ∷ ns) = same_values fl m n && same_members fl ms ns
same_members fl _ _ = false

-- `scalars`: the loop over the items of the payload
unfoldable pub same_scalars : Floats → Fields → Fields → Bool
unfolding same_value
same_scalars fl existing end = true
same_scalars fl existing (field k v fs) =
    (str_mem k ("name" ∷ "models" ∷ []) || same_value fl (get k existing) (some v))
    && same_scalars fl existing fs

-- `_matches`
unfoldable pub matches : Floats → Fields → Fields → Bool
unfolding same_scalars same_members members
matches fl existing desired =
    same_scalars fl existing desired && same_members fl (members existing) (members desired)

-- POST, and PUT with the id of the combo
pub data LocalRequest : Type 0 where
  post : Fields → LocalRequest
  put : Value → Fields → LocalRequest

-- `bad_listing` is the error of a listing without combos, `no_id` the KeyError of a combo without an id.
pub data LocalAction : Type 0 where
  skipped created unchanged updated bad_listing no_id : LocalAction

-- The combo is there, as it should be.
abbrev pub is_done : LocalAction → Bool
is_done created = true
is_done unchanged = true
is_done updated = true
is_done _ = false

abbrev pub is_named : String → Fields → Bool
is_named name fs = elim (get "name" fs) [ some (text s) ↦ str_eq s name | _ ↦ false ]

-- `find_connection`
unfoldable pub find_connection : List Fields → Option Fields
find_connection [] = none
find_connection (c ∷ cs) =
    let rest = find_connection cs in if is_named "llm-env-local" c then some c else rest

-- The id of the connection, if it is a text that is not empty.
abbrev pub text_id : Option Value → Option String
text_id (some (text s)) = if is_empty s then none else some s
text_id _ = none

abbrev pub id_of : Option Fields → Option String
id_of none = none
id_of (some c) = text_id (get "id" c)

unfoldable pub connection_id : List Fields → Option String
unfolding find_connection
connection_id cs = id_of (find_connection cs)

-- The first combo of the name.
unfoldable pub first_named : List Fields → Option Fields
first_named [] = none
first_named (c ∷ cs) =
    let rest = first_named cs in if is_named local_combo_name c then some c else rest

-- `existing`; `none` is a listing without combos.
abbrev pub combos_of : Option Value → Option Items
combos_of (some (array cs)) = some cs
combos_of _ = none

abbrev pub listed_combos : Value → Option Items
listed_combos (object fs) = combos_of (get "combos" fs)
listed_combos _ = none

unfoldable pub find_local : Value → Option (Option Fields)
unfolding dicts first_named
find_local listing = elim (listed_combos listing) [
  | none ↦ none
  | some cs ↦ some (first_named (dicts cs))
]

abbrev pub overwrite : Fields → Option Value → Option LocalRequest × LocalAction
overwrite desired none = (none, no_id)
overwrite desired (some id) = (some (put id desired), updated)

-- What is done for the combo of that name.
abbrev pub bring : Floats → Fields → Option (Option Fields) → Option LocalRequest × LocalAction
bring fl desired none = (none, bad_listing)
bring fl desired (some none) = (some (post desired), created)
bring fl desired (some (some existing)) =
    if matches fl existing desired then (none, unchanged) else overwrite desired (get "id" existing)

abbrev pub ensure_for :
    Floats → Option String → String → ℕ → Value → Option LocalRequest × LocalAction
ensure_for fl none alias context_length listing = (none, skipped)
ensure_for fl (some cid) alias context_length listing =
    bring fl (local_combo_payload alias cid context_length) (find_local listing)

-- `ensure_local_combo`, with the connections and the listing that OmniRoute answers: the request that it sends, if it sends one.
unfoldable pub ensure_local_combo :
    Floats → List Fields → String → ℕ → Value → Option LocalRequest × LocalAction
unfolding connection_id local_combo_payload find_local matches
ensure_local_combo fl connections alias context_length listing =
    ensure_for fl (connection_id connections) alias context_length listing

-- What OmniRoute lists after the request.
abbrev pub after_request : (LocalRequest → Value → Value) → Value → Option LocalRequest → Value
after_request server listing none = listing
after_request server listing (some r) = server r listing
