-- ===== src/Update/Literal.antt =====
-- pylib/omniroute_update.py, `to_runtime_literal`: the reading of the provider's output as the values that run. Python's `str` of a value
-- that is no text and SHA-256 are arguments.
pub mod Escape
use Prim.Native.Char.{Char}
use Prim.Native.String.{String}
use llm_env.Prelude.{
  Bool, true, false, not, ◌&&◌, ◌||◌, Option, none, some, List, [], ◌∷◌, map, any, all, lookup,
  insert, str_eq, str_mem, is_some, if◌then◌else◌,
}
use llm_env.Prelude.Chars.{before_char, after_char, has_char, is_empty, append_text, is_prefix}
use llm_env.Deferral.{Reason}
use llm_env.Json.{
  Value, null, boolean, integer, real, text, array, object, Items, nil, item, Fields, end, field,
  get, items_list, set_key, keep_fields,
}
use llm_env.Json.Dollar.{double_dollars, escape, unescape}
use llm_env.Update.Documents.{
  Outcome, done, update_error, deferral, broken, ◌>>=◌, ◌>>◌, reject, is_falsy, dict_get,
  or_empty_dict,
}
use llm_env.Update.Snapshot.Texts.{keys, sort_texts}

abbrev pub Env : Type 0
Env = List (String × String)

-- `str(v)`
abbrev pub str_of : (Value → String) → Value → String
str_of other (text s) = s
str_of other v = other v

-- `"" if v is None else str(v)`
abbrev pub env_value : (Value → String) → Value → String
env_value other null = ""
env_value other v = str_of other v

unfoldable pub env_of_fields : (Value → String) → Fields → Env
env_of_fields other end = []
env_of_fields other (field k v fs) = (k, env_value other v) ∷ env_of_fields other fs

-- `key, _, value = s.partition("=")`, for each of the texts: a later one wins.
unfoldable pub env_of_texts : Env → List String → Env
env_of_texts env [] = env
env_of_texts env (s ∷ ss) = env_of_texts (insert (before_char "=" s) (after_char "=" s) env) ss

abbrev char_texts : String → List String
char_texts String.[] = []
char_texts (String.◌∷◌ c s) = String.◌∷◌ c String.[] ∷ char_texts s

-- `_env_dict`
unfoldable pub env_dict : (Value → String) → Option Value → Outcome Env
unfolding env_of_fields env_of_texts
env_dict other (some (object fs)) = done (env_of_fields other fs)
env_dict other (some (array vs)) = done (env_of_texts [] (map (str_of other) (items_list vs)))
env_dict other (some (text s)) = done (env_of_texts [] (char_texts s))
env_dict other v = if is_falsy v then done [] else broken

-- `_same_value`
unfoldable pub same_value : (String → String) → String → Option String → Bool
unfolding double_dollars
same_value sha value none = false
same_value sha value (some actual) =
    str_eq (sha value) (sha actual) || str_eq (sha value) (sha (double_dollars actual))

-- The set `forms`.
pub record Forms : Type 0 where
  pub plain : Bool
  pub escaped : Bool

abbrev pub add_form : String → String → Forms → Forms
add_form value actual f =
    if has_char "$" actual
    then (if str_eq value actual then record f { plain = true } else record f { escaped = true })
    else f

abbrev pub note_form : (String → String) → String → Option String → Forms → Forms
note_form sha value none f = f
note_form sha value (some actual) f =
    if same_value sha value (some actual) then add_form value actual f else f

-- The loop over the environment of the service.
unfoldable pub forms_of : (String → String) → Env → Forms → Env → Forms
forms_of sha running f [] = f
forms_of sha running f ((k, value) ∷ env) =
    forms_of sha running (note_form sha value (lookup k running) f) env

-- `any("$" in s for s in _strings(v))`
unfoldable mutual
  pub has_dollar : Value → Bool
  has_dollar (text s) = has_char "$" s
  has_dollar (array vs) = items_dollar vs
  has_dollar (object fs) = fields_dollar fs
  has_dollar _ = false

  pub items_dollar : Items → Bool
  items_dollar nil = false
  items_dollar (item v vs) = has_dollar v || items_dollar vs

  pub fields_dollar : Fields → Bool
  fields_dollar end = false
  fields_dollar (field k v fs) = has_dollar v || fields_dollar fs

-- What follows the loop.
unfoldable pub literal_of : Fields → Forms → Outcome Fields
unfolding has_dollar unescape
literal_of svc f =
    if f.plain && f.escaped
    then deferral Reason.input
    else if f.escaped
    then (elim (unescape (object svc)) [ object fs ↦ done fs | _ ↦ broken ])
    else if not f.plain && has_dollar (object svc)
    then deferral Reason.input
    else done svc

-- `to_runtime_literal`, of a service and the environment of the inspected container
unfoldable pub to_runtime_literal :
    (Value → String) → (String → String) → Fields → Option Value → Outcome Fields
unfolding env_dict forms_of literal_of
to_runtime_literal other sha svc inspect_env = do
  running ← env_dict other inspect_env
  env ← env_dict other (get "environment" svc)
  literal_of svc (forms_of sha running (record { plain = false; escaped = false }) env)
