-- ===== src/Update/Projection.antt =====
-- pylib/omniroute_update.py, `build_projection`: the compose file that recreates one service.
pub mod Volumes
pub mod Networks
pub mod Core
mod Tests
use Prim.Native.Char.{Char}
use Prim.Native.String.{String}
use llm_env.Prelude.{
  Bool, true, false, not, ◌&&◌, ◌||◌, Option, none, some, List, [], ◌∷◌, map, any, all, lookup,
  insert, str_eq, str_mem, is_some, if◌then◌else◌,
}
use llm_env.Prelude.Chars.{before_char, after_char, has_char, is_empty, append_text, is_prefix}
use llm_env.Deferral.{Reason}
use llm_env.Json.{
  Value, null, boolean, integer, real, text, array, object, Items, nil, item, Fields, end, field,
  get, items_list, set_key, keep_fields, drop_key,
}
use llm_env.Json.Dollar.{double_dollars, escape, unescape}
use llm_env.Update.Documents.{
  Outcome, done, update_error, deferral, broken, ◌>>=◌, ◌>>◌, reject, is_falsy, dict_get,
  or_empty_dict,
}
use llm_env.Update.Snapshot.Texts.{keys, sort_texts}
use llm_env.Update.Literal.{Env, to_runtime_literal}

-- `_core`
unfoldable pub core : Fields → Fields
core svc = keep_fields (λ k. not (str_mem k ("image" ∷ "depends_on" ∷ "networks" ∷ []))) svc

abbrev pub namespace_keys : List String
namespace_keys = "pod" ∷ "network_mode" ∷ "links" ∷ "volumes_from" ∷ []

-- `(declared.get(k) or {}).get("name") or f"{project}_{k}"`; a name is a text.
unfoldable pub network_name : Fields → String → String → Outcome String
network_name declared project k = do
  name ← dict_get (or_empty_dict (get k declared)) "name"
  done (elim name [
    | some (text s) ↦ if is_empty s then append_text project (append_text "_" k) else s
    | _ ↦ append_text project (append_text "_" k)
  ])

unfoldable pub resolve_names : Fields → String → List String → Outcome (List (String × String))
unfolding network_name
resolve_names declared project [] = done []
resolve_names declared project (k ∷ ks) = network_name declared project k >>= λ name.
    resolve_names declared project ks >>= λ rest. done ((k, name) ∷ rest)

abbrev pub field_keys : Fields → List String
field_keys end = []
field_keys (field k v fs) = k ∷ field_keys fs

abbrev text_items : Items → List String
text_items nil = []
text_items (item (text s) vs) = s ∷ text_items vs
text_items (item v vs) = text_items vs

-- `list(svc["networks"]) if svc.get("networks") else ["default"]`; the items of a list are texts.
unfoldable pub network_keys : Option Value → List String
network_keys (some (object fs)) = elim (field_keys fs) [ [] ↦ "default" ∷ [] | k ∷ ks ↦ k ∷ ks ]
network_keys (some (array vs)) = elim (items_list vs) [
  | [] ↦ "default" ∷ []
  | v ∷ rest ↦ text_items vs
]
network_keys _ = "default" ∷ []

abbrev pub object_fields : Value → Fields
object_fields (object fs) = fs
object_fields _ = end

-- `_resolved_networks`
unfoldable pub resolved_networks : Fields → Fields → String → Outcome (List (String × String))
unfolding resolve_names network_keys
resolved_networks svc effective project =
    resolve_names (object_fields (or_empty_dict (get "networks" effective))) project
      (network_keys (get "networks" svc))

-- What is read of the inspected container: its environment, the names of its networks, of its named volumes, and its bind sources.
pub record Inspected : Type 0 where
  pub env : Option Value
  pub networks : List String
  pub volumes : List String
  pub binds : List String

abbrev as_text : Option Value → String
as_text (some (text s)) = s
as_text _ = ""

abbrev is_bind : Option Value → Bool
is_bind (some (text s)) = str_eq s "bind"
is_bind _ = false

-- The source of an entry of `volumes`, and whether its type is `bind`; a mapping's `source` is a text.
unfoldable pub mount_source : Value → Outcome (String × Bool)
mount_source (text s) = done (before_char ":" s, false)
mount_source (object fs) = done (as_text (get "source" fs), is_bind (get "type" fs))
mount_source _ = broken

abbrev pub is_bind_mount : String → Bool → Bool
is_bind_mount source bound =
    bound || is_prefix "/" source || is_prefix "." source || is_prefix "~" source

abbrev pub check_bind : Inspected → String → Outcome (Unit {0})
check_bind seen source = do
  reject (not (is_prefix "/" source)) (deferral Reason.input)
  reject (not (str_mem source seen.binds)) (deferral Reason.ownership)

abbrev pub add_volume : Inspected → String → String → Env → Outcome Env
add_volume seen source name out = do
  reject (not (str_mem name seen.volumes)) (deferral Reason.ownership)
  done (insert source name out)

unfoldable pub place_mount : Inspected → Fields → String → Env → String × Bool → Outcome Env
unfolding network_name
place_mount seen declared project out (source, bound) =
    if is_bind_mount source bound
    then check_bind seen source >> done out
    else network_name declared project source >>= λ name. add_volume seen source name out

-- One turn of the loop of `_mounts`, with the volumes so far.
unfoldable pub note_mount : Inspected → Fields → String → Value → Env → Outcome Env
unfolding mount_source place_mount
note_mount seen declared project entry out =
    mount_source entry >>= place_mount seen declared project out

unfoldable pub note_mounts : Inspected → Fields → String → List Value → Env → Outcome Env
unfolding note_mount
note_mounts seen declared project [] out = done out
note_mounts seen declared project (entry ∷ entries) out =
    note_mount seen declared project entry out >>= note_mounts seen declared project entries

abbrev pub entries_of : Option Value → List Value
entries_of (some (array vs)) = items_list vs
entries_of _ = []

-- `_mounts`; `volumes` of a service is a list.
unfoldable pub mounts : Inspected → Fields → Fields → String → Outcome Env
unfolding note_mounts
mounts seen svc effective project =
    note_mounts seen (object_fields (or_empty_dict (get "volumes" effective))) project
      (entries_of (get "volumes" svc)) []

pub record Projected : Type 0 where
  pub service : Fields
  pub networks : List String
  pub volumes : Env

-- `{name: aliases.get(name, {}) for name in sorted(inspected_nets)}`
unfoldable pub attached : List (String × Value) → List String → Fields
attached aliases [] = end
attached aliases (name ∷ names) =
    field name (elim (lookup name aliases) [ none ↦ object end | some v ↦ v ])
      (attached aliases names)

-- `aliases`: by the real name of each network of the service
abbrev pub real_name : List (String × String) → String → String
real_name names k = elim (lookup k names) [ none ↦ "" | some name ↦ name ]

unfoldable pub aliases_of :
    List (String × String) → List (String × Value) → Fields → List (String × Value)
aliases_of names aliases end = aliases
aliases_of names aliases (field k v fs) =
    aliases_of names (insert (real_name names k) (or_empty_dict (some v)) aliases) fs

abbrev pub has_key : Fields → String → Bool
has_key fs k = is_some (get k fs)

abbrev pub same_set : List String → List String → Bool
same_set xs ys = all (λ x. str_mem x ys) xs && all (λ y. str_mem y xs) ys

-- The service of the projection, before its dollar signs are doubled.
unfoldable pub projected_service : Fields → Inspected → String → List (String × String) → Fields
unfolding attached aliases_of sort_texts
projected_service base seen image names =
    let aliases = aliases_of names [] (object_fields (or_empty_dict (get "networks" base))) in
    set_key "networks" (object (attached aliases (sort_texts seen.networks)))
      (drop_key "depends_on" (set_key "image" (text image) base))

abbrev pub values_of : List (String × String) → List String
values_of [] = []
values_of ((k, v) ∷ d) = v ∷ values_of d

-- What is built from the service as it runs.
unfoldable pub project_base : Fields → Inspected → String → String → Fields → Outcome Projected
unfolding resolved_networks mounts projected_service
project_base effective seen image project base = do
  reject (any (has_key base) namespace_keys) (deferral Reason.input)
  names ← resolved_networks base effective project
  reject (not (same_set (values_of names) seen.networks)) (deferral Reason.ownership)
  volumes ← mounts seen base effective project
  done (record {
    service = object_fields (escape (object (projected_service base seen image names)));
    networks = sort_texts seen.networks;
    volumes = volumes;
  })

abbrev pub service_of : Option Value → Outcome Fields
service_of none = deferral Reason.ownership
service_of (some (object svc)) = done svc
service_of (some v) = broken

-- `build_projection`
unfoldable pub build_projection :
    (Value → String)
    → (String → String)
    → Fields
    → String
    → Inspected
    → String
    → String
    → Outcome Projected
unfolding to_runtime_literal project_base
build_projection other sha effective service seen image project = do
  svc ← service_of (get service (object_fields (or_empty_dict (get "services" effective))))
  base ← to_runtime_literal other sha svc seen.env
  project_base effective seen image project base
