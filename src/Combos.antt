-- ===== src/Combos.antt =====
-- pylib/omniroute_combos.py: restoring the combos of a backup file. The values of fields that are only
-- copied are texts. Every request is answered; one that raises ends the run after the requests before.
pub mod Remap
pub mod Restore
pub mod Local
mod Tests
use llm_env.Prelude.{
  ℕ, ◌+◌, Bool, true, false, not, ◌&&◌, Option, none, some, String, List, [], ◌∷◌, ◌++◌, keep,
  lookup, insert, is_some, str_eq, str_mem, if◌then◌else◌,
}

-- A member of a combo that is a mapping; an empty `connectionId` counts as none.
pub record Member : Type 0 where
  pub model : Option String
  pub provider_id : Option String
  pub label : Option String
  pub connection_id : Option String

pub data Entry : Type 0 where
  member : Member → Entry
  opaque : String → Entry

-- `models` may be missing; a null counts as an empty list.
pub record Combo : Type 0 where
  pub name : Option String
  pub models : Option (List Entry)
  pub fields : List (String × String)

-- A live connection with its three texts.
pub record Connection : Type 0 where
  pub provider : String
  pub name : String
  pub id : String

-- `connection_index.get((provider, label))`: the last connection of these two texts.
unfoldable pub live_id : String → String → List Connection → Option String
live_id provider label [] = none
live_id provider label (c ∷ cs) = elim (live_id provider label cs) [
  | some id ↦ some id
  | none ↦ if str_eq c.provider provider && str_eq c.name label then some c.id else none
]

abbrev pub live_of : Option String → Option String → List Connection → Option String
live_of (some provider) (some label) cs = live_id provider label cs
live_of _ _ cs = none

abbrev pub reconnect : Member → Option String → Member × List Member
reconnect m (some id) = (record m { connection_id = some id }, [])
reconnect m none = (record m { connection_id = none }, record m { connection_id = none } ∷ [])

abbrev pub remap_from : List Connection → Member → Option String → Member × List Member
remap_from cs m none = (m, [])
remap_from cs m (some stale) = reconnect m (live_of m.provider_id m.label cs)

-- One turn of the loop: the new member, and the unresolved one if it is.
unfoldable pub remap_member : List Connection → Member → Member × List Member
unfolding live_id
remap_member cs m = remap_from cs m m.connection_id

unfoldable pub remap_entries : List Connection → List Entry → List Entry × List Member
unfolding remap_member
remap_entries cs [] = ([], [])
remap_entries cs (opaque text ∷ rest) =
    let (entries, unresolved) = remap_entries cs rest in (opaque text ∷ entries, unresolved)
remap_entries cs (member m ∷ rest) =
    let (m', missed) = remap_member cs m in
    let (entries, unresolved) = remap_entries cs rest in (member m' ∷ entries, missed ++ unresolved)

-- `_remap_combo_connection_ids`
unfoldable pub remap_combo_connection_ids : List Connection → Combo → Combo × List Member
unfolding remap_entries
remap_combo_connection_ids cs combo = elim combo.models [
  | none ↦ (combo, [])
  | some entries ↦
      let (entries', unresolved) = remap_entries cs entries in
      (record combo { models = some entries' }, unresolved)
]

-- `_RESTORABLE_COMBO_FIELDS`, less `name` and `models`.
abbrev pub restorable_fields : List String
restorable_fields =
    "description" ∷ "strategy" ∷ "config" ∷ "allowedProviders" ∷ "allowedModelFamilies"
    ∷ "system_message" ∷ "tool_filter_regex" ∷ "context_cache_protection" ∷ "context_length"
    ∷ "dimensions" ∷ []

-- `_combo_payload`
unfoldable pub combo_payload : Combo → Combo
combo_payload combo = record combo {
  fields = keep (λ (f : String × String). str_mem f.0 restorable_fields) combo.fields;
}

pub data ComboRequest : Type 0 where
  post : String → Combo → ComboRequest
  put : String → Combo → ComboRequest

pub data RestoreAction : Type 0 where
  created updated skipped : RestoreAction

pub record RestoreResult : Type 0 where
  pub combo : String
  pub action : RestoreAction
  pub unresolved : List Member

-- The request and the action for a combo named `name`; `existing` maps names to ids. A post is kept
-- with the name of its combo, a put with the id.
unfoldable pub send : Bool → Option String → String → Combo → List ComboRequest × RestoreAction
send overwrite none name payload = (post name payload ∷ [], created)
send overwrite (some id) name payload =
    if overwrite then (put id payload ∷ [], updated) else ([], skipped)

-- The loop of `restore_combos`, from what the server had at its start.
unfoldable pub restore_combos :
    Bool
    → List (String × String)
    → List Connection
    → List Combo
    → List ComboRequest × List RestoreResult
unfolding remap_combo_connection_ids combo_payload send
restore_combos overwrite existing cs [] = ([], [])
restore_combos overwrite existing cs (c ∷ rest) =
    let (requests, outcomes) = restore_combos overwrite existing cs rest in
    elim c.name [
      | none ↦ (requests, outcomes)
      | some name ↦
          let (combo, unresolved) = remap_combo_connection_ids cs c in
          let (sent, action) = send overwrite (lookup name existing) name (combo_payload combo) in
          (
            sent ++ requests,
            record { combo = name; action = action; unresolved = unresolved } ∷ outcomes,
          )
    ]
