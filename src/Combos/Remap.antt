-- ===== src/Combos/Remap.antt =====
-- After a remap no member points at a connection that does not exist.
use llm_env.Prelude.{◌≡◌, ◌⊎◌, refl, Option, none, some, String, List, [], ◌∷◌, All, inl, inr}
use llm_env.Combos.{
  Member, Entry, member, opaque, Connection, live_id, reconnect, remap_member, remap_entries,
}

-- A member with no connection, or with the live one of its provider and label.
abbrev pub IsLive : List Connection → Member → Type 0
IsLive cs m =
    (m.connection_id ≡ none)
    ⊎ ((provider : String) × ((label : String) × ((m.provider_id ≡ some provider)
            × ((m.label ≡ some label) × (m.connection_id ≡ live_id provider label cs)))))

abbrev pub IsLiveEntry : List Connection → Entry → Type 0
IsLiveEntry cs (member m) = IsLive cs m
IsLiveEntry cs (opaque text) = Unit

reconnect-IsLive :
    (cs : List Connection) (m : Member) (p l : String) (o : Option String)
    → m.provider_id ≡ some p
    → m.label ≡ some l
    → o ≡ live_id p l cs
    → IsLive cs (reconnect m o).0
reconnect-IsLive cs m p l none hp hl e = inl refl
reconnect-IsLive cs m p l (some id) hp hl e = inr (p, (l, (hp, (hl, e))))

remap_member-IsLive : (cs : List Connection) (m : Member) → IsLive cs (remap_member cs m).0
unfolding remap_member
remap_member-IsLive cs m = by_fields m.connection_id m.provider_id m.label
  where
    by_fields :
        (c p l : Option String)
        → IsLive cs (remap_member cs (record m { connection_id = c; provider_id = p; label = l })).0
    by_fields none p l = inl refl
    by_fields (some stale) none l = inl refl
    by_fields (some stale) (some p) none = inl refl
    by_fields (some stale) (some p) (some l) =
        reconnect-IsLive cs
          (record m { connection_id = some stale; provider_id = some p; label = some l }) p l
          (live_id p l cs) refl refl refl

-- Every member that the remap of a combo leaves has no connection, or the live connection of its
-- provider and label.
pub remap_entries-IsLive :
    (cs : List Connection) (entries : List Entry)
    → All (IsLiveEntry cs) (remap_entries cs entries).0
unfolding remap_entries
remap_entries-IsLive cs [] = tt
remap_entries-IsLive cs (opaque text ∷ rest) = (tt, remap_entries-IsLive cs rest)
remap_entries-IsLive cs (member m ∷ rest) = (remap_member-IsLive cs m, remap_entries-IsLive cs rest)
