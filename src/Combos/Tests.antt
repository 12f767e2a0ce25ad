-- ===== src/Combos/Tests.antt =====
-- A backup of two combos restored to a server that has one of them.
use llm_env.Prelude.{◌≡◌, false, some, String, List, [], ◌∷◌, All}
use llm_env.Combos.{Member, member, Combo, Connection, restore_combos, remap_entries}
use llm_env.Combos.Remap.{IsLiveEntry, remap_entries-IsLive}
use llm_env.Combos.Restore.{after, restore_combos-again}

abbrev connections : List Connection
connections = record { provider = "codex"; name = "work"; id = "live-1" } ∷ []

abbrev of_label : String → Member
of_label label = record {
  model = some "codex/m";
  provider_id = some "codex";
  label = some label;
  connection_id = some "stale";
}

abbrev combo : String → Combo
combo name = record {
  name = some name;
  models = some (member (of_label "work") ∷ member (of_label "home") ∷ []);
  fields = ("strategy", "priority") ∷ ("version", "3") ∷ [];
}

abbrev existing : List (String × String)
existing = ("kept", "7") ∷ []

remap_entries-IsLive_example :
    All
      (IsLiveEntry connections)
      (remap_entries connections (member (of_label "work") ∷ member (of_label "home") ∷ [])).0
remap_entries-IsLive_example =
    remap_entries-IsLive connections (member (of_label "work") ∷ member (of_label "home") ∷ [])

restore_combos-again_example :
    (restore_combos false
      (after
        (λ n. "9")
        (restore_combos false existing connections (combo "new" ∷ combo "kept" ∷ [])).0
        existing)
      []
      (combo "new" ∷ combo "kept" ∷ [])).0
    ≡ []
restore_combos-again_example =
    restore_combos-again (λ n. "9") existing connections [] (combo "new" ∷ combo "kept" ∷ [])
