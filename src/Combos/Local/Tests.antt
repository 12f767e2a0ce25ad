-- ===== src/Combos/Local/Tests.antt =====
-- A combo that has drifted, on a server that adds a key and gives ids of its own.
use mathlib.Core.Path.{subst}
use mathlib.Core.Option
use llm_env.Prelude.{◌≡◌, refl, ap, sym, ◌∙◌, false, Option, none, some, List, [], ◌∷◌}
use llm_env.Json.{Value, null, text, array, object, nil, item, Fields, end, field, set_key, get}
use llm_env.Config.Raw.Values.{Floats}
use llm_env.Combos.Local.{
  local_combo_payload, dicts, LocalRequest, put, LocalAction, updated, unchanged, connection_id,
  find_local, ensure_local_combo, after_request, is_done, member_id,
}
use llm_env.Combos.Local.Matches.{IsLocal, Keeps}
use llm_env.Combos.Local.Owned.{Stores, payload_of, ensure_local_combo-IsLocal}

abbrev no_floats : Floats
no_floats = record { order = λ s n. none; is_finite = λ s. false }

abbrev renumber : Option Value → Value
renumber (some (array (item (object m) ms))) =
    array (item (object (set_key "id" (text "m-1") m)) nil)
renumber _ = null

abbrev stored : Fields → Fields
stored p =
    field "config" (object end)
      (field "id" (text "7") (set_key "models" (renumber (get "models" p)) p))

abbrev listing_of : Fields → Value
listing_of combo = object (field "combos" (array (item null (item (object combo) nil))) end)

abbrev server : LocalRequest → Value → Value
server r listing = listing_of (stored (payload_of r))

abbrev connections : List Fields
connections =
    field "name" (text "other") end
    ∷ field "name" (text "llm-env-local") (field "id" (text "c1") end)
    ∷ []

abbrev drifted : Value
drifted = listing_of (
    field "id" (text "7") (
      field "name" (text "my-coding-lite")
        (field "strategy" (text "random") (field "models" (array nil) end))))

is_connected : connection_id connections ≡ some "c1"
unfolding connection_id
is_connected = refl

updated_first :
    ensure_local_combo no_floats connections "qwen3.5" 32768 drifted
    ≡ (some (put (text "7") (local_combo_payload "qwen3.5" "c1" 32768)), updated)
unfolding ensure_local_combo
updated_first = refl

dotted_id : member_id "qwen3.5" "c1" ≡ "my-coding-lite-model-1-llama-cpp-qwen3-5-c1"
dotted_id = refl

abbrev payload : Fields
payload = local_combo_payload "qwen3.5" "c1" 32768

stored-Keeps : Keeps payload (stored payload)
unfolding local_combo_payload dicts
stored-Keeps = record {
  keeps_strategy = refl;
  keeps_context = refl;
  keeps_members = (
    record {
      keeps_model = refl;
      keeps_provider = refl;
      keeps_connection = refl;
      keeps_label = refl;
    },
    refl,
  );
}

stored_found :
    (p : Fields) → p ≡ payload → find_local (listing_of (stored p)) ≡ some (some (stored p))
unfolding find_local local_combo_payload
stored_found p e = rw e refl

server-Stores :
    Stores server drifted (ensure_local_combo no_floats connections "qwen3.5" 32768 drifted).0
server-Stores r h =
    let sent : some (put (text "7") payload) ≡ some r =
      ap (λ (x : Option LocalRequest × LocalAction). x.0) (sym updated_first) ∙ h in
    let same : payload_of r ≡ payload =
      ap payload_of (sym (Option.some-injective (put (text "7") payload) r sent)) in
    (
      stored (payload_of r),
      stored_found (payload_of r) same,
      subst (λ p. Keeps p (stored p)) (sym same) stored-Keeps,
    )

ensure_local_combo-IsLocal_example :
    let now =
      after_request server drifted
        (ensure_local_combo no_floats connections "qwen3.5" 32768 drifted).0 in
    (combo : Fields) × (find_local now ≡ some (some combo))
    × IsLocal no_floats "qwen3.5" "c1" 32768 combo
    × (ensure_local_combo no_floats connections "qwen3.5" 32768 now ≡ (none, unchanged))
ensure_local_combo-IsLocal_example =
    ensure_local_combo-IsLocal no_floats server connections "qwen3.5" "c1" 32768 drifted
      is_connected (ap (λ (x : Option LocalRequest × LocalAction). is_done x.1) updated_first)
      server-Stores
