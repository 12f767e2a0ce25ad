-- ===== src/Config/Migrate/View.antt =====
-- What `migrate_config` keeps: the models and `models_max` that the other functions of pylib/config.py work on.
use Prim.Native.String.{String}
use llm_env.Prelude.{
  ◌≡◌, refl, ◌∙◌, ap, false, Option, none, some, Option-cases, drop, str_eq, inl, inr,
}
use llm_env.Json.{
  Value, null, boolean, integer, real, text, array, object, Items, nil, item, Fields, get,
  change_key,
}
use llm_env.Json.Keys.{get-set_key, get-change_key}
use llm_env.Config.Raw.View.{view, view_model, view_models, view_max, runtime_max, listed}
use llm_env.Config.Migrate.Steps.{run, apply, on_dict, on_list, run-other}
use llm_env.Config.Migrate.{
  output_limit, limit_model, limit_models, runtime_steps, config_steps, migrate_config,
}
use mathlib.Core.Option
use llm_env.Config.Migrate.Again.{limit_kept, limit_unknown, limit_added}

get-limit_model :
    (k : String) (model : Fields)
    → str_eq "client_max_output_tokens" k ≡ false
    → get k (limit_model model) ≡ get k model
get-limit_model k model h = elim (Option-cases (get "client_max_output_tokens" model)) [
  | inl e ↦ elim (Option-cases (output_limit (get "ctx_size" model))) [
    | inl c ↦ ap (get k) (limit_unknown model e c)
    | inr (v, c) ↦
        ap (get k) (limit_added model v e c)
        ∙ get-set_key k "client_max_output_tokens" v model
        ∙ rw h refl
  ]
  | inr (v, e) ↦ ap (get k) (limit_kept model v e)
]

view-limit_model : (model : Fields) → view_model (limit_model model) ≡ view_model model
view-limit_model model =
    rw
      (
        get-limit_model "alias" model refl,
        get-limit_model "enabled" model refl,
        get-limit_model "ctx_size" model refl,
        get-limit_model "file" model refl,
      )
      refl

view-limit_models : (ms : Items) → view_models (limit_models ms) ≡ view_models ms
unfolding limit_models
view-limit_models nil = refl
view-limit_models (item (object model) ms) = rw (view-limit_model model, view-limit_models ms) refl
view-limit_models (item null ms) = view-limit_models ms
view-limit_models (item (boolean b) ms) = view-limit_models ms
view-limit_models (item (integer n) ms) = view-limit_models ms
view-limit_models (item (real s) ms) = view-limit_models ms
view-limit_models (item (text s) ms) = view-limit_models ms
view-limit_models (item (array vs) ms) = view-limit_models ms

listed-limit_models : (o : Option Value) → listed (Option.map (on_list limit_models) o) ≡ listed o
listed-limit_models none = refl
listed-limit_models (some (array ms)) = view-limit_models ms
listed-limit_models (some null) = refl
listed-limit_models (some (boolean b)) = refl
listed-limit_models (some (integer n)) = refl
listed-limit_models (some (real s)) = refl
listed-limit_models (some (text s)) = refl
listed-limit_models (some (object fs)) = refl

max-runtime_steps :
    (o : Option Value) → runtime_max (Option.map (on_dict (run runtime_steps)) o) ≡ runtime_max o
max-runtime_steps none = refl
max-runtime_steps (some (object runtime)) =
    ap view_max (run-other "models_max" runtime_steps runtime refl)
max-runtime_steps (some null) = refl
max-runtime_steps (some (boolean b)) = refl
max-runtime_steps (some (integer n)) = refl
max-runtime_steps (some (real s)) = refl
max-runtime_steps (some (text s)) = refl
max-runtime_steps (some (array vs)) = refl

abbrev with_runtime : Fields → Fields
with_runtime = change_key "runtime" (on_dict (run runtime_steps))

listed-migrate_config :
    (cfg : Fields) → listed (get "models" (migrate_config cfg)) ≡ listed (get "models" cfg)
unfolding migrate_config run apply
listed-migrate_config cfg =
    ap listed (
      run-other "models" (drop 2 config_steps)
        (change_key "models" (on_list limit_models) (with_runtime cfg)) refl
      ∙ get-change_key "models" "models" (on_list limit_models) (with_runtime cfg)
      ∙ ap (Option.map (on_list limit_models))
          (get-change_key "models" "runtime" (on_dict (run runtime_steps)) cfg))
    ∙ listed-limit_models (get "models" cfg)

max-migrate_config :
    (cfg : Fields)
    → runtime_max (get "runtime" (migrate_config cfg)) ≡ runtime_max (get "runtime" cfg)
unfolding migrate_config run apply
max-migrate_config cfg =
    ap runtime_max (
      run-other "runtime" (drop 1 config_steps) (with_runtime cfg) refl
      ∙ get-change_key "runtime" "runtime" (on_dict (run runtime_steps)) cfg)
    ∙ max-runtime_steps (get "runtime" cfg)

-- The enabled models, their order, the context sizes and files, and `models_max` are the same after the migration, whatever the
-- document holds.
pub migrate_config-view : (cfg : Fields) → view (migrate_config cfg) ≡ view cfg
migrate_config-view cfg = rw (listed-migrate_config cfg, max-migrate_config cfg) refl
