-- ===== src/Config/Migrate/Tests.antt =====
-- A configuration of an earlier version.
use llm_env.Prelude.{ℕ, ◌≡◌, refl, true, some}
use llm_env.Prelude.Int.{pos}
use llm_env.Json.{Value, boolean, integer, text, array, object, nil, item, Fields, end, field, get}
use llm_env.Config.Raw.View.{view}
use llm_env.Config.Migrate.{limit_model, output_limit, migrate_gpu, migrate_config}
use llm_env.Config.Migrate.Steps.{run, apply}
use llm_env.Config.Migrate.Again.{migrate_config-again}
use llm_env.Config.Migrate.View.{migrate_config-view}

abbrev number : ℕ → Value
number n = integer (pos n)

abbrev old_model : Fields
old_model =
    field "alias" (text "a") (field "ctx_size" (number 9000) (field "enabled" (boolean true) end))

abbrev old_config : Fields
old_config =
    field "gpu" (object (field "vram_total_mib" (number 16000) (field "benchmark" (number 3) end)))
      (field "models" (array (item (object old_model) nil))
        (field "resources" (object (field "phoenix" (object end) end)) end))

gpu_migrated :
    get "gpu" (migrate_config old_config)
    ≡ some (
        object (
          field "vram_total_mib" (number 16000) (
            field "vram_budget_ceiling_pct" (number 95) (
              field "vram_budget_ceiling_mib"
                (number 16000)
                (field "vram_budget_ceiling_floor_pct" (number 30) end)))))
unfolding migrate_config run apply migrate_gpu
gpu_migrated = refl

output_limited :
    limit_model old_model
    ≡ field "alias" (text "a") (
        field "ctx_size"
          (number 9000)
          (field "enabled" (boolean true) (field "client_max_output_tokens" (number 8192) end)))
unfolding limit_model output_limit
output_limited = refl

migrate_config-again_example :
    migrate_config (migrate_config old_config) ≡ migrate_config old_config
migrate_config-again_example = migrate_config-again old_config

migrate_config-view_example : view (migrate_config old_config) ≡ view old_config
migrate_config-view_example = migrate_config-view old_config
