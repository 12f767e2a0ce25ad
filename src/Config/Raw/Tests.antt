-- ===== src/Config/Raw/Tests.antt =====
-- A small configuration without errors.
use llm_env.Prelude.{ℕ, ◌≡◌, refl, true, false, Option, none, List, [], ◌∷◌}
use llm_env.Prelude.Int.{pos}
use llm_env.Json.{Value, boolean, integer, text, array, object, nil, item, Fields, end, field, get}
use llm_env.Config.{ok, sync_models_max}
use llm_env.Config.Raw.Values.{Problem, at, Floats, concat, equals, is_positive, is_budget}
use llm_env.Config.Raw.{llm_server_enabled, validate_config}
use llm_env.Config.Raw.Valid.{Usable, validate_config-Usable}
use llm_env.Config.Raw.View.{view, validate_config-synced}

abbrev no_floats : Floats
no_floats = record { order = λ s n. none; is_finite = λ s. false }

abbrev no_overrides : Option Value → List Problem
no_overrides v = []

abbrev number : ℕ → Value
number n = integer (pos n)

abbrev small_model : Fields
small_model = field "alias" (text "small") (
    field "label" (text "Small") (
      field "parameters" (text "4B") (
        field "quantization" (text "Q4") (
          field "enabled" (boolean true) (
            field "file" (text "small.gguf") (
              field "url" (text "https") (
                field "size_bytes" (number 10) (
                  field "vram_budget" (text "55%") (
                    field "ctx_size" (number 8) (
                      field "client_max_output_tokens" (number 4)
                        (field "n_gpu_layers" (number 9) end)))))))))))

abbrev small_gpu : Fields
small_gpu =
    field "backend" (text "vulkan")
      (field "vram_total_mib" (number 100) (field "reserve_mode" (text "auto") end))

abbrev small_runtime : Fields
small_runtime =
    field "models_max" (number 1)
      (field "parallel_slots" (number 1) (field "ubatch_size" (number 5) end))

abbrev small_config : Fields
small_config = field "version" (number 1) (
    field "server" (object end) (
      field "gpu" (object small_gpu) (
        field "runtime" (object small_runtime)
          (field "models" (array (item (object small_model) nil)) end))))

abbrev without_runtime : Fields
without_runtime = field "version" (number 1) (field "server" (object end) end)

small_config-valid : validate_config no_floats no_overrides small_config ≡ []
unfolding validate_config concat equals is_positive is_budget
small_config-valid = refl

validate_config-Usable_example : Usable small_config
validate_config-Usable_example =
    validate_config-Usable no_floats no_overrides small_config small_config-valid

sections_missing :
    validate_config no_floats no_overrides without_runtime
    ≡ at "gpu" ∷ at "runtime" ∷ at "models" ∷ []
unfolding validate_config concat equals
sections_missing = refl

small_config-enabled : llm_server_enabled (get "llm_server" small_config) ≡ true
unfolding llm_server_enabled
small_config-enabled = refl

validate_config-synced_example : sync_models_max (view small_config) ≡ ok (view small_config)
validate_config-synced_example =
    validate_config-synced no_floats no_overrides small_config small_config-valid
      small_config-enabled
