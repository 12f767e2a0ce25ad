-- ===== src/Config/Migrate.antt =====
-- pylib/config.py: `migrate_config`, as the list of its statements, each about one key of a dict. A section is an object of its own:
-- no two keys hold the same dict.
pub mod Steps
pub mod Again
pub mod View
mod Tests
use Prim.Native.String.{String}
use llm_env.Prelude.{ℕ, Bool, true, false, min, Option, none, some, List, [], ◌∷◌, is_some}
use llm_env.Prelude.Int.{pos}
use llm_env.Json.{
  Value, boolean, integer, text, array, object, Items, nil, item, Fields, end, field, get, set_key,
}
use llm_env.Config.Raw.Values.{is_positive}
use llm_env.Config.Migrate.Steps.{Step, default, change, drop, run, on_dict, on_list, on_values}

abbrev number : ℕ → Value
number n = integer (pos n)

-- `min(ctx_size, 8192)`, if the context is a positive integer
unfoldable pub output_limit : Option Value → Option Value
output_limit (some (integer (pos (ℕ.suc n)))) = some (number (min (ℕ.suc n) 8192))
output_limit _ = none

-- One entry of `models`, that is a mapping.
unfoldable pub limit_model : Fields → Fields
unfolding output_limit
limit_model model = elim (get "client_max_output_tokens" model) [
  | some v ↦ model
  | none ↦ elim (output_limit (get "ctx_size" model)) [
    | none ↦ model
    | some v ↦ set_key "client_max_output_tokens" v model
  ]
]

unfoldable pub limit_models : Items → Items
unfolding limit_model
limit_models nil = nil
limit_models (item (object model) ms) = item (object (limit_model model)) (limit_models ms)
limit_models (item v ms) = item v (limit_models ms)

abbrev pub runtime_steps : List Step
runtime_steps = default "parallel_slots" (number 1) ∷ default "ubatch_size" (number 512) ∷ []

abbrev pub llm_server_steps : List Step
llm_server_steps =
    default "cpus" (number 0)
    ∷ default "memory_mib" (number 0)
    ∷ default "memory_ceiling_pct" (number 46)
    ∷ default "memory_ceiling_floor_pct" (number 30)
    ∷ default "cpu_ceiling_pct" (number 60)
    ∷ default "cpu_ceiling_floor_pct" (number 20)
    ∷ []

abbrev pub override_steps : List Step
override_steps = drop "memory_max_evidence" ∷ []

abbrev pub resources_steps : List Step
resources_steps =
    default "llm_server" (object end)
    ∷ change "llm_server" (on_dict (run llm_server_steps))
    ∷ drop "omniroute"
    ∷ drop "remote_setup"
    ∷ drop "phoenix"
    ∷ drop "system_one"
    ∷ change "overrides" (on_dict (on_values (on_dict (run override_steps))))
    ∷ []

abbrev pub omniroute_steps : List Step
omniroute_steps =
    default "image" (text "docker.io/diegosouzapw/omniroute:latest")
    ∷ default "port" (number 20128)
    ∷ default "initial_password" (text "")
    ∷ []

abbrev pub remote_setup_steps : List Step
remote_setup_steps =
    default "image" (text "docker.io/library/python:3.13-alpine")
    ∷ default "port" (number 20130)
    ∷ []

abbrev pub llm_server_enabled_steps : List Step
llm_server_enabled_steps = default "enabled" (boolean true) ∷ []

abbrev pub system_one_steps : List Step
system_one_steps =
    default "enabled" (boolean false)
    ∷ default "port" (number 8010)
    ∷ default "image" (text "localhost/llm-env-system-one:rocm")
    ∷ default "models" (text "english,multilingual")
    ∷ default "vram_reserve_mib" (number 5120)
    ∷ default "idle_unload_seconds" (number 600)
    ∷ []

-- `gpu.get("vram_total_mib", 0)`
abbrev pub total_mib : Option Value → Value
total_mib none = number 0
total_mib (some v) = v

abbrev pub gpu_steps : Value → List Step
gpu_steps total =
    default "vram_budget_ceiling_pct" (number 95)
    ∷ default "vram_budget_ceiling_mib" total
    ∷ default "vram_budget_ceiling_floor_pct" (number 30)
    ∷ drop "benchmark"
    ∷ []

unfoldable pub migrate_gpu : Fields → Fields
migrate_gpu gpu = run (gpu_steps (total_mib (get "vram_total_mib" gpu))) gpu

abbrev pub config_steps : List Step
config_steps =
    change "runtime" (on_dict (run runtime_steps))
    ∷ change "models" (on_list limit_models)
    ∷ default "resources" (object end)
    ∷ change "resources" (on_dict (run resources_steps))
    ∷ default "omniroute" (object end)
    ∷ change "omniroute" (on_dict (run omniroute_steps))
    ∷ default "remote_setup" (object end)
    ∷ change "remote_setup" (on_dict (run remote_setup_steps))
    ∷ default "llm_server" (object end)
    ∷ change "llm_server" (on_dict (run llm_server_enabled_steps))
    ∷ default "system_one" (object end)
    ∷ change "system_one" (on_dict (run system_one_steps))
    ∷ change "gpu" (on_dict migrate_gpu)
    ∷ []

-- `migrate_config`
unfoldable pub migrate_config : Fields → Fields
migrate_config = run config_steps
