-- ===== src/Config/Raw.antt =====
-- pylib/config.py: `validate_config` on the document that YAML gives, with keys that are texts. An error is named by its place, and the
-- order is that of the messages. How a float compares with a whole number, and the errors of `validate_overrides`, are arguments.
pub mod Values
pub mod Models
pub mod Entries
pub mod Valid
pub mod View
mod Tests
use Prim.Native.String.{String}
use llm_env.Prelude.{
  ℕ, zero, suc, ◌+◌, Bool, true, false, not, ◌&&◌, ◌||◌, ltb, ◌==◌, Option, none, some, List, [],
  ◌∷◌, ◌++◌, is_some, if◌then◌else◌,
}
use llm_env.Prelude.Int.{pos}
use llm_env.Json.{
  Value, null, boolean, integer, real, text, array, object, Items, nil, item, Fields, end, field,
  get,
}
use llm_env.Config.Raw.Values.{
  Problem, at, when, concat, Floats, is_int, is_positive, is_natural, is_dict, is_list, is_string,
  is_bool, is_filled, is_among, or_default, equals, is_percent, is_not_negative,
}
use llm_env.Config.Raw.Models.{check_members_text, check_models, count_enabled}

-- The version, and the sections that must be there.
unfoldable pub check_sections : Floats → Fields → List Problem
check_sections fl cfg = concat (
    when (not (equals fl 1 (get "version" cfg))) (at "version")
    ∷ when (not (is_some (get "server" cfg))) (at "server")
    ∷ when (not (is_some (get "gpu" cfg))) (at "gpu")
    ∷ when (not (is_some (get "runtime" cfg))) (at "runtime")
    ∷ when (not (is_some (get "models" cfg))) (at "models")
    ∷ [])

unfoldable pub check_types : Fields → List Problem
check_types cfg = concat (
    when (not (is_dict (get "server" cfg))) (at "server: a mapping")
    ∷ when (not (is_dict (get "gpu" cfg))) (at "gpu: a mapping")
    ∷ when (not (is_dict (get "runtime" cfg))) (at "runtime: a mapping")
    ∷ when (not (is_list (get "models" cfg))) (at "models: a list")
    ∷ [])

-- `gpu.get("vram_budget_ceiling_mib", gpu.get("vram_total_mib", 0))` is a non-negative integer.
abbrev pub ceiling_mib : Fields → Option Value
ceiling_mib gpu = elim (get "vram_budget_ceiling_mib" gpu) [
  | some v ↦ some v
  | none ↦ elim (get "vram_total_mib" gpu) [ some v ↦ some v | none ↦ some (integer (pos 0)) ]
]

unfoldable pub check_gpu : Floats → Fields → List Problem
check_gpu fl gpu = concat (
    when (not (is_among ("vulkan" ∷ "cpu" ∷ []) (get "backend" gpu))) (at "gpu.backend")
    ∷ when (not (is_int (get "vram_total_mib" gpu))) (at "gpu.vram_total_mib")
    ∷ when (not (is_among ("auto" ∷ "fixed" ∷ []) (get "reserve_mode" gpu))) (at "gpu.reserve_mode")
    ∷ when (not (or_default (is_percent fl) (get "vram_budget_ceiling_pct" gpu)))
        (at "gpu.vram_budget_ceiling_pct")
    ∷ when
        (is_bool (ceiling_mib gpu)
          || not (is_positive (ceiling_mib gpu) || equals fl 0 (ceiling_mib gpu)))
        (at "gpu.vram_budget_ceiling_mib")
    ∷ when (not (or_default (is_percent fl) (get "vram_budget_ceiling_floor_pct" gpu)))
        (at "gpu.vram_budget_ceiling_floor_pct")
    ∷ [])

unfoldable pub check_runtime : Floats → Fields → List Problem
check_runtime fl runtime = concat (
    when (not (is_positive (get "models_max" runtime))) (at "runtime.models_max")
    ∷ when (not (is_positive (get "parallel_slots" runtime))) (at "runtime.parallel_slots")
    ∷ when (not (is_positive (get "ubatch_size" runtime))) (at "runtime.ubatch_size")
    ∷ when (not (equals fl 1 (get "parallel_slots" runtime))) (at "runtime.parallel_slots: 1")
    ∷ [])

unfoldable pub check_llm_resources : Floats → Option Value → List Problem
check_llm_resources fl none = []
check_llm_resources fl (some (object r)) = concat (
    when (not (or_default (is_not_negative fl) (get "cpus" r))) (at "resources.llm_server.cpus")
    ∷ when (not (or_default (λ v. equals fl 0 v || is_positive v) (get "memory_mib" r)))
        (at "resources.llm_server.memory_mib")
    ∷ when (not (or_default (is_percent fl) (get "memory_ceiling_pct" r)))
        (at "resources.llm_server.memory_ceiling_pct")
    ∷ when (not (or_default (is_percent fl) (get "memory_ceiling_floor_pct" r)))
        (at "resources.llm_server.memory_ceiling_floor_pct")
    ∷ when (not (or_default (is_percent fl) (get "cpu_ceiling_pct" r)))
        (at "resources.llm_server.cpu_ceiling_pct")
    ∷ when (not (or_default (is_percent fl) (get "cpu_ceiling_floor_pct" r)))
        (at "resources.llm_server.cpu_ceiling_floor_pct")
    ∷ [])
check_llm_resources fl (some v) = at "resources.llm_server" ∷ []

unfoldable pub check_resources :
    Floats → (Option Value → List Problem) → Option Value → List Problem
unfolding check_llm_resources
check_resources fl overrides none = []
check_resources fl overrides (some (object r)) =
    concat (check_llm_resources fl (get "llm_server" r) ∷ overrides (get "overrides" r) ∷ [])
check_resources fl overrides (some v) = at "resources" ∷ []

unfoldable pub check_omniroute : Option Value → List Problem
check_omniroute none = []
check_omniroute (some (object o)) = concat (
    when (not (is_filled (get "image" o))) (at "omniroute.image")
    ∷ when (not (is_positive (get "port" o))) (at "omniroute.port")
    ∷ when (not (or_default is_string (get "initial_password" o))) (at "omniroute.initial_password")
    ∷ [])
check_omniroute (some v) = at "omniroute" ∷ []

unfoldable pub check_remote_setup : Option Value → List Problem
check_remote_setup none = []
check_remote_setup (some (object r)) = concat (
    when (not (is_filled (get "image" r))) (at "remote_setup.image")
    ∷ when (not (is_positive (get "port" r))) (at "remote_setup.port")
    ∷ [])
check_remote_setup (some v) = at "remote_setup" ∷ []

unfoldable pub check_llm_server : Option Value → List Problem
check_llm_server none = []
check_llm_server (some (object l)) =
    when (not (or_default is_bool (get "enabled" l))) (at "llm_server.enabled")
check_llm_server (some v) = at "llm_server" ∷ []

-- `llm_server_enabled`
unfoldable pub llm_server_enabled : Option Value → Bool
llm_server_enabled (some (object l)) = elim (get "enabled" l) [ some (boolean b) ↦ b | _ ↦ true ]
llm_server_enabled _ = true

unfoldable pub check_system_one : Option Value → List Problem
unfolding check_members_text
check_system_one none = []
check_system_one (some (object s)) = concat (
    when (not (or_default is_bool (get "enabled" s))) (at "system_one.enabled")
    ∷ when (not (or_default is_positive (get "port" s))) (at "system_one.port")
    ∷ when (not (or_default is_filled (get "image" s))) (at "system_one.image")
    ∷ when (not (or_default is_filled (get "models" s))) (at "system_one.models")
    ∷ when (not (or_default is_positive (get "vram_reserve_mib" s)))
        (at "system_one.vram_reserve_mib")
    ∷ when (not (or_default is_natural (get "idle_unload_seconds" s)))
        (at "system_one.idle_unload_seconds")
    ∷ check_members_text (get "models" s)
    ∷ [])
check_system_one (some v) = at "system_one" ∷ []

-- `_positive_int(models_max) and models_max > enabled_count`
unfoldable pub exceeds_enabled : Option Value → ℕ → Bool
exceeds_enabled (some (integer (pos (suc n)))) enabled = ltb enabled (suc n)
exceeds_enabled _ enabled = false

-- The end: how many models are enabled.
unfoldable pub check_enabled : Bool → Option Value → ℕ → List Problem
unfolding exceeds_enabled
check_enabled false models_max enabled = []
check_enabled true models_max enabled = concat (
    when (enabled == 0) (at "at least one model must be enabled")
    ∷ when (exceeds_enabled models_max enabled) (at "runtime.models_max exceeds the enabled models")
    ∷ [])

-- What follows the tests of the types.
unfoldable pub check_content :
    Floats → (Option Value → List Problem) → Fields → Fields → Fields → Items → List Problem
unfolding check_gpu check_runtime check_resources check_omniroute check_remote_setup
    check_llm_server check_system_one check_models check_enabled count_enabled llm_server_enabled
check_content fl overrides cfg gpu runtime nil = concat (
    check_gpu fl gpu
    ∷ check_runtime fl runtime
    ∷ check_resources fl overrides (get "resources" cfg)
    ∷ check_omniroute (get "omniroute" cfg)
    ∷ check_remote_setup (get "remote_setup" cfg)
    ∷ check_llm_server (get "llm_server" cfg)
    ∷ check_system_one (get "system_one" cfg)
    ∷ (at "models must be a non-empty list" ∷ [])
    ∷ [])
check_content fl overrides cfg gpu runtime (item m ms) = concat (
    check_gpu fl gpu
    ∷ check_runtime fl runtime
    ∷ check_resources fl overrides (get "resources" cfg)
    ∷ check_omniroute (get "omniroute" cfg)
    ∷ check_remote_setup (get "remote_setup" cfg)
    ∷ check_llm_server (get "llm_server" cfg)
    ∷ check_system_one (get "system_one" cfg)
    ∷ check_models fl 0 [] (item m ms)
    ∷ check_enabled (llm_server_enabled (get "llm_server" cfg)) (get "models_max" runtime)
        (count_enabled (item m ms))
    ∷ [])

-- The three sections that are read as they are.
abbrev pub typed :
    (Fields → Fields → Items → List Problem)
    → Option Value
    → Option Value
    → Option Value
    → List Problem
typed rest (some (object gpu)) (some (object runtime)) (some (array models)) =
    rest gpu runtime models
typed rest _ _ _ = []

-- `return errors`, or go on if there are none
abbrev pub or_continue : List Problem → List Problem → List Problem
or_continue [] rest = rest
or_continue (p ∷ ps) rest = p ∷ ps

-- `validate_config`
unfoldable pub validate_config : Floats → (Option Value → List Problem) → Fields → List Problem
unfolding check_sections check_types check_content
validate_config fl overrides cfg = or_continue (check_sections fl cfg) (
    or_continue (check_types cfg) (
      typed (check_content fl overrides cfg) (get "gpu" cfg) (get "runtime" cfg)
        (get "models" cfg)))
