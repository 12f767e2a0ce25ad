-- ===== src/Config/Raw/Valid.antt =====
-- What a configuration without errors is good for.
use llm_env.Prelude.{
  ℕ, zero, suc, ◌≤◌, ◌<◌, ◌≡◌, refl, Bool, true, false, Option, some, List, [], ◌∷◌, arith,
}
use llm_env.Prelude.Int.{pos}
use llm_env.Json.{Value, integer, array, object, Items, nil, item, Fields, get}
use llm_env.Config.Raw.Values.{Problem, at, Floats, is_positive, is_dict, is_list}
use llm_env.Config.Raw.Models.{count_enabled}
use llm_env.Config.Raw.{
  check_sections, check_types, check_runtime, check_content, check_enabled, exceeds_enabled,
  llm_server_enabled, or_continue, typed, validate_config,
}
use llm_env.Config.Raw.Entries.{
  when-eq-nil, when-not-nil, concat-IsNil, AreModels, positive-eq, check_models-AreModels,
}

pub record Usable (cfg : Fields) : Type 0 where
  pub runtime : Fields
  pub models : Items
  pub models_max : ℕ
  pub is_runtime : get "runtime" cfg ≡ some (object runtime)
  pub is_models : get "models" cfg ≡ some (array models)
  pub is_models_max : get "models_max" runtime ≡ some (integer (pos models_max))
  pub max_positive : 0 < models_max
  pub are_models : AreModels [] models
  pub are_enabled :
      llm_server_enabled (get "llm_server" cfg) ≡ true → models_max ≤ count_enabled models

enough_enabled :
    (llm : Bool) (v : Option Value) (n enabled : ℕ)
    → v ≡ some (integer (pos n))
    → 0 < n
    → check_enabled llm v enabled ≡ []
    → llm ≡ true
    → n ≤ enabled
unfolding check_enabled exceeds_enabled
enough_enabled false v n enabled e p h t = ground arith
enough_enabled true v zero enabled e p h t = absurd (omega arith)
enough_enabled true v (suc n) enabled e p h t =
    let parts = concat-IsNil _ h in
    let bounded : exceeds_enabled (some (integer (pos (suc n)))) enabled ≡ false =
      rw e at (when-eq-nil (exceeds_enabled v enabled) _ parts.1.0) in
    ground arith

runtime-positive :
    (fl : Floats) (runtime : Fields)
    → check_runtime fl runtime ≡ []
    → (n : ℕ) × (get "models_max" runtime ≡ some (integer (pos n))) × (0 < n)
unfolding check_runtime
runtime-positive fl runtime h =
    let parts = concat-IsNil _ h in
    positive-eq (get "models_max" runtime)
      (when-not-nil (is_positive (get "models_max" runtime)) _ parts.0)

module _ (fl : Floats) (overrides : Option Value → List Problem) (cfg : Fields) where
  content-Usable :
      (gpu runtime : Fields) (models : Items)
      → get "runtime" cfg ≡ some (object runtime)
      → get "models" cfg ≡ some (array models)
      → check_content fl overrides cfg gpu runtime models ≡ []
      → Usable cfg
  unfolding check_content
  content-Usable gpu runtime nil r m h =
      let parts = concat-IsNil _ h in
      let full : at "models must be a non-empty list" ∷ [] ≡ [] = parts.1.1.1.1.1.1.1.0 in
      ground arith
  content-Usable gpu runtime (item v ms) r m h =
      let parts = concat-IsNil _ h in
      let (n, e, p) = runtime-positive fl runtime parts.1.0 in
      let last_parts = parts.1.1.1.1.1.1.1 in
      record {
        runtime = runtime;
        models = item v ms;
        models_max = n;
        is_runtime = r;
        is_models = m;
        is_models_max = e;
        max_positive = p;
        are_models = check_models-AreModels fl 0 [] (item v ms) last_parts.0;
        are_enabled = λ t.
            enough_enabled (llm_server_enabled (get "llm_server" cfg)) (get "models_max" runtime) n
              (count_enabled (item v ms)) e p last_parts.1.0 t;
      }

  typed-Usable :
      (gpu runtime models : Option Value)
      → is_dict gpu ≡ true
      → is_dict runtime ≡ true
      → is_list models ≡ true
      → get "runtime" cfg ≡ runtime
      → get "models" cfg ≡ models
      → typed (check_content fl overrides cfg) gpu runtime models ≡ []
      → Usable cfg
  typed-Usable (some (object gpu)) (some (object runtime)) (some (array models)) a b c r m h =
      content-Usable gpu runtime models r m h
  typed-Usable gpu runtime models a b c r m h = ground arith

or_continue-eq-nil : (ps rest : List Problem) → or_continue ps rest ≡ [] → (ps ≡ []) × (rest ≡ [])
or_continue-eq-nil [] rest h = (refl, h)
or_continue-eq-nil (p ∷ ps) rest h = ground arith

-- A configuration in which `validate_config` finds no error (whatever `validate_overrides` is, and however floats compare): every model
-- is a mapping with all required keys, an alias that is a text, is not blank, and that no model before it has, a context of positive
-- size and a positive output limit that is not larger; `models_max` is positive, and, if the llm-server is enabled, at most
-- the number of enabled models.
pub validate_config-Usable :
    (fl : Floats) (overrides : Option Value → List Problem) (cfg : Fields)
    → validate_config fl overrides cfg ≡ []
    → Usable cfg
unfolding validate_config check_types
validate_config-Usable fl overrides cfg h =
    let (_, h1) = or_continue-eq-nil (check_sections fl cfg) _ h in
    let (types, h2) = or_continue-eq-nil (check_types cfg) _ h1 in
    let parts = concat-IsNil _ types in
    typed-Usable fl overrides cfg (get "gpu" cfg) (get "runtime" cfg) (get "models" cfg)
      (when-not-nil (is_dict (get "gpu" cfg)) _ parts.1.0)
      (when-not-nil (is_dict (get "runtime" cfg)) _ parts.1.1.0)
      (when-not-nil (is_list (get "models" cfg)) _ parts.1.1.1.0) refl refl h2
