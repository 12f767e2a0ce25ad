-- ===== src/Config/Tests.antt =====
-- A configuration of three models, and the theorems applied to it.
use llm_env.Prelude.{ℕ, ◌≤◌, ◌≡◌, refl, true, false, String, [], ◌∷◌, length, arith}
use llm_env.Config.{
  Model, Config, max_of, ok, enabled_models, sync_models_max, set_enabled_models, set_model_enabled,
}
use llm_env.Config.Enabled.{enabled_aliases, set_enabled_models-enabled}
use llm_env.Config.Toggle.{set_model_enabled-count}

abbrev model : String → Model
model alias = record { alias = alias; enabled = true; ctx_size = 8192; file = "m.gguf" }

abbrev cfg : Config
cfg = record {
  models = model "a" ∷ record (model "b") { enabled = false } ∷ model "c" ∷ [];
  models_max = max_of 3;
}

abbrev reordered : Config
reordered = record {
  models = model "c" ∷ model "b" ∷ record (model "a") { enabled = false } ∷ [];
  models_max = max_of 2;
}

set : set_enabled_models cfg ("c" ∷ "b" ∷ []) ≡ ok reordered
unfolding set_enabled_models
set = refl

set_enabled_models-enabled_example :
    (enabled_aliases reordered.models ≡ "c" ∷ "b" ∷ [])
    × ((n : ℕ) × ((reordered.models_max ≡ max_of n) × ((1 ≤ n) × (n ≤ 2))))
set_enabled_models-enabled_example = set_enabled_models-enabled cfg reordered ("c" ∷ "b" ∷ []) set

abbrev synced : Config
synced = record cfg { models_max = max_of 2 }

synced_now : sync_models_max cfg ≡ ok synced
unfolding sync_models_max
synced_now = refl

two_enabled : 1 ≤ length (enabled_models cfg)
unfolding enabled_models
two_enabled = omega arith

abbrev without : Config
without = record cfg {
  models =
      model "a"
      ∷ record (model "b") { enabled = false }
      ∷ record (model "c") { enabled = false }
      ∷ [];
}

disabled : set_model_enabled cfg "c" false ≡ ok without
unfolding set_model_enabled
disabled = refl

set_model_enabled-count_example : 1 ≤ length (enabled_models without)
set_model_enabled-count_example = set_model_enabled-count cfg without "c" false two_enabled disabled
