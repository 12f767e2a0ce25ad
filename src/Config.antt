-- ===== src/Config.antt =====
-- pylib/config.py: which models of the configuration are enabled, and how many may be resident.
-- A model is its alias, its `enabled` flag and the rest of its entry, which these functions only
-- carry along. `runtime.models_max` is an int here; any other value is `invalid`.
pub mod Enabled
pub mod Toggle
pub mod Raw
pub mod Migrate
mod Tests
use llm_env.Prelude.{
  ℕ, zero, suc, ◌+◌, min, Bool, true, false, not, ◌&&◌, ◌||◌, Option, none, some, String, List, [],
  ◌∷◌, ◌++◌, map, length, ltb, leb, ◌==◌, lookup, is_some, str_eq, str_mem, keep, any, insert,
  if◌then◌else◌,
}

pub record Model : Type 0 where
  pub alias : String
  pub enabled : Bool
  pub ctx_size : ℕ
  pub file : String

-- `runtime.get("models_max")`.
pub data ModelsMax : Type 0 where
  missing invalid : ModelsMax
  max_of : ℕ → ModelsMax

pub record Config : Type 0 where
  pub models : List Model
  pub models_max : ModelsMax

pub data ConfigError : Type 0 where
  duplicate_alias unknown_alias none_enabled bad_models_max final_model : ConfigError

pub data Result {ℓ} (A : Type ℓ) : Type ℓ where
  ok : A → Result A
  err : ConfigError → Result A

-- `enabled_models`
unfoldable pub enabled_models : Config → List Model
enabled_models cfg = keep (λ m. m.enabled) cfg.models

-- `runtime.get("models_max", 1)`, if `_positive_int` takes it.
unfoldable pub configured : ModelsMax → Option ℕ
configured missing = some 1
configured invalid = none
configured (max_of zero) = none
configured (max_of (suc n)) = some (suc n)

abbrev pub capped : Config → ℕ → Option ℕ → Result Config
capped cfg enabled_count none = err bad_models_max
capped cfg enabled_count (some n) = ok (record cfg { models_max = max_of (min n enabled_count) })

-- `sync_models_max`
unfoldable pub sync_models_max : Config → Result Config
unfolding configured enabled_models
sync_models_max cfg =
    let enabled_count = length (enabled_models cfg) in
    if enabled_count == 0
    then err none_enabled
    else capped cfg enabled_count (configured cfg.models_max)

-- The first test of `set_enabled_models`.
unfoldable pub has_duplicate : List String → Bool
has_duplicate [] = false
has_duplicate (a ∷ rest) = str_mem a rest || has_duplicate rest

-- `models_by_alias[alias]`: the last model of that alias.
unfoldable pub model_by_alias : String → List Model → Option Model
model_by_alias alias [] = none
model_by_alias alias (m ∷ ms) = elim (model_by_alias alias ms) [
  | some later ↦ some later
  | none ↦ if str_eq m.alias alias then some m else none
]

unfoldable pub pick : List String → List Model → List Model
unfolding model_by_alias
pick [] models = []
pick (a ∷ rest) models = elim (model_by_alias a models) [
  | none ↦ pick rest models
  | some m ↦ m ∷ pick rest models
]

abbrev pub set_flag : Bool → Model → Model
set_flag b m = record m { enabled = b }

-- The requested models in the order of the request, then the others in theirs.
unfoldable pub reorder : List String → List Model → List Model
unfolding pick
reorder aliases models = pick aliases models ++ keep (λ m. not (str_mem m.alias aliases)) models

abbrev pub flagged : List String → List Model → List Model
flagged aliases models = map (λ (m : Model). set_flag (str_mem m.alias aliases) m) models

abbrev pub aliases_of : List Model → List String
aliases_of models = map (λ (m : Model). m.alias) models

abbrev pub checked : Config → List String → Option ℕ → Result Config
checked cfg aliases none = err bad_models_max
checked cfg aliases (some n) =
    sync_models_max (record cfg { models = flagged aliases (reorder aliases cfg.models) })

-- `set_enabled_models`
unfoldable pub set_enabled_models : Config → List String → Result Config
unfolding has_duplicate reorder configured sync_models_max
set_enabled_models cfg aliases =
    if has_duplicate aliases
    then err duplicate_alias
    else if any (λ a. not (str_mem a (aliases_of cfg.models))) aliases
    then err unknown_alias
    else if length aliases == 0
    then err none_enabled
    else checked cfg aliases (configured cfg.models_max)

-- The first model of an alias, and that model with another flag.
unfoldable pub find_model : String → List Model → Option Model
find_model alias [] = none
find_model alias (m ∷ ms) = if str_eq m.alias alias then some m else find_model alias ms

unfoldable pub set_first : String → Bool → List Model → List Model
set_first alias b [] = []
set_first alias b (m ∷ ms) =
    let rest = set_first alias b ms in if str_eq m.alias alias then set_flag b m ∷ ms else m ∷ rest

-- `set_model_enabled`
unfoldable pub set_model_enabled : Config → String → Bool → Result Config
unfolding find_model set_first enabled_models
set_model_enabled cfg alias enabled = elim (find_model alias cfg.models) [
  | none ↦ err unknown_alias
  | some m ↦
      if not enabled && (m.enabled && length (enabled_models cfg) == 1)
      then err final_model
      else ok (record cfg { models = set_first alias enabled cfg.models })
]
