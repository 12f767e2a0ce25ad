-- ===== src/Config/Raw/View.antt =====
-- The configuration that the other functions of pylib/config.py work on, read from the document.
use Prim.Native.String.{String}
use llm_env.Prelude.{
  ℕ, zero, suc, ◌≤◌, ◌<◌, ◌≡◌, refl, ◌∙◌, ap, true, Option, none, some, List, [], ◌∷◌, length, keep,
  arith, Bool-cases, inl, inr,
}
use llm_env.Prelude.Int.{pos}
use llm_env.Json.{
  Value, null, boolean, integer, real, text, array, object, Items, nil, item, Fields, get,
}
use llm_env.Config.{
  Model, ModelsMax, missing, invalid, max_of, Config, ok, enabled_models, sync_models_max,
}
use llm_env.Config.Raw.Values.{Problem, Floats}
use llm_env.Config.Raw.Models.{count_enabled, is_enabled}
use llm_env.Config.Raw.{llm_server_enabled, validate_config}
use llm_env.Config.Raw.Valid.{validate_config-Usable}

abbrev text_of : Option Value → String
text_of (some (text s)) = s
text_of _ = ""

abbrev number_of : Option Value → ℕ
number_of (some (integer (pos n))) = n
number_of _ = 0

abbrev pub view_model : Fields → Model
view_model model = record {
  alias = text_of (get "alias" model);
  enabled = is_enabled (get "enabled" model);
  ctx_size = number_of (get "ctx_size" model);
  file = text_of (get "file" model);
}

abbrev pub view_models : Items → List Model
view_models nil = []
view_models (item (object model) ms) = view_model model ∷ view_models ms
view_models (item v ms) = view_models ms

abbrev pub view_max : Option Value → ModelsMax
view_max none = missing
view_max (some (integer (pos n))) = max_of n
view_max (some v) = invalid

abbrev pub runtime_max : Option Value → ModelsMax
runtime_max (some (object runtime)) = view_max (get "models_max" runtime)
runtime_max _ = missing

abbrev pub listed : Option Value → List Model
listed (some (array ms)) = view_models ms
listed _ = []

abbrev pub view : Fields → Config
view cfg = record {
  models = listed (get "models" cfg);
  models_max = runtime_max (get "runtime" cfg);
}

count_enabled_lem :
    (ms : Items) → length (keep (λ (m : Model). m.enabled) (view_models ms)) ≡ count_enabled ms
unfolding count_enabled
count_enabled_lem nil = refl
count_enabled_lem (item (object model) ms) = elim (Bool-cases (is_enabled (get "enabled" model))) [
  | inl e ↦ rw e (ap suc (count_enabled_lem ms))
  | inr e ↦ rw e (count_enabled_lem ms)
]
count_enabled_lem (item null ms) = count_enabled_lem ms
count_enabled_lem (item (boolean b) ms) = count_enabled_lem ms
count_enabled_lem (item (integer n) ms) = count_enabled_lem ms
count_enabled_lem (item (real s) ms) = count_enabled_lem ms
count_enabled_lem (item (text s) ms) = count_enabled_lem ms
count_enabled_lem (item (array vs) ms) = count_enabled_lem ms

sync_kept :
    (cfg : Config) (n : ℕ)
    → cfg.models_max ≡ max_of n
    → 0 < n
    → n ≤ length (enabled_models cfg)
    → sync_models_max cfg ≡ ok cfg
unfolding sync_models_max
sync_kept cfg zero e p q = absurd (omega arith)
sync_kept cfg (suc n) e p q = ground arith

-- `sync_models_max` has nothing to change in a configuration without errors whose llm-server is enabled: it succeeds, and leaves the models
-- and `models_max` as they are.
pub validate_config-synced :
    (fl : Floats) (overrides : Option Value → List Problem) (cfg : Fields)
    → validate_config fl overrides cfg ≡ []
    → llm_server_enabled (get "llm_server" cfg) ≡ true
    → sync_models_max (view cfg) ≡ ok (view cfg)
unfolding enabled_models
validate_config-synced fl overrides cfg h t =
    let u = validate_config-Usable fl overrides cfg h in
    sync_kept (view cfg) u.models_max (ap runtime_max u.is_runtime ∙ ap view_max u.is_models_max)
      u.max_positive (enough u.models u.models_max (ap listed u.is_models) (u.are_enabled t))
  where
    enough :
        (ms : Items) (n : ℕ)
        → listed (get "models" cfg) ≡ view_models ms
        → n ≤ count_enabled ms
        → n ≤ length (enabled_models (view cfg))
    enough ms n e p =
        let same : length (keep (λ (m : Model). m.enabled) (listed (get "models" cfg)))
            ≡ count_enabled ms =
          ap (λ xs. length (keep (λ (m : Model). m.enabled) xs)) e ∙ count_enabled_lem ms in
        omega arith
