-- ===== src/Config/Migrate/Again.antt =====
-- `migrate_config` changes nothing in a configuration that it has migrated.
use llm_env.Prelude.{
  ◌≡◌, refl, sym, ◌∙◌, ap, true, none, some, List, All, all, Option-cases, inl, inr,
}
use llm_env.Json.{
  Value, null, boolean, integer, real, text, array, object, Items, nil, item, Fields, end, field,
  get, set_key,
}
use llm_env.Json.Keys.{get-set_key}
use llm_env.Config.Migrate.Steps.{
  Step, run, on_dict, on_list, on_values, IsOnce, are_apart, run-run, run-AreSettled,
  AreSettled-run, is_plain, plain-IsOnce,
}
use llm_env.Config.Migrate.{
  output_limit, limit_model, limit_models, runtime_steps, llm_server_steps, override_steps,
  resources_steps, omniroute_steps, remote_setup_steps, system_one_steps, total_mib, gpu_steps,
  llm_server_enabled_steps, migrate_gpu, config_steps, migrate_config,
}

on_dict_twice :
    (f : Fields → Fields)
    → ((fs : Fields) → f (f fs) ≡ f fs)
    → (v : Value) → on_dict f (on_dict f v) ≡ on_dict f v
on_dict_twice f h (object fs) = ap object (h fs)
on_dict_twice f h null = refl
on_dict_twice f h (boolean b) = refl
on_dict_twice f h (integer n) = refl
on_dict_twice f h (real s) = refl
on_dict_twice f h (text s) = refl
on_dict_twice f h (array vs) = refl

on_list_twice :
    (f : Items → Items)
    → ((vs : Items) → f (f vs) ≡ f vs)
    → (v : Value) → on_list f (on_list f v) ≡ on_list f v
on_list_twice f h (array vs) = ap array (h vs)
on_list_twice f h null = refl
on_list_twice f h (boolean b) = refl
on_list_twice f h (integer n) = refl
on_list_twice f h (real s) = refl
on_list_twice f h (text s) = refl
on_list_twice f h (object fs) = refl

on_values_twice :
    (g : Value → Value)
    → ((v : Value) → g (g v) ≡ g v)
    → (fs : Fields) → on_values g (on_values g fs) ≡ on_values g fs
unfolding on_values
on_values_twice g h end = refl
on_values_twice g h (field k v fs) = rw (h v, on_values_twice g h fs) refl

-- A dict on which the steps are run.
steps_twice :
    (ss : List Step)
    → are_apart ss ≡ true
    → All IsOnce ss
    → (v : Value) → on_dict (run ss) (on_dict (run ss) v) ≡ on_dict (run ss) v
steps_twice ss a h = on_dict_twice (run ss) (λ fs. run-run ss fs a h)

pub limit_kept :
    (model : Fields) (v : Value)
    → get "client_max_output_tokens" model ≡ some v
    → limit_model model ≡ model
unfolding limit_model
limit_kept model v e = rw (e, limit_model) refl

pub limit_unknown :
    (model : Fields)
    → get "client_max_output_tokens" model ≡ none
    → output_limit (get "ctx_size" model) ≡ none
    → limit_model model ≡ model
unfolding limit_model
limit_unknown model e c = rw (e, limit_model, c) refl

pub limit_added :
    (model : Fields) (v : Value)
    → get "client_max_output_tokens" model ≡ none
    → output_limit (get "ctx_size" model) ≡ some v
    → limit_model model ≡ set_key "client_max_output_tokens" v model
unfolding limit_model
limit_added model v e c = rw (e, limit_model, c) refl

limit_model_twice : (model : Fields) → limit_model (limit_model model) ≡ limit_model model
limit_model_twice model = elim (Option-cases (get "client_max_output_tokens" model)) [
  | inl e ↦ elim (Option-cases (output_limit (get "ctx_size" model))) [
    | inl c ↦ ap limit_model (limit_unknown model e c)
    | inr (v, c) ↦
        let added = limit_added model v e c in
        ap limit_model added
        ∙ limit_kept _ v (get-set_key "client_max_output_tokens" "client_max_output_tokens" v model)
        ∙ sym added
  ]
  | inr (v, e) ↦ ap limit_model (limit_kept model v e)
]

plain_twice :
    (ss : List Step)
    → are_apart ss ≡ true
    → all is_plain ss ≡ true
    → (v : Value) → on_dict (run ss) (on_dict (run ss) v) ≡ on_dict (run ss) v
plain_twice ss a h = steps_twice ss a (plain-IsOnce ss h)

limit_models_twice : (ms : Items) → limit_models (limit_models ms) ≡ limit_models ms
unfolding limit_models
limit_models_twice nil = refl
limit_models_twice (item (object model) ms) =
    rw (limit_model_twice model, limit_models_twice ms) refl
limit_models_twice (item null ms) = ap (item null) (limit_models_twice ms)
limit_models_twice (item (boolean b) ms) = ap (item (boolean b)) (limit_models_twice ms)
limit_models_twice (item (integer n) ms) = ap (item (integer n)) (limit_models_twice ms)
limit_models_twice (item (real s) ms) = ap (item (real s)) (limit_models_twice ms)
limit_models_twice (item (text s) ms) = ap (item (text s)) (limit_models_twice ms)
limit_models_twice (item (array vs) ms) = ap (item (array vs)) (limit_models_twice ms)

-- The second run has another default for the ceiling, and does not use it.
migrate_gpu_twice : (gpu : Fields) → migrate_gpu (migrate_gpu gpu) ≡ migrate_gpu gpu
unfolding migrate_gpu
migrate_gpu_twice gpu = AreSettled-run _ _ (
    run-AreSettled (gpu_steps (total_mib (get "vram_total_mib" gpu))) gpu refl
      (plain-IsOnce (gpu_steps (total_mib (get "vram_total_mib" gpu))) refl))

overrides_twice :
    (v : Value)
    → on_dict
        (on_values (on_dict (run override_steps)))
        (on_dict (on_values (on_dict (run override_steps))) v)
      ≡ on_dict (on_values (on_dict (run override_steps))) v
overrides_twice = on_dict_twice _ (on_values_twice _ (plain_twice override_steps refl refl))

resources_twice :
    (v : Value)
    → on_dict (run resources_steps) (on_dict (run resources_steps) v)
      ≡ on_dict (run resources_steps) v
resources_twice = steps_twice resources_steps refl (
  refl,
  (plain_twice llm_server_steps refl refl, (refl, (refl, (refl, (refl, (overrides_twice, tt)))))),
)

-- A configuration that `migrate_config` has migrated: migrated once more, it is the same, in every key and in their order.
pub migrate_config-again : (cfg : Fields) → migrate_config (migrate_config cfg) ≡ migrate_config cfg
unfolding migrate_config
migrate_config-again cfg = run-run config_steps cfg refl (
  plain_twice runtime_steps refl refl,
  (
    on_list_twice limit_models limit_models_twice,
    (
      refl,
      (
        resources_twice,
        (
          refl,
          (
            plain_twice omniroute_steps refl refl,
            (
              refl,
              (
                plain_twice remote_setup_steps refl refl,
                (
                  refl,
                  (
                    plain_twice llm_server_enabled_steps refl refl,
                    (
                      refl,
                      (
                        plain_twice system_one_steps refl refl,
                        (on_dict_twice migrate_gpu migrate_gpu_twice, tt),
                      ),
                    ),
                  ),
                ),
              ),
            ),
          ),
        ),
      ),
    ),
  ),
)
