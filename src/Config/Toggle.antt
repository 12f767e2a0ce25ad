-- ===== src/Config/Toggle.antt =====
-- `set_model_enabled` never disables the last enabled model.
use llm_env.Prelude.{
  ℕ, ◌+◌, ◌≤◌, ◌≡◌, Bool, true, false, not, ◌&&◌, some, String, List, [], ◌∷◌, length, ◌==◌, str_eq,
  keep, arith, Bool-cases, Option-cases, inl, inr,
}
use mathlib.Core.Path.{subst}
use llm_env.Config.{
  Model, Config, ok, err, unknown_alias, final_model, enabled_models, find_model, set_first,
  set_flag, set_model_enabled,
}

abbrev count : List Model → ℕ
count ms = length (keep (λ m. m.enabled) ms)

abbrev one_if : Bool → ℕ
one_if true = 1
one_if false = 0

count-cons : (m : Model) (ms : List Model) → count (m ∷ ms) ≡ one_if m.enabled + count ms
count-cons m ms = ground arith

count-set_first :
    (alias : String) (b : Bool) (ms : List Model) (m : Model)
    → find_model alias ms ≡ some m
    → count (set_first alias b ms) + one_if m.enabled ≡ count ms + one_if b
unfolding find_model set_first
count-set_first alias b [] m h = cc
count-set_first alias b (x ∷ xs) m h = elim (Bool-cases (str_eq x.alias alias)) [
  | inl same ↦
      let e : some x ≡ some m = rw same at h in
      let p : x ≡ m = cc in
      rw same (
        subst
          (λ (y : Model). count (set_flag b x ∷ xs) + one_if y.enabled ≡ count (x ∷ xs) + one_if b)
          p (omega (arith, count-cons (set_flag b x) xs, count-cons x xs)))
  | inr differs ↦ rw differs (
      omega (
        arith,
        count-set_first alias b xs m (rw differs at h),
        count-cons x xs,
        count-cons x (set_first alias b xs),
      ))
]

-- If at least one model is enabled and `set_model_enabled` succeeds, at least one still is.
pub set_model_enabled-count :
    (cfg after : Config) (alias : String) (enabled : Bool)
    → 1 ≤ length (enabled_models cfg)
    → set_model_enabled cfg alias enabled ≡ ok after
    → 1 ≤ length (enabled_models after)
unfolding set_model_enabled
set_model_enabled-count cfg after alias enabled c h =
    elim (Option-cases (find_model alias cfg.models)) [
      | inl nowhere ↦
          let f : err unknown_alias ≡ ok after = rw (nowhere, set_model_enabled) at h in cc
      | inr (m, found) ↦
          elim (Bool-cases (not enabled && (m.enabled && length (enabled_models cfg) == 1))) [
            | inl final ↦
                let f : err final_model ≡ ok after = rw (found, final, set_model_enabled) at h in cc
            | inr more ↦
                let e : ok (record cfg { models = set_first alias enabled cfg.models }) ≡ ok after =
                  rw (found, more, set_model_enabled) at h in
                let p : record cfg { models = set_first alias enabled cfg.models } ≡ after = cc in
                let n = count-set_first alias enabled cfg.models m found in
                subst (λ (x : Config). 1 ≤ length (enabled_models x)) p (ground arith)
          ]
    ]
