-- ===== src/Config/Raw/Models.antt =====
-- pylib/config.py, `validate_config`: the entries of `models`, and the members of `system_one.models`.
use Prim.Native.String.{String}
use llm_env.Prelude.{
  ℕ, suc, ◌+◌, Bool, false, not, ltb, Option, none, some, List, [], ◌∷◌, ◌++◌, any, is_some,
  str_mem, map, if◌then◌else◌,
}
use llm_env.Prelude.Int.{pos}
use llm_env.Prelude.Chars.{split_char, strip, is_empty}
use llm_env.Json.{
  Value, null, boolean, integer, text, object, Items, nil, item, Fields, end, field, get,
}
use llm_env.Config.Raw.Values.{
  Problem, at, of_model, when, concat, Floats, is_positive, is_natural, is_bool, is_filled,
  or_default, is_not_negative, is_fraction, is_above_zero, is_budget, canonical_laya_model_name,
}

-- The loop over the members of `system_one.models`, with the names seen.
unfoldable pub check_members : List String → List String → List Problem
unfolding canonical_laya_model_name
check_members seen [] = []
check_members seen (part ∷ parts) = elim (canonical_laya_model_name part) [
  | none ↦ at "system_one.models: unknown checkpoint" ∷ check_members seen parts
  | some name ↦
      when (str_mem name seen) (at "system_one.models: more than once")
      ++ check_members (name ∷ seen) parts
]

unfoldable pub check_members_text : Option Value → List Problem
unfolding check_members
check_members_text (some (text s)) =
    let parts = map strip (split_char "," s) in
    if any is_empty parts then at "system_one.models: empty member" ∷ [] else check_members [] parts
check_members_text _ = []

abbrev pub required_model_keys : List String
required_model_keys =
    "alias" ∷ "label" ∷ "parameters" ∷ "quantization" ∷ "enabled" ∷ "file" ∷ "url" ∷ "size_bytes"
    ∷ "vram_budget" ∷ "ctx_size" ∷ "client_max_output_tokens" ∷ "n_gpu_layers" ∷ []

-- `alias` if it is a text that is not blank
abbrev pub valid_alias : Fields → Option String
valid_alias model = elim (get "alias" model) [
  | some (text s) ↦ if is_filled (some (text s)) then some s else none
  | _ ↦ none
]

unfoldable pub missing_keys : ℕ → Fields → List String → List Problem
missing_keys i model [] = []
missing_keys i model (k ∷ ks) =
    when (not (is_some (get k model))) (of_model i k) ++ missing_keys i model ks

unfoldable pub check_fields : ℕ → Fields → List Problem
check_fields i end = []
check_fields i (field k v fs) =
    when (not (str_mem k ("temperature" ∷ "top_p" ∷ "top_k" ∷ "repeat_penalty" ∷ [])))
      (of_model i "sampling: unknown field")
    ++ check_fields i fs

-- `k in d and not ok(d[k])`
abbrev pub bad_if_there : (Option Value → Bool) → Option Value → Bool
bad_if_there ok v = not (or_default ok v)

unfoldable pub check_sampling : Floats → ℕ → Option Value → List Problem
unfolding check_fields
check_sampling fl i none = []
check_sampling fl i (some (object s)) = concat (
    check_fields i s
    ∷ when (bad_if_there (is_not_negative fl) (get "temperature" s))
        (of_model i "sampling.temperature")
    ∷ when (bad_if_there (is_fraction fl) (get "top_p" s)) (of_model i "sampling.top_p")
    ∷ when (bad_if_there is_natural (get "top_k" s)) (of_model i "sampling.top_k")
    ∷ when (bad_if_there (is_above_zero fl) (get "repeat_penalty" s))
        (of_model i "sampling.repeat_penalty")
    ∷ [])
check_sampling fl i (some v) = of_model i "sampling" ∷ []

-- `budget is not None and not VRAM_BUDGET_RE.match(...)`
abbrev pub bad_budget : Option Value → Bool
bad_budget none = false
bad_budget (some null) = false
bad_budget (some v) = not (is_budget v)

-- Both positive, and the output larger than the context.
unfoldable pub exceeds_context : Option Value → Option Value → Bool
exceeds_context (some (integer (pos (suc ctx)))) (some (integer (pos (suc out)))) =
    ltb (suc ctx) (suc out)
exceeds_context _ _ = false

-- The alias of a model, with those seen before.
unfoldable pub check_alias : ℕ → List String → Option String → List Problem
check_alias i seen none = of_model i "alias" ∷ []
check_alias i seen (some alias) = when (str_mem alias seen) (of_model i "duplicate alias")

-- One entry that is a mapping.
unfoldable pub check_model : Floats → ℕ → List String → Fields → List Problem
unfolding missing_keys check_alias check_sampling exceeds_context
check_model fl i seen model = concat (
    missing_keys i model required_model_keys
    ∷ check_alias i seen (valid_alias model)
    ∷ when (bad_if_there is_bool (get "enabled" model)) (of_model i "enabled")
    ∷ check_sampling fl i (get "sampling" model)
    ∷ when (bad_budget (get "vram_budget" model)) (of_model i "vram_budget")
    ∷ when (not (is_positive (get "ctx_size" model))) (of_model i "ctx_size")
    ∷ when (not (is_positive (get "client_max_output_tokens" model)))
        (of_model i "client_max_output_tokens")
    ∷ when (exceeds_context (get "ctx_size" model) (get "client_max_output_tokens" model))
        (of_model i "client_max_output_tokens exceeds ctx_size")
    ∷ when (bad_if_there is_natural (get "n_cpu_moe" model)) (of_model i "n_cpu_moe")
    ∷ when (bad_if_there is_positive (get "check_ctx_size" model)) (of_model i "check_ctx_size")
    ∷ when (bad_if_there is_positive (get "check_timeout_seconds" model))
        (of_model i "check_timeout_seconds")
    ∷ [])

-- `seen` after a model: a new alias is added.
abbrev pub see : Option String → List String → List String
see none seen = seen
see (some alias) seen = alias ∷ seen

-- The loop over the models, from index `i`.
unfoldable pub check_models : Floats → ℕ → List String → Items → List Problem
unfolding check_model
check_models fl i seen nil = []
check_models fl i seen (item (object model) ms) =
    check_model fl i seen model ++ check_models fl (i + 1) (see (valid_alias model) seen) ms
check_models fl i seen (item v ms) =
    of_model i "each model must be a mapping" ∷ check_models fl (i + 1) seen ms

-- `model.get("enabled") is True`
abbrev pub is_enabled : Option Value → Bool
is_enabled (some (boolean b)) = b
is_enabled _ = false

-- `len(enabled_models(cfg))`
unfoldable pub count_enabled : Items → ℕ
count_enabled nil = 0
count_enabled (item (object model) ms) =
    let rest = count_enabled ms in if is_enabled (get "enabled" model) then suc rest else rest
count_enabled (item v ms) = count_enabled ms
