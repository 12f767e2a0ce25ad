-- ===== src/Config/Raw/Entries.antt =====
-- pylib/config.py, `validate_config`: what the entries of `models` are when they have no errors.
use Prim.Native.String.{String}
use llm_env.Prelude.{
  ℕ, zero, suc, ◌+◌, ◌≤◌, ◌<◌, ◌≡◌, refl, Bool, true, false, not, Option, none, some, List, [], ◌∷◌,
  ◌++◌, is_some, str_mem, arith, all, All,
}
use llm_env.Prelude.Int.{pos}
use llm_env.Json.{
  Value, null, boolean, integer, real, text, array, object, Items, nil, item, Fields, get,
}
use llm_env.Config.Raw.Values.{Problem, of_model, when, concat, Floats, is_positive}
use llm_env.Config.Raw.Models.{
  check_models, check_model, check_alias, missing_keys, exceeds_context, valid_alias,
  required_model_keys,
}

pub append-eq-nil : {A : Type 0} (xs ys : List A) → xs ++ ys ≡ [] → (xs ≡ []) × (ys ≡ [])
append-eq-nil [] ys h = (refl, h)
append-eq-nil (x ∷ xs) ys h = ground arith

pub when-eq-nil : (b : Bool) (p : Problem) → when b p ≡ [] → b ≡ false
when-eq-nil b p h = ground arith

pub when-not-nil : (b : Bool) (p : Problem) → when (not b) p ≡ [] → b ≡ true
when-not-nil b p h = ground arith

abbrev pub IsNil : List Problem → Type 0
IsNil ps = ps ≡ []

pub concat-IsNil : (pss : List (List Problem)) → concat pss ≡ [] → All IsNil pss
unfolding concat
concat-IsNil [] h = tt
concat-IsNil (ps ∷ pss) h =
    let (here, rest) = append-eq-nil ps (concat pss) h in (here, concat-IsNil pss rest)

-- An entry whose context and output limits are positive, the output no larger than the context.
pub record HasLimits (model : Fields) : Type 0 where
  pub ctx_size : ℕ
  pub max_output : ℕ
  pub is_ctx : get "ctx_size" model ≡ some (integer (pos ctx_size))
  pub is_output : get "client_max_output_tokens" model ≡ some (integer (pos max_output))
  pub output_positive : 0 < max_output
  pub output_le : max_output ≤ ctx_size

pub record IsModel (seen : List String) (model : Fields) : Type 0 where
  pub alias : String
  pub is_alias : valid_alias model ≡ some alias
  pub is_fresh : str_mem alias seen ≡ false
  pub has_keys : all (λ k. is_some (get k model)) required_model_keys ≡ true
  pub limits : HasLimits model

-- Every entry is a mapping with the required keys, its limits, and an alias that none before it has.
pub data AreModels : List String → Items → Type 0 where
  last : {seen : List String} → AreModels seen nil
  more :
      {seen : List String} {model : Fields} {ms : Items} (m : IsModel seen model)
      → AreModels (m.alias ∷ seen) ms
      → AreModels seen (item (object model) ms)

pub positive-eq :
    (v : Option Value) → is_positive v ≡ true → (n : ℕ) × (v ≡ some (integer (pos n))) × (0 < n)
unfolding is_positive
positive-eq (some (integer (pos (suc n)))) h = (suc n, refl, omega arith)
positive-eq (some (integer (pos zero))) h = ground arith
positive-eq none h = ground arith
positive-eq (some v) h = ground arith

missing_keys-nil :
    (i : ℕ) (model : Fields) (ks : List String)
    → missing_keys i model ks ≡ []
    → all (λ k. is_some (get k model)) ks ≡ true
unfolding missing_keys
missing_keys-nil i model [] h = refl
missing_keys-nil i model (k ∷ ks) h =
    let (here, rest) =
      append-eq-nil (when (not (is_some (get k model))) (of_model i k)) (missing_keys i model ks)
        h in
    ground (arith, missing_keys-nil i model ks)

model_limits :
    (model : Fields)
    → is_positive (get "ctx_size" model) ≡ true
    → is_positive (get "client_max_output_tokens" model) ≡ true
    → exceeds_context (get "ctx_size" model) (get "client_max_output_tokens" model) ≡ false
    → HasLimits model
unfolding exceeds_context
model_limits model p q h =
    let (ctx, e, c) = positive-eq (get "ctx_size" model) p in
    let (out, f, o) = positive-eq (get "client_max_output_tokens" model) q in
    record {
      ctx_size = ctx;
      max_output = out;
      is_ctx = e;
      is_output = f;
      output_positive = o;
      output_le = in_order ctx out c o (rw (e, f) at h);
    }
  where
    in_order :
        (ctx out : ℕ)
        → 0 < ctx
        → 0 < out
        → exceeds_context (some (integer (pos ctx))) (some (integer (pos out))) ≡ false
        → out ≤ ctx
    in_order zero out c o h = absurd (omega arith)
    in_order (suc ctx) zero c o h = omega arith
    in_order (suc ctx) (suc out) c o h = ground arith

alias_of :
    (i : ℕ) (seen : List String) (o : Option String)
    → check_alias i seen o ≡ []
    → (alias : String) × (o ≡ some alias) × (str_mem alias seen ≡ false)
unfolding check_alias
alias_of i seen none h = ground arith
alias_of i seen (some alias) h = (alias, refl, when-eq-nil (str_mem alias seen) _ h)

module _ (fl : Floats) where
  check_model-IsModel :
      (i : ℕ) (seen : List String) (model : Fields)
      → check_model fl i seen model ≡ []
      → IsModel seen model
  unfolding check_model
  check_model-IsModel i seen model h =
      let parts = concat-IsNil _ h in
      let (alias, e, fresh) = alias_of i seen (valid_alias model) parts.1.0 in
      let passed = parts.1.1.1.1.1 in
      record {
        alias = alias;
        is_alias = e;
        is_fresh = fresh;
        has_keys = missing_keys-nil i model required_model_keys parts.0;
        limits = model_limits model (when-not-nil _ _ passed.0) (when-not-nil _ _ passed.1.0) (
            when-eq-nil
              (exceeds_context (get "ctx_size" model) (get "client_max_output_tokens" model)) _
              passed.1.1.0);
      }

  pub check_models-AreModels :
      (i : ℕ) (seen : List String) (ms : Items) → check_models fl i seen ms ≡ [] → AreModels seen ms
  unfolding check_models
  check_models-AreModels i seen nil h = last
  check_models-AreModels i seen (item (object model) ms) h =
      let (here, rest) = append-eq-nil (check_model fl i seen model) _ h in
      let m = check_model-IsModel i seen model here in
      more m (check_models-AreModels (i + 1) (m.alias ∷ seen) ms (rw m.is_alias at rest))
  check_models-AreModels i seen (item null ms) h = ground arith
  check_models-AreModels i seen (item (boolean b) ms) h = ground arith
  check_models-AreModels i seen (item (integer n) ms) h = ground arith
  check_models-AreModels i seen (item (real s) ms) h = ground arith
  check_models-AreModels i seen (item (text s) ms) h = ground arith
  check_models-AreModels i seen (item (array vs) ms) h = ground arith
