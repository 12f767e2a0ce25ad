-- ===== src/Capacity/Verified.antt =====
-- The limits that `usable` gives.
use llm_env.Prelude.{
  ℕ, ◌+◌, ◌≤◌, ◌≡◌, ◌≢◌, ◌&&◌, refl, sym, ◌∙◌, ap, Bool, true, false, min, max, Option, none, some,
  List, [], ◌∷◌, String, str_eq, eq_iff, arith, is_some, any, Bool-cases, inl, inr, ◌==◌,
}
use mathlib.Core.Option
use llm_env.Capacity.{
  Point, Section, Card, ModelConfig, Usable, bench_prompt_tokens, is_current, current, measured,
  points_of, max_of, usable_to, by_passed, limit_output, by_depths, usable,
}

-- `d` is the depth of a point that has a rate.
abbrev pub IsMeasured : ℕ → List Point → Type 0
IsMeasured d ps = any (λ p. is_some p.tg_tps && (p.depth == d)) ps ≡ true

-- What a context that is given rests on.
pub record Verified (card : Card) (fp : String) (config : ModelConfig) (context : ℕ)
    (out : Option ℕ) : Type 0 where
  pub sweep : Section (List Point)
  pub gate : Section (Option Bool)
  pub depth : ℕ
  pub output : ℕ
  pub has_sweep : card.depth ≡ some sweep
  pub sweep_current : sweep.fingerprint ≡ some fp
  pub has_gate : card.interference ≡ some gate
  pub gate_current : gate.fingerprint ≡ some fp
  pub not_failed : gate.content ≢ some false
  pub is_measured : IsMeasured depth sweep.content
  pub context_le : context ≤ config.ctx_size
  pub within_depth : context ≤ depth + bench_prompt_tokens
  pub is_output : out ≡ some output
  pub output_le : output ≤ context

current-eq :
    {A : Type 0} (fp : String) (o : Option (Section A)) (s : Section A)
    → current fp o ≡ some s
    → (o ≡ some s) × (s.fingerprint ≡ some fp)
unfolding current
current-eq fp none s h = ground arith
current-eq fp (some t) s h = elim (Bool-cases (is_current fp t)) [
  | inl e ↦
      let same = Option.some-injective t s (rw e at h) in
      (ap some same, ap (λ (x : Section _). x.fingerprint) (sym same) ∙ fresh t.fingerprint e)
  | inr e ↦ let bad : none ≡ some s = rw e at h in ground arith
]
  where
    fresh :
        (o : Option String)
        → elim o as (λ x. Bool) [ none ↦ false | some f ↦ str_eq f fp ] ≡ true
        → o ≡ some fp
    fresh none e = ground arith
    fresh (some f) e = ap some ((eq_iff f fp).0 e)

measured-IsMeasured :
    (d : ℕ) (ps : List Point) → any (λ e. e == d) (measured ps) ≡ true → IsMeasured d ps
unfolding measured
measured-IsMeasured d [] h = h
measured-IsMeasured d (p ∷ ps) h = elim (Bool-cases (is_some p.tg_tps)) [
  | inl e ↦ ground (arith, measured-IsMeasured d ps)
  | inr e ↦ ground (arith, measured-IsMeasured d ps)
]

max_of-among : (d : ℕ) (ds : List ℕ) → any (λ e. e == max_of d ds) (d ∷ ds) ≡ true
unfolding max_of
max_of-among d [] = ground arith
max_of-among d (e ∷ es) = elim (Bool-cases (max d e == d)) [
  | inl h ↦ ground (arith, max_of-among (max d e) es)
  | inr h ↦ ground (arith, max_of-among (max d e) es)
]

passed-eq :
    (c : Option Bool) (u : Usable) (context : ℕ)
    → (by_passed c u).context_tokens ≡ some context
    → (c ≢ some false) × (by_passed c u ≡ u)
passed-eq none u context h = (λ e. ground arith, refl)
passed-eq (some true) u context h = (λ e. ground arith, refl)
passed-eq (some false) u context h = ground arith

limit_output-le :
    (context : ℕ) (o : Option ℕ) → (out : ℕ) × (limit_output context o ≡ some out) × (out ≤ context)
limit_output-le context none = (context, refl, omega arith)
limit_output-le context (some out) = (min out context, refl, omega arith)

module _ (card : Card) (fp : String) (config : ModelConfig) (context : ℕ) where
  by_depths-Verified :
      (sweep : Option (Section (List Point))) (gate : Option (Section (Option Bool))) (ds : List ℕ)
      → current fp card.depth ≡ sweep
      → current fp card.interference ≡ gate
      → measured (points_of sweep) ≡ ds
      → (by_depths ds gate config).context_tokens ≡ some context
      → Verified card fp config context (by_depths ds gate config).max_output_tokens
  unfolding measured usable_to
  by_depths-Verified sweep gate [] a b m h = ground arith
  by_depths-Verified none gate (d ∷ ds) a b m h = ground arith
  by_depths-Verified (some s) none (d ∷ ds) a b m h = ground arith
  by_depths-Verified (some s) (some g) (d ∷ ds) a b m h =
      let u = usable_to config (max_of d ds) in
      let (has_sweep, sweep_fresh) = current-eq fp card.depth s a in
      let (has_gate, gate_fresh) = current-eq fp card.interference g b in
      let (fine, same) = passed-eq g.content u context h in
      let given : some (min config.ctx_size (max_of d ds + bench_prompt_tokens)) ≡ some context =
        sym (ap (λ (x : Usable). x.context_tokens) same) ∙ h in
      let context_eq = Option.some-injective _ context given in
      let (out, is_out, out_le) =
        limit_output-le (min config.ctx_size (max_of d ds + bench_prompt_tokens))
          config.client_max_output_tokens in
      record {
        sweep = s;
        gate = g;
        depth = max_of d ds;
        output = out;
        has_sweep = has_sweep;
        sweep_current = sweep_fresh;
        has_gate = has_gate;
        gate_current = gate_fresh;
        not_failed = fine;
        is_measured = measured-IsMeasured (max_of d ds) s.content (rw m (max_of-among d ds));
        context_le = omega arith;
        within_depth = omega arith;
        is_output = ap (λ (x : Usable). x.max_output_tokens) same ∙ is_out;
        output_le = omega arith;
      }

  -- Whenever `usable` gives a context: the card has a depth sweep and an interference gate, both with this fingerprint, and the gate
  -- has not failed; the context is no more than the configured one, and no more than a measured depth and the prompt of the benchmark;
  -- and an output limit is given, no more than the context.
  pub usable-Verified :
      (usable card fp config).context_tokens ≡ some context
      → Verified card fp config context (usable card fp config).max_output_tokens
  unfolding usable
  usable-Verified h =
      by_depths-Verified (current fp card.depth) (current fp card.interference)
        (measured (points_of (current fp card.depth))) refl refl refl h
