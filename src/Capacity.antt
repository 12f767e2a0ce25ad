-- ===== src/Capacity.antt =====
-- pylib/capacity.py: what a capacity card lets a client use. A section of a card that is no mapping is none; a depth and the limits are
-- whole numbers, and the remaining contents of the sections, which are only carried along, are left out.
pub mod Verified
mod Tests
use llm_env.Prelude.{
  ℕ, ◌+◌, ◌≡◌, Bool, true, false, not, min, max, Option, none, some, List, [], ◌∷◌, ◌++◌, String,
  str_eq, is_some, if◌then◌else◌,
}

pub record Point : Type 0 where
  pub depth : ℕ
  pub tg_tps : Option String

pub record Section (A : Type 0) : Type 0 where
  pub fingerprint : Option String
  pub content : A

-- `depth` has its points, `interference` its `passed`, and the others nothing that is read here.
pub record Card : Type 0 where
  pub depth : Option (Section (List Point))
  pub ladder : Option (Section Unit)
  pub interference : Option (Section (Option Bool))
  pub ram : Option (Section Unit)
  pub quants : Option (Section Unit)
  pub profile : Option (Section Unit)

-- `model_config`: the limits of the model
pub record ModelConfig : Type 0 where
  pub ctx_size : ℕ
  pub client_max_output_tokens : Option ℕ

pub data Basis : Type 0 where
  no_depth_sweep gate_failed not_measured : Basis
  verified_to : ℕ → Basis

pub record Usable : Type 0 where
  pub context_tokens : Option ℕ
  pub max_output_tokens : Option ℕ
  pub basis : Basis

abbrev pub bench_prompt_tokens : ℕ
bench_prompt_tokens = 512

abbrev pub is_current : {A : Type 0} → String → Section A → Bool
is_current fp s = elim s.fingerprint [ none ↦ false | some f ↦ str_eq f fp ]

-- `_current`
unfoldable pub current : {A : Type 0} → String → Option (Section A) → Option (Section A)
current fp none = none
current fp (some s) = if is_current fp s then some s else none

-- The depths of the points that have a rate.
unfoldable pub measured : List Point → List ℕ
measured [] = []
measured (p ∷ ps) = let rest = measured ps in if is_some p.tg_tps then p.depth ∷ rest else rest

abbrev pub points_of : Option (Section (List Point)) → List Point
points_of none = []
points_of (some s) = s.content

-- `max`, of a list that is not empty
unfoldable pub max_of : ℕ → List ℕ → ℕ
max_of d [] = d
max_of d (e ∷ es) = max_of (max d e) es

abbrev pub unusable : Basis → Usable
unusable why = record { context_tokens = none; max_output_tokens = none; basis = why }

-- `context if out is None else min(out, context)`
abbrev pub limit_output : ℕ → Option ℕ → Option ℕ
limit_output context none = some context
limit_output context (some out) = some (min out context)

-- The limits, at a depth that was measured.
unfoldable pub usable_to : ModelConfig → ℕ → Usable
usable_to config d =
    let context = min config.ctx_size (d + bench_prompt_tokens) in
    record {
      context_tokens = some context;
      max_output_tokens = limit_output context config.client_max_output_tokens;
      basis = Basis.verified_to d;
    }

-- The gate, after the depth sweep.
abbrev pub by_passed : Option Bool → Usable → Usable
by_passed (some false) u = unusable Basis.gate_failed
by_passed _ u = u

abbrev pub by_gate : Option (Section (Option Bool)) → Usable → Usable
by_gate none u = unusable Basis.not_measured
by_gate (some gate) u = by_passed gate.content u

abbrev pub by_depths : List ℕ → Option (Section (Option Bool)) → ModelConfig → Usable
by_depths [] gate config = unusable Basis.no_depth_sweep
by_depths (d ∷ ds) gate config = by_gate gate (usable_to config (max_of d ds))

-- `usable`, with the configuration that is given
unfoldable pub usable : Card → String → ModelConfig → Usable
unfolding current measured max_of usable_to
usable card fp config =
    by_depths (measured (points_of (current fp card.depth))) (current fp card.interference) config

-- `stale_sections` of `_view`
unfoldable pub stale : {A : Type 0} → String → String → Option (Section A) → List String
stale fp name none = []
stale fp name (some s) = if is_current fp s then [] else name ∷ []

unfoldable pub stale_sections : Card → String → List String
unfolding stale
stale_sections card fp =
    stale fp "depth" card.depth
    ++ stale fp "ladder" card.ladder
    ++ stale fp "interference" card.interference
    ++ stale fp "ram" card.ram
    ++ stale fp "quants" card.quants
    ++ stale fp "profile" card.profile
