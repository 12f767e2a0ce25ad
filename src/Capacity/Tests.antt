-- ===== src/Capacity/Tests.antt =====
-- A card with a current sweep and a passed gate, and the same card after an edit of the configuration.
use llm_env.Prelude.{ℕ, ◌≡◌, refl, true, none, some, [], ◌∷◌}
use llm_env.Capacity.{Point, Card, ModelConfig, Basis, unusable, usable, stale_sections}
use llm_env.Capacity.Verified.{Verified, usable-Verified}

abbrev point : ℕ → Point
point d = record { depth = d; tg_tps = some "30" }

abbrev card : Card
card = record {
  depth = some (record {
    fingerprint = some "fp";
    content = point 0 ∷ point 8192 ∷ record (point 16384) { tg_tps = none } ∷ [];
  });
  ladder = none;
  interference = some (record { fingerprint = some "fp"; content = some true });
  ram = some (record { fingerprint = some "fp"; content = tt });
  quants = none;
  profile = none;
}

abbrev config : ModelConfig
config = record { ctx_size = 32768; client_max_output_tokens = some 16384 }

verified : usable card "fp" config ≡ record {
  context_tokens = some 8704;
  max_output_tokens = some 8704;
  basis = Basis.verified_to 8192;
}
unfolding usable
verified = refl

edited : usable card "new" config ≡ unusable Basis.no_depth_sweep
unfolding usable
edited = refl

edited_stale : stale_sections card "new" ≡ "depth" ∷ "interference" ∷ "ram" ∷ []
unfolding stale_sections
edited_stale = refl

given : (usable card "fp" config).context_tokens ≡ some 8704
unfolding usable
given = refl

usable-Verified_example : Verified card "fp" config 8704 (usable card "fp" config).max_output_tokens
usable-Verified_example = usable-Verified card "fp" config 8704 given
