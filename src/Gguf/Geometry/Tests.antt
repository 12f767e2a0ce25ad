-- ===== src/Gguf/Geometry/Tests.antt =====
-- The metadata of a small model with sliding-window layers, and the theorem applied to it.
use llm_env.Prelude.{ℕ, ◌≡◌, refl, true, false, some, [], ◌∷◌}
use llm_env.Prelude.Int.{pos}
use llm_env.Gguf.{ok, integer, boolean, text, Meta, scalar, array}
use llm_env.Gguf.Geometry.{Metadata, kv_geometry}
use llm_env.Gguf.Geometry.Cached.{kv_geometry-cached}
use llm_env.Budget
use llm_env.Budget.{Geometry, KvCache, kv_cache_components_mib}

abbrev number : ℕ → Meta
number n = scalar (integer (pos n))

abbrev metadata : Metadata
metadata =
    ("general.architecture", scalar (text "gemma4"))
    ∷ ("gemma4.block_count", number 2)
    ∷ ("gemma4.attention.head_count_kv", array (integer (pos 8) ∷ integer (pos 4) ∷ []))
    ∷ ("gemma4.attention.key_length", number 512)
    ∷ ("gemma4.attention.value_length", number 512)
    ∷ ("gemma4.attention.sliding_window_pattern", array (boolean true ∷ boolean false ∷ []))
    ∷ ("gemma4.attention.sliding_window", number 1024)
    ∷ ("gemma4.attention.key_length_swa", number 256)
    ∷ ("gemma4.attention.value_length_swa", number 128)
    ∷ []

abbrev geometry : Geometry
geometry = record {
  layers =
      record { kind = "swa"; head_count_kv = 8; key_length = 256; value_length = 128 }
      ∷ record { kind = "full"; head_count_kv = 4; key_length = 512; value_length = 512 }
      ∷ [];
  sliding_window = some 1024;
}

computed : kv_geometry metadata ≡ ok geometry
unfolding kv_geometry
computed = refl

kv_geometry-cached_example :
    (c : KvCache) × (kv_cache_components_mib geometry 8192 512 "f16" "q8_0" ≡ Budget.ok c)
kv_geometry-cached_example =
    kv_geometry-cached metadata geometry 8192 512 64 34 "f16" "q8_0" computed refl refl
