-- ===== src/Gguf/Geometry.antt =====
-- pylib/gguf.py, `kv_geometry`: the attention metadata of a model as one entry per layer, which the
-- VRAM budget reads.
pub mod Sound
pub mod Cached
mod Tests
use Prim.Native.String.{◌++◌ as ◌<>◌}
use llm_env.Prelude.{
  ℕ, zero, suc, ◌+◌, ◌%◌, Bool, true, false, not, ◌&&◌, ◌||◌, Option, none, some, String, List, [],
  ◌∷◌, map, length, replicate, ◌==◌, lookup, is_some, str_eq, if◌then◌else◌,
}
use llm_env.Prelude.Int.{pos}
use llm_env.Gguf.{
  GgufError, Result, ok, err, ◌>>=◌, Scalar, integer, boolean, text, Meta, scalar, array,
}
use llm_env.Budget.{Layer, Geometry}

abbrev pub Metadata : Type 0
Metadata = List (String × Meta)

-- `need`, where `suffix` has its leading dot.
unfoldable pub need : Metadata → String → String → Result Meta
need metadata arch suffix = elim (lookup (arch <> suffix) metadata) [
  | none ↦ err GgufError.missing_key
  | some value ↦ ok value
]

abbrev positive : Meta → Result ℕ
positive (scalar (integer (pos (suc n)))) = ok (suc n)
positive _ = err GgufError.not_positive_int

unfoldable pub positive_int : Metadata → String → String → Result ℕ
unfolding need
positive_int metadata arch suffix = do value ← need metadata arch suffix; positive value

abbrev positives : List Scalar → Option (List ℕ)
positives [] = some []
positives (integer (pos (suc n)) ∷ rest) = elim (positives rest) [
  | none ↦ none
  | some ns ↦ some (suc n ∷ ns)
]
positives (x ∷ rest) = none

abbrev exactly : ℕ → Option (List ℕ) → Result (List ℕ)
exactly block_count none = err GgufError.not_per_layer
exactly block_count (some ns) =
    if length ns == block_count then ok ns else err GgufError.not_per_layer

abbrev per_layer : ℕ → Meta → Result (List ℕ)
per_layer block_count (scalar (integer (pos (suc n)))) = ok (replicate block_count (suc n))
per_layer block_count (array xs) = exactly block_count (positives xs)
per_layer block_count _ = err GgufError.not_per_layer

unfoldable pub layer_values : Metadata → String → ℕ → String → Result (List ℕ)
unfolding need
layer_values metadata arch block_count suffix = do
  value ← need metadata arch suffix
  per_layer block_count value

abbrev booleans : List Scalar → Option (List Bool)
booleans [] = some []
booleans (boolean b ∷ rest) = elim (booleans rest) [ none ↦ none | some bs ↦ some (b ∷ bs) ]
booleans (x ∷ rest) = none

abbrev exactly_bools : ℕ → Option (List Bool) → Result (List Bool)
exactly_bools block_count none = err GgufError.not_booleans
exactly_bools block_count (some bs) =
    if length bs == block_count then ok bs else err GgufError.not_booleans

-- A list of `block_count` Booleans.
unfoldable pub pattern_of : ℕ → Meta → Result (List Bool)
pattern_of block_count (array xs) = exactly_bools block_count (booleans xs)
pattern_of block_count _ = err GgufError.not_booleans

unfoldable pub interval_kinds : ℕ → ℕ → ℕ → List String
interval_kinds interval index zero = []
interval_kinds interval index (suc n) =
    (if suc index % interval == 0 then "full" else "recurrent")
    ∷ interval_kinds interval (suc index) n

-- The kinds of the layers, the window, and the lengths of the sliding-window layers.
pub record Attention : Type 0 where
  pub kinds : List String
  pub sliding_window : Option ℕ
  pub swa_keys : List ℕ
  pub swa_values : List ℕ

-- The branch of `qwen35` and `qwen35moe`.
unfoldable pub recurrent_kinds : Metadata → String → ℕ → Result (List String)
unfolding pattern_of positive_int interval_kinds
recurrent_kinds metadata arch block_count =
    elim (lookup (arch <> ".attention.recurrent_layers") metadata) [
      | some recurrent ↦ (do
        items ← pattern_of block_count recurrent
        ok (map (λ (item : Bool). if item then "recurrent" else "full") items))
      | none ↦
          if not (is_some (lookup (arch <> ".full_attention_interval") metadata))
          then err GgufError.missing_key
          else (do
            interval ← positive_int metadata arch ".full_attention_interval"
            ok (interval_kinds interval 0 block_count))
    ]

-- The branch of `gemma4`.
unfoldable pub sliding_attention : Metadata → String → ℕ → Result Attention
unfolding need pattern_of positive_int layer_values
sliding_attention metadata arch block_count = do
  pattern_value ← need metadata arch ".attention.sliding_window_pattern"
  items ← pattern_of block_count pattern_value
  window ← positive_int metadata arch ".attention.sliding_window"
  keys ← layer_values metadata arch block_count ".attention.key_length_swa"
  values ← layer_values metadata arch block_count ".attention.value_length_swa"
  ok (record {
    kinds = map (λ (item : Bool). if item then "swa" else "full") items;
    sliding_window = some window;
    swa_keys = keys;
    swa_values = values;
  })

abbrev pub plain : List ℕ → List ℕ → List String → Attention
plain keys values kinds = record {
  kinds = kinds;
  sliding_window = none;
  swa_keys = keys;
  swa_values = values;
}

unfoldable pub attention : Metadata → String → ℕ → List ℕ → List ℕ → Result Attention
unfolding recurrent_kinds sliding_attention
attention metadata arch block_count keys values =
    if str_eq arch "qwen35" || str_eq arch "qwen35moe"
    then (do kinds ← recurrent_kinds metadata arch block_count; ok (plain keys values kinds))
    else if str_eq arch "gemma4"
    then sliding_attention metadata arch block_count
    else ok (plain keys values (replicate block_count "full"))

-- The last loop; the lists have one entry per layer.
unfoldable pub layers_of : List String → List ℕ → List ℕ → List ℕ → List ℕ → List ℕ → List Layer
layers_of (kind ∷ kinds) (h ∷ hs) (k ∷ ks) (v ∷ vs) (sk ∷ sks) (sv ∷ svs) =
    let is_swa = str_eq kind "swa" in
    record {
      kind = kind;
      head_count_kv = h;
      key_length = if is_swa then sk else k;
      value_length = if is_swa then sv else v;
    }
    ∷ layers_of kinds hs ks vs sks svs
layers_of _ _ _ _ _ _ = []

abbrev pub architecture : Option Meta → Result String
architecture (some (scalar (text arch))) =
    if str_eq arch "" then err GgufError.no_architecture else ok arch
architecture _ = err GgufError.no_architecture

unfoldable pub kv_geometry : Metadata → Result Geometry
unfolding positive_int layer_values attention layers_of
kv_geometry metadata = do
  arch ← architecture (lookup "general.architecture" metadata)
  block_count ← positive_int metadata arch ".block_count"
  heads ← layer_values metadata arch block_count ".attention.head_count_kv"
  keys ← layer_values metadata arch block_count ".attention.key_length"
  values ← layer_values metadata arch block_count ".attention.value_length"
  a ← attention metadata arch block_count keys values
  ok (record {
    layers = layers_of a.kinds heads keys values a.swa_keys a.swa_values;
    sliding_window = a.sliding_window;
  })
