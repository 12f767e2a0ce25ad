-- ===== src/Gguf/Geometry/Sound.antt =====
-- Every layer that `kv_geometry` gives is of a kind that the VRAM budget knows.
use Prim.Native.String.{◌++◌ as ◌<>◌}
use mathlib.Core.Path.{subst}
use llm_env.Prelude.{
  ℕ, zero, suc, ◌%◌, ◌≡◌, ◌⊎◌, refl, Bool, true, false, ◌||◌, Option, none, some, String, List, [],
  ◌∷◌, map, replicate, ◌==◌, lookup, is_some, str_eq, All, if◌then◌else◌, Bool-cases, Option-cases,
  inl, inr,
}
use llm_env.Gguf.{GgufError, Result, ok, err, ◌>>=◌}
use llm_env.Gguf.Geometry.{
  Metadata, Attention, plain, attention, layers_of, kv_geometry, need, pattern_of, positive_int,
  layer_values, interval_kinds, recurrent_kinds, sliding_attention, architecture,
}
use llm_env.Budget.{Layer, Geometry}

bind_ok :
    {A B : Type 0} (r : Result A) (f : A → Result B) (b : B)
    → (r >>= f) ≡ ok b
    → (a : A) × ((r ≡ ok a) × (f a ≡ ok b))
bind_ok (ok a) f b h = (a, (refl, h))
bind_ok (err e) f b h = cc

-- A kind that the budget knows; a sliding-window layer has a window.
abbrev pub IsKind : Option ℕ → String → Type 0
IsKind window kind =
    (kind ≡ "full") ⊎ ((kind ≡ "recurrent") ⊎ ((kind ≡ "swa") × (is_some window ≡ true)))

kinds-All :
    (w : Option ℕ) (k : String) (items : List Bool)
    → IsKind w k
    → All (IsKind w) (map (λ (item : Bool). if item then k else "full") items)
kinds-All w k [] h = tt
kinds-All w k (true ∷ items) h = (h, kinds-All w k items h)
kinds-All w k (false ∷ items) h = (inl refl, kinds-All w k items h)

full-All : (w : Option ℕ) (n : ℕ) → All (IsKind w) (replicate n "full")
full-All w zero = tt
full-All w (suc n) = (inl refl, full-All w n)

interval-All :
    (w : Option ℕ) (interval index n : ℕ) → All (IsKind w) (interval_kinds interval index n)
unfolding interval_kinds
interval-All w interval index zero = tt
interval-All w interval index (suc n) =
    (one (suc index % interval == 0), interval-All w interval (suc index) n)
  where
    one : (b : Bool) → IsKind w (if b then "full" else "recurrent")
    one true = inl refl
    one false = inr (inl refl)

-- What holds of a value holds of the result that is equal to it.
from_ok : {A : Type 0} (P : A → Type 0) (a b : A) → ok a ≡ ok b → P a → P b
from_ok P a b h p = let e : a ≡ b = cc in subst P e p

recurrent-All :
    (metadata : Metadata) (arch : String) (n : ℕ) (kinds : List String)
    → recurrent_kinds metadata arch n ≡ ok kinds
    → All (IsKind none) kinds
unfolding recurrent_kinds
recurrent-All metadata arch n kinds h =
    elim (Option-cases (lookup (arch <> ".attention.recurrent_layers") metadata)) [
      | inr (recurrent, found) ↦
          let (items, (_, e)) =
            bind_ok (pattern_of n recurrent) _ kinds (rw (found, recurrent_kinds) at h) in
          from_ok (All (IsKind none)) _ kinds e (recurrent_items items)
      | inl missing ↦
          elim (Bool-cases (is_some (lookup (arch <> ".full_attention_interval") metadata))) [
            | inl given ↦
                let (interval, (_, e)) =
                  bind_ok (positive_int metadata arch ".full_attention_interval") _ kinds
                    (rw (missing, given, recurrent_kinds) at h) in
                from_ok (All (IsKind none)) _ kinds e (interval-All none interval 0 n)
            | inr absent ↦
                let f : err GgufError.missing_key ≡ ok kinds =
                  rw (missing, absent, recurrent_kinds) at h in
                cc
          ]
    ]
  where
    recurrent_items :
        (items : List Bool)
        → All (IsKind none) (map (λ (item : Bool). if item then "recurrent" else "full") items)
    recurrent_items items = kinds-All none "recurrent" items (inr (inl refl))

abbrev IsAttention : Attention → Type 0
IsAttention a = All (IsKind a.sliding_window) a.kinds

sliding-IsAttention :
    (metadata : Metadata) (arch : String) (n : ℕ) (a : Attention)
    → sliding_attention metadata arch n ≡ ok a
    → IsAttention a
unfolding sliding_attention
sliding-IsAttention metadata arch n a h =
    let (pattern_value, (_, h1)) =
      bind_ok (need metadata arch ".attention.sliding_window_pattern") _ a h in
    let (items, (_, h2)) = bind_ok (pattern_of n pattern_value) _ a h1 in
    let (window, (_, h3)) =
      bind_ok (positive_int metadata arch ".attention.sliding_window") _ a h2 in
    let (keys, (_, h4)) =
      bind_ok (layer_values metadata arch n ".attention.key_length_swa") _ a h3 in
    let (values, (_, h5)) =
      bind_ok (layer_values metadata arch n ".attention.value_length_swa") _ a h4 in
    from_ok IsAttention _ a h5 (kinds-All (some window) "swa" items (inr (inr (refl, refl))))

attention-IsAttention :
    (metadata : Metadata) (arch : String) (n : ℕ) (keys values : List ℕ) (a : Attention)
    → attention metadata arch n keys values ≡ ok a
    → IsAttention a
unfolding attention
attention-IsAttention metadata arch n keys values a h =
    elim (Bool-cases (str_eq arch "qwen35" || str_eq arch "qwen35moe")) [
      | inl qwen ↦
          let (kinds, (e, h1)) =
            bind_ok (recurrent_kinds metadata arch n) _ a (rw (qwen, attention) at h) in
          from_ok IsAttention _ a h1 (recurrent-All metadata arch n kinds e)
      | inr not_qwen ↦ elim (Bool-cases (str_eq arch "gemma4")) [
        | inl gemma ↦ sliding-IsAttention metadata arch n a (rw (not_qwen, gemma, attention) at h)
        | inr neither ↦
            from_ok IsAttention (plain keys values (replicate n "full")) a
              (rw (not_qwen, neither, attention) at h) (full-All none n)
      ]
    ]

layers_of-All :
    (w : Option ℕ) (kinds : List String) (hs ks vs sks svs : List ℕ)
    → All (IsKind w) kinds
    → All (λ (l : Layer). IsKind w l.kind) (layers_of kinds hs ks vs sks svs)
unfolding layers_of
layers_of-All w [] hs ks vs sks svs h = tt
layers_of-All w (kind ∷ kinds) [] ks vs sks svs h = tt
layers_of-All w (kind ∷ kinds) (x ∷ hs) [] vs sks svs h = tt
layers_of-All w (kind ∷ kinds) (x ∷ hs) (k ∷ ks) [] sks svs h = tt
layers_of-All w (kind ∷ kinds) (x ∷ hs) (k ∷ ks) (v ∷ vs) [] svs h = tt
layers_of-All w (kind ∷ kinds) (x ∷ hs) (k ∷ ks) (v ∷ vs) (sk ∷ sks) [] h = tt
layers_of-All w (kind ∷ kinds) (x ∷ hs) (k ∷ ks) (v ∷ vs) (sk ∷ sks) (sv ∷ svs) h =
    (h.0, layers_of-All w kinds hs ks vs sks svs h.1)

abbrev pub IsUsable : Geometry → Type 0
IsUsable g = All (λ (l : Layer). IsKind g.sliding_window l.kind) g.layers

pub kv_geometry-IsUsable :
    (metadata : Metadata) (g : Geometry) → kv_geometry metadata ≡ ok g → IsUsable g
unfolding kv_geometry
kv_geometry-IsUsable metadata g h =
    let (arch, (_, h1)) = bind_ok (architecture (lookup "general.architecture" metadata)) _ g h in
    let (n, (_, h2)) = bind_ok (positive_int metadata arch ".block_count") _ g h1 in
    let (heads, (_, h3)) =
      bind_ok (layer_values metadata arch n ".attention.head_count_kv") _ g h2 in
    let (keys, (_, h4)) = bind_ok (layer_values metadata arch n ".attention.key_length") _ g h3 in
    let (values, (_, h5)) =
      bind_ok (layer_values metadata arch n ".attention.value_length") _ g h4 in
    let (a, (e, h6)) = bind_ok (attention metadata arch n keys values) _ g h5 in
    from_ok IsUsable _ g h6 (
      layers_of-All a.sliding_window a.kinds heads keys values a.swa_keys a.swa_values
        (attention-IsAttention metadata arch n keys values a e))
