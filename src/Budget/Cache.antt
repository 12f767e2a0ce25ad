-- ===== src/Budget/Cache.antt =====
-- The size of the KV cache: its padding, and how it grows with the context.
use llm_env.Prelude.{
  ℕ, ◌+◌, ◌*◌, ◌%◌, ◌≤◌, ◌<◌, ◌≡◌, refl, min, Option, none, some, String, List, [], ◌∷◌, arith,
}
use llm_env.Budget.{
  Layer, Geometry, KvCache, Result, ok, err, pad256, ceil_div, swa_cells, layer_costs, sum_layers,
  kv_cache_components_mib, to_kv_cache, mib, ◌>>=◌, known_type,
}

-- `pad256` rounds up to the next multiple of 256, and leaves such a multiple alone.
pub pad256_bounds :
    (n : ℕ)
    → (n ≤ pad256 n) × (pad256 n < n + 256) × (pad256 n % 256 ≡ 0) × (pad256 (pad256 n) ≡ pad256 n)
unfolding pad256
pad256_bounds n = omega arith

pad256_mono : (m n : ℕ) → m ≤ n → pad256 m ≤ pad256 n
unfolding pad256
pad256_mono m n h = omega arith

mul_mono : (a b c : ℕ) → a ≤ b → a * c ≤ b * c
mul_mono a b c h = grind arith

-- Both sums grow.
abbrev IsBelow : Result (ℕ × ℕ) → Result (ℕ × ℕ) → Type 0
IsBelow (ok (a, b)) (ok (c, d)) = (a ≤ c) × (b ≤ d)
IsBelow (err e) (err f) = e ≡ f
IsBelow _ _ = ⊥

layer_costs_mono :
    (k v : ℕ) (w : Option ℕ) (c d u : ℕ) (l : Layer)
    → c ≤ d
    → IsBelow (layer_costs k v w c u l) (layer_costs k v w d u l)
unfolding layer_costs
layer_costs_mono k v none c d u l h =
    ground (arith, mul_mono c d (l.head_count_kv * (l.key_length * k + l.value_length * v)) h)
layer_costs_mono k v (some w) c d u l h = ground (
  arith,
  mul_mono c d (l.head_count_kv * (l.key_length * k + l.value_length * v)) h,
  mul_mono (swa_cells c w u) (swa_cells d w u)
      (l.head_count_kv * (l.key_length * k + l.value_length * v))
      (pad256_mono (min c (w + u)) (min d (w + u)) (omega arith)),
)

add_mono :
    (x y xs ys : Result (ℕ × ℕ))
    → IsBelow x y
    → IsBelow xs ys
    → IsBelow
        (x >>= λ p. xs >>= λ q. ok (p.0 + q.0, p.1 + q.1))
        (y >>= λ p. ys >>= λ q. ok (p.0 + q.0, p.1 + q.1))
add_mono x y xs ys h k = ground arith

sum_layers_mono :
    (k v : ℕ) (w : Option ℕ) (c d u : ℕ) (ls : List Layer)
    → c ≤ d
    → IsBelow (sum_layers k v w c u ls) (sum_layers k v w d u ls)
unfolding sum_layers
sum_layers_mono k v w c d u [] h = omega arith
sum_layers_mono k v w c d u (l ∷ ls) h =
    add_mono (layer_costs k v w c u l) (layer_costs k v w d u l) (sum_layers k v w c u ls)
      (sum_layers k v w d u ls) (layer_costs_mono k v w c d u l h)
      (sum_layers_mono k v w c d u ls h)

ceil_div_mono : (a b : ℕ) → a ≤ b → ceil_div a (32 * mib) ≤ ceil_div b (32 * mib)
ceil_div_mono a b h = omega arith

abbrev pub IsSmaller : Result KvCache → Result KvCache → Type 0
IsSmaller (ok a) (ok b) =
    (a.full_kv_mib ≤ b.full_kv_mib) × (a.swa_kv_mib ≤ b.swa_kv_mib) × (a.kv_mib ≤ b.kv_mib)
IsSmaller (err e) (err f) = e ≡ f
IsSmaller _ _ = ⊥

finish_mono :
    (x y : Result (ℕ × ℕ))
    → IsBelow x y
    → IsSmaller (x >>= λ t. ok (to_kv_cache t)) (y >>= λ t. ok (to_kv_cache t))
finish_mono (ok a) (ok b) h =
    let f = ceil_div_mono a.0 b.0 h.0 in
    let s = ceil_div_mono a.1 b.1 h.1 in (f, s, omega (arith, f, s))
finish_mono (ok a) (err f) h = absurd h
finish_mono (err e) (ok b) h = absurd h
finish_mono (err e) (err f) h = h

over_types :
    (g : Geometry) (c d u : ℕ)
    → c ≤ d
    → (kt vt : Result ℕ)
    → IsSmaller
        (kt >>= λ k.
          vt >>= λ v. sum_layers k v g.sliding_window c u g.layers >>= λ t. ok (to_kv_cache t))
        (kt >>= λ k.
          vt >>= λ v. sum_layers k v g.sliding_window d u g.layers >>= λ t. ok (to_kv_cache t))
over_types g c d u h (err e) vt = refl
over_types g c d u h (ok k) (err e) = refl
over_types g c d u h (ok k) (ok v) =
    finish_mono (sum_layers k v g.sliding_window c u g.layers)
      (sum_layers k v g.sliding_window d u g.layers)
      (sum_layers_mono k v g.sliding_window c d u g.layers h)

-- A smaller context never needs a larger cache, of either kind of layer, and it fails, with the same
-- error, exactly where the larger context does: the remedy "reduce ctx_size" cannot make it worse.
pub kv_cache_mono :
    (g : Geometry) (c d ubatch : ℕ) (type_k type_v : String)
    → c ≤ d
    → IsSmaller
        (kv_cache_components_mib g c ubatch type_k type_v)
        (kv_cache_components_mib g d ubatch type_k type_v)
unfolding kv_cache_components_mib
kv_cache_mono g c d ubatch type_k type_v h =
    over_types g c d ubatch h (known_type type_k) (known_type type_v)
