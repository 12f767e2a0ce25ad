-- ===== src/Gguf/Geometry/Cached.antt =====
-- The VRAM budget finds a cache for the geometry of every model that `kv_geometry` accepts.
use llm_env.Prelude.{
  ℕ, ◌+◌, ◌≡◌, refl, Option, none, some, String, List, [], ◌∷◌, lookup, All, inl, inr,
}
use llm_env.Gguf
use llm_env.Gguf.Geometry.{Metadata, kv_geometry}
use llm_env.Gguf.Geometry.Sound.{IsKind, kv_geometry-IsUsable}
use llm_env.Budget.{
  Layer, Geometry, KvCache, Result, ok, err, unknown_cache_type, ◌>>=◌ as ◌>=>◌, layer_costs,
  sum_layers, kv_cache_components_mib, known_type, bytes_per_element, to_kv_cache, layer_bytes,
  swa_cells,
}

layer_costs-total :
    (k v ctx ubatch : ℕ) (w : Option ℕ) (l : Layer)
    → IsKind w l.kind
    → (c : ℕ × ℕ) × (layer_costs k v w ctx ubatch l ≡ ok c)
unfolding layer_costs
layer_costs-total k v ctx ubatch w l (inl full) = ((layer_bytes k v l ctx, 0), rw full refl)
layer_costs-total k v ctx ubatch w l (inr (inl recurrent)) = ((0, 0), rw recurrent refl)
layer_costs-total k v ctx ubatch (some n) l (inr (inr (swa, given))) =
    ((0, layer_bytes k v l (swa_cells ctx n ubatch)), rw swa refl)
layer_costs-total k v ctx ubatch none l (inr (inr (swa, given))) = cc

sum_layers-total :
    (k v ctx ubatch : ℕ) (w : Option ℕ) (ls : List Layer)
    → All (λ (l : Layer). IsKind w l.kind) ls
    → (c : ℕ × ℕ) × (sum_layers k v w ctx ubatch ls ≡ ok c)
unfolding sum_layers
sum_layers-total k v ctx ubatch w [] h = ((0, 0), refl)
sum_layers-total k v ctx ubatch w (l ∷ ls) h =
    let (c, e) = layer_costs-total k v ctx ubatch w l h.0 in
    let (d, f) = sum_layers-total k v ctx ubatch w ls h.1 in
    ((c.0 + d.0, c.1 + d.1), rw (e, f) refl)

known_type_ok : (t : String) (k : ℕ) → lookup t bytes_per_element ≡ some k → known_type t ≡ ok k
known_type_ok t k h = from_lookup (lookup t bytes_per_element) h
  where
    from_lookup :
        (o : Option ℕ)
        → o ≡ some k
        → elim o [ none ↦ err unknown_cache_type | some b ↦ ok b ] ≡ ok k
    from_lookup none h = cc
    from_lookup (some b) h = cc

chained :
    (rk rv : Result ℕ) (sums : ℕ → ℕ → Result (ℕ × ℕ)) (k v : ℕ) (c : ℕ × ℕ)
    → rk ≡ ok k
    → rv ≡ ok v
    → sums k v ≡ ok c
    → (rk >=> (λ a. rv >=> (λ b. sums a b >=> (λ d. ok (to_kv_cache d))))) ≡ ok (to_kv_cache c)
chained rk rv sums k v c ek ev es = rw (ek, ev, es) refl

-- The geometry of every model whose metadata `kv_geometry` accepts has a KV cache, for all cache types
-- that the budget knows and every context size: `kv_cache_components_mib` does not fail on it.
pub kv_geometry-cached :
    (metadata : Metadata) (g : Geometry) (ctx ubatch k v : ℕ) (type_k type_v : String)
    → kv_geometry metadata ≡ Gguf.ok g
    → lookup type_k bytes_per_element ≡ some k
    → lookup type_v bytes_per_element ≡ some v
    → (c : KvCache) × (kv_cache_components_mib g ctx ubatch type_k type_v ≡ ok c)
unfolding kv_cache_components_mib
kv_geometry-cached metadata g ctx ubatch k v type_k type_v h ek ev =
    let (c, e) =
      sum_layers-total k v ctx ubatch g.sliding_window g.layers
        (kv_geometry-IsUsable metadata g h) in
    (
      to_kv_cache c,
      chained (known_type type_k) (known_type type_v)
          (λ a b. sum_layers a b g.sliding_window ctx ubatch g.layers) k v c
          (known_type_ok type_k k ek) (known_type_ok type_v v ev) e,
    )
