-- ===== src/Update/Projection/Volumes.antt =====
-- pylib/omniroute_update.py, `_mounts`: every named volume is one of the inspected container.
use Prim.Native.String.{String}
use llm_env.Prelude.{
  ◌≡◌, refl, sym, ◌∙◌, ap, Bool, true, List, [], ◌∷◌, all, insert, str_eq, str_mem, arith,
  Bool-cases, inl, inr,
}
use llm_env.Json.{Value, Fields}
use llm_env.Update.Documents.{done, >>=-eq-done}
use llm_env.Update.Projection.{
  Inspected, values_of, note_mount, note_mounts, place_mount, is_bind_mount, check_bind, add_volume,
  mount_source, network_name,
}
use llm_env.Update.Literal.{Env}

abbrev pub is_known : Inspected → Env → Bool
is_known seen out = all (λ name. str_mem name seen.volumes) (values_of out)

insert_known :
    (seen : Inspected) (source name : String) (out : Env)
    → str_mem name seen.volumes ≡ true
    → is_known seen out ≡ true
    → is_known seen (insert source name out) ≡ true
insert_known seen source name [] m h = rw m refl
insert_known seen source name ((k, v) ∷ out) m h = elim (Bool-cases (str_eq k source)) [
  | inl e ↦ rw (e, m) (ground arith)
  | inr e ↦ rw e (ground (arith, insert_known seen source name out))
]

module _ (seen : Inspected) (declared : Fields) (project : String) where
  volume_known :
      (source name : String) (out out' : Env)
      → add_volume seen source name out ≡ done out'
      → is_known seen out ≡ true
      → is_known seen out' ≡ true
  volume_known source name out out' h k = elim (Bool-cases (str_mem name seen.volumes)) [
    | inl m ↦
        ap (λ r. elim r [ done e ↦ is_known seen e | _ ↦ true ]) (sym (rw m at h))
        ∙ insert_known seen source name out m k
    | inr m ↦ ground (arith, m)
  ]

  place_known :
      (source : String) (bound : Bool) (out out' : Env)
      → place_mount seen declared project out (source, bound) ≡ done out'
      → is_known seen out ≡ true
      → is_known seen out' ≡ true
  unfolding place_mount
  place_known source bound out out' h k = elim (Bool-cases (is_bind_mount source bound)) [
    | inl b ↦
        let (_, _, h1) = >>=-eq-done (check_bind seen source) (λ _. done out) (rw b at h) in
        ap (λ r. elim r [ done e ↦ is_known seen e | _ ↦ true ]) (sym h1) ∙ k
    | inr b ↦
        let (name, _, h1) = >>=-eq-done (network_name declared project source) _ (rw b at h) in
        volume_known source name out out' h1 k
  ]

  pub mounts_known :
      (entries : List Value) (out out' : Env)
      → note_mounts seen declared project entries out ≡ done out'
      → is_known seen out ≡ true
      → is_known seen out' ≡ true
  unfolding note_mounts note_mount
  mounts_known [] out out' h k = ground arith
  mounts_known (entry ∷ entries) out out' h k =
      let (next, e, h1) = >>=-eq-done (note_mount seen declared project entry out) _ h in
      let ((source, bound), _, h2) = >>=-eq-done (mount_source entry) _ e in
      mounts_known entries next out' h1 (place_known source bound out next h2 k)
