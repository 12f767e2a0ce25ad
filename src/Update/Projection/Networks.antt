-- ===== src/Update/Projection/Networks.antt =====
-- pylib/omniroute_update.py, `build_projection`: the networks of the projected service.
use Prim.Native.String.{String}
use llm_env.Prelude.{
  ◌≡◌, refl, ◌∙◌, ap, true, some, List, [], ◌∷◌, all, str_eq, str_mem, eq_iff, arith, Bool-cases,
  inl, inr,
}
use llm_env.Json.{Value, text, object, Fields, get, set_key, drop_key}
use llm_env.Json.Keys.{get-set_key}
use llm_env.Update.Documents.{or_empty_dict}
use llm_env.Update.Snapshot.Texts.{sort_texts}
use llm_env.Update.Projection.{
  Inspected, attached, aliases_of, field_keys, same_set, projected_service, object_fields,
}

attached-keys :
    (aliases : List (String × Value)) (names : List String)
    → field_keys (attached aliases names) ≡ names
unfolding attached
attached-keys aliases [] = refl
attached-keys aliases (name ∷ names) = ap (◌∷◌ name) (attached-keys aliases names)

pub get-networks :
    (base : Fields) (seen : Inspected) (image : String) (names : List (String × String))
    → (attachments : Fields) × (get "networks" (projected_service base seen image names)
        ≡ some (object attachments))
      × (field_keys attachments ≡ sort_texts seen.networks)
unfolding projected_service
get-networks base seen image names = (
  _,
  get-set_key "networks" "networks" _ (drop_key "depends_on" (set_key "image" (text image) base)),
  attached-keys (aliases_of names [] (object_fields (or_empty_dict (get "networks" base))))
      (sort_texts seen.networks),
)

mem-all :
    (s : String) (xs ys : List String)
    → all (λ x. str_mem x ys) xs ≡ true
    → str_mem s xs ≡ true
    → str_mem s ys ≡ true
mem-all s [] ys h m = ground arith
mem-all s (x ∷ xs) ys h m = elim (Bool-cases (str_eq s x)) [
  | inl e ↦
      let head : str_mem x ys ≡ true = ground arith in
      ap (λ t. str_mem t ys) ((eq_iff s x).0 e) ∙ head
  | inr e ↦ mem-all s xs ys (ground arith) (ground arith)
]

pub same_set-mem :
    (xs ys : List String) → same_set xs ys ≡ true → (s : String) → str_mem s xs ≡ str_mem s ys
same_set-mem xs ys h s = ground (arith, mem-all s xs ys, mem-all s ys xs)
