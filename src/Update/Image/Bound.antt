-- ===== src/Update/Image/Bound.antt =====
-- What a resolved image is bound to.
use llm_env.Prelude.{
  ℕ, ◌≡◌, ◌≢◌, ◌⊎◌, inl, inr, false, not, ◌&&◌, some, String, List, str_eq, eq_iff, arith,
  Bool-cases,
}
use llm_env.Prelude.Chars.{append_text, contains_text}
use llm_env.Deferral.{Reason}
use llm_env.Json.{Value}
use llm_env.Update.Reference.{parse_reference}
use llm_env.Update.Documents.{
  Outcome, done, update_error, dict_get, in_texts, >>=-eq-done, >>-eq-done,
}
use llm_env.Update.Image.{
  Registry, Platform, Kind, ImageIdentity, config_id_of, digest, fetch, fetch_selected,
  select_digest, resolve_index, resolve_single, resolve_image, index_types,
}

update_error-ne-done : {A : Type 0} (a : A) → Outcome.update_error ≢ done a
update_error-ne-done a h = ground arith

deferral-ne-done : {A : Type 0} (why : Reason) (a : A) → Outcome.deferral why ≢ done a
deferral-ne-done why a h = ground arith

-- The bytes that the identity's digest is of, and the document with its config id.
pub record Bound (reg : Registry) (reference : String) (p : Platform) (id : ImageIdentity)
    : Type 0 where
  pub raw : List ℕ
  pub doc : Value
  pub is_doc : reg.loads raw ≡ some doc
  pub is_digest : digest reg raw ≡ id.manifest_digest
  pub is_config : config_id_of doc ≡ done id.config_id
  pub is_ref :
      id.immutable_ref
      ≡ append_text (parse_reference reference).repository (append_text "@" id.manifest_digest)
  pub is_platform : id.platform ≡ p
  pub source :
      ((id.kind ≡ Kind.single) × (reg.inspect_raw reference ≡ some raw))
      ⊎ ((id.kind ≡ Kind.index)
          × (reg.inspect_raw id.immutable_ref ≡ some raw)
          × (contains_text "@sha256:" reference ≡ false))

module _ (reg : Registry) where
  fetch-eq-done :
      (ref : String) {raw : List ℕ} {doc : Value}
      → fetch reg ref ≡ done (raw, doc)
      → (reg.inspect_raw ref ≡ some raw) × (reg.loads raw ≡ some doc)
  unfolding fetch
  fetch-eq-done ref h = ground arith

  module _ (reference : String) (p : Platform) {id : ImageIdentity} where
    single-Bound :
        (raw : List ℕ) (doc : Value)
        → reg.inspect_raw reference ≡ some raw
        → reg.loads raw ≡ some doc
        → resolve_single reg (parse_reference reference).repository (digest reg raw) doc p ≡ done id
        → Bound reg reference p id
    unfolding resolve_single
    single-Bound raw doc e l h =
        let (config_id, c, h1) = >>=-eq-done (config_id_of doc) _ h in
        record {
          raw = raw;
          doc = doc;
          is_doc = l;
          is_digest = ground arith;
          is_config = ground arith;
          is_ref = ground arith;
          is_platform = ground arith;
          source = inl (ground arith, e);
        }

    selected-Bound :
        (source manifest_digest : String)
        → contains_text "@sha256:" reference ≡ false
        → fetch_selected reg (parse_reference reference).repository source p manifest_digest
          ≡ done id
        → Bound reg reference p id
    unfolding fetch_selected
    selected-Bound source manifest_digest pinned h =
        let ref =
          append_text (parse_reference reference).repository (append_text "@" manifest_digest) in
        let ((raw, selected), f, h1) = >>=-eq-done (fetch reg ref) _ h in
        let (same, h2) =
          >>-eq-done (not (str_eq (digest reg raw) manifest_digest)) update_error _
            (λ x. update_error-ne-done x) h1 in
        let (config_id, c, h3) = >>=-eq-done (config_id_of selected) _ h2 in
        let (got, parsed) = fetch-eq-done ref f in
        record {
          raw = raw;
          doc = selected;
          is_doc = parsed;
          is_digest = ground (arith, eq_iff (digest reg raw) manifest_digest);
          is_config = ground arith;
          is_ref = ground arith;
          is_platform = ground arith;
          source = inr (ground arith, ground arith, pinned);
        }

  -- Whenever `resolve_image` answers with an identity: its manifest digest is the digest of bytes that the registry gave for the
  -- reference itself (a single manifest) or, where the reference is an index (and no digest pin), for the immutable reference; its
  -- config id is the one that these very bytes state; and the immutable reference is the repository with that digest.
  pub resolve_image-Bound :
      (reference : String) (p : Platform) {id : ImageIdentity}
      → resolve_image reg reference p ≡ done id
      → Bound reg reference p id
  unfolding resolve_image resolve_index
  resolve_image-Bound reference p h =
      let ((raw, doc), f, h1) = >>=-eq-done (fetch reg reference) _ h in
      let (kind, _, h2) = >>=-eq-done (dict_get doc "mediaType") _ h1 in
      let (is_index, _, h3) = >>=-eq-done (in_texts kind index_types) _ h2 in
      let (pinned, h4) =
        >>-eq-done (contains_text "@sha256:" reference && is_index) _ _
          (λ x. deferral-ne-done Reason.input x) h3 in
      let (got, parsed) = fetch-eq-done reference f in
      elim (Bool-cases is_index) [
        | inl yes' ↦
            let (manifest_digest, _, h5) = >>=-eq-done (select_digest doc p) _ (rw yes' at h4) in
            selected-Bound reference p (digest reg raw) manifest_digest (ground arith) h5
        | inr no' ↦ single-Bound reference p raw doc got parsed (rw no' at h4)
      ]
