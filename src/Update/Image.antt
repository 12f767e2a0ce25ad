-- ===== src/Update/Image.antt =====
-- pylib/omniroute_update.py: the resolution of an image reference to one manifest (`resolve_image`), and the check of the staged image
-- (`verify_staged`). The registry (skopeo), the JSON parser and SHA-256 are a section's parameters; bytes are a list.
pub mod Bound
use llm_env.Prelude.{
  ℕ, suc, ◌==◌, Bool, true, false, not, ◌&&◌, ◌||◌, Option, none, some, String, List, [], ◌∷◌,
  length, str_eq, if◌then◌else◌,
}
use llm_env.Prelude.Int.{pos}
use llm_env.Prelude.Chars.{append_text, contains_text, is_empty}
use llm_env.Deferral.{Reason}
use llm_env.Json.{Value, null, boolean, integer, real, text, array, object, end, get, items_list}
use llm_env.Update.Reference.{parse_reference, valid_digest, canon_image_id}
use llm_env.Update.Documents.{
  Outcome, done, update_error, deferral, broken, ◌>>=◌, ◌>>◌, reject, dict_get, or_empty_dict,
  is_text, in_texts,
}

-- What the updater calls outside the repository's code.
pub record Registry : Type 0 where
  pub inspect_raw : String → Option (List ℕ)  -- `skopeo inspect --raw docker://REF`; `none` if it fails
  pub loads : List ℕ → Option Value  -- `json.loads`
  pub sha256 : List ℕ → String  -- the hexadecimal digest

pub record Platform : Type 0 where
  pub os : String
  pub architecture : String
  pub variant : String

pub data Kind : Type 0 where
  single index : Kind

pub record ImageIdentity : Type 0 where
  pub repository : String
  pub source_digest : String
  pub manifest_digest : String
  pub immutable_ref : String
  pub config_id : String
  pub platform : Platform
  pub kind : Kind

abbrev pub manifest_types : List String
manifest_types =
    "application/vnd.oci.image.manifest.v1+json"
    ∷ "application/vnd.docker.distribution.manifest.v2+json" ∷ []

abbrev pub index_types : List String
index_types =
    "application/vnd.oci.image.index.v1+json"
    ∷ "application/vnd.docker.distribution.manifest.list.v2+json" ∷ []

-- `v == 2`
abbrev pub is_two : Option Value → Bool
is_two (some (integer (pos n))) = n == 2
is_two (some (real s)) = str_eq s "2.0"
is_two _ = false

-- `_valid_digest`: the text, if it is a digest
abbrev pub digest_of : Option Value → Option String
digest_of (some (text s)) = if valid_digest s then some s else none
digest_of _ = none

-- `doc.get("config")`, and its digest if it is a mapping
abbrev pub config_digest : Option Value → Option String
config_digest (some (object fs)) = digest_of (get "digest" fs)
config_digest _ = none

-- `raise UpdateError` for a value that is not there
abbrev pub or_error {ℓ} : {A : Type ℓ} → Option A → Outcome A
or_error none = update_error
or_error (some a) = done a

-- `_config_id`
unfoldable pub config_id_of : Value → Outcome String
config_id_of doc = do
  version ← dict_get doc "schemaVersion"
  reject (not (is_two version)) update_error
  kind ← dict_get doc "mediaType"
  is_manifest ← in_texts kind manifest_types
  reject (not is_manifest) update_error
  config ← dict_get doc "config"
  or_error (config_digest config)

-- The tests on one entry of `manifests`, in their order.
unfoldable pub is_match : Platform → Value → Outcome Bool
is_match p m = do
  kind ← dict_get m "mediaType"
  is_manifest ← in_texts kind manifest_types
  if not is_manifest then done false else do
    platform ← dict_get m "platform"
    os ← dict_get (or_empty_dict platform) "os"
    if not (is_text os p.os) then done false else do
      architecture ← dict_get (or_empty_dict platform) "architecture"
      if not (is_text architecture p.architecture) then done false else do
        variant ← dict_get (or_empty_dict platform) "variant"
        done (elim variant [ none ↦ str_eq "" p.variant | some v ↦ is_text (some v) p.variant ])

-- `matches`
unfoldable pub matches_of : Platform → List Value → Outcome (List Value)
unfolding is_match
matches_of p [] = done []
matches_of p (m ∷ ms) =
    is_match p m >>= λ fits. matches_of p ms >>= λ rest. done (if fits then m ∷ rest else rest)

-- `doc.get("manifests", [])`, to be walked: a null or a number raises TypeError, and a key or a character has no `get`.
abbrev pub manifest_list : Option Value → Outcome (List Value)
manifest_list none = done []
manifest_list (some (array vs)) = done (items_list vs)
manifest_list (some (object end)) = done []
manifest_list (some (text s)) = if is_empty s then done [] else broken
manifest_list _ = broken

abbrev pub the_one : List Value → Outcome Value
the_one (m ∷ []) = done m
the_one _ = update_error

-- The digest of the one manifest of the platform.
unfoldable pub select_digest : Value → Platform → Outcome String
unfolding matches_of
select_digest doc p = do
  entries ← dict_get doc "manifests"
  candidates ← manifest_list entries
  matching ← matches_of p candidates
  chosen ← the_one matching
  field ← dict_get chosen "digest"
  or_error (digest_of field)

module _ (reg : Registry) where
  -- `_digest`
  abbrev pub digest : List ℕ → String
  digest raw = append_text "sha256:" (reg.sha256 raw)

  -- `_fetch`
  unfoldable pub fetch : String → Outcome (List ℕ × Value)
  fetch ref = do
    raw ← or_error (reg.inspect_raw ref)
    doc ← or_error (reg.loads raw)
    done (raw, doc)

  -- The selected manifest, fetched by its digest.
  unfoldable pub fetch_selected : String → String → Platform → String → Outcome ImageIdentity
  unfolding fetch config_id_of
  fetch_selected repo source p manifest_digest = do
    let ref = append_text repo (append_text "@" manifest_digest)
    (raw, selected) ← fetch ref
    reject (not (str_eq (digest raw) manifest_digest)) update_error
    config_id ← config_id_of selected
    done (record {
      repository = repo;
      source_digest = source;
      manifest_digest = manifest_digest;
      immutable_ref = ref;
      config_id = config_id;
      platform = p;
      kind = Kind.index;
    })

  -- The branch of an index.
  unfoldable pub resolve_index : String → String → Value → Platform → Outcome ImageIdentity
  unfolding select_digest fetch_selected
  resolve_index repo source doc p = select_digest doc p >>= fetch_selected repo source p

  unfoldable pub resolve_single : String → String → Value → Platform → Outcome ImageIdentity
  unfolding config_id_of
  resolve_single repo source doc p = do
    config_id ← config_id_of doc
    done (record {
      repository = repo;
      source_digest = source;
      manifest_digest = source;
      immutable_ref = append_text repo (append_text "@" source);
      config_id = config_id;
      platform = p;
      kind = Kind.single;
    })

  -- `resolve_image`
  unfoldable pub resolve_image : String → Platform → Outcome ImageIdentity
  unfolding fetch resolve_index resolve_single
  resolve_image reference p = do
    let repo = (parse_reference reference).repository
    (raw, doc) ← fetch reference
    kind ← dict_get doc "mediaType"
    is_index ← in_texts kind index_types
    reject (contains_text "@sha256:" reference && is_index) (deferral Reason.input)
    if is_index
        then resolve_index repo (digest raw) doc p
        else resolve_single repo (digest raw) doc p

-- `image_inspect.get(k)` and `image_inspect.get(k, "")` of an inspected image; a missing Id is the empty text.
pub record Inspected : Type 0 where
  pub id : String
  pub os : Option String
  pub architecture : Option String
  pub variant : String

abbrev same_text : Option String → String → Bool
same_text none s = false
same_text (some t) s = str_eq t s

-- `verify_staged`
unfoldable pub verify_staged : ImageIdentity → Inspected → Outcome (Unit {0})
unfolding canon_image_id
verify_staged identity got = do
  id ← or_error (canon_image_id got.id)
  reject (not (str_eq id identity.config_id)) update_error
  let p = identity.platform
  reject
      (not (
        same_text got.os p.os
        && same_text got.architecture p.architecture
        && str_eq got.variant p.variant))
      update_error
