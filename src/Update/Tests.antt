-- ===== src/Update/Tests.antt =====
-- The updater at small inputs: a reference, an image behind an index, and an inventory.
use llm_env.Prelude.{
  ◌≡◌, ◌↔◌, refl, true, false, none, some, String, List, [], ◌∷◌, ◌==◌, if◌then◌else◌,
}
use llm_env.Prelude.Chars.{is_empty, append_text}
use llm_env.Prelude.Int.{pos}
use llm_env.Json.{Value, integer, text, array, object, nil, item, end, field}
use llm_env.Update.Documents.{Outcome, done}
use llm_env.Update.Reference.{parse_reference, valid_digest}
use llm_env.Update.Reference.Canon.{print_name, parse_reference-print_name}
use llm_env.Update.Image.{
  Registry, Platform, ImageIdentity, Kind, resolve_image, select_digest, fetch_selected,
}
use llm_env.Update.Image.Bound.{Bound, resolve_image-Bound}
use llm_env.Update.Snapshot.{
  Doc, Snapshot, Deployment, unchanged, assert_unchanged, recheck, change_of,
}
use llm_env.Update.Snapshot.Unchanged.{Same, assert_unchanged_iff}
use llm_env.Update.Snapshot.Rechecked.{Rechecked, recheck-Rechecked}

redis_tag : is_empty (parse_reference "redis").tag ≡ false
unfolding parse_reference
redis_tag = refl

parse_reference-print_name_example :
    parse_reference (print_name (parse_reference "redis")) ≡ parse_reference "redis"
parse_reference-print_name_example = parse_reference-print_name "redis" redis_tag

abbrev hex : String
hex = "0123456789abcdef0123456789abcdef0123456789abcdef0123456789abcdef"

abbrev hash : String
hash = append_text "sha256:" hex

abbrev amd64 : Platform
amd64 = record { os = "linux"; architecture = "amd64"; variant = "" }

abbrev manifest : Value
manifest = object (
    field "schemaVersion" (integer (pos 2)) (
      field "mediaType" (text "application/vnd.oci.image.manifest.v1+json")
        (field "config" (object (field "digest" (text hash) end)) end)))

abbrev entry : String → Value
entry architecture = object (
    field "mediaType" (text "application/vnd.oci.image.manifest.v1+json") (
      field "platform"
        (object (field "os" (text "linux") (field "architecture" (text architecture) end)))
        (field "digest" (text hash) end)))

abbrev index : Value
index = object (
    field "mediaType" (text "application/vnd.oci.image.index.v1+json")
      (field "manifests" (array (item (entry "arm64") (item (entry "amd64") nil))) end))

-- A registry with an index at `redis`, whose documents are `1` and `2`.
abbrev registry : Registry
registry = record {
  inspect_raw =
      λ ref. if is_empty (parse_reference ref).digest then some (1 ∷ []) else some (2 ∷ []);
  loads = λ raw. elim raw [ [] ↦ none | n ∷ ns ↦ some (if n == 1 then index else manifest) ];
  sha256 = λ raw. hex;
}

abbrev redis : ImageIdentity
redis = record {
  repository = "docker.io/library/redis";
  source_digest = hash;
  manifest_digest = hash;
  immutable_ref = append_text "docker.io/library/redis@" hash;
  config_id = hash;
  platform = amd64;
  kind = Kind.index;
}

resolve_redis : resolve_image registry "redis" amd64 ≡ done redis
unfolding resolve_image select_digest fetch_selected parse_reference valid_digest
resolve_redis = refl

resolve_image-Bound_example : Bound registry "redis" amd64 redis
resolve_image-Bound_example = resolve_image-Bound registry "redis" amd64 resolve_redis

abbrev doc : String → Doc
doc project = record {
  project = some project;
  service = some "omniroute";
  network_ids = "n" ∷ [];
  volumes = [];
  image = hex;
  has_dependencies = false;
  running = true;
  health = some "healthy";
}

-- The target of the project, and a container of another one, if any.
abbrev inventory : List (String × String) → Snapshot
inventory unrelated = record {
  backend = record { graph_root = "/g"; run_root = "/r" };
  containers = ("target", "h1") ∷ unrelated;
  deps = [];
  docs = ("target", doc "llm-env") ∷ [];
  names = ("target", "omniroute") ∷ [];
  started = [];
  others = [];
}

abbrev deployment : Deployment
deployment = record { container_id = "target"; project = "llm-env"; network_ids = "n" ∷ [] }

assert_unchanged_iff_example :
    (assert_unchanged (inventory []) (inventory []) ≡ unchanged)
    ↔ Same (inventory []) (inventory [])
assert_unchanged_iff_example = assert_unchanged_iff (inventory []) (inventory [])

abbrev taken : Outcome Snapshot
taken = done (inventory (("other", "h2") ∷ []))

recheck_passes : recheck true (inventory []) "f" deployment taken (λ s. done "f") ≡ done (1, 0)
unfolding recheck change_of
recheck_passes = refl

recheck-Rechecked_example :
    (true ≡ true)
    × ((snap : Snapshot) × (taken ≡ done snap)
        × Rechecked (inventory []) "f" deployment (λ s. done "f") snap)
recheck-Rechecked_example =
    recheck-Rechecked true (inventory []) "f" deployment taken (λ s. done "f") recheck_passes
