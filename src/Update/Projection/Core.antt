-- ===== src/Update/Projection/Core.antt =====
-- The projection of a service keeps all of it but the image, the dependencies and the networks.
use Prim.Native.String.{String}
use llm_env.Prelude.{
  ◌≡◌, ◌≢◌, refl, ◌∙◌, ap, Bool, true, false, not, Option, none, some, List, [], ◌∷◌, any, all,
  str_eq, str_mem, eq_iff, arith, Bool-cases, inl, inr,
}
use mathlib.Core.Path.{subst}
use llm_env.Deferral.{Reason}
use llm_env.Json.{Value, text, object, Fields, end, field, get, set_key, keep_fields, drop_key}
use llm_env.Json.Keys.{get-set_key, get-keep_fields}
use llm_env.Json.Dollar.{escape, unescape, unescape-escape}
use llm_env.Update.Documents.{Outcome, done, >>=-eq-done, >>-eq-done, or_empty_dict}
use llm_env.Update.Snapshot.Texts.{sort_texts}
use llm_env.Update.Projection.{
  Inspected, Projected, core, field_keys, namespace_keys, has_key, same_set, values_of,
  resolved_networks, mounts, projected_service, project_base, build_projection, service_of,
  object_fields, entries_of,
}
use llm_env.Update.Literal.{Env, to_runtime_literal}
use llm_env.Update.Projection.Volumes.{is_known, mounts_known}
use llm_env.Update.Projection.Networks.{get-networks, same_set-mem}

keep_fields-set_key :
    (p : String → Bool) (k : String) (v : Value) (fs : Fields)
    → p k ≡ false
    → keep_fields p (set_key k v fs) ≡ keep_fields p fs
keep_fields-set_key p k v end h = rw h refl
keep_fields-set_key p k v (field j w fs) h = elim (Bool-cases (str_eq j k)) [
  | inl e ↦ rw (e, ap p ((eq_iff j k).0 e) ∙ h) refl
  | inr e ↦ rw (e, keep_fields-set_key p k v fs h) refl
]

keep_fields-keep_fields :
    (p q : String → Bool) (fs : Fields)
    → ((k : String) → q k ≡ false → p k ≡ false)
    → keep_fields p (keep_fields q fs) ≡ keep_fields p fs
keep_fields-keep_fields p q end h = refl
keep_fields-keep_fields p q (field k v fs) h = elim (Bool-cases (q k)) [
  | inl e ↦ rw (e, keep_fields-keep_fields p q fs h) refl
  | inr e ↦ rw (e, keep_fields-keep_fields p q fs h, h k e) refl
]

core-projected_service :
    (base : Fields) (seen : Inspected) (image : String) (names : List (String × String))
    → core (projected_service base seen image names) ≡ core base
unfolding core projected_service
core-projected_service base seen image names =
    keep_fields-set_key _ "networks" _ (drop_key "depends_on" (set_key "image" (text image) base))
      refl
    ∙ keep_fields-keep_fields _ (λ j. not (str_eq j "depends_on"))
        (set_key "image" (text image) base) dropped
    ∙ keep_fields-set_key _ "image" (text image) base refl
  where
    dropped :
        (k : String)
        → not (str_eq k "depends_on") ≡ false
        → not (str_mem k ("image" ∷ "depends_on" ∷ "networks" ∷ [])) ≡ false
    dropped k h = ground arith

get-projected_service :
    (base : Fields) (seen : Inspected) (image : String) (names : List (String × String))
    → (get "image" (projected_service base seen image names) ≡ some (text image))
      × (get "depends_on" (projected_service base seen image names) ≡ none)
unfolding projected_service
get-projected_service base seen image names = (
  get-set_key "image" "networks" _ (drop_key "depends_on" (set_key "image" (text image) base))
      ∙ get-keep_fields "image" (λ j. not (str_eq j "depends_on"))
          (set_key "image" (text image) base)
      ∙ get-set_key "image" "image" (text image) base,
  get-set_key "depends_on" "networks" _ (drop_key "depends_on" (set_key "image" (text image) base))
      ∙ get-keep_fields "depends_on" (λ j. not (str_eq j "depends_on"))
          (set_key "image" (text image) base),
)

deferral-ne-done : {A : Type 0} (why : Reason) (a : A) → Outcome.deferral why ≢ done a
deferral-ne-done why a h = ground arith

service_of-eq-done :
    (o : Option Value) (svc : Fields) → service_of o ≡ done svc → o ≡ some (object svc)
service_of-eq-done o svc h = ground arith

-- The document built from the service `base`, as it runs.
pub record Kept (effective : Fields) (seen : Inspected) (image project : String) (base : Fields)
    (p : Projected) : Type 0 where
  -- the service that the provider reads back
  pub svc : Fields
  pub is_escaped : unescape (object p.service) ≡ object svc
  pub same_core : core svc ≡ core base
  pub is_image : get "image" svc ≡ some (text image)
  pub no_depends : get "depends_on" svc ≡ none
  pub no_namespace : any (has_key base) namespace_keys ≡ false
  -- the networks that the service attaches to, and the real names of those of the running service
  pub attachments : Fields
  pub names : List (String × String)
  pub attaches : get "networks" svc ≡ some (object attachments)
  pub same_attachments : field_keys attachments ≡ p.networks
  pub is_resolved : resolved_networks base effective project ≡ done names
  pub same_names : (s : String) → str_mem s (values_of names) ≡ str_mem s seen.networks
  pub same_networks : p.networks ≡ sort_texts seen.networks
  pub known_volumes : all (λ name. str_mem name seen.volumes) (values_of p.volumes) ≡ true

escape_object : (fs : Fields) → object (object_fields (escape (object fs))) ≡ escape (object fs)
unfolding escape
escape_object fs = refl

done-injective : {A : Type 0} {a b : A} → Outcome.done a ≡ done b → a ≡ b
done-injective h = cc

module _ (effective : Fields) (seen : Inspected) (image project : String) (base : Fields) where
  built-Kept :
      (names : List (String × String)) (volumes : Env) (p : Projected)
      → any (has_key base) namespace_keys ≡ false
      → resolved_networks base effective project ≡ done names
      → same_set (values_of names) seen.networks ≡ true
      → is_known seen volumes ≡ true
      → record {
        service = object_fields (escape (object (projected_service base seen image names)));
        networks = sort_texts seen.networks;
        volumes = volumes;
      }
        ≡ p
      → Kept effective seen image project base p
  built-Kept names volumes p free resolved same known e =
      let (is_image, no_depends) = get-projected_service base seen image names in
      let (attachments, attaches, all_attached) = get-networks base seen image names in
      subst (Kept effective seen image project base) e (record {
        svc = projected_service base seen image names;
        is_escaped =
            ap unescape (escape_object (projected_service base seen image names))
            ∙ unescape-escape (object (projected_service base seen image names));
        same_core = core-projected_service base seen image names;
        is_image = is_image;
        no_depends = no_depends;
        no_namespace = free;
        attachments = attachments;
        names = names;
        attaches = attaches;
        same_attachments = all_attached;
        is_resolved = resolved;
        same_names = same_set-mem (values_of names) seen.networks same;
        same_networks = refl;
        known_volumes = known;
      })

  project_base-Kept :
      (p : Projected)
      → project_base effective seen image project base ≡ done p
      → Kept effective seen image project base p
  unfolding project_base mounts
  project_base-Kept p h =
      let (free, h1) =
        >>-eq-done (any (has_key base) namespace_keys) _ _ (λ x. deferral-ne-done Reason.input x)
          h in
      let (names, resolved, h2) = >>=-eq-done (resolved_networks base effective project) _ h1 in
      let (same, h3) =
        >>-eq-done (not (same_set (values_of names) seen.networks)) _ _
          (λ x. deferral-ne-done Reason.ownership x) h2 in
      let (volumes, e, h4) = >>=-eq-done (mounts seen base effective project) _ h3 in
      let known =
        mounts_known seen (object_fields (or_empty_dict (get "volumes" effective))) project
          (entries_of (get "volumes" base)) [] volumes e refl in
      built-Kept names volumes p free resolved (ground arith) known (done-injective h4)

-- Whenever `build_projection` answers: the service as it runs (`to_runtime_literal`) shares no namespace, and the file's service, which
-- the provider reads back by halving its dollar signs, agrees with it in every key but the image, the dependencies and the networks;
-- its image is the given one, and it depends on nothing. The real names of the networks of the running service are those of the
-- inspected container; the file's service attaches to exactly these, and the file declares them. Every named volume is one that
-- the inspected container has.
pub build_projection-Kept :
    (other : Value → String) (sha : String → String) (effective : Fields) (service : String)
    (seen : Inspected) (image project : String) {p : Projected}
    → build_projection other sha effective service seen image project ≡ done p
    → (svc base : Fields) × (get service (object_fields (or_empty_dict (get "services" effective)))
        ≡ some (object svc))
      × (to_runtime_literal other sha svc seen.env ≡ done base)
      × Kept effective seen image project base p
unfolding build_projection
build_projection-Kept other sha effective service seen image project {p} h =
    let found = get service (object_fields (or_empty_dict (get "services" effective))) in
    let (svc, e, h1) = >>=-eq-done (service_of found) _ h in
    let (base, l, h2) = >>=-eq-done (to_runtime_literal other sha svc seen.env) _ h1 in
    (
      svc,
      base,
      service_of-eq-done found svc e,
      l,
      project_base-Kept effective seen image project base p h2,
    )
