-- ===== src/Update/Projection/Tests.antt =====
-- A service whose password has a dollar sign.
use llm_env.Prelude.{◌≡◌, refl, some, String, [], ◌∷◌, Option}
use llm_env.Json.{Value, text, array, object, nil, item, Fields, end, field, get}
use llm_env.Json.Dollar.{double_dollars, map_fields, escape}
use llm_env.Update.Documents.{done, or_empty_dict}
use llm_env.Update.Projection.{Inspected, Projected, build_projection, object_fields}
use llm_env.Update.Literal.{Env, to_runtime_literal, env_dict, same_value}
use llm_env.Update.Literal.Escape.{to_runtime_literal-escape}
use llm_env.Update.Projection.Core.{Kept, build_projection-Kept}

abbrev other : Value → String
other v = ""

abbrev sha : String → String
sha s = s

abbrev env : Fields
env = field "INITIAL_PASSWORD" (text "a$b") (field "REQUIRE_API_KEY" (text "true") end)

abbrev svc : Fields
svc =
    field "environment" (object env)
      (field "volumes" (array (item (text "data:/data") nil)) (field "depends_on" (array nil) end))

abbrev inspect_env : Option Value
inspect_env = some (
    array (
      item (text "INITIAL_PASSWORD=a$b")
        (item (text "REQUIRE_API_KEY=true") (item (text "HOME=/") nil))))

abbrev running : Env
running = ("INITIAL_PASSWORD", "a$b") ∷ ("REQUIRE_API_KEY", "true") ∷ ("HOME", "/") ∷ []

running_env : env_dict other inspect_env ≡ done running
unfolding env_dict
running_env = refl

to_runtime_literal-escape_example :
    (to_runtime_literal other sha svc inspect_env ≡ done svc)
    × (to_runtime_literal other sha (map_fields double_dollars svc) inspect_env ≡ done svc)
to_runtime_literal-escape_example =
    to_runtime_literal-escape other sha svc env inspect_env running running_env refl
      (refl, (refl, tt)) refl

abbrev effective : Fields
effective = field "services" (object (field "omniroute" (object svc) end)) end

abbrev inspected : Inspected
inspected = record {
  env = inspect_env;
  networks = "p_default" ∷ [];
  volumes = "p_data" ∷ [];
  binds = [];
}

abbrev projected : Projected
projected = record {
  service =
      field "environment"
        (object
          (field "INITIAL_PASSWORD" (text "a$$b") (field "REQUIRE_API_KEY" (text "true") end)))
        (field "volumes" (array (item (text "data:/data") nil)) (
          field "image" (text "i@sha256:0")
            (field "networks" (object (field "p_default" (object end) end)) end)));
  networks = "p_default" ∷ [];
  volumes = ("data", "p_data") ∷ [];
}

built : build_projection other sha effective "omniroute" inspected "i@sha256:0" "p" ≡ done projected
unfolding build_projection same_value escape
built = refl

build_projection-Kept_example :
    (s base : Fields) × (get "omniroute" (object_fields (or_empty_dict (get "services" effective)))
      ≡ some (object s))
    × (to_runtime_literal other sha s inspected.env ≡ done base)
    × Kept effective inspected "i@sha256:0" "p" base projected
build_projection-Kept_example =
    build_projection-Kept other sha effective "omniroute" inspected "i@sha256:0" "p" built
