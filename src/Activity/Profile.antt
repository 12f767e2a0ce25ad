-- ===== src/Activity/Profile.antt =====
-- pylib/omniroute_activity.py, the routes of a capability profile: which class a request belongs to,
-- by method and path for the journal, and by path alone for a row of the call log.
use llm_env.Prelude.{
  Bool, true, false, ◌&&◌, Option, none, some, String, List, [], ◌∷◌, all, keep, map, str_eq,
  if◌then◌else◌,
}
use llm_env.Prelude.Chars.{before}

-- An entry of `routes`; a class that is null or missing is `none`.
pub record Route : Type 0 where
  pub method : String
  pub path_pattern : String
  pub kind : Option String

-- A path without its query and without the suffix that the access log adds.
unfoldable pub clean_path : String → String
clean_path path = before " | " (before "?" path)

unfoldable pub find_route : String → String → List Route → Option String
find_route method clean [] = none
find_route method clean (r ∷ rs) =
    if str_eq r.method method && str_eq r.path_pattern clean
    then r.kind
    else find_route method clean rs

-- `Profile.classify_route`
unfoldable pub classify_route : List Route → String → String → Option String
unfolding clean_path find_route
classify_route routes method path = find_route method (clean_path path) routes

abbrev pub same_kind : Option String → Option String → Bool
same_kind none none = true
same_kind (some s) (some t) = str_eq s t
same_kind _ _ = false

-- The one element of the set of kinds, if it has just one.
unfoldable pub only_kind : List (Option String) → Option String
only_kind [] = none
only_kind (k ∷ ks) = if all (same_kind k) ks then k else none

-- `Profile.classify_path`
unfoldable pub classify_path : List Route → String → Option String
unfolding clean_path only_kind
classify_path routes path =
    only_kind
      (map (λ (r : Route). r.kind) (keep (λ r. str_eq r.path_pattern (clean_path path)) routes))

-- `kind == "inference"`
abbrev pub is_inference : Option String → Bool
is_inference none = false
is_inference (some k) = str_eq k "inference"

abbrev pub is_unclassified : Option String → Bool
is_unclassified none = true
is_unclassified (some k) = false
