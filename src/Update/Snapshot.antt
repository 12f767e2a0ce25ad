-- ===== src/Update/Snapshot.antt =====
-- pylib/omniroute_update.py: the inventory of containers. `relevant_ids`, `restrict`, `incoming`, `assert_unchanged` and `recheck`.
-- A set is a list of its elements, a dict an association list; a container's state is the hash that `take_snapshot` gives it.
pub mod Texts
pub mod Unchanged
pub mod Rechecked
use llm_env.Prelude.{
  ℕ, Bool, true, false, not, ◌&&◌, ◌||◌, Option, none, some, String, List, [], ◌∷◌, ◌++◌, map,
  length, keep, any, all, is_some, lookup, str_eq, str_mem, if◌then◌else◌,
}
use llm_env.Prelude.Chars.{is_empty, take_text}
use llm_env.Deferral.{Reason}
use llm_env.Update.Documents.{Outcome, done, update_error, deferral, broken, ◌>>=◌, ◌>>◌, reject}
use llm_env.Update.Snapshot.Texts.{same_text, keys, unique, sort_texts}

-- What the checks read of an inspected container: its compose labels, the ids of its networks (Podman gives each attached network
-- one), and what a replacement must agree in.
pub record Doc : Type 0 where
  pub project : Option String
  pub service : Option String
  pub network_ids : List String
  pub volumes : List String
  pub image : String
  pub has_dependencies : Bool
  pub running : Bool
  pub health : Option String

pub record Backend : Type 0 where
  pub graph_root : String
  pub run_root : String

pub record Snapshot : Type 0 where
  pub backend : Backend
  pub containers : List (String × String)
  pub deps : List (String × String)
  pub docs : List (String × Doc)
  pub names : List (String × String)
  pub started : List (String × String)
  pub others : List String

-- `d in deps`
abbrev pub has_dep : String → String → List (String × String) → Bool
has_dep a b [] = false
has_dep a b ((x, y) ∷ deps) = (str_eq x a && str_eq y b) || has_dep a b deps

-- `project and label == project`
abbrev pub in_project : Option String → String → Bool
in_project label project = not (is_empty project) && same_text label (some project)

-- The condition of `relevant_ids`.
unfoldable pub is_relevant : Snapshot → String → String → List String → String → Doc → Bool
is_relevant snap target project networks cid d =
    str_eq cid target
    || (not (is_empty target) && has_dep cid target snap.deps)
    || any (λ n. str_mem n networks) d.network_ids
    || in_project d.project project

-- The keys of the docs that fit.
unfoldable pub ids_where : (String → Doc → Bool) → List (String × Doc) → List String
ids_where p [] = []
ids_where p ((cid, d) ∷ docs) = let rest = ids_where p docs in if p cid d then cid ∷ rest else rest

-- `relevant_ids`
unfoldable pub relevant_ids : Snapshot → String → String → List String → List String
unfolding is_relevant ids_where
relevant_ids snap target project networks =
    ids_where (is_relevant snap target project networks) snap.docs

-- `{k: v for k, v in d.items() if k in ids}`, and the same of a set of pairs
abbrev pub keep_keys {ℓ} : {V : Type ℓ} → List String → List (String × V) → List (String × V)
keep_keys ids [] = []
keep_keys ids ((k, v) ∷ d) =
    let rest = keep_keys ids d in if str_mem k ids then (k, v) ∷ rest else rest

-- `restrict`
unfoldable pub restrict : Snapshot → List String → Snapshot
restrict snap ids = record {
  backend = snap.backend;
  containers = keep_keys ids snap.containers;
  deps = keep_keys ids snap.deps;
  docs = keep_keys ids snap.docs;
  names = keep_keys ids snap.names;
  started = keep_keys ids snap.started;
  others = keep (λ c. not (str_mem c ids)) (keys snap.containers);
}

unfoldable pub dependents : String → List (String × String) → List String
dependents target [] = []
dependents target ((dep, t) ∷ deps) =
    let rest = dependents target deps in if str_eq t target then dep ∷ rest else rest

-- `incoming`
unfoldable pub incoming : Snapshot → String → List String
unfolding dependents sort_texts
incoming snap target = sort_texts (dependents target snap.deps)

pub data Change : Type 0 where
  removed appeared restarted changed : String → Change

pub data Verdict : Type 0 where
  unchanged backend_changed : Verdict
  inventory_changed : List Change → Verdict

abbrev pub same_backend : Backend → Backend → Bool
same_backend a b = str_eq a.graph_root b.graph_root && str_eq a.run_root b.run_root

abbrev pub same_deps : List (String × String) → List (String × String) → Bool
same_deps xs ys = all (λ d. has_dep d.0 d.1 ys) xs && all (λ d. has_dep d.0 d.1 xs) ys

-- `x or y`, of texts
abbrev text_or : Option String → String → String
text_or none y = y
text_or (some x) y = if is_empty x then y else x

abbrev pub name_of : Snapshot → Snapshot → String → String
name_of before after cid =
    text_or (lookup cid after.names) (text_or (lookup cid before.names) (take_text 12 cid))

-- One turn of the loop: the change of a container, if it has one.
unfoldable pub change_of : Snapshot → Snapshot → String → List Change
change_of before after cid =
    let name = name_of before after cid in
    if not (is_some (lookup cid after.containers))
    then removed name ∷ []
    else if not (is_some (lookup cid before.containers))
    then appeared name ∷ []
    else if not (same_text (lookup cid before.containers) (lookup cid after.containers))
    then (if not (same_text (lookup cid before.started) (lookup cid after.started))
        then restarted name ∷ []
        else changed name ∷ [])
    else []

unfoldable pub changes_of : Snapshot → Snapshot → List String → List Change
unfolding change_of
changes_of before after [] = []
changes_of before after (cid ∷ cids) = change_of before after cid ++ changes_of before after cids

-- `assert_unchanged`
unfoldable pub assert_unchanged : Snapshot → Snapshot → Verdict
unfolding changes_of sort_texts unique
assert_unchanged before after =
    let cids = sort_texts (unique (keys before.containers ++ keys after.containers)) in
    let changes = changes_of before after cids in
    if not (same_backend before.backend after.backend) then backend_changed else elim changes [
      | c ∷ cs ↦ inventory_changed (c ∷ cs)
      | [] ↦ if same_deps before.deps after.deps then unchanged else inventory_changed []
    ]

-- What `deployment.json` keeps of the deployment.
pub record Deployment : Type 0 where
  pub container_id : String
  pub project : String
  pub network_ids : List String

abbrev is_unchanged : Verdict → Bool
is_unchanged unchanged = true
is_unchanged _ = false

abbrev pub is_nil {ℓ} : {A : Type ℓ} → List A → Bool
is_nil [] = true
is_nil (x ∷ xs) = false

-- `len(xs - ys)`, of sets
abbrev pub count_without : List String → List String → ℕ
count_without xs ys = length (keep (λ c. not (str_mem c ys)) xs)

-- The body of the `try` of `recheck`; `fingerprint` is that of the deployment with these containers.
unfoldable pub recheck_body :
    Snapshot
    → String
    → Deployment
    → Outcome Snapshot
    → (Snapshot → Outcome String)
    → Outcome (ℕ × ℕ)
unfolding restrict relevant_ids assert_unchanged incoming
recheck_body before expected dep taken fingerprint = do
  all_containers ← taken
  let snap =
      restrict all_containers
        (relevant_ids all_containers dep.container_id dep.project dep.network_ids)
  reject
      (not (is_empty dep.container_id) && not (is_some (lookup dep.container_id snap.containers)))
      (deferral Reason.ownership)
  reject (not (is_unchanged (assert_unchanged before snap))) (deferral Reason.ownership)
  reject (not (is_nil (incoming snap dep.container_id))) (deferral Reason.ownership)
  found ← fingerprint snap
  reject (not (str_eq found expected)) (deferral Reason.ownership)
  done (count_without snap.others before.others, count_without before.others snap.others)

-- `except UpdateError as exc: raise Deferral(Reason.io, ...)`
abbrev pub as_deferral {ℓ} : {A : Type ℓ} → Outcome A → Outcome A
as_deferral update_error = deferral Reason.io
as_deferral r = r

-- `recheck`, after the three files of the artifact directory are read
unfoldable pub recheck :
    Bool
    → Snapshot
    → String
    → Deployment
    → Outcome Snapshot
    → (Snapshot → Outcome String)
    → Outcome (ℕ × ℕ)
unfolding recheck_body
recheck is_private before expected dep taken fingerprint =
    reject (not is_private) (deferral Reason.lock)
    >> as_deferral (recheck_body before expected dep taken fingerprint)
