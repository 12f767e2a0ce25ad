-- ===== src/Update/Snapshot/Unchanged.antt =====
-- What the comparison of two inventories means.
use llm_env.Prelude.{
  ◌≡◌, ◌↔◌, refl, sym, ◌∙◌, ap, inl, inr, true, false, ◌||◌, ◌&&◌, Option, none, some, String, List,
  [], ◌∷◌, ◌++◌, all, lookup, is_some, str_eq, str_mem, eq_iff, arith, Bool-cases,
}
use llm_env.Update.Snapshot.Texts.{
  keys, unique, sort_texts, mem-unique, mem-sort_texts, mem-append, mem-keys, same_text-eq,
  same_text_refl,
}
use llm_env.Update.Snapshot.{
  Snapshot, Backend, Change, unchanged, has_dep, same_deps, same_backend, change_of, changes_of,
  assert_unchanged,
}

-- The two snapshots have the same backend, the same containers in the same state, and the same dependencies.
pub record Same (before after : Snapshot) : Type 0 where
  pub same_backends : before.backend ≡ after.backend
  pub same_containers : (cid : String) → lookup cid before.containers ≡ lookup cid after.containers
  pub same_dependencies : (a b : String) → has_dep a b before.deps ≡ has_dep a b after.deps

append-eq-nil : {A : Type 0} (xs ys : List A) → xs ++ ys ≡ [] → (xs ≡ []) × (ys ≡ [])
append-eq-nil [] ys h = (refl, h)
append-eq-nil (x ∷ xs) ys h = ground arith

module _ (before after : Snapshot) where
  -- No change of a container that one of the two has: it has the same state in both.
  change_of-nil :
      (cid : String)
      → change_of before after cid ≡ []
      → (is_some (lookup cid before.containers) || is_some (lookup cid after.containers)) ≡ true
      → lookup cid before.containers ≡ lookup cid after.containers
  unfolding change_of
  change_of-nil cid h k =
      same_text-eq (lookup cid before.containers) (lookup cid after.containers) (ground arith)

  change_of_same :
      (cid : String)
      → lookup cid before.containers ≡ lookup cid after.containers
      → is_some (lookup cid after.containers) ≡ true
      → change_of before after cid ≡ []
  unfolding change_of
  change_of_same cid e k = ground (arith, same_text_refl (lookup cid after.containers))

  changes_of-nil :
      (cids : List String)
      → changes_of before after cids ≡ []
      → (cid : String) → str_mem cid cids ≡ true
      → change_of before after cid ≡ []
  unfolding changes_of
  changes_of-nil [] h cid m = ground arith
  changes_of-nil (c ∷ cids) h cid m =
      let (here, rest) =
        append-eq-nil (change_of before after c) (changes_of before after cids) h in
      elim (Bool-cases (str_eq cid c)) [
        | inl e ↦ ap (change_of before after) ((eq_iff cid c).0 e) ∙ here
        | inr e ↦ changes_of-nil cids rest cid (rw e at m)
      ]

  changes_of_same :
      (cids : List String)
      → ((cid : String) → str_mem cid cids ≡ true → change_of before after cid ≡ [])
      → changes_of before after cids ≡ []
  unfolding changes_of
  changes_of_same [] h = refl
  changes_of_same (c ∷ cids) h =
      rw (h c (rw ((eq_iff c c).1 refl) refl), changes_of_same cids (λ cid m. h cid (later cid m)))
        refl
    where
      later : (cid : String) → str_mem cid cids ≡ true → str_mem cid (c ∷ cids) ≡ true
      later cid m = ground arith

  abbrev all_ids : List String
  all_ids = sort_texts (unique (keys before.containers ++ keys after.containers))

  mem-all_ids :
      (cid : String)
      → str_mem cid all_ids
        ≡ (is_some (lookup cid before.containers) || is_some (lookup cid after.containers))
  mem-all_ids cid =
      rw
        (
          mem-sort_texts cid (unique (keys before.containers ++ keys after.containers)),
          mem-unique cid (keys before.containers ++ keys after.containers),
          mem-append cid (keys before.containers) (keys after.containers),
          mem-keys cid before.containers,
          mem-keys cid after.containers,
        )
        refl

  containers-nil :
      changes_of before after all_ids ≡ []
      → (cid : String) → lookup cid before.containers ≡ lookup cid after.containers
  containers-nil h cid =
      elim (Bool-cases
        (is_some (lookup cid before.containers) || is_some (lookup cid after.containers))) [
          | inl k ↦ change_of-nil cid (changes_of-nil all_ids h cid (mem-all_ids cid ∙ k)) k
          | inr k ↦ neither (lookup cid before.containers) (lookup cid after.containers) k
        ]
    where
      neither : (a b : Option String) → (is_some a || is_some b) ≡ false → a ≡ b
      neither none none k = refl
      neither none (some b) k = ground arith
      neither (some a) b k = ground arith

same_pair : (x y a b : String) → (str_eq x a && str_eq y b) ≡ true → (x ≡ a) × (y ≡ b)
same_pair x y a b h = ground (arith, eq_iff x a, eq_iff y b)

has_dep-all :
    (xs ys : List (String × String)) (a b : String)
    → all (λ d. has_dep d.0 d.1 ys) xs ≡ true
    → has_dep a b xs ≡ true
    → has_dep a b ys ≡ true
has_dep-all [] ys a b h k = ground arith
has_dep-all ((x, y) ∷ xs) ys a b h k = elim (Bool-cases (str_eq x a && str_eq y b)) [
  | inl e ↦ here (same_pair x y a b e)
  | inr e ↦ has_dep-all xs ys a b (ground arith) (rw e at k)
]
  where
    here : (x ≡ a) × (y ≡ b) → has_dep a b ys ≡ true
    here (p, q) = rw (← p, ← q) (ground arith)

all-has_dep :
    (xs ys : List (String × String))
    → ((a b : String) → has_dep a b xs ≡ true → has_dep a b ys ≡ true)
    → all (λ d. has_dep d.0 d.1 ys) xs ≡ true
all-has_dep [] ys h = refl
all-has_dep ((x, y) ∷ xs) ys h =
    rw
      (
        h x y (rw ((eq_iff x x).1 refl, (eq_iff y y).1 refl) refl),
        all-has_dep xs ys (λ a b k. h a b (later a b k)),
      )
      refl
  where
    later : (a b : String) → has_dep a b xs ≡ true → has_dep a b ((x, y) ∷ xs) ≡ true
    later a b k = ground arith

same_deps-eq :
    (xs ys : List (String × String)) (a b : String)
    → same_deps xs ys ≡ true
    → has_dep a b xs ≡ has_dep a b ys
same_deps-eq xs ys a b h = ground (arith, has_dep-all xs ys a b, has_dep-all ys xs a b)

same_deps_of_eq :
    (xs ys : List (String × String))
    → ((a b : String) → has_dep a b xs ≡ has_dep a b ys)
    → same_deps xs ys ≡ true
same_deps_of_eq xs ys h =
    rw (all-has_dep xs ys (λ a b k. sym (h a b) ∙ k), all-has_dep ys xs (λ a b k. h a b ∙ k)) refl

same_backend-eq : (a b : Backend) → same_backend a b ≡ true → a ≡ b
same_backend-eq a b h =
    ground (arith, eq_iff a.graph_root b.graph_root, eq_iff a.run_root b.run_root)

assert_unchanged-Same :
    (before after : Snapshot) → assert_unchanged before after ≡ unchanged → Same before after
unfolding assert_unchanged
assert_unchanged-Same before after h =
    let (backend, nil, deps) = parts (changes_of before after (all_ids before after)) refl h in
    record {
      same_backends = same_backend-eq before.backend after.backend backend;
      same_containers = containers-nil before after nil;
      same_dependencies = λ a b. same_deps-eq before.deps after.deps a b deps;
    }
  where
    parts :
        (cs : List Change)
        → changes_of before after (all_ids before after) ≡ cs
        → assert_unchanged before after ≡ unchanged
        → (same_backend before.backend after.backend ≡ true)
          × (changes_of before after (all_ids before after) ≡ [])
          × (same_deps before.deps after.deps ≡ true)
    parts [] e h = (ground arith, e, ground arith)
    parts (c ∷ cs) e h = ground arith

Same-assert_unchanged :
    (before after : Snapshot) → Same before after → assert_unchanged before after ≡ unchanged
unfolding assert_unchanged
Same-assert_unchanged before after s =
    rw (same_backends, nil, same_deps_of_eq before.deps after.deps s.same_dependencies) refl
  where
    same_backends : same_backend before.backend after.backend ≡ true
    same_backends = ground (
      arith,
      eq_iff before.backend.graph_root after.backend.graph_root,
      eq_iff before.backend.run_root after.backend.run_root,
      s.same_backends,
    )

    known :
        (cid : String)
        → str_mem cid (all_ids before after) ≡ true
        → is_some (lookup cid after.containers) ≡ true
    known cid m = ground (arith, mem-all_ids before after cid, s.same_containers cid)

    nil : changes_of before after (all_ids before after) ≡ []
    nil =
        changes_of_same before after (all_ids before after)
          (λ cid m. change_of_same before after cid (s.same_containers cid) (known cid m))

-- `assert_unchanged` passes exactly if both snapshots have the same backend, every container id has the same state in both (or is
-- in neither), and the dependencies are the same set.
pub assert_unchanged_iff :
    (before after : Snapshot) → (assert_unchanged before after ≡ unchanged) ↔ Same before after
assert_unchanged_iff before after =
    (assert_unchanged-Same before after, Same-assert_unchanged before after)
