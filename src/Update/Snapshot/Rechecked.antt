-- ===== src/Update/Snapshot/Rechecked.antt =====
-- What a recheck that passes says.
use llm_env.Prelude.{
  ℕ, ◌≡◌, ◌≢◌, refl, ◌∙◌, ap, Bool, true, false, ◌&&◌, not, String, List, [], ◌∷◌, lookup, is_some,
  str_eq, eq_iff, arith,
}
use llm_env.Prelude.Chars.{is_empty}
use llm_env.Deferral.{Reason}
use llm_env.Update.Documents.{Outcome, done, >>=-eq-done, >>-eq-done}
use llm_env.Update.Snapshot.Texts.{sort_texts, insert_text}
use llm_env.Update.Snapshot.{
  Snapshot, Deployment, Verdict, unchanged, has_dep, restrict, relevant_ids, dependents, incoming,
  assert_unchanged, is_nil, recheck_body, recheck, as_deferral, is_unchanged,
}
use llm_env.Update.Snapshot.Unchanged.{Same, assert_unchanged_iff}

-- The relevant part of an inventory.
abbrev pub relevant : Deployment → Snapshot → Snapshot
relevant dep snap = restrict snap (relevant_ids snap dep.container_id dep.project dep.network_ids)

-- What the live inventory `snap` was found to be.
pub record Rechecked (before : Snapshot) (expected : String) (dep : Deployment)
    (fingerprint : Snapshot → Outcome String) (snap : Snapshot) : Type 0 where
  pub is_there :
      is_empty dep.container_id ≡ false
      → is_some (lookup dep.container_id (relevant dep snap).containers) ≡ true
  pub is_same : Same before (relevant dep snap)
  pub no_dependent : (a : String) → has_dep a dep.container_id (relevant dep snap).deps ≡ false
  pub is_fingerprint : fingerprint (relevant dep snap) ≡ done expected

deferral-ne-done : {A : Type 0} (why : Reason) (a : A) → Outcome.deferral why ≢ done a
deferral-ne-done why a h = ground arith

insert_text-not_nil : (s : String) (ss : List String) → is_nil (insert_text s ss) ≡ false
unfolding insert_text
insert_text-not_nil s [] = refl
insert_text-not_nil s (t ∷ ts) = ground arith

sort_texts-nil : (ss : List String) → is_nil (sort_texts ss) ≡ true → ss ≡ []
unfolding sort_texts
sort_texts-nil [] h = refl
sort_texts-nil (s ∷ ss) h = ground (arith, insert_text-not_nil s (sort_texts ss))

dependents-nil :
    (target a : String) (deps : List (String × String))
    → dependents target deps ≡ []
    → has_dep a target deps ≡ false
unfolding dependents
dependents-nil target a [] h = refl
dependents-nil target a ((x, y) ∷ deps) h = ground (arith, dependents-nil target a deps)

incoming-nil :
    (snap : Snapshot) (target a : String)
    → is_nil (incoming snap target) ≡ true
    → has_dep a target snap.deps ≡ false
unfolding incoming
incoming-nil snap target a h =
    dependents-nil target a snap.deps (sort_texts-nil (dependents target snap.deps) h)

is_unchanged-eq : (v : Verdict) → is_unchanged v ≡ true → v ≡ unchanged
is_unchanged-eq v h = ground arith

as_deferral-eq-done : {A : Type 0} (r : Outcome A) (a : A) → as_deferral r ≡ done a → r ≡ done a
as_deferral-eq-done r a h = ground arith

body-Rechecked :
    (before : Snapshot) (expected : String) (dep : Deployment) (taken : Outcome Snapshot)
    (fingerprint : Snapshot → Outcome String) {counts : ℕ × ℕ}
    → recheck_body before expected dep taken fingerprint ≡ done counts
    → (snap : Snapshot) × (taken ≡ done snap) × Rechecked before expected dep fingerprint snap
unfolding recheck_body
body-Rechecked before expected dep taken fingerprint h =
    let (snap, e, h1) = >>=-eq-done taken _ h in
    let is_lost =
      not (is_empty dep.container_id)
      && not (is_some (lookup dep.container_id (relevant dep snap).containers)) in
    let (there, h2) = >>-eq-done is_lost _ _ (λ x. deferral-ne-done Reason.ownership x) h1 in
    let is_moved = not (is_unchanged (assert_unchanged before (relevant dep snap))) in
    let (same, h3) = >>-eq-done is_moved _ _ (λ x. deferral-ne-done Reason.ownership x) h2 in
    let has_incoming = not (is_nil (incoming (relevant dep snap) dep.container_id)) in
    let (free, h4) = >>-eq-done has_incoming _ _ (λ x. deferral-ne-done Reason.ownership x) h3 in
    let (found, f, h5) = >>=-eq-done (fingerprint (relevant dep snap)) _ h4 in
    let (equal, h6) =
      >>-eq-done (not (str_eq found expected)) _ _ (λ x. deferral-ne-done Reason.ownership x) h5 in
    (
      snap,
      e,
      record {
        is_there = λ k. ground arith;
        is_same =
            (assert_unchanged_iff before (relevant dep snap)).0
              (is_unchanged-eq (assert_unchanged before (relevant dep snap)) (ground arith));
        no_dependent = λ a. incoming-nil (relevant dep snap) dep.container_id a (ground arith);
        is_fingerprint = f ∙ ap done ((eq_iff found expected).0 (ground arith));
      },
    )

-- Whenever `recheck` passes: the artifact directory is private, the inventory was taken, and its relevant part (the containers of
-- the project, of the target's networks, the target and what depends on it) has the target (unless none was recorded), is the same as the baseline in every
-- container, in the dependencies and the backend, has no container that depends on the target, and gives the expected fingerprint.
pub recheck-Rechecked :
    (is_private : Bool) (before : Snapshot) (expected : String) (dep : Deployment)
    (taken : Outcome Snapshot) (fingerprint : Snapshot → Outcome String) {counts : ℕ × ℕ}
    → recheck is_private before expected dep taken fingerprint ≡ done counts
    → (is_private ≡ true)
      × ((snap : Snapshot) × (taken ≡ done snap) × Rechecked before expected dep fingerprint snap)
unfolding recheck
recheck-Rechecked is_private before expected dep taken fingerprint {counts} h =
    let body = recheck_body before expected dep taken fingerprint in
    let (private', h1) = >>-eq-done (not is_private) _ _ (λ x. deferral-ne-done Reason.lock x) h in
    (
      ground arith,
      body-Rechecked before expected dep taken fingerprint (as_deferral-eq-done body counts h1),
    )
