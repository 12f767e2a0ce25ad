-- ===== src/Update/Commit/Candidate.antt =====
-- pylib/omniroute_update.py, `verify_commit`: what the tests on the one candidate establish.
use llm_env.Prelude.{
  ◌<◌, ◌≡◌, ◌≢◌, refl, ◌∙◌, ap, inl, inr, true, false, ◌&&◌, some, String, List, [], ◌∷◌, keep,
  lookup, str_eq, eq_iff, arith, Bool-cases, Option-cases,
}
use llm_env.Update.Documents.{Outcome, done, update_error, deferral, broken}
use llm_env.Update.Reference.{canon_image_id}
use llm_env.Update.Snapshot.{Snapshot, Doc}
use llm_env.Update.Snapshot.Texts.{same_text-eq}
use llm_env.Update.Commit.{
  Call, Baseline, Wanted, Look, committed, failed, Failure, stop, is_attached, is_candidate,
  is_ready, sibling_changed, check_candidate, check_candidates, check_snapshot, turn,
  wanted_project, attachments_of,
}

abbrev pub wanted_of : Baseline → String → Wanted
wanted_of b image = record {
  project = wanted_project b;
  image = image;
  attachments = attachments_of b.target;
}

-- `cid` replaces the target in the inventory of `look`.
pub record Replaced (c : Call) (b : Baseline) (want : Wanted) (look : Look) (cid : String)
    : Type 0 where
  pub snap : Snapshot
  pub doc : Doc
  pub is_taken : look.taken ≡ done snap
  pub is_only : keep (λ e. is_candidate c want e.0 e.1) snap.docs ≡ (cid, doc) ∷ []
  pub are_siblings :
      (sibling state : String)
      → lookup sibling b.snapshot.containers ≡ some state
      → sibling ≢ c.old_id
      → lookup sibling snap.containers ≡ some state
  pub has_image : canon_image_id doc.image ≡ some want.image
  pub has_attachments : is_attached want.attachments doc ≡ true
  pub has_no_deps : c.expect_no_deps ≡ true → doc.has_dependencies ≡ false
  pub ready : is_ready c look doc ≡ true
  pub before_head : look.head < c.deadline
  pub before_ready : look.ready < c.deadline

pub siblings_same :
    (c : Call) (snap : Snapshot) (baseline : List (String × String)) (sibling state : String)
    → sibling_changed c snap baseline ≡ false
    → lookup sibling baseline ≡ some state
    → sibling ≢ c.old_id
    → lookup sibling snap.containers ≡ some state
unfolding sibling_changed
siblings_same c snap [] sibling state h k n = ground arith
siblings_same c snap ((cid, s) ∷ baseline) sibling state h k n =
    elim (Bool-cases (str_eq cid sibling)) [
      | inl e ↦ here ((eq_iff cid sibling).0 e) (rw e at k)
      | inr e ↦ siblings_same c snap baseline sibling state (ground arith) (rw e at k) n
    ]
  where
    here : cid ≡ sibling → some s ≡ some state → lookup sibling snap.containers ≡ some state
    here p q =
        same_text-eq (lookup sibling snap.containers) (some state)
          (rw (← p, ← q) (ground (arith, eq_iff cid c.old_id, p)))

module _ (c : Call) (b : Baseline) (want : Wanted) (look : Look) (cid : String) where
  pub candidate-Passed :
      (other : String) (d : Doc)
      → check_candidate c want look other d ≡ stop (committed cid)
      → (other ≡ cid)
        × (canon_image_id d.image ≡ some want.image)
        × (is_attached want.attachments d ≡ true)
        × ((c.expect_no_deps && d.has_dependencies) ≡ false)
        × (is_ready c look d ≡ true)
        × (look.ready < c.deadline)
  unfolding check_candidate
  candidate-Passed other d h = elim (Option-cases (canon_image_id d.image)) [
    | inl e ↦ ground (arith, e)
    | inr (image, e) ↦ ground (arith, e, eq_iff image want.image)
  ]

  pub turn-Replaced : turn c b want look ≡ stop (committed cid) → Replaced c b want look cid
  unfolding turn check_snapshot check_candidates
  turn-Replaced h = by_taken look.taken refl (ground arith) (ground arith)
    where
      by_candidates :
          (snap : Snapshot) (cands : List (String × Doc))
          → look.taken ≡ done snap
          → look.head < c.deadline
          → sibling_changed c snap b.snapshot.containers ≡ false
          → keep (λ e. is_candidate c want e.0 e.1) snap.docs ≡ cands
          → check_candidates c want look cands ≡ stop (committed cid)
          → Replaced c b want look cid
      by_candidates snap [] e t s k h = ground arith
      by_candidates snap (x ∷ (y ∷ rest)) e t s k h = ground arith
      by_candidates snap ((other, d) ∷ []) e t s k h =
          let (same, image, attached, deps, ready, time) = candidate-Passed other d h in
          record {
            snap = snap;
            doc = d;
            is_taken = e;
            is_only = k ∙ ap (λ x. (x, d) ∷ []) same;
            are_siblings =
                λ sibling state q n. siblings_same c snap b.snapshot.containers sibling state s q n;
            has_image = image;
            has_attachments = attached;
            has_no_deps = λ x. ground arith;
            ready = ready;
            before_head = t;
            before_ready = time;
          }

      by_taken :
          (taken : Outcome Snapshot)
          → look.taken ≡ taken
          → look.head < c.deadline
          → elim taken [
            | done snap ↦ check_snapshot c b want look snap
            | _ ↦ stop (failed Failure.inventory_unavailable)
          ]
            ≡ stop (committed cid)
          → Replaced c b want look cid
      by_taken (done snap) e t h =
          by_candidates snap (keep (λ x. is_candidate c want x.0 x.1) snap.docs) e t (ground arith)
            refl (ground arith)
      by_taken update_error e t h = ground arith
      by_taken (deferral why) e t h = ground arith
      by_taken broken e t h = ground arith
