-- ===== src/Update/Commit/Replaced.antt =====
-- What a verified replacement is.
use llm_env.Prelude.{
  ℕ, ◌≤◌, ◌+◌, ◌*◌, ◌≡◌, ◌≢◌, refl, sym, ◌∙◌, ap, inl, inr, Bool, true, Option, none, some, String,
  List, [], ◌∷◌, keep, leb, eq_iff, arith, Bool-cases, get_elem?, zero, suc,
}
use llm_env.Update.Documents.{Outcome, done, update_error, deferral, broken}
use llm_env.Update.Snapshot.{Snapshot, Doc}
use llm_env.Update.Commit.{
  Call, Baseline, Wanted, Look, committed, failed, waiting, Failure, Turn, stop, again,
  is_candidate, check_candidate, check_candidates, check_snapshot, turn, watch, verify_commit,
  wanted_image,
}
use llm_env.Update.Commit.Candidate.{wanted_of, Replaced, turn-Replaced}

keep-holds : {A : Type 0} (p : A → Bool) (xs ys : List A) (y : A) → keep p xs ≡ y ∷ ys → p y ≡ true
keep-holds p [] ys y h = ground arith
keep-holds p (x ∷ xs) ys y h = elim (Bool-cases (p x)) [
  | inl e ↦ ap p (sym (head-eq (rw e at h))) ∙ e
  | inr e ↦ keep-holds p xs ys y (rw e at h)
]
  where
    head-eq : x ∷ keep p xs ≡ y ∷ ys → x ≡ y
    head-eq q = cc

module _ (c : Call) (b : Baseline) (want : Wanted) where
  watch-Replaced :
      (looks : List Look) (cid : String)
      → watch c b want looks ≡ committed cid
      → (i : ℕ) × (look : Look) × (get_elem? looks i ≡ some look) × Replaced c b want look cid
  unfolding watch
  watch-Replaced [] cid h = ground arith
  watch-Replaced (look ∷ looks) cid h =
      by_turn (turn c b want look) refl h (watch-Replaced looks cid)
    where
      by_turn :
          (t : Turn)
          → turn c b want look ≡ t
          → elim t [ stop r ↦ r | again ↦ watch c b want looks ] ≡ committed cid
          → (watch c b want looks ≡ committed cid
              → (i : ℕ) × (found : Look) × (get_elem? looks i ≡ some found)
                × Replaced c b want found cid)
          → (i : ℕ) × (found : Look) × (get_elem? (look ∷ looks) i ≡ some found)
            × Replaced c b want found cid
      by_turn (stop r) e h later =
          (zero, look, refl, turn-Replaced c b want look cid (e ∙ ap stop h))
      by_turn again e h later = let (i, found, at, r) = later h in (suc i, found, at, r)

  candidate-ne-waiting :
      (look : Look) (cid : String) (d : Doc) → check_candidate c want look cid d ≢ stop waiting
  unfolding check_candidate
  candidate-ne-waiting look cid d h = ground arith

  candidates-ne-waiting :
      (look : Look) (cands : List (String × Doc))
      → check_candidates c want look cands ≢ stop waiting
  unfolding check_candidates
  candidates-ne-waiting look [] h = ground arith
  candidates-ne-waiting look ((cid, d) ∷ []) h = candidate-ne-waiting look cid d h
  candidates-ne-waiting look (x ∷ (y ∷ rest)) h = ground arith

  turn-ne-waiting : (look : Look) → turn c b want look ≢ stop waiting
  unfolding turn check_snapshot
  turn-ne-waiting look h = by_taken look.taken (ground arith)
    where
      by_taken :
          (taken : Outcome Snapshot)
          → elim taken [
            | done snap ↦ check_snapshot c b want look snap
            | _ ↦ stop (failed Failure.inventory_unavailable)
          ]
            ≢ stop waiting
      by_taken (done snap) k =
          candidates-ne-waiting look (keep (λ x. is_candidate c want x.0 x.1) snap.docs)
            (ground arith)
      by_taken update_error k = ground arith
      by_taken (deferral why) k = ground arith
      by_taken broken k = ground arith

  turn_late :
      (look : Look)
      → leb c.deadline look.head ≡ true
      → turn c b want look ≡ stop (failed Failure.exhausted)
  unfolding turn
  turn_late look t = rw t refl

  -- A turn that begins at the deadline or later ends the loop.
  watch-ends :
      (looks : List Look) (i : ℕ) (look : Look)
      → get_elem? looks i ≡ some look
      → leb c.deadline look.head ≡ true
      → watch c b want looks ≢ waiting
  unfolding watch
  watch-ends [] i look e t h = ground arith
  watch-ends (first ∷ looks) zero look e t h = ground (arith, turn_late first (ground arith))
  watch-ends (first ∷ looks) (suc i) look e t h =
      by_turn (turn c b want first) refl h (watch-ends looks i look e t)
    where
      by_turn :
          (u : Turn)
          → turn c b want first ≡ u
          → elim u [ stop r ↦ r | again ↦ watch c b want looks ] ≡ waiting
          → watch c b want looks ≢ waiting
          → ⊥
      by_turn (stop r) q k later = turn-ne-waiting first (q ∙ ap stop k)
      by_turn again q k later = later k

-- When `verify_commit` answers with a container: in one of its turns, which began before the deadline, this container was the only one
-- of the service and the project besides the old one, it had the wanted image (the resolved one, or that of the target) and the
-- attachments of the target, no dependency where none is expected, it was ready and still before the deadline; and every other
-- container of the baseline was in the state that the baseline gives it. It is not the old container.
pub verify_commit-Replaced :
    (c : Call) (b : Baseline) (config_id : String) (looks : List Look) (cid : String)
    → verify_commit c b config_id looks ≡ committed cid
    → (image : String) × (i : ℕ) × (look : Look) × (wanted_image config_id b.target ≡ some image)
      × (get_elem? looks i ≡ some look)
      × Replaced c b (wanted_of b image) look cid
      × (cid ≢ c.old_id)
unfolding verify_commit is_candidate
verify_commit-Replaced c b config_id looks cid h = by_image (wanted_image config_id b.target) refl h
  where
    by_image :
        (o : Option String)
        → wanted_image config_id b.target ≡ o
        → elim o [
          | none ↦ failed Failure.no_image_id
          | some image ↦ watch c b (wanted_of b image) looks
        ]
          ≡ committed cid
        → (image : String) × (i : ℕ) × (look : Look) × (wanted_image config_id b.target
            ≡ some image)
          × (get_elem? looks i ≡ some look)
          × Replaced c b (wanted_of b image) look cid
          × (cid ≢ c.old_id)
    by_image none e h = ground arith
    by_image (some image) e h =
        let (i, look, at, r) = watch-Replaced c b (wanted_of b image) looks cid h in
        let fits =
          keep-holds (λ (x : String × Doc). is_candidate c (wanted_of b image) x.0 x.1) r.snap.docs
            [] (cid, r.doc) r.is_only in
        (image, i, look, e, at, r, λ same. ground (arith, eq_iff cid c.old_id, fits))

-- If the `i`-th turn begins no earlier than `i` seconds after the start (the loop sleeps a second between two turns), then
-- `verify_commit` has an answer after as many turns as the budget has seconds, and one more.
pub verify_commit-ends :
    (c : Call) (b : Baseline) (config_id : String) (looks : List Look) (start n : ℕ)
    → ((i : ℕ) (look : Look) → get_elem? looks i ≡ some look → start + 1000 * i ≤ look.head)
    → c.deadline ≤ start + 1000 * n
    → (last : Look) → get_elem? looks n ≡ some last
    → verify_commit c b config_id looks ≢ waiting
unfolding verify_commit
verify_commit-ends c b config_id looks start n clock budget last e h =
    by_image (wanted_image config_id b.target) h
  where
    late : leb c.deadline last.head ≡ true
    late = ground (arith, clock n last e)

    by_image :
        (o : Option String)
        → elim o [
          | none ↦ failed Failure.no_image_id
          | some image ↦ watch c b (wanted_of b image) looks
        ]
          ≢ waiting
    by_image none k = ground arith
    by_image (some image) k = watch-ends c b (wanted_of b image) looks n last e late k
