-- ===== src/Update/Commit.antt =====
-- pylib/omniroute_update.py, `verify_commit`: the wait for the one replacement of the target. A turn of its loop meets clock readings, an
-- inventory (or the exception of `take_snapshot`) and the answer of the health API: a `Look`. The list of the looks may end before the
-- loop does: `waiting`.
pub mod Candidate
pub mod Replaced
mod Tests
use llm_env.Prelude.{
  ℕ, Bool, true, false, not, ◌&&◌, ◌||◌, Option, none, some, String, List, [], ◌∷◌, keep, lookup,
  leb, str_eq, is_some, if◌then◌else◌,
}
use llm_env.Prelude.Chars.{is_empty}
use llm_env.Update.Documents.{Outcome, done, update_error, deferral, broken}
use llm_env.Update.Reference.{canon_image_id}
use llm_env.Update.Snapshot.{Snapshot, Doc}
use llm_env.Update.Snapshot.Texts.{same_text, sort_texts}

-- What is compared of the networks and the volumes.
pub record Attachments : Type 0 where
  pub networks : List String
  pub volumes : List String

-- The target before the replacement, from `target.json` (`none`: it was absent), and the other artifacts.
pub record Baseline : Type 0 where
  pub snapshot : Snapshot
  pub target : Option Doc
  pub deployed_project : String

-- What the loop compares with.
pub record Wanted : Type 0 where
  pub project : Option String
  pub image : String
  pub attachments : Option Attachments

pub record Look : Type 0 where
  pub head : ℕ  -- the clock at the head of the loop
  pub taken : Outcome Snapshot
  pub api : Bool
  pub ready : ℕ  -- the clock after the replacement was seen to be ready
  pub last : ℕ  -- the clock at the end of the turn

-- The arguments of a call.
pub record Call : Type 0 where
  pub service : String
  pub old_id : String
  pub deadline : ℕ
  pub expect_no_deps : Bool
  pub has_api : Bool

pub data Failure : Type 0 where
  no_image_id exhausted inventory_unavailable siblings_changed malformed_image wrong_image
        wrong_attachments :
      Failure
  native_dependencies late_health ambiguous : Failure

pub data Result : Type 0 where
  committed : String → Result
  failed : Failure → Result
  waiting : Result

pub data Turn : Type 0 where
  stop : Result → Turn
  again : Turn

abbrev same_lists : List String → List String → Bool
same_lists [] [] = true
same_lists (s ∷ ss) (t ∷ ts) = str_eq s t && same_lists ss ts
same_lists _ _ = false

-- `nets == want_nets and vols == want_vols`, if there was a target; all are sorted.
unfoldable pub is_attached : Option Attachments → Doc → Bool
unfolding sort_texts
is_attached none d = true
is_attached (some want) d =
    same_lists (sort_texts d.network_ids) want.networks
    && same_lists (sort_texts d.volumes) want.volumes

-- The image that the replacement must have: the resolved one, or that of the target.
unfoldable pub wanted_image : String → Option Doc → Option String
unfolding canon_image_id
wanted_image config_id target =
    if not (is_empty config_id)
    then some config_id
    else elim target [ none ↦ none | some d ↦ canon_image_id d.image ]

abbrev pub wanted_project : Baseline → Option String
wanted_project b = elim b.target [ none ↦ some b.deployed_project | some d ↦ d.project ]

abbrev pub attachments_of : Option Doc → Option Attachments
attachments_of none = none
attachments_of (some d) =
    some (record { networks = sort_texts d.network_ids; volumes = sort_texts d.volumes })

-- A candidate: of the service and the project, and not the old container.
unfoldable pub is_candidate : Call → Wanted → String → Doc → Bool
is_candidate c want cid d =
    same_text d.service (some c.service)
    && same_text d.project want.project
    && not (str_eq cid c.old_id)

-- A container of the baseline, other than the target, is not in the state that it had.
unfoldable pub sibling_changed : Call → Snapshot → List (String × String) → Bool
sibling_changed c snap [] = false
sibling_changed c snap ((cid, state) ∷ baseline) =
    (not (str_eq cid c.old_id) && not (same_text (lookup cid snap.containers) (some state)))
    || sibling_changed c snap baseline

-- `healthy`, or running while the API answers
unfoldable pub is_ready : Call → Look → Doc → Bool
is_ready c look d = same_text d.health (some "healthy") || (d.running && c.has_api && look.api)

-- The end of a turn: nothing was decided.
abbrev pub go_on : Call → Look → Turn
go_on c look = if leb c.deadline look.last then stop (failed exhausted) else again

-- The tests on the one candidate.
unfoldable pub check_candidate : Call → Wanted → Look → String → Doc → Turn
unfolding is_attached is_ready canon_image_id
check_candidate c want look cid d = elim (canon_image_id d.image) [
  | none ↦ stop (failed malformed_image)
  | some image ↦
      if not (str_eq image want.image)
      then stop (failed wrong_image)
      else if not (is_attached want.attachments d)
      then stop (failed wrong_attachments)
      else if c.expect_no_deps && d.has_dependencies
      then stop (failed native_dependencies)
      else if is_ready c look d
      then (if leb c.deadline look.ready then stop (failed late_health) else stop (committed cid))
      else go_on c look
]

-- No candidate, one, or several.
unfoldable pub check_candidates : Call → Wanted → Look → List (String × Doc) → Turn
unfolding check_candidate
check_candidates c want look [] = go_on c look
check_candidates c want look ((cid, d) ∷ []) = check_candidate c want look cid d
check_candidates c want look (a ∷ (b ∷ rest)) = stop (failed ambiguous)

unfoldable pub check_snapshot : Call → Baseline → Wanted → Look → Snapshot → Turn
unfolding check_candidates sibling_changed is_candidate
check_snapshot c b want look snap =
    if sibling_changed c snap b.snapshot.containers
    then stop (failed siblings_changed)
    else check_candidates c want look (keep (λ e. is_candidate c want e.0 e.1) snap.docs)

-- One turn of the loop.
unfoldable pub turn : Call → Baseline → Wanted → Look → Turn
unfolding check_snapshot
turn c b want look = if leb c.deadline look.head then stop (failed exhausted) else elim look.taken [
  | done snap ↦ check_snapshot c b want look snap
  | _ ↦ stop (failed inventory_unavailable)
]

unfoldable pub watch : Call → Baseline → Wanted → List Look → Result
unfolding turn
watch c b want [] = waiting
watch c b want (look ∷ looks) = elim (turn c b want look) [
  | stop r ↦ r
  | again ↦ watch c b want looks
]

-- `verify_commit`
unfoldable pub verify_commit : Call → Baseline → String → List Look → Result
unfolding watch wanted_image
verify_commit c b config_id looks = elim (wanted_image config_id b.target) [
  | none ↦ failed no_image_id
  | some image ↦
      watch c b
        (record {
          project = wanted_project b;
          image = image;
          attachments = attachments_of b.target;
        })
        looks
]
