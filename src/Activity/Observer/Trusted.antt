-- ===== src/Activity/Observer/Trusted.antt =====
-- What the first `ready` that the observer writes vouches for.
use llm_env.Prelude.{
  ℕ, ◌≡◌, refl, sym, ◌∙◌, ap, Bool, true, false, ◌&&◌, List, [], ◌∷◌, ◌++◌, length, all, arith,
  if◌then◌else◌,
}
use mathlib.Core.Path.{subst}
use llm_env.Activity.Collector.{Setup, Round, sample}
use llm_env.Activity.Collector.Idle.{IsIdle}
use llm_env.Activity.Collector.Vouched.{Vouched, sample-Vouched}
use llm_env.Activity.Gate.{Observation, Answer, continues, Session, start, next}
use llm_env.Activity.Gate.Window.{Quiesced, ready-Quiesced}
use llm_env.Activity.Observer.{
  Observer, Look, Turn, Entry, End, observation, look, is_resample, limited, turn, entry_of, write,
  observe_loop, new_observer,
}

-- The first look of a turn.
abbrev pub first_look : Setup → ℕ → Observer → Turn → Look
first_look u lifetime_end o t = look u o (limited t.start lifetime_end t.first)

-- The round that the last look of a turn is made of: the second if the gate asked for it.
abbrev pub last_round : Setup → ℕ → Observer → Turn → Round
last_round u lifetime_end o t =
    if is_resample (first_look u lifetime_end o t).verdict
    then limited t.again lifetime_end t.second
    else limited t.start lifetime_end t.first

-- The observation of the first look of a turn that has a second.
abbrev asked : Bool → Look → List Observation
asked true x = observation x.seen ∷ []
asked false x = []

-- What the gate was given before the last look of a turn, the newest first; `h` is what it was given before the turn.
abbrev pub given_before : Setup → ℕ → Observer → Turn → List Observation → List Observation
given_before u lifetime_end o t h =
    let x = first_look u lifetime_end o t in asked (is_resample x.verdict) x ++ h

-- The observer after the turns, and all that its gate was given, the newest first.
unfoldable pub replay :
    Setup → ℕ → Observer → List Observation → List Turn → Observer × List Observation
replay u lifetime_end o h [] = (o, h)
replay u lifetime_end o h (t ∷ ts) =
    let x = turn u lifetime_end o t in
    replay u lifetime_end x.observer (observation x.seen ∷ given_before u lifetime_end o t h) ts

-- The entry `e` of the turn `t`, for an observer and all that its gate was given in the turns before: it is of the last look of the
-- turn, whose round vouches for it, and what the gate was given before that look ends in a quiet window.
pub record Confirmed (u : Setup) (lifetime_end min_wait deadline : ℕ) (o : Observer)
    (h : List Observation) (t : Turn) (e : Entry) : Type 0 where
  pub is_entry : e ≡ entry_of (turn u lifetime_end o t)
  pub vouched : Vouched u (last_round u lifetime_end o t)
  pub quiesced : Quiesced min_wait deadline (observation e.seen) (given_before u lifetime_end o t h)

cons-injective : {A : Type 0} {x y : A} {xs ys : List A} → x ∷ xs ≡ y ∷ ys → (x ≡ y) × (xs ≡ ys)
cons-injective {x = x} {y} {xs} {ys} h = ground arith

module _ (u : Setup) (lifetime_end min_wait deadline : ℕ) where
  -- A look at a round, after `h`: the session goes on, or the look is `ready`, vouched for and quiet.
  record IsFine (x : Look) (r : Round) (h : List Observation) : Type 0 where
    goes_on :
        continues x.verdict ≡ true
        → Session min_wait deadline x.observer.gate (observation x.seen ∷ h)
    confirmed :
        x.verdict ≡ Answer.ready → Vouched u r × Quiesced min_wait deadline (observation x.seen) h

  look-IsFine :
      (o : Observer) (r : Round) {h : List Observation}
      → Session min_wait deadline o.gate h
      → IsFine (look u o r) r h
  unfolding look observation IsIdle
  look-IsFine o r {h} s =
      let seen = (sample u o.collector r).1 in
      record {
        goes_on = next s (observation seen);
        confirmed = λ e.
            let q = ready-Quiesced (observation seen) s e in
            (sample-Vouched u o.collector r q.quiet.0, q);
      }

  resample-continues : (a : Answer) → is_resample a ≡ true → continues a ≡ true
  resample-continues a h = ground arith

  last_look-IsFine :
      (b : Bool) (x y : Look) (r s : Round) (h : List Observation)
      → IsFine x r h
      → (b ≡ true → IsFine y s (observation x.seen ∷ h))
      → IsFine (if b then y else x) (if b then s else r) (asked b x ++ h)
  last_look-IsFine true x y r s h p q = q refl
  last_look-IsFine false x y r s h p q = p

  turn-IsFine :
      (o : Observer) (t : Turn) {h : List Observation}
      → Session min_wait deadline o.gate h
      → IsFine
          (turn u lifetime_end o t)
          (last_round u lifetime_end o t)
          (given_before u lifetime_end o t h)
  unfolding turn
  turn-IsFine o t {h} s =
      let x = first_look u lifetime_end o t in
      let again = limited t.again lifetime_end t.second in
      let fine = look-IsFine o (limited t.start lifetime_end t.first) s in
      last_look-IsFine (is_resample x.verdict) x (look u x.observer again)
        (limited t.start lifetime_end t.first) again h fine
        (λ e. look-IsFine x.observer again (fine.goes_on (resample-continues x.verdict e)))

  -- The entries that begin with one that was written.
  written-eq :
      (b : Bool) (e e' : Entry) (rest : List Entry × End) (es : List Entry)
      → (write b e rest).0 ≡ e' ∷ es
      → (e' ≡ e) × (rest.0 ≡ es)
  written-eq true e e' rest es h = let (same, later) = cons-injective h in (sym same, later)
  written-eq false e e' rest es h = ground arith

  loop-Confirmed :
      (o : Observer) {h : List Observation}
      → Session min_wait deadline o.gate h
      → (earlier : List Turn) (t : Turn) (later : List Turn) (es : List Entry) (e : Entry)
        (rest : List Entry)
      → (observe_loop u lifetime_end o (earlier ++ t ∷ later)).0 ≡ es ++ e ∷ rest
      → length es ≡ length earlier
      → all (λ x. continues x.verdict) es ≡ true
      → e.verdict ≡ Answer.ready
      → let (o', h') = replay u lifetime_end o h earlier in
        Confirmed u lifetime_end min_wait deadline o' h' t e
  unfolding observe_loop replay
  loop-Confirmed o {h} s [] t later [] e rest log n c r =
      let fine = turn-IsFine o t s in
      let (same, _) = written-eq t.is_written (entry_of (turn u lifetime_end o t)) e _ rest log in
      let (vouched, quiet) = fine.confirmed (ap (λ (x : Entry). x.verdict) (sym same) ∙ r) in
      record {
        is_entry = same;
        vouched = vouched;
        quiesced =
            subst
              (λ (x : Entry).
                Quiesced min_wait deadline (observation x.seen) (given_before u lifetime_end o t h))
              (sym same) quiet;
      }
  loop-Confirmed o s [] t later (x ∷ es) e rest log n c r = absurd (omega arith)
  loop-Confirmed o s (t' ∷ earlier) t later [] e rest log n c r = absurd (omega arith)
  loop-Confirmed o s (t' ∷ earlier) t later (e' ∷ es) e rest log n c r =
      let x = turn u lifetime_end o t' in
      let fine = turn-IsFine o t' s in
      let (same, tail) =
        written-eq t'.is_written (entry_of x) e'
          (observe_loop u lifetime_end x.observer (earlier ++ t ∷ later)) (es ++ e ∷ rest) log in
      let (here, more) = split (continues e'.verdict) (all (λ x. continues x.verdict) es) c in
      loop-Confirmed x.observer
        (fine.goes_on (ap (λ (y : Entry). continues y.verdict) (sym same) ∙ here)) earlier t later
        es e rest tail (omega arith) more r
    where
      split : (a b : Bool) → (a && b) ≡ true → (a ≡ true) × (b ≡ true)
      split a b h = ground arith

-- The observer of a new collector and a new gate, and an entry `ready` of its log before which there is no deferral and no other
-- `ready`. Then this is the entry of the turn at the same place; the round of its last sample vouches for it (`Vouched`); and all that
-- the gate was given before that sample, in the earlier turns and in this one, resamples included, ends in a quiet window (`Quiesced`).
pub observe_loop-Confirmed :
    (u : Setup) (lifetime_end min_wait deadline : ℕ) (earlier : List Turn) (t : Turn)
    (later : List Turn) (es : List Entry) (e : Entry) (rest : List Entry)
    → (observe_loop u lifetime_end (new_observer min_wait deadline) (earlier ++ t ∷ later)).0
      ≡ es ++ e ∷ rest
    → length es ≡ length earlier
    → all (λ x. continues x.verdict) es ≡ true
    → e.verdict ≡ Answer.ready
    → let (o, given) = replay u lifetime_end (new_observer min_wait deadline) [] earlier in
      Confirmed u lifetime_end min_wait deadline o given t e
unfolding new_observer
observe_loop-Confirmed u lifetime_end min_wait deadline =
    loop-Confirmed u lifetime_end min_wait deadline (new_observer min_wait deadline) start
