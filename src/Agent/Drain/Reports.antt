-- ===== src/Agent/Drain/Reports.antt =====
-- What a drain thread tells the run: its events, against the flags of its state.
use llm_env.Prelude.{
  ℕ, ◌≡◌, refl, Bool, true, false, ◌||◌, List, [], ◌∷◌, ◌++◌, arith, any, if◌then◌else◌, ◌-◌, take,
}
use llm_env.Agent.Outcome.{Outcome, is_boundary}
use llm_env.Agent.Drain.{
  Write, Read, Drain, init, store, note_limit, step, drain, fail, chunk, fails,
}

any-append :
    (xs ys : List Outcome) → any is_boundary (xs ++ ys) ≡ (any is_boundary xs || any is_boundary ys)
any-append [] ys = refl
any-append (x ∷ xs) ys = ground (arith, any-append xs ys)

-- A boundary failure is queued exactly if a failure is recorded, and without one the queue holds
-- the limit's event exactly if the limit was exceeded, once.
pub record Reports (lo : Outcome) (d : Drain) : Type 0 where
  pub failure : any is_boundary d.events ≡ d.failed
  pub limit_event : d.failed ≡ false → d.events ≡ (if d.exceeded then lo ∷ [] else [])

module _ (lo : Outcome) (plain : is_boundary lo ≡ false) where
  fail-Reports : (d : Drain) → Reports lo d → Reports lo (fail d)
  fail-Reports d r = record {
    failure = ground (arith, any-append d.events (Outcome.boundary_failure ∷ []));
    limit_event = λ h. cc;
  }

  store-Reports : (d : Drain) (rs : List ℕ) (w : Write) → Reports lo d → Reports lo (store d rs w)
  unfolding store
  store-Reports d rs w r = record {
    failure = ground (arith, any-append d.events (Outcome.boundary_failure ∷ []));
    limit_event = ground arith;
  }

  note_limit-Reports :
      (d : Drain) (bytes : List ℕ) (rem : ℕ) → Reports lo d → Reports lo (note_limit lo d bytes rem)
  unfolding note_limit
  note_limit-Reports d bytes rem r = record {
    failure = ground (arith, any-append d.events (lo ∷ []));
    limit_event = ground arith;
  }

  step-Reports :
      (limit : ℕ) (d : Drain) (bytes : List ℕ) (w : Write)
      → Reports lo d
      → Reports lo (step limit lo d bytes w)
  unfolding step
  step-Reports limit d bytes w r =
      note_limit-Reports (store d (take (limit - d.stored_bytes) bytes) w) bytes
        (limit - d.stored_bytes) (store-Reports d (take (limit - d.stored_bytes) bytes) w r)

  closed-Reports : (ok : Bool) (d : Drain) → Reports lo d → Reports lo (if ok then d else fail d)
  closed-Reports true d r = r
  closed-Reports false d r = fail-Reports d r

  drain_from-Reports :
      (limit : ℕ) (ok : Bool) (reads : List Read) (d : Drain)
      → Reports lo d
      → Reports lo (drain limit lo ok reads d)
  unfolding drain
  drain_from-Reports limit ok [] d r = closed-Reports ok d r
  drain_from-Reports limit ok (fails ∷ reads) d r = closed-Reports ok (fail d) (fail-Reports d r)
  drain_from-Reports limit ok (chunk [] w ∷ reads) d r = closed-Reports ok d r
  drain_from-Reports limit ok (chunk (x ∷ xs) w ∷ reads) d r =
      drain_from-Reports limit ok reads (step limit lo d (x ∷ xs) w)
        (step-Reports limit d (x ∷ xs) w r)

  -- A drain thread started anew, whose limit event is not the boundary failure: a boundary failure
  -- is among its events exactly if its state says `failed`; if not, its events are the one limit
  -- event or none, as its state says `exceeded`.
  pub drain-Reports :
      (limit : ℕ) (ok : Bool) (reads : List Read) → Reports lo (drain limit lo ok reads init)
  unfolding init
  drain-Reports limit ok reads =
      drain_from-Reports limit ok reads init (record { failure = refl; limit_event = λ h. refl })
