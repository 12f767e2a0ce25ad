-- ===== src/Agent/Cleanup/Proofs.antt =====
-- A cleanup is proved only by an empty scope and an ended process, and SIGKILL is the last resort.
use llm_env.Prelude.{
  ◌≡◌, refl, Bool, true, false, ◌⊎◌, inl, inr, List, [], ◌∷◌, arith, any, ◌&&◌, not, Bool-cases,
}
use llm_env.Agent.Cleanup.{
  Poll, exited, Look, Scope, empty, populated, removing, broken, Reap, WaitScript, StopScript,
  sigterm, sigkill, cleanup_now, reap_local_launcher, wait_rounds, wait_for_cleanup, stop_and_prove,
}

abbrev pub is_exited : Poll → Bool
is_exited (exited status) = true
is_exited _ = false

abbrev pub is_empty : Scope → Bool
is_empty Scope.empty = true
is_empty _ = false

abbrev pub is_populated : Scope → Bool
is_populated Scope.populated = true
is_populated _ = false

-- `_cleanup_now` proves a cleanup exactly if the process has exited, no drain thread is alive, the
-- cgroup path was saved and the cgroup is empty.
pub cleanup_now_iff :
    (known : Bool) (l : Look) (scope : Scope)
    → (cleanup_now known l scope).0
      ≡ (known && (is_exited l.poll && (not l.alive && is_empty scope)))
unfolding cleanup_now
cleanup_now_iff known l scope = ground arith

-- A wait proves a cleanup only after a look at an empty scope and a reaped launcher.
abbrev pub IsProvedBy : WaitScript → Type 0
IsProvedBy s =
    ((any is_empty s.rounds ≡ true) ⊎ (is_empty s.final ≡ true))
    × (reap_local_launcher s.reap ≡ true)

wait_rounds-proved :
    (failed : Bool) (rounds : List Scope) (final : Scope) (r : Reap)
    → (wait_rounds failed rounds final r).proved ≡ true
    → ((any is_empty rounds ≡ true) ⊎ (is_empty final ≡ true)) × (reap_local_launcher r ≡ true)
unfolding wait_rounds
wait_rounds-proved failed [] final r h = (inr (ground arith), ground arith)
wait_rounds-proved failed (empty ∷ rs) final r h = (inl refl, h)
wait_rounds-proved failed (populated ∷ rs) final r h = wait_rounds-proved failed rs final r h
wait_rounds-proved failed (removing ∷ rs) final r h = wait_rounds-proved failed rs final r h
wait_rounds-proved failed (broken ∷ rs) final r h = wait_rounds-proved true rs final r h

-- A scope that is still populated after the wait was populated at the last look.
wait_rounds-populated :
    (failed : Bool) (rounds : List Scope) (final : Scope) (r : Reap)
    → (wait_rounds failed rounds final r).still_populated ≡ true
    → (any is_empty rounds ≡ false) × (is_populated final ≡ true)
unfolding wait_rounds
wait_rounds-populated failed [] final r h = (refl, ground arith)
wait_rounds-populated failed (empty ∷ rs) final r h = cc
wait_rounds-populated failed (populated ∷ rs) final r h = wait_rounds-populated failed rs final r h
wait_rounds-populated failed (removing ∷ rs) final r h = wait_rounds-populated failed rs final r h
wait_rounds-populated failed (broken ∷ rs) final r h = wait_rounds-populated true rs final r h

wait-proved :
    (known : Bool) (s : WaitScript) → (wait_for_cleanup known s).proved ≡ true → IsProvedBy s
unfolding wait_for_cleanup
wait-proved true s h = wait_rounds-proved false s.rounds s.final s.reap h
wait-proved false s h = cc

wait-populated :
    (known : Bool) (s : WaitScript)
    → (wait_for_cleanup known s).still_populated ≡ true
    → (any is_empty s.rounds ≡ false) × (is_populated s.final ≡ true)
unfolding wait_for_cleanup
wait-populated true s h = wait_rounds-populated false s.rounds s.final s.reap h
wait-populated false s h = cc

-- `_stop_and_prove` claims a proved cleanup only if the path was saved and one of its three looks
-- shows it: the first one, the wait after SIGTERM, or the wait after SIGKILL.
pub stop_and_prove_sound :
    (s : StopScript)
    → (stop_and_prove s).proved ≡ true
    → (s.known ≡ true)
      × (((is_exited s.look.poll ≡ true) × (s.look.alive ≡ false) × (is_empty s.scope ≡ true))
          ⊎ (IsProvedBy s.term ⊎ IsProvedBy s.kill))
unfolding stop_and_prove
stop_and_prove_sound s h = elim (Bool-cases (cleanup_now s.known s.look s.scope).0) [
  | inl now ↦ ground (arith, cleanup_now_iff s.known s.look s.scope)
  | inr later ↦ elim (Bool-cases (wait_for_cleanup s.known s.term).proved) [
    | inl t ↦ (ground arith, inr (inl (wait-proved s.known s.term t)))
    | inr no_t ↦ elim (Bool-cases (wait_for_cleanup s.known s.kill).proved) [
      | inl k ↦ (ground arith, inr (inr (wait-proved s.known s.kill k)))
      | inr no_k ↦ ground arith
    ]
  ]
]

-- SIGKILL is requested only after SIGTERM, and only if the scope was not seen empty in the whole
-- grace period and was populated at its end.
pub sigkill_last :
    (s : StopScript)
    → ((stop_and_prove s).signals ≡ [])
      ⊎ (((stop_and_prove s).signals ≡ sigterm ∷ [])
          ⊎ (((stop_and_prove s).signals ≡ sigterm ∷ sigkill ∷ [])
              × (any is_empty s.term.rounds ≡ false)
              × (is_populated s.term.final ≡ true)))
unfolding stop_and_prove
sigkill_last s = elim (Bool-cases (cleanup_now s.known s.look s.scope).0) [
  | inl now ↦ inl (ground arith)
  | inr later ↦ elim (Bool-cases s.known) [
    | inr lost ↦ inr (inl (ground arith))
    | inl saved ↦ elim (Bool-cases (wait_for_cleanup s.known s.term).still_populated) [
      | inr gone ↦ inr (inl (ground arith))
      | inl busy ↦ elim (Bool-cases (wait_for_cleanup s.known s.term).proved) [
        | inl t ↦ inr (inl (ground arith))
        | inr no_t ↦ inr (
            inr (
              ground arith,
              (wait-populated s.known s.term busy).0,
              (wait-populated s.known s.term busy).1,
            ))
      ]
    ]
  ]
]
