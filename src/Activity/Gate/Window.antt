-- ===== src/Activity/Gate/Window.antt =====
-- Why `ready` is safe: what every history that the gate answers `ready` to must look like.
use llm_env.Prelude.{
  ℕ, ◌+◌, ◌*◌, ◌≤◌, ◌<◌, ◌≡◌, refl, ◌≢◌, ◌∙◌, ap, Bool, true, false, Option, none, some, List, ◌∷◌,
  arith, inl, inr, ltb, leb, Bool-cases, not-leb→lt, tests,
}
use llm_env.Activity.Sample.{Class}
use llm_env.Activity.Gate.{
  Gate, Observation, Answer, Session, start, next, continues, ms_per_s, gens, init, step_quiet,
  gens_moved, note_health, note_advance, is_busy_class, step_known, step_unknown, step_class, step,
}

-- An idle observation at the generations `gs`.
abbrev pub IsQuiet : ℕ × ℕ → Observation → Type 0
IsQuiet gs o = (o.class ≡ Class.idle) × (gens o ≡ gs)

-- A history, newest first, that ends in an unbroken quiet window opened at `since`. The Boolean
-- says that the window holds an observation at least `span` milliseconds after its opening.
pub data Window (span since : ℕ) (gs : ℕ × ℕ) : Bool → List Observation → Type 0 where
  opened :
      {o : Observation} {h : List Observation}
      → IsQuiet gs o
      → o.now ≡ since
      → Window span since gs false (o ∷ h)
  kept :
      {b : Bool} {o : Observation} {h : List Observation}
      → IsQuiet gs o
      → Window span since gs b h
      → Window span since gs b (o ∷ h)
  confirmed :
      {b : Bool} {o : Observation} {h : List Observation}
      → IsQuiet gs o
      → since + span ≤ o.now
      → Window span since gs b h
      → Window span since gs true (o ∷ h)

-- What the gate remembers of its history.
abbrev Tracks : ℕ → Option ℕ → Option (ℕ × ℕ) → Bool → List Observation → Type 0
Tracks span none none b h = b ≡ false
Tracks span none (some gs) b h = ⊥
Tracks span (some q) none b h = ⊥
Tracks span (some q) (some gs) false h = (c : Bool) × Window span q gs c h
Tracks span (some q) (some gs) true h = Window span q gs true h

abbrev span_of : Gate → ℕ
span_of g = ms_per_s * g.min_wait

abbrev TracksOf : Gate → List Observation → Type 0
TracksOf g h = Tracks (span_of g) g.quiet_since g.quiet_gens g.resampling h

same_gens : (old new : ℕ × ℕ) → gens_moved (some old) new ≡ false → new ≡ old
same_gens old new h = ground arith

step_quiet-Tracks :
    (since : Option ℕ) (gs : Option (ℕ × ℕ)) (rs : Bool) (g : Gate) (o : Observation)
    (h : List Observation)
    → o.class ≡ Class.idle
    → gens_moved gs (gens o) ≡ false
    → Tracks (span_of g) since gs rs h
    → TracksOf
        (step_quiet (record g { quiet_since = since; quiet_gens = gs; resampling = rs }) since o).0
        (o ∷ h)
step_quiet-Tracks none none rs g o h idle same t = rw t (false, opened (idle, refl) refl)
step_quiet-Tracks none (some gs) rs g o h idle same t = absurd t
step_quiet-Tracks (some q) none rs g o h idle same t = absurd t
step_quiet-Tracks (some q) (some gs) false g o h idle same t =
    let quiet : IsQuiet gs o = (idle, same_gens gs (gens o) same) in
    elim (Bool-cases (ltb o.now (q + span_of g))) [
      | inl early ↦ rw early (t.0, kept quiet t.1)
      | inr late ↦ rw late (confirmed quiet (omega tests) t.1)
    ]
step_quiet-Tracks (some q) (some gs) true g o h idle same t =
    let quiet : IsQuiet gs o = (idle, same_gens gs (gens o) same) in
    elim (Bool-cases (ltb o.now (q + span_of g))) [
      | inl early ↦ rw early (kept quiet t)
      | inr late ↦ rw late (kept quiet t)
    ]

-- An idle observation that leaves the memory alone extends an open window.
keep-Tracks :
    (span : ℕ) (since : Option ℕ) (gs : Option (ℕ × ℕ)) (rs : Bool) (o : Observation)
    (h : List Observation)
    → o.class ≡ Class.idle
    → gens_moved gs (gens o) ≡ false
    → Tracks span since gs rs h
    → Tracks span since gs rs (o ∷ h)
keep-Tracks span none none rs o h idle same t = t
keep-Tracks span none (some gs) rs o h idle same t = absurd t
keep-Tracks span (some q) none rs o h idle same t = absurd t
keep-Tracks span (some q) (some gs) false o h idle same t =
    (t.0, kept (idle, same_gens gs (gens o) same) t.1)
keep-Tracks span (some q) (some gs) true o h idle same t = kept (idle, same_gens gs (gens o) same) t

not_busy : (o : Observation) → o.class ≡ Class.idle → is_busy_class o.class ≡ false
not_busy o idle = rw idle

step_known-Tracks_busy :
    (g : Gate) (o : Observation) (h : List Observation)
    → o.class ≡ Class.busy
    → TracksOf (step_known g o).0 (o ∷ h)
unfolding step_known
step_known-Tracks_busy g o h busy = let e : is_busy_class o.class ≡ true = rw busy in rw e refl

step_known-Tracks :
    (g : Gate) (o : Observation) (h : List Observation)
    → o.class ≡ Class.idle
    → TracksOf g h
    → TracksOf (step_known g o).0 (o ∷ h)
unfolding step_known
step_known-Tracks g o h idle t = elim (Bool-cases (gens_moved g.quiet_gens (gens o))) [
  | inl moved ↦ rw (not_busy o idle, moved) refl
  | inr same ↦
      rw (not_busy o idle, same)
        (elim (Bool-cases (note_advance g.base_ts g.advanced o.health_timestamp_ms)) [
          | inl adv ↦ rw adv (
              step_quiet-Tracks g.quiet_since g.quiet_gens g.resampling
                (record (note_health (record g { unknown_since = none }) o.health_timestamp_ms) {
                  advanced = true;
                })
                o h idle same t)
          | inr not_yet ↦
              rw not_yet
                (keep-Tracks (span_of g) g.quiet_since g.quiet_gens g.resampling o h idle same t)
        ])
]

step_unknown-Tracks :
    (g : Gate) (o : Observation) (h : List Observation)
    → continues (step_unknown g o).1 ≡ true
    → TracksOf (step_unknown g o).0 (o ∷ h)
unfolding step_unknown
step_unknown-Tracks g o h c = ground arith

step_class-Tracks :
    (k : Class) (g : Gate) (o : Observation) (h : List Observation)
    → o.class ≡ k
    → continues (step_class k g o).1 ≡ true
    → TracksOf g h
    → TracksOf (step_class k g o).0 (o ∷ h)
step_class-Tracks Class.unknown g o h e c t = step_unknown-Tracks g o h c
step_class-Tracks Class.busy g o h e c t = step_known-Tracks_busy g o h e
step_class-Tracks Class.idle g o h e c t = step_known-Tracks g o h e t

step-Tracks :
    (g : Gate) (o : Observation) (h : List Observation)
    → continues (step g o).1 ≡ true
    → TracksOf g h
    → TracksOf (step g o).0 (o ∷ h)
unfolding step
step-Tracks g o h c t = elim (Bool-cases (leb g.deadline o.now)) [
  | inl late ↦ let e : false ≡ true = rw late at c in cc
  | inr live ↦ rw live (step_class-Tracks o.class g o h refl (rw live at c) t)
]

-- The configuration of a gate never changes.
step_config :
    (g : Gate) (o : Observation)
    → ((step g o).0.min_wait ≡ g.min_wait) × ((step g o).0.deadline ≡ g.deadline)
unfolding step step_known step_unknown
step_config g o = ground arith

record Inv (min_wait deadline : ℕ) (g : Gate) (h : List Observation) : Type 0 where
  waits : g.min_wait ≡ min_wait
  ends : g.deadline ≡ deadline
  tracks : TracksOf g h

Session-Inv : {mw dl : ℕ} {g : Gate} {h : List Observation} → Session mw dl g h → Inv mw dl g h
unfolding init
Session-Inv start = record { waits = refl; ends = refl; tracks = refl }
Session-Inv (next {g} {h} s o c) =
    let i = Session-Inv s in
    record {
      waits = (step_config g o).0 ∙ i.waits;
      ends = (step_config g o).1 ∙ i.ends;
      tracks = step-Tracks g o h c i.tracks;
    }

-- What the gate has seen when it answers `ready` at `o` after the history `h`.
pub record Quiesced (min_wait deadline : ℕ) (o : Observation) (h : List Observation) : Type 0 where
  pub since : ℕ
  pub at_gens : ℕ × ℕ
  pub in_time : o.now < deadline
  pub quiet : IsQuiet at_gens o
  pub waited : since + ms_per_s * min_wait ≤ o.now
  pub window : Window (ms_per_s * min_wait) since at_gens true h

Ready : Gate → Observation → List Observation → Type 0
Ready g o h =
    (since : ℕ) × (gs : ℕ × ℕ) × IsQuiet gs o
    × (since + span_of g ≤ o.now)
    × Window (span_of g) since gs true h

step_quiet-ready :
    (since : Option ℕ) (gs : Option (ℕ × ℕ)) (rs : Bool) (g : Gate) (o : Observation)
    (h : List Observation)
    → o.class ≡ Class.idle
    → gens_moved gs (gens o) ≡ false
    → Tracks (span_of g) since gs rs h
    → (step_quiet (record g { quiet_since = since; quiet_gens = gs; resampling = rs }) since o).1
      ≡ Answer.ready
    → Ready g o h
unfolding Ready
step_quiet-ready none gs rs g o h idle same t e = cc
step_quiet-ready (some q) none rs g o h idle same t e = absurd t
step_quiet-ready (some q) (some gs) false g o h idle same t e = ground arith
step_quiet-ready (some q) (some gs) true g o h idle same t e =
    (q, gs, (idle, same_gens gs (gens o) same), ground arith, t)

step_known-ready_busy :
    (g : Gate) (o : Observation) → o.class ≡ Class.busy → (step_known g o).1 ≢ Answer.ready
unfolding step_known
step_known-ready_busy g o busy = ground arith

-- A `ready` comes out of the window's own step.
step_known-ready :
    (g : Gate) (o : Observation)
    → (step_known g o).1 ≡ Answer.ready
    → (gens_moved g.quiet_gens (gens o) ≡ false)
      × ((step_quiet
            (record (note_health (record g { unknown_since = none }) o.health_timestamp_ms) {
              quiet_since = g.quiet_since;
              quiet_gens = g.quiet_gens;
              resampling = g.resampling;
            })
            g.quiet_since
            o).1
          ≡ Answer.ready)
unfolding step_known
step_known-ready g o e = (ground arith, ground arith)

step_class-ready :
    (k : Class) (g : Gate) (o : Observation) (h : List Observation)
    → o.class ≡ k
    → TracksOf g h
    → (step_class k g o).1 ≡ Answer.ready
    → Ready g o h
unfolding Ready step_unknown
step_class-ready Class.unknown g o h k t e = ground arith
step_class-ready Class.busy g o h k t e = absurd (step_known-ready_busy g o k e)
step_class-ready Class.idle g o h k t e =
    let (same, answer) = step_known-ready g o e in
    step_quiet-ready g.quiet_since g.quiet_gens g.resampling
      (note_health (record g { unknown_since = none }) o.health_timestamp_ms) o h k same t answer

step-ready :
    (g : Gate) (o : Observation) (h : List Observation)
    → TracksOf g h
    → (step g o).1 ≡ Answer.ready
    → (o.now < g.deadline) × Ready g o h
unfolding step
step-ready g o h t e = elim (Bool-cases (leb g.deadline o.now)) [
  | inl late ↦ let f : Answer.defer_deadline ≡ Answer.ready = rw late at e in cc
  | inr live ↦ (not-leb→lt _ _ live, step_class-ready o.class g o h refl t (rw live at e))
]

-- Whenever a gate made by `init`, none of whose earlier answers was a deferral or `ready`, answers
-- `ready`: the observation comes before the deadline, and the history ends in an unbroken window of
-- idle observations at one pair of generations, which holds no busy or unknown observation. The
-- window opened at least `min_wait` seconds before, and an earlier observation of it already lies
-- `min_wait` seconds behind the opening (the resample).
pub ready-Quiesced :
    {mw dl : ℕ} {g : Gate} {h : List Observation} (o : Observation)
    → Session mw dl g h
    → (step g o).1 ≡ Answer.ready
    → Quiesced mw dl o h
unfolding Ready
ready-Quiesced {mw} {dl} {g} {h} o s e =
    let i = Session-Inv s in
    let (live, seen) = step-ready g o h i.tracks e in
    let (since, gs, quiet, waited, window) = seen in
    let w : ms_per_s * g.min_wait ≡ ms_per_s * mw = ap (λ (n : ℕ). ms_per_s * n) i.waits in
    record {
      since = since;
      at_gens = gs;
      in_time = rw i.ends at live;
      quiet = quiet;
      waited = rw w at waited;
      window = rw w at window;
    }
