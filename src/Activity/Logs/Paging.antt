-- ===== src/Activity/Logs/Paging.antt =====
-- What the pages of the call log tell of the rows that were not read.
use llm_env.Prelude.{
  ℕ, zero, suc, ◌*◌, ◌≡◌, refl, sym, ap, ◌∙◌, ◌⊎◌, inl, inr, Bool, true, false, not, ◌&&◌, ◌||◌,
  none, some, List, [], ◌∷◌, ◌++◌, length, take, drop, leb, all, arith, Bool-cases, Option-cases,
  is_some, all-append, all-take-drop, drop-add, drop-short, length-append, ◌<◌,
}
use mathlib.Core.Path.{subst}
use llm_env.Activity.Profile.{classify_path, is_inference}
use llm_env.Activity.Logs.{
  Reply, answered, Row, Scan, Query, scan_row, scan_rows, last_stamp, is_late, is_past, is_enough,
  read_pages, call_logs, row_pages, start, stamp_of,
}

-- The row is of another class, or it is not in flight and its time is past the horizon.
abbrev pub is_quiet_row : Query → Row → Bool
is_quiet_row q row =
    not (is_inference (classify_path q.routes row.path))
    || (not row.in_memory && is_past q row.timestamp)

-- The row was persisted, no later than `t`.
abbrev pub is_persisted : ℕ → Row → Bool
is_persisted t row = not row.in_memory && elim row.timestamp [ none ↦ false | some u ↦ leb u t ]

-- The persisted rows, the latest first.
abbrev pub is_descending : List Row → Bool
is_descending [] = true
is_descending (row ∷ rows) =
    not row.in_memory
    && elim row.timestamp [ none ↦ false | some t ↦ all (is_persisted t) rows ]
    && is_descending rows

-- The server's answer: every row in memory, then `LIMIT limit OFFSET k * limit` of the persisted ones.
abbrev pub page : ℕ → List Row → List Row → ℕ → Reply (List Row)
page limit memory rows k = answered (memory ++ take limit (drop (k * limit) rows))

-- No activity and no failure.
abbrev is_clean : Query → Scan → Bool
is_clean q s = not (is_some s.failure) && not s.inflight && not (is_late q s.newest)

scan_row-clean :
    (q : Query) (s : Scan) (row : Row)
    → is_clean q (scan_row q s row) ≡ true
    → (is_clean q s ≡ true) × (is_quiet_row q row ≡ true) × (stamp_of q row ≡ row.timestamp)
unfolding scan_row
scan_row-clean q s row h = ground arith

scan_rows-clean :
    (q : Query) (s : Scan) (rows : List Row)
    → is_clean q (scan_rows q s rows) ≡ true
    → (is_clean q s ≡ true) × (all (is_quiet_row q) rows ≡ true)
unfolding scan_rows
scan_rows-clean q s [] h = (h, refl)
scan_rows-clean q s (row ∷ rows) h =
    let (clean, quiet) = scan_rows-clean q (scan_row q s row) rows h in
    let (before, one, _) = scan_row-clean q s row clean in (before, ground arith)

last_stamp-append :
    (q : Query) (memory rows : List Row) (row : Row)
    → last_stamp q (memory ++ (row ∷ rows)) ≡ last_stamp q (row ∷ rows)
unfolding last_stamp
last_stamp-append q [] rows row = refl
last_stamp-append q (m ∷ []) rows row = refl
last_stamp-append q (m ∷ (m' ∷ memory)) rows row = last_stamp-append q (m' ∷ memory) rows row

persisted_quiet :
    (q : Query) (t : ℕ) (rows : List Row)
    → is_past q (some t) ≡ true
    → all (is_persisted t) rows ≡ true
    → all (is_quiet_row q) rows ≡ true
persisted_quiet q t [] p h = refl
persisted_quiet q t (row ∷ rows) p h = ground (arith, persisted_quiet q t rows p)

-- The rows after one that is past the horizon.
past_quiet :
    (q : Query) (n : ℕ) (row : Row) (rows : List Row)
    → is_descending (row ∷ rows) ≡ true
    → is_past q (last_stamp q (row ∷ take n rows)) ≡ true
    → all (is_quiet_row q) (drop n rows) ≡ true
unfolding last_stamp
past_quiet q zero row rows d h = elim (Option-cases row.timestamp) [
  | inl e ↦ ground (arith, e)
  | inr (t, e) ↦ persisted_quiet q t rows (ground (arith, e)) (ground (arith, e))
]
past_quiet q (suc n) row [] d h = refl
past_quiet q (suc n) row (r ∷ rows) d h = past_quiet q n r rows (ground arith) h

rest_quiet :
    (q : Query) (memory rows : List Row)
    → 0 < q.limit
    → is_descending rows ≡ true
    → (length (memory ++ take q.limit rows) < q.limit)
      ⊎ (is_past q (last_stamp q (memory ++ take q.limit rows)) ≡ true)
    → all (is_quiet_row q) (drop q.limit rows) ≡ true
rest_quiet q memory rows l d (inl short) =
    ap (all (is_quiet_row q))
      (drop-short q.limit rows (omega (arith, length-append memory (take q.limit rows))))
rest_quiet q memory rows l d (inr past) = by_limit q.limit rows l d past
  where
    by_limit :
        (limit : ℕ) (rs : List Row)
        → 0 < limit
        → is_descending rs ≡ true
        → is_past q (last_stamp q (memory ++ take limit rs)) ≡ true
        → all (is_quiet_row q) (drop limit rs) ≡ true
    by_limit zero rs l d h = absurd (omega arith)
    by_limit (suc n) [] l d h = refl
    by_limit (suc n) (r ∷ rs) l d h =
        past_quiet q n r rs d (rw (last_stamp-append q memory (take n rs) r) at h)

module _ (q : Query) (memory persisted : List Row) where
  -- The rows that the pages from the `k`-th on still have to show.
  abbrev left : ℕ → List Row
  left k = drop (k * q.limit) persisted

  abbrev shown : ℕ → List Row
  shown k = memory ++ take q.limit (left k)

  -- The answer for the last of the pages read leaves no row of interest.
  stop_quiet :
      (k : ℕ) (s : Scan)
      → 0 < q.limit
      → is_descending (left k) ≡ true
      → is_clean q s ≡ true
      → is_enough q s (shown k) ≡ true
      → all (is_quiet_row q) (drop q.limit (left k)) ≡ true
  unfolding is_enough
  stop_quiet k s l d c e = rest_quiet q memory (left k) l d (ground arith)

  page_quiet :
      (k : ℕ) (s : Scan)
      → all (is_quiet_row q) (drop q.limit (left k)) ≡ true
      → is_clean q (scan_rows q s (shown k)) ≡ true
      → (is_clean q s ≡ true)
        × (all (is_quiet_row q) memory ≡ true)
        × (all (is_quiet_row q) (left k) ≡ true)
  page_quiet k s rest c =
      let (before, quiet) = scan_rows-clean q s (shown k) c in
      let halves = all-take-drop (is_quiet_row q) q.limit (left k) in
      let parts = all-append (is_quiet_row q) memory (take q.limit (left k)) in
      (before, ground arith, ground arith)

  left-suc : (k : ℕ) → drop q.limit (left k) ≡ left (suc k)
  left-suc k = drop-add q.limit (k * q.limit) (suc k * q.limit) persisted (grind arith)

  descending-drop :
      (n : ℕ) (rows : List Row) → is_descending rows ≡ true → is_descending (drop n rows) ≡ true
  descending-drop zero rows h = h
  descending-drop (suc n) [] h = h
  descending-drop (suc n) (row ∷ rows) h = descending-drop n rows (ground arith)

  abbrev answer_clean : Reply Scan → Bool
  answer_clean (answered s) = is_clean q s
  answer_clean _ = false

  pages_quiet :
      (n k : ℕ) (s s' : Scan)
      → 0 < q.limit
      → is_descending (left k) ≡ true
      → read_pages q (page q.limit memory persisted) n k s ≡ answered s'
      → is_clean q s' ≡ true
      → (is_clean q s ≡ true)
        × (all (is_quiet_row q) memory ≡ true)
        × (all (is_quiet_row q) (left k) ≡ true)
  unfolding read_pages
  pages_quiet zero k s s' l d e c = absurd (ground arith)
  pages_quiet (suc n) k s s' l d e c =
      let after = scan_rows q s (shown k) in
      elim (Bool-cases (is_enough q after (shown k))) [
        | inl enough ↦
            let clean : is_clean q after ≡ true =
              ap answer_clean (rw (enough, read_pages) at e) ∙ c in
            page_quiet k s (stop_quiet k after l d clean enough) clean
        | inr more ↦
            let rest =
              pages_quiet n (suc k) after s' l
                (subst (λ rs. is_descending rs ≡ true) (left-suc k)
                  (descending-drop q.limit (left k) d))
                (rw (more, read_pages) at e) c in
            page_quiet k s (subst (λ rs. all (is_quiet_row q) rs ≡ true) (sym (left-suc k)) rest.2)
              rest.0
      ]

-- When the pages are those of a server that lists its rows in memory and then the persisted ones, latest first, and `_call_logs`
-- answers with no failure, no row in flight, and a newest trace (if any) that is past the horizon, then every client row of the
-- log, read or not, is past the horizon and none is in flight. The page limit is positive.
pub call_logs_complete :
    (q : Query) (memory persisted : List Row) (s : Scan)
    → 0 < q.limit
    → is_descending persisted ≡ true
    → call_logs q (page q.limit memory persisted) ≡ answered s
    → s.failure ≡ none
    → s.inflight ≡ false
    → is_late q s.newest ≡ false
    → all (is_quiet_row q) (memory ++ persisted) ≡ true
unfolding call_logs
call_logs_complete q memory persisted s l d e f i n =
    let none_yet : 0 * q.limit ≡ 0 = omega arith in
    let whole : drop (0 * q.limit) persisted ≡ persisted = ap (λ k. drop k persisted) none_yet in
    let quiet =
      pages_quiet q memory persisted row_pages 0 start s l (ap is_descending whole ∙ d) e
        (rw (f, i, n) refl) in
    let parts = all-append (is_quiet_row q) memory persisted in
    let (_, first, rest) = quiet in
    let rest' = sym (ap (all (is_quiet_row q)) whole) ∙ rest in ground arith
