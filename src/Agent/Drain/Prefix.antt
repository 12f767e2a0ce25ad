-- ===== src/Agent/Drain/Prefix.antt =====
-- What the file holds: always a prefix of what was read, within the limit, and all of it up to the
-- limit if nothing failed.
use llm_env.Prelude.{
  ℕ, ◌+◌, ◌-◌, ◌≤◌, ◌<◌, ◌≡◌, refl, sym, ap, ◌∙◌, Bool, true, false, zero, suc, List, [], ◌∷◌, ◌++◌,
  length, take, ltb, arith, min, length-append, Bool-cases, inl, inr, ◌||◌, ◌==◌, ==_iff,
  if◌then◌else◌,
}
use mathlib.Core.List.{append_assoc, append-nil}
use llm_env.Agent.Outcome.{Outcome}
use llm_env.Agent.Drain.{
  Write, Read, Drain, init, written, store, note_limit, step, drain, fail, bytes_read, chunk, fails,
}

length-take : (n : ℕ) (xs : List ℕ) → length (take n xs) ≡ min n (length xs)
length-take zero xs = omega arith
length-take (suc n) [] = omega arith
length-take (suc n) (x ∷ xs) = omega (arith, length-take n xs)

take_all : (xs : List ℕ) (n : ℕ) → length xs ≤ n → take n xs ≡ xs
take_all [] zero h = refl
take_all [] (suc n) h = refl
take_all (x ∷ xs) zero h = absurd (omega arith)
take_all (x ∷ xs) (suc n) h = ap (◌∷◌ x) (take_all xs n (omega arith))

take_nil : (n : ℕ) → take {A = ℕ} n [] ≡ []
take_nil zero = refl
take_nil (suc n) = refl

take-append : (xs ys : List ℕ) (n : ℕ) → take n (xs ++ ys) ≡ take n xs ++ take (n - length xs) ys
take-append [] ys n = let e : n - 0 ≡ n = omega arith in rw e (rw (take_nil n) refl)
take-append (x ∷ xs) ys zero = let e : zero - suc (length xs) ≡ zero = omega arith in rw e refl
take-append (x ∷ xs) ys (suc n) =
    let e : suc n - suc (length xs) ≡ n - length xs = omega arith in
    rw e (ap (◌∷◌ x) (take-append xs ys n))

take_past : (xs ys : List ℕ) (n : ℕ) → take (length xs + n) (xs ++ ys) ≡ xs ++ take n ys
take_past [] ys n = let e : 0 + n ≡ n = omega arith in rw e refl
take_past (x ∷ xs) ys n =
    let e : suc (length xs) + n ≡ suc (length xs + n) = omega arith in
    rw e (ap (◌∷◌ x) (take_past xs ys n))

take-append_of_le : (xs ys : List ℕ) (n : ℕ) → n ≤ length xs → take n (xs ++ ys) ≡ take n xs
take-append_of_le xs ys zero h = refl
take-append_of_le [] ys (suc n) h = absurd (omega arith)
take-append_of_le (x ∷ xs) ys (suc n) h = ap (◌∷◌ x) (take-append_of_le xs ys n (omega arith))

take-take : (xs : List ℕ) (m n : ℕ) → m ≤ n → take m (take n xs) ≡ take m xs
take-take xs zero n h = refl
take-take xs (suc m) zero h = absurd (omega arith)
take-take [] (suc m) (suc n) h = refl
take-take (x ∷ xs) (suc m) (suc n) h = ap (◌∷◌ x) (take-take xs m n (omega arith))

-- A cut is the cut at its own length.
take_own : (xs : List ℕ) (n : ℕ) → take n xs ≡ take (length (take n xs)) xs
take_own xs zero = refl
take_own [] (suc n) = refl
take_own (x ∷ xs) (suc n) = ap (◌∷◌ x) (take_own xs n)

written-lt : (w : Write) (r : List ℕ) → (written w r == length r) ≡ false → written w r < length r
written-lt (Write.takes n) r h = ground arith
written-lt Write.refuses r h = ground arith

-- The three ways in which `store` ends.
data Stored (d d' : Drain) (r : List ℕ) : Type 0 where
  full :
      d.write_enabled ≡ true
      → d'.write_enabled ≡ true
      → d'.failed ≡ d.failed
      → d'.stored_bytes ≡ d.stored_bytes + length r
      → d'.out ≡ d.out ++ r
      → Stored d d' r
  short :
      (n : ℕ)
      → n < length r
      → d.write_enabled ≡ true
      → d'.write_enabled ≡ false
      → d'.failed ≡ true
      → d'.stored_bytes ≡ d.stored_bytes + n
      → d'.out ≡ d.out ++ take n r
      → Stored d d' r
  off : d.write_enabled ≡ false → d' ≡ d → Stored d d' r

store-Stored : (d : Drain) (r : List ℕ) (w : Write) → Stored d (store d r w) r
unfolding store
store-Stored d [] w = elim (Bool-cases d.write_enabled) [
  | inl enabled ↦ full enabled enabled refl (omega arith) (sym (append-nil d.out))
  | inr disabled ↦ off disabled refl
]
store-Stored d (x ∷ xs) w = elim (Bool-cases d.write_enabled) [
  | inl enabled ↦ elim (Bool-cases (written w (x ∷ xs) == length (x ∷ xs))) [
    | inl whole ↦
        let e : written w (x ∷ xs) ≡ length (x ∷ xs) = (==_iff _ _).0 whole in
        rw (enabled, whole)
          (full refl refl refl (rw e)
            (rw (e, take_all (x ∷ xs) (length (x ∷ xs)) (omega arith)) refl))
    | inr partial ↦
        rw (enabled, partial)
          (short (written w (x ∷ xs)) (written-lt w (x ∷ xs) partial) refl refl refl refl refl)
  ]
  | inr disabled ↦ rw disabled (off refl refl)
]

-- The state after the bytes `seen` were read: `lost` is false while every write was complete.
record Kept (limit : ℕ) (d : Drain) (seen : List ℕ) : Type 0 where
  stored : d.stored_bytes ≡ length d.out
  bounded : d.stored_bytes ≤ limit
  prefix : d.out ≡ take d.stored_bytes seen
  clean : d.write_enabled ≡ true → d.out ≡ take limit seen
  honest : d.failed ≡ false → d.write_enabled ≡ true
  exact : d.write_enabled ≡ true → d.exceeded ≡ ltb limit (length seen)

no_both : {b : Bool} → b ≡ false → b ≡ true → ⊥
no_both h k = let e : false ≡ true = sym h ∙ k in cc

store_exceeded : (d : Drain) (r : List ℕ) (w : Write) → (store d r w).exceeded ≡ d.exceeded
unfolding store
store_exceeded d r w = ground arith

note_limit_fields :
    (lo : Outcome) (d : Drain) (bytes : List ℕ) (rem : ℕ)
    → let d' = note_limit lo d bytes rem in
      (d'.stored_bytes ≡ d.stored_bytes)
      × (d'.out ≡ d.out)
      × (d'.write_enabled ≡ d.write_enabled)
      × (d'.failed ≡ d.failed)
      × (d'.exceeded ≡ (ltb rem (length bytes) || d.exceeded))
unfolding note_limit
note_limit_fields lo d bytes rem =
    (ground arith, ground arith, ground arith, ground arith, ground arith)

module _ (limit : ℕ) (d : Drain) (seen bytes : List ℕ) (k : Kept limit d seen) where
  rem : ℕ
  rem = limit - d.stored_bytes

  whole_cut : d.write_enabled ≡ true → d.out ++ take rem bytes ≡ take limit (seen ++ bytes)
  unfolding rem
  whole_cut on =
      let len : length d.out ≡ min limit (length seen) =
        ap length (k.clean on) ∙ length-take limit seen in
      let same : limit - d.stored_bytes ≡ limit - length seen = omega (arith, len, k.stored) in
      rw (take-append seen bytes limit, same, k.clean on) refl

  short_cut :
      (n : ℕ)
      → d.write_enabled ≡ true
      → n < length (take rem bytes)
      → d.out ++ take n (take rem bytes) ≡ take (d.stored_bytes + n) (seen ++ bytes)
  unfolding rem
  short_cut n on lt =
      let len : length d.out ≡ min limit (length seen) =
        ap length (k.clean on) ∙ length-take limit seen in
      let small : n < limit - d.stored_bytes =
        omega (arith, length-take (limit - d.stored_bytes) bytes) in
      let all_seen : d.stored_bytes ≡ length seen = omega (arith, len, k.stored) in
      let out : d.out ≡ seen = k.clean on ∙ take_all seen limit (omega (arith, len, k.stored)) in
      rw (take-take bytes n (limit - d.stored_bytes) (omega arith), out, all_seen)
        (sym (take_past seen bytes n))

  exceeds :
      d.write_enabled ≡ true
      → (ltb rem (length bytes) || d.exceeded) ≡ ltb limit (length (seen ++ bytes))
  unfolding rem
  exceeds on =
      let len : length d.out ≡ min limit (length seen) =
        ap length (k.clean on) ∙ length-take limit seen in
      let total : length (seen ++ bytes) ≡ length seen + length bytes = length-append seen bytes in
      let was : d.exceeded ≡ ltb limit (length seen) = k.exact on in
      ground (arith, k.stored, k.bounded)

  Stored-Kept :
      (d1 d2 : Drain)
      → Stored d d1 (take rem bytes)
      → d1.exceeded ≡ d.exceeded
      → (d2.stored_bytes ≡ d1.stored_bytes)
        × (d2.out ≡ d1.out)
        × (d2.write_enabled ≡ d1.write_enabled)
        × (d2.failed ≡ d1.failed)
        × (d2.exceeded ≡ (ltb rem (length bytes) || d1.exceeded))
      → Kept limit d2 (seen ++ bytes)
  unfolding rem
  Stored-Kept d1 d2 (full on on1 f1 s1 o1) e (s2, o2, on2, f2, e2) =
      let whole : d2.out ≡ take limit (seen ++ bytes) = o2 ∙ o1 ∙ whole_cut on in
      let len_r = length-take (limit - d.stored_bytes) bytes in
      let len_out : length d2.out ≡ length d.out + length (take (limit - d.stored_bytes) bytes) =
        ap length (o2 ∙ o1) ∙ length-append d.out (take (limit - d.stored_bytes) bytes) in
      let stored : d2.stored_bytes ≡ length d2.out = omega (arith, k.stored) in
      record {
        stored = stored;
        bounded = omega (arith, k.stored, k.bounded);
        prefix = whole ∙ take_own (seen ++ bytes) limit ∙ rw (stored, whole) refl;
        clean = λ _. whole;
        honest = λ _. on2 ∙ on1;
        exact = λ _. e2 ∙ rw e (exceeds on);
      }
  Stored-Kept d1 d2 (short n lt on off1 f1 s1 o1) e (s2, o2, on2, f2, e2) =
      let len_r = length-take (limit - d.stored_bytes) bytes in
      let len_n = length-take n (take (limit - d.stored_bytes) bytes) in
      let len_out : length d2.out
          ≡ length d.out + length (take n (take (limit - d.stored_bytes) bytes)) =
        ap length (o2 ∙ o1) ∙ length-append d.out (take n (take (limit - d.stored_bytes) bytes)) in
      let off2 : d2.write_enabled ≡ false = on2 ∙ off1 in
      record {
        stored = omega (arith, k.stored);
        bounded = omega (arith, k.stored, k.bounded);
        prefix = o2 ∙ o1 ∙ short_cut n on lt ∙ rw (s2, s1) refl;
        clean = λ h. absurd (no_both off2 h);
        honest = λ h. let f : d2.failed ≡ true = f2 ∙ f1 in absurd (no_both h f);
        exact = λ h. absurd (no_both off2 h);
      }
  Stored-Kept d1 d2 (off off0 same) e (s2, o2, on2, f2, e2) =
      let out : d2.out ≡ d.out = o2 ∙ ap (λ (x : Drain). x.out) same in
      let st : d2.stored_bytes ≡ d.stored_bytes = s2 ∙ ap (λ (x : Drain). x.stored_bytes) same in
      let off2 : d2.write_enabled ≡ false = on2 ∙ ap (λ (x : Drain). x.write_enabled) same ∙ off0 in
      let f0 : d2.failed ≡ d.failed = f2 ∙ ap (λ (x : Drain). x.failed) same in
      let within : d.stored_bytes ≤ length seen =
        omega (arith, k.stored, ap length k.prefix, length-take d.stored_bytes seen) in
      record {
        stored = rw (st, out) k.stored;
        bounded = rw st k.bounded;
        prefix = rw (st, out, take-append_of_le seen bytes d.stored_bytes within) k.prefix;
        clean = λ h. absurd (no_both off2 h);
        honest = λ h. absurd (no_both off0 (k.honest (sym f0 ∙ h)));
        exact = λ h. absurd (no_both off2 h);
      }

fail-Kept : (limit : ℕ) (d : Drain) (seen : List ℕ) → Kept limit d seen → Kept limit (fail d) seen
fail-Kept limit d seen k = record {
  stored = k.stored;
  bounded = k.bounded;
  prefix = k.prefix;
  clean = k.clean;
  honest = λ h. cc;
  exact = k.exact;
}

step-Kept :
    (limit : ℕ) (lo : Outcome) (d : Drain) (seen bytes : List ℕ) (w : Write)
    → Kept limit d seen
    → Kept limit (step limit lo d bytes w) (seen ++ bytes)
unfolding step rem
step-Kept limit lo d seen bytes w k =
    let r = take (limit - d.stored_bytes) bytes in
    Stored-Kept limit d seen bytes k (store d r w) _ (store-Stored d r w) (store_exceeded d r w)
      (note_limit_fields lo (store d r w) bytes (limit - d.stored_bytes))

closed-Kept :
    (limit : ℕ) (ok : Bool) (d : Drain) (seen : List ℕ)
    → Kept limit d seen
    → Kept limit (if ok then d else fail d) (seen ++ [])
closed-Kept limit true d seen k = rw (append-nil seen) k
closed-Kept limit false d seen k = rw (append-nil seen) (fail-Kept limit d seen k)

drain-Kept :
    (limit : ℕ) (lo : Outcome) (ok : Bool) (reads : List Read) (d : Drain) (seen : List ℕ)
    → Kept limit d seen
    → Kept limit (drain limit lo ok reads d) (seen ++ bytes_read reads)
unfolding drain
drain-Kept limit lo ok [] d seen k = closed-Kept limit ok d seen k
drain-Kept limit lo ok (fails ∷ reads) d seen k =
    closed-Kept limit ok (fail d) seen (fail-Kept limit d seen k)
drain-Kept limit lo ok (chunk [] w ∷ reads) d seen k = closed-Kept limit ok d seen k
drain-Kept limit lo ok (chunk (x ∷ xs) w ∷ reads) d seen k =
    rw (← append_assoc seen (x ∷ xs) (bytes_read reads)) (
      drain-Kept limit lo ok reads (step limit lo d (x ∷ xs) w) (seen ++ x ∷ xs)
        (step-Kept limit lo d seen (x ∷ xs) w k))

take_none : (n : ℕ) → [] ≡ take {A = ℕ} n []
take_none n = sym (take_nil n)

init-Kept : (limit : ℕ) → Kept limit init []
unfolding init
init-Kept limit = record {
  stored = refl;
  bounded = omega arith;
  prefix = refl;
  clean = λ h. take_none limit;
  honest = λ h. refl;
  exact = λ h. ground arith;
}

-- However the reads, the writes and the close go: the file holds a prefix of the bytes that were
-- read, `stored_bytes` is its length and is at most `limit`. Unless a failure was recorded, the
-- file is exactly the first `limit` of these bytes, and `exceeded` says whether there were more.
pub drain_bounded :
    (limit : ℕ) (lo : Outcome) (ok : Bool) (reads : List Read)
    → let d = drain limit lo ok reads init in
      (d.out ≡ take d.stored_bytes (bytes_read reads))
      × (d.stored_bytes ≡ length d.out)
      × (d.stored_bytes ≤ limit)
      × (d.failed ≡ false
          → (d.out ≡ take limit (bytes_read reads))
            × (d.exceeded ≡ ltb limit (length (bytes_read reads))))
drain_bounded limit lo ok reads =
    let k = drain-Kept limit lo ok reads init [] (init-Kept limit) in
    (k.prefix, k.stored, k.bounded, λ h. (k.clean (k.honest h), k.exact (k.honest h)))
