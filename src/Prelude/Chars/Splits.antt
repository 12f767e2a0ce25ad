-- ===== src/Prelude/Chars/Splits.antt =====
-- Laws of the splits at a character: what the parts hold, and the parts of a text that was put together.
use Prim.Native.Char.{Char}
use Prim.Native.String.{String}
use llm_env.Prelude.{◌≡◌, refl, true, false, ◌||◌, arith, Bool-cases, inl, inr}
use llm_env.Prelude.Chars.{
  same_char, has_char, before_char, after_char, before_last, after_last, append_text,
}

pub same_char_refl : (c : Char) → same_char c c ≡ true
same_char_refl c = ground arith

pub has_char-append :
    (d : Char) (s t : String) → has_char d (append_text s t) ≡ (has_char d s || has_char d t)
has_char-append d String.[] t = refl
has_char-append d (String.◌∷◌ c s) t = ground (arith, has_char-append d s t)

pub has_char-before_char : (d : Char) (s : String) → has_char d (before_char d s) ≡ false
has_char-before_char d String.[] = refl
has_char-before_char d (String.◌∷◌ c s) = elim (Bool-cases (same_char c d)) [
  | inl stop ↦ rw stop refl
  | inr on ↦ rw (on, has_char-before_char d s) (rw on refl)
]

lacks-cons :
    (e c : Char) (s : String)
    → has_char e (String.◌∷◌ c s) ≡ false
    → (same_char c e ≡ false) × (has_char e s ≡ false)
lacks-cons e c s h = ground arith

-- A part of a text has no character that the text lacks.
pub lacks-before_char :
    (e d : Char) (s : String) → has_char e s ≡ false → has_char e (before_char d s) ≡ false
lacks-before_char e d String.[] h = refl
lacks-before_char e d (String.◌∷◌ c s) h =
    let (head, rest) = lacks-cons e c s h in
    elim (Bool-cases (same_char c d)) [
      | inl stop ↦ rw stop refl
      | inr on ↦ rw (on, head) (lacks-before_char e d s rest)
    ]

pub lacks-before_last :
    (e d : Char) (s : String) → has_char e s ≡ false → has_char e (before_last d s) ≡ false
lacks-before_last e d String.[] h = refl
lacks-before_last e d (String.◌∷◌ c s) h =
    let (head, rest) = lacks-cons e c s h in
    elim (Bool-cases (has_char d s)) [
      | inl more ↦ rw (more, head) (lacks-before_last e d s rest)
      | inr last ↦ rw last refl
    ]

pub lacks-after_last :
    (e d : Char) (s : String) → has_char e s ≡ false → has_char e (after_last d s) ≡ false
lacks-after_last e d String.[] h = refl
lacks-after_last e d (String.◌∷◌ c s) h = ground (arith, lacks-after_last e d s)

pub has_char-after_last : (d : Char) (s : String) → has_char d (after_last d s) ≡ false
has_char-after_last d String.[] = refl
has_char-after_last d (String.◌∷◌ c s) = ground (arith, has_char-after_last d s)

-- A text without the separator is its first part; one with it is split there.
pub before_char_lacking : (d : Char) (s : String) → has_char d s ≡ false → before_char d s ≡ s
before_char_lacking d String.[] h = refl
before_char_lacking d (String.◌∷◌ c s) h = ground (arith, before_char_lacking d s)

pub after_char_lacking : (d : Char) (s : String) → has_char d s ≡ false → after_char d s ≡ String.[]
after_char_lacking d String.[] h = refl
after_char_lacking d (String.◌∷◌ c s) h = ground (arith, after_char_lacking d s)

pub before_char-append :
    (d : Char) (s t : String)
    → has_char d s ≡ false
    → before_char d (append_text s (String.◌∷◌ d t)) ≡ s
before_char-append d String.[] t h = ground (arith, same_char_refl d)
before_char-append d (String.◌∷◌ c s) t h = ground (arith, before_char-append d s t)

pub after_char-append :
    (d : Char) (s t : String)
    → has_char d s ≡ false
    → after_char d (append_text s (String.◌∷◌ d t)) ≡ t
after_char-append d String.[] t h = ground (arith, same_char_refl d)
after_char-append d (String.◌∷◌ c s) t h = ground (arith, after_char-append d s t)

has_char_joined : (d : Char) (s t : String) → has_char d (append_text s (String.◌∷◌ d t)) ≡ true
has_char_joined d s t = ground (arith, has_char-append d s (String.◌∷◌ d t), same_char_refl d)

pub before_last-append :
    (d : Char) (s t : String)
    → has_char d t ≡ false
    → before_last d (append_text s (String.◌∷◌ d t)) ≡ s
before_last-append d String.[] t h = ground arith
before_last-append d (String.◌∷◌ c s) t h =
    ground (arith, before_last-append d s t h, has_char_joined d s t)

pub after_last-append :
    (d : Char) (s t : String)
    → has_char d t ≡ false
    → after_last d (append_text s (String.◌∷◌ d t)) ≡ t
after_last-append d String.[] t h = ground (arith, same_char_refl d)
after_last-append d (String.◌∷◌ c s) t h =
    ground (arith, after_last-append d s t h, has_char_joined d s t)

-- A text that lacks the separator prolongs the last part.
pub after_last_prolonged :
    (d : Char) (s t : String)
    → has_char d t ≡ false
    → after_last d (append_text s t) ≡ append_text (after_last d s) t
after_last_prolonged d String.[] String.[] h = refl
after_last_prolonged d String.[] (String.◌∷◌ c t) h = ground arith
after_last_prolonged d (String.◌∷◌ c s) t h =
    ground (arith, after_last_prolonged d s t h, has_char-append d s t)

-- What follows the last `d` of a text whose last part at `e` holds a `d` has no `e`.
pub after_last-inside :
    (d e : Char) (s : String)
    → has_char d (after_last e s) ≡ true
    → has_char e (after_last d s) ≡ false
after_last-inside d e String.[] h = refl
after_last-inside d e (String.◌∷◌ c s) h = elim (Bool-cases (has_char e s)) [
  | inl more ↦ ground (arith, more, after_last-inside d e s, lacks-after_last d e s)
  | inr last ↦ ground (arith, last, lacks-after_last e d s last)
]
