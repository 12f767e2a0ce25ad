-- ===== src/Prelude/Chars.antt =====
-- Texts by their characters: prefixes, Python's `split(sep, 1)[0]`, `partition` and `replace`.
pub mod Splits
use Prim.Native.Char.{Char, code}
use Prim.Native.String.{String}
use llm_env.Prelude.{
  ℕ, zero, suc, ◌+◌, ◌-◌, ◌*◌, Bool, true, false, not, ◌&&◌, ◌||◌, leb, ◌==◌, if◌then◌else◌, List,
  [], ◌∷◌,
}

abbrev pub same_char : Char → Char → Bool
same_char c d = code c == code d

-- `s.startswith(t)`
abbrev pub is_prefix : String → String → Bool
is_prefix t String.[] = elim t [ String.[] ↦ true | String.◌∷◌ c t' ↦ false ]
is_prefix String.[] (String.◌∷◌ c s) = true
is_prefix (String.◌∷◌ d t) (String.◌∷◌ c s) = same_char d c && is_prefix t s

-- `s.split(sep, 1)[0]`
abbrev pub before : String → String → String
before sep String.[] = String.[]
before sep (String.◌∷◌ c s) =
    let rest = before sep s in
    if is_prefix sep (String.◌∷◌ c s) then String.[] else String.◌∷◌ c rest

abbrev pub contains_text : String → String → Bool
contains_text sep String.[] = is_prefix sep String.[]
contains_text sep (String.◌∷◌ c s) =
    let rest = contains_text sep s in if is_prefix sep (String.◌∷◌ c s) then true else rest

abbrev pub has_char : Char → String → Bool
has_char d String.[] = false
has_char d (String.◌∷◌ c s) = same_char c d || has_char d s

-- `s.partition(d)[0]` and `[2]`, for a separator of one character.
abbrev pub before_char : Char → String → String
before_char d String.[] = String.[]
before_char d (String.◌∷◌ c s) =
    let rest = before_char d s in if same_char c d then String.[] else String.◌∷◌ c rest

abbrev pub after_char : Char → String → String
after_char d String.[] = String.[]
after_char d (String.◌∷◌ c s) = let rest = after_char d s in if same_char c d then s else rest

abbrev cons_head : Char → List String → List String
cons_head c [] = String.◌∷◌ c String.[] ∷ []
cons_head c (s ∷ ss) = String.◌∷◌ c s ∷ ss

-- `s.split(d)`
abbrev pub split_char : Char → String → List String
split_char d String.[] = String.[] ∷ []
split_char d (String.◌∷◌ c s) =
    let rest = split_char d s in if same_char c d then String.[] ∷ rest else cons_head c rest

-- `s.rpartition(d)[0]` and `[2]`, where `d` occurs in `s`.
abbrev pub before_last : Char → String → String
before_last d String.[] = String.[]
before_last d (String.◌∷◌ c s) =
    let rest = before_last d s in if has_char d s then String.◌∷◌ c rest else String.[]

abbrev pub after_last : Char → String → String
after_last d String.[] = String.[]
after_last d (String.◌∷◌ c s) =
    let rest = after_last d s in
    if has_char d s then rest else if same_char c d then s else String.◌∷◌ c s

-- `s.replace(ab, x)`, for two characters `a` and `b`.
abbrev pub replace_pair : Char → Char → Char → String → String
replace_pair a b x String.[] = String.[]
replace_pair a b x (String.◌∷◌ c String.[]) = String.◌∷◌ c String.[]
replace_pair a b x (String.◌∷◌ c (String.◌∷◌ d s)) =
    let rest = replace_pair a b x s in
    let next = replace_pair a b x (String.◌∷◌ d s) in
    if same_char c a && same_char d b then String.◌∷◌ x rest else String.◌∷◌ c next

abbrev pub is_digit : Char → Bool
is_digit c = leb b'0' (code c) && leb (code c) b'9'

abbrev pub all_chars : (Char → Bool) → String → Bool
all_chars p String.[] = true
all_chars p (String.◌∷◌ c s) = p c && all_chars p s

abbrev pub is_empty : String → Bool
is_empty String.[] = true
is_empty (String.◌∷◌ c s) = false

-- `s.isdigit()`, on ASCII texts.
abbrev pub is_decimal : String → Bool
is_decimal s = not (is_empty s) && all_chars is_digit s

abbrev decimal_from : ℕ → String → ℕ
decimal_from n String.[] = n
decimal_from n (String.◌∷◌ c s) = decimal_from (10 * n + (code c - b'0')) s

-- `int(s)`, of a decimal text.
abbrev pub decimal : String → ℕ
decimal s = decimal_from 0 s

abbrev pub text_length : String → ℕ
text_length String.[] = 0
text_length (String.◌∷◌ c s) = suc (text_length s)

-- `s + t`
abbrev pub append_text : String → String → String
append_text String.[] t = t
append_text (String.◌∷◌ c s) t = String.◌∷◌ c (append_text s t)

-- A lower-case hexadecimal digit.
abbrev pub is_hex : Char → Bool
is_hex c = is_digit c || (leb b'a' (code c) && leb (code c) b'f')

-- `re.fullmatch(r"[0-9a-f]{64}", s)`
abbrev pub is_hex64 : String → Bool
is_hex64 s = all_chars is_hex s && text_length s == 64

-- `s.removeprefix(t)`
abbrev pub drop_text : String → String → String
drop_text String.[] s = s
drop_text (String.◌∷◌ c t) String.[] = String.[]
drop_text (String.◌∷◌ c t) (String.◌∷◌ d s) = drop_text t s

abbrev pub remove_prefix : String → String → String
remove_prefix t s = if is_prefix t s then drop_text t s else s

abbrev pub is_space : Char → Bool
is_space c =
    code c == b' ' || (leb 9 (code c) && leb (code c) 13) || (leb 28 (code c) && leb (code c) 31)

-- `not s.strip()`, on ASCII texts.
abbrev pub is_blank : String → Bool
is_blank s = all_chars is_space s

-- `s[:n]`
abbrev pub take_text : ℕ → String → String
take_text zero s = String.[]
take_text (suc n) String.[] = String.[]
take_text (suc n) (String.◌∷◌ c s) = String.◌∷◌ c (take_text n s)

-- `s.lower()`, on ASCII texts: the letters are compared as if they were lower-case.
abbrev pub lower_code : Char → ℕ
lower_code c = if leb b'A' (code c) && leb (code c) b'Z' then code c + 32 else code c

-- `s.lower() == t`, for a lower-case text `t`
abbrev pub lower_eq : String → String → Bool
lower_eq String.[] String.[] = true
lower_eq (String.◌∷◌ c s) (String.◌∷◌ d t) = lower_code c == code d && lower_eq s t
lower_eq _ _ = false

-- `s.lstrip()`, on ASCII texts.
abbrev pub strip_left : String → String
strip_left String.[] = String.[]
strip_left (String.◌∷◌ c s) = let rest = strip_left s in if is_space c then rest else String.◌∷◌ c s

abbrev pub strip_right : String → String
strip_right String.[] = String.[]
strip_right (String.◌∷◌ c s) =
    let rest = strip_right s in if is_space c && is_empty rest then String.[] else String.◌∷◌ c rest

-- `s.strip()`, on ASCII texts.
abbrev pub strip : String → String
strip s = strip_right (strip_left s)

-- `re.match(r"\d*", s)`: what follows the leading digits.
abbrev pub after_digits : String → String
after_digits String.[] = String.[]
after_digits (String.◌∷◌ c s) =
    let rest = after_digits s in if is_digit c then rest else String.◌∷◌ c s

abbrev pub starts_digit : String → Bool
starts_digit String.[] = false
starts_digit (String.◌∷◌ c s) = is_digit c
