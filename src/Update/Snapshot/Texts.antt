-- ===== src/Update/Snapshot/Texts.antt =====
-- Texts as Python's sets and sorted lists hold them.
use Prim.Native.Nat.{Ordering}
use Prim.Native.String.{compare}
use llm_env.Prelude.{
  ◌≡◌, refl, ap, Bool, true, false, ◌||◌, Option, none, some, String, List, [], ◌∷◌, ◌++◌, lookup,
  is_some, str_eq, str_mem, eq_iff, arith, if◌then◌else◌, Bool-cases, inl, inr,
}

-- `a == b`, of texts or None
abbrev pub same_text : Option String → Option String → Bool
same_text none none = true
same_text (some s) (some t) = str_eq s t
same_text _ _ = false

abbrev pub keys {ℓ} : {V : Type ℓ} → List (String × V) → List String
keys [] = []
keys ((k, v) ∷ d) = k ∷ keys d

-- The elements of a set that is made from a list.
unfoldable pub unique : List String → List String
unique [] = []
unique (s ∷ ss) = let rest = unique ss in if str_mem s ss then rest else s ∷ rest

abbrev is_less : String → String → Bool
is_less s t = elim (compare s t) [ Ordering.lt ↦ true | _ ↦ false ]

unfoldable pub insert_text : String → List String → List String
insert_text s [] = s ∷ []
insert_text s (t ∷ ts) = let rest = insert_text s ts in if is_less t s then t ∷ rest else s ∷ t ∷ ts

-- `sorted`
unfoldable pub sort_texts : List String → List String
unfolding insert_text
sort_texts [] = []
sort_texts (s ∷ ss) = insert_text s (sort_texts ss)

pub mem-unique : (s : String) (ss : List String) → str_mem s (unique ss) ≡ str_mem s ss
unfolding unique
mem-unique s [] = refl
mem-unique s (t ∷ ts) = elim (Bool-cases (str_mem t ts)) [
  | inl old ↦ rw old (ground (arith, eq_iff s t, mem-unique s ts))
  | inr new ↦ rw (new, mem-unique s ts) refl
]

mem-insert_text :
    (s t : String) (ts : List String) → str_mem s (insert_text t ts) ≡ (str_eq s t || str_mem s ts)
unfolding insert_text
mem-insert_text s t [] = refl
mem-insert_text s t (u ∷ us) = elim (Bool-cases (is_less u t)) [
  | inl later ↦ rw later (ground (arith, mem-insert_text s t us))
  | inr here ↦ rw here refl
]

pub mem-sort_texts : (s : String) (ss : List String) → str_mem s (sort_texts ss) ≡ str_mem s ss
unfolding sort_texts
mem-sort_texts s [] = refl
mem-sort_texts s (t ∷ ts) = ground (arith, mem-insert_text s t (sort_texts ts), mem-sort_texts s ts)

pub mem-append :
    (s : String) (xs ys : List String) → str_mem s (xs ++ ys) ≡ (str_mem s xs || str_mem s ys)
mem-append s [] ys = refl
mem-append s (x ∷ xs) ys = ground (arith, mem-append s xs ys)

-- A key with a value is among the keys.
pub mem-keys :
    {V : Type 0} (k : String) (d : List (String × V)) → is_some (lookup k d) ≡ str_mem k (keys d)
mem-keys k [] = refl
mem-keys k ((j, v) ∷ d) = ground (arith, eq_iff j k, eq_iff k j, mem-keys k d)

pub same_text-eq : (a b : Option String) → same_text a b ≡ true → a ≡ b
same_text-eq none none h = refl
same_text-eq none (some t) h = ground arith
same_text-eq (some s) none h = ground arith
same_text-eq (some s) (some t) h = ap some ((eq_iff s t).0 h)

pub same_text_refl : (a : Option String) → same_text a a ≡ true
same_text_refl none = refl
same_text_refl (some s) = (eq_iff s s).1 refl
