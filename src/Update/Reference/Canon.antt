-- ===== src/Update/Reference/Canon.antt =====
-- References by their text: what the parser gives back for a printed reference.
use Prim.Native.String.{String}
use llm_env.Prelude.{◌≡◌, refl, true, false, ◌||◌, Bool, arith, Bool-cases, inl, inr, if◌then◌else◌}
use llm_env.Prelude.Chars.{has_char, is_empty, append_text, after_last, before_char, after_char}
use llm_env.Prelude.Chars.Splits.{
  has_char-append, has_char-before_char, lacks-before_last, lacks-after_last, has_char-after_last,
  before_char_lacking, after_char_lacking, before_char-append, after_char-append,
  before_last-append, after_last-append, after_last_prolonged, after_last-inside,
}
use llm_env.Update.Reference.{parse_reference, ImageName, split_tag, normalize, is_registry}

-- `repository:tag@digest`, or `repository:tag` without a digest
abbrev pub print_name : ImageName → String
print_name n =
    let tagged = append_text n.repository (append_text ":" n.tag) in
    if is_empty n.digest then tagged else append_text tagged (append_text "@" n.digest)

normalize_idem : (name : String) → normalize (normalize name) ≡ normalize name
unfolding normalize is_registry
normalize_idem name = elim (Bool-cases (has_char "/" name)) [
  | inr plain ↦ rw plain refl
  | inl slash ↦ registry slash
]
  where
    registry : has_char "/" name ≡ true → normalize (normalize name) ≡ normalize name
    registry slash = elim (Bool-cases (is_registry (before_char "/" name))) [
      | inl known ↦ rw (slash, known) (rw (slash, known) refl)
      | inr alias ↦ rw (slash, alias) refl
    ]

-- The part before the tag, and a tag: no `@` in either, and no `/` or `:` in the tag.
record Parts (name tag : String) : Type 0 where
  no_at : has_char "@" name ≡ false
  tag_at : has_char "@" tag ≡ false
  tag_slash : has_char "/" tag ≡ false
  tag_colon : has_char ":" tag ≡ false

lacks-normalize :
    (name : String) → has_char "@" name ≡ false → has_char "@" (normalize name) ≡ false
unfolding normalize
lacks-normalize name h = elim (Bool-cases (has_char "/" name)) [
  | inr plain ↦ rw plain h
  | inl slash ↦ elim (Bool-cases (is_registry (before_char "/" name))) [
    | inl known ↦ rw (slash, known) h
    | inr alias ↦ rw (slash, alias) h
  ]
]

split_tag-Parts :
    (name digest : String)
    → has_char "@" name ≡ false
    → is_empty (split_tag name digest).1 ≡ false
    → Parts (split_tag name digest).0 (split_tag name digest).1
unfolding split_tag
split_tag-Parts name digest h t = elim (Bool-cases (has_char ":" (after_last "/" name))) [
  | inl tagged ↦ rw tagged (record {
    no_at = lacks-before_last "@" ":" name h;
    tag_at = lacks-after_last "@" ":" name h;
    tag_slash = after_last-inside ":" "/" name tagged;
    tag_colon = has_char-after_last ":" name;
  })
  | inr bare ↦ rw bare (latest (is_empty digest) (rw bare at t))
]
  where
    latest :
        (b : Bool)
        → is_empty (if b then "latest" else "") ≡ false
        → Parts name (if b then "latest" else "")
    latest true t = record { no_at = h; tag_at = refl; tag_slash = refl; tag_colon = refl }
    latest false t = ground arith

or-true : (b : Bool) → (b || true) ≡ true
or-true true = refl
or-true false = refl

-- The last segment of a name with its tag is split again.
split_tag-joined :
    (name tag digest : String)
    → Parts name tag
    → split_tag (append_text name (append_text ":" tag)) digest ≡ (name, tag)
unfolding split_tag
split_tag-joined name tag digest p =
    rw
      (
        after_last_prolonged "/" name (append_text ":" tag) (rw p.tag_slash refl),
        has_char-append ":" (after_last "/" name) (append_text ":" tag),
        before_last-append ":" name tag p.tag_colon,
        after_last-append ":" name tag p.tag_colon,
      )
      (rw (or-true (has_char ":" (after_last "/" name))) refl)

-- What is printed before the digest parses back to a normalized name and its tag.
parse_tagged :
    (name tag digest : String)
    → Parts name tag
    → normalize name ≡ name
    → parse_reference (print_name (record { repository = name; tag = tag; digest = digest }))
      ≡ record { repository = name; tag = tag; digest = digest }
unfolding parse_reference
parse_tagged name tag String.[] p n =
    rw
      (
        before_char_lacking "@" (append_text name (append_text ":" tag)) (lacks_at),
        after_char_lacking "@" (append_text name (append_text ":" tag)) (lacks_at),
        split_tag-joined name tag String.[] p,
        n,
      )
      refl
  where
    lacks_at : has_char "@" (append_text name (append_text ":" tag)) ≡ false
    lacks_at = rw (has_char-append "@" name (append_text ":" tag), p.no_at) p.tag_at
parse_tagged name tag (String.◌∷◌ c digest) p n =
    rw
      (
        before_char-append "@" (append_text name (append_text ":" tag)) (String.◌∷◌ c digest)
            lacks_at,
        after_char-append "@" (append_text name (append_text ":" tag)) (String.◌∷◌ c digest)
            lacks_at,
        split_tag-joined name tag (String.◌∷◌ c digest) p,
        n,
      )
      refl
  where
    lacks_at : has_char "@" (append_text name (append_text ":" tag)) ≡ false
    lacks_at = rw (has_char-append "@" name (append_text ":" tag), p.no_at) p.tag_at

-- A reference that is parsed to a repository, a tag that is not empty, and a digest or none: printed as `repository:tag@digest`
-- (or `repository:tag`), these are parsed to the same again. So the normalized form is a fixed point of the parser.
pub parse_reference-print_name :
    (ref : String)
    → is_empty (parse_reference ref).tag ≡ false
    → parse_reference (print_name (parse_reference ref)) ≡ parse_reference ref
unfolding parse_reference
parse_reference-print_name ref t =
    let digest = after_char "@" ref in
    let name = before_char "@" ref in
    let parts = split_tag-Parts name digest (has_char-before_char "@" ref) t in
    let (bare, tag) = split_tag name digest in
    parse_tagged (normalize bare) tag digest
      (record {
        no_at = lacks-normalize bare parts.no_at;
        tag_at = parts.tag_at;
        tag_slash = parts.tag_slash;
        tag_colon = parts.tag_colon;
      })
      (normalize_idem bare)
