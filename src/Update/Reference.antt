-- ===== src/Update/Reference.antt =====
-- pylib/omniroute_update.py: image ids and references (`canon_image_id`, `parse_reference`, `same_image`).
pub mod Canon
use llm_env.Prelude.{
  Bool, true, false, not, ◌&&◌, ◌||◌, Option, none, some, String, str_eq, if◌then◌else◌,
}
use llm_env.Prelude.Chars.{
  is_prefix, before_char, after_char, before_last, after_last, has_char, is_empty, append_text,
  is_hex64, drop_text, remove_prefix,
}

-- `_valid_digest`, of a text
unfoldable pub valid_digest : String → Bool
valid_digest s = is_prefix "sha256:" s && is_hex64 (drop_text "sha256:" s)

-- `canon_image_id`; `none` is its UpdateError.
unfoldable pub canon_image_id : String → Option String
canon_image_id value =
    let hex = remove_prefix "sha256:" value in
    if is_hex64 hex then some (append_text "sha256:" hex) else none

pub record ImageName : Type 0 where
  pub repository : String
  pub tag : String
  pub digest : String

-- The two parts of `name`: without the tag of its last segment, and this tag (`latest` where neither a tag nor a digest is given).
unfoldable pub split_tag : String → String → String × String
split_tag name digest =
    if has_char ":" (after_last "/" name)
    then (before_last ":" name, after_last ":" name)
    else (name, if is_empty digest then "latest" else "")

-- The first segment names a registry.
unfoldable pub is_registry : String → Bool
is_registry head = has_char "." head || has_char ":" head || str_eq head "localhost"

-- The documented Docker Hub aliases.
unfoldable pub normalize : String → String
normalize name =
    if not (has_char "/" name)
    then append_text "docker.io/library/" name
    else if not (is_registry (before_char "/" name))
    then append_text "docker.io/" name
    else name

-- `parse_reference`
unfoldable pub parse_reference : String → ImageName
unfolding split_tag normalize is_registry
parse_reference ref =
    let digest = after_char "@" ref in
    let (name, tag) = split_tag (before_char "@" ref) digest in
    record { repository = normalize name; tag = tag; digest = digest }

-- `same_image`, of the configured reference and the running one
unfoldable pub same_image : String → String → Bool
unfolding parse_reference
same_image configured running =
    let c = parse_reference configured in
    let r = parse_reference running in
    if not (str_eq c.repository r.repository)
    then false
    else if not (is_empty c.digest)
    then str_eq r.digest c.digest
    else not (is_empty r.digest) || str_eq r.tag c.tag
