-- ===== src/Gguf/Reader.antt =====
-- pylib/gguf.py, `_read_exact` to `read_gguf_header`. `decode` is Python's UTF-8 decoding with
-- replacement. A length that does not fit in memory makes Python fail in `fh.read` before the code's
-- own test; the model reports it as truncated.
pub mod Local
mod Tests
use llm_env.Prelude.{
  ℕ, zero, suc, ◌+◌, ◌-◌, ◌*◌, ◌^◌, ◌≡◌, Bool, true, false, not, ◌&&◌, Option, none, some, String,
  List, [], ◌∷◌, length, take, drop, get_elem?, or_else, ltb, leb, ◌==◌, insert, if◌then◌else◌,
}
use llm_env.Prelude.Int.{ℤ, pos, negsuc}
use llm_env.Gguf.{
  GgufError, Result, ok, err, Scalar, integer, boolean, real, text, Meta, scalar, array, summary,
}

abbrev pub Parser : Type 0 → Type 0
Parser A = List ℕ → Result (A × List ℕ)

module _ {A : Type 0} where
  abbrev pub pure : A → Parser A
  pure a bs = ok (a, bs)

  abbrev pub fail : GgufError → Parser A
  fail e bs = err e

-- What follows a result.
abbrev pub continue_with :
    {A B : Type 0} → Result (A × List ℕ) → (A → Parser B) → Result (B × List ℕ)
continue_with (ok (a, rest)) f = f a rest
continue_with (err e) f = err e

infixl 5 ◌>>=◌
abbrev pub ◌>>=◌ : {A B : Type 0} → Parser A → (A → Parser B) → Parser B
(p >>= f) bs = continue_with (p bs) f

-- `_read_exact`
unfoldable pub read_exact : ℕ → Parser (List ℕ)
read_exact size bs =
    if leb size (length bs) then ok (take size bs, drop size bs) else err GgufError.truncated

-- `_skip_exact`
unfoldable pub skip_exact : ℕ → Parser Unit
skip_exact size bs = if leb size (length bs) then ok (tt, drop size bs) else err GgufError.truncated

-- The little-endian number of some bytes, and its reading as a signed one of `size` bytes.
unfoldable pub little_endian : List ℕ → ℕ
little_endian [] = 0
little_endian (b ∷ bs) = b + 256 * little_endian bs

unfoldable pub signed : ℕ → ℕ → ℤ
signed size n = if ltb n (2 ^ (8 * size - 1)) then pos n else negsuc (2 ^ (8 * size) - n - 1)

unfoldable pub read_uint : ℕ → Parser ℕ
unfolding read_exact
read_uint size = do bytes ← read_exact size; pure (little_endian bytes)

-- What a type code stands for: `_SCALAR` (with sizes), STRING and ARRAY.
pub data Kind : Type 0 where
  uint : ℕ → Kind
  sint : ℕ → Kind
  float : ℕ → Kind
  bool string nested unknown : Kind

abbrev pub kinds : List Kind
kinds =
    uint 1
    ∷ sint 1
    ∷ uint 2
    ∷ sint 2
    ∷ uint 4
    ∷ sint 4
    ∷ float 4
    ∷ Kind.bool
    ∷ Kind.string
    ∷ nested
    ∷ uint 8
    ∷ sint 8
    ∷ float 8
    ∷ []

unfoldable pub kind_of : ℕ → Kind
kind_of code = or_else (get_elem? kinds code) unknown

-- `struct.unpack(fmt, _read_exact(fh, size))`
abbrev read_as : ℕ → (List ℕ → Scalar) → Parser Scalar
read_as size unpack = do bytes ← read_exact size; pure (unpack bytes)

unfoldable pub skip_strings : ℕ → Parser Unit
unfolding read_uint skip_exact
skip_strings zero = pure tt
skip_strings (suc n) = do size ← read_uint 8; skipped ← skip_exact size; skip_strings n

-- `_skip_array_payload`
abbrev pub skip_kind : ℕ → Kind → Parser Unit
skip_kind count (uint size) = skip_exact (size * count)
skip_kind count (sint size) = skip_exact (size * count)
skip_kind count (float size) = skip_exact (size * count)
skip_kind count Kind.bool = skip_exact (1 * count)
skip_kind count Kind.string = skip_strings count
skip_kind count nested = fail GgufError.nested_array
skip_kind count unknown = fail GgufError.unknown_element_type

unfoldable pub skip_array_payload : ℕ → ℕ → Parser Unit
unfolding skip_exact skip_strings kind_of
skip_array_payload code count = skip_kind count (kind_of code)

module _ (decode : List ℕ → String) where
  -- `_read_string`
  unfoldable pub read_string : Parser String
  unfolding read_uint read_exact
  read_string = do size ← read_uint 8; bytes ← read_exact size; pure (decode bytes)

  abbrev pub read_kind : Kind → Parser Scalar
  read_kind (uint size) = read_as size (λ bytes. integer (pos (little_endian bytes)))
  read_kind (sint size) = read_as size (λ bytes. integer (signed size (little_endian bytes)))
  read_kind (float size) = read_as size real
  read_kind Kind.bool = read_as 1 (λ bytes. boolean (not (little_endian bytes == 0)))
  read_kind Kind.string = do s ← read_string; pure (text s)
  read_kind nested = fail GgufError.unknown_type_code
  read_kind unknown = fail GgufError.unknown_type_code

  -- `_read_value` on a type code that is not that of arrays.
  unfoldable pub read_scalar : ℕ → Parser Scalar
  unfolding kind_of read_exact read_string
  read_scalar code = read_kind (kind_of code)

  unfoldable pub read_scalars : ℕ → ℕ → Parser (List Scalar)
  unfolding read_scalar
  read_scalars code zero = pure []
  read_scalars code (suc n) = do x ← read_scalar code; xs ← read_scalars code n; pure (x ∷ xs)

  -- The array branch of `_read_value`.
  unfoldable pub read_array : Parser Meta
  unfolding read_uint read_scalars skip_array_payload
  read_array = do
    code ← read_uint 4
    count ← read_uint 8
    if ltb 100000000 count
        then fail GgufError.array_too_large
        else if not (code == 9) && leb count 4096
        then (do xs ← read_scalars code count; pure (array xs))
        else (do skipped ← skip_array_payload code count; pure (summary code count))

  -- `_read_value`
  unfoldable pub read_value : ℕ → Parser Meta
  unfolding read_array read_scalar
  read_value code = if code == 9 then read_array else (do x ← read_scalar code; pure (scalar x))

  -- The loop that fills the metadata.
  unfoldable pub read_entries : ℕ → List (String × Meta) → Parser (List (String × Meta))
  unfolding read_string read_uint read_value
  read_entries zero metadata = pure metadata
  read_entries (suc n) metadata = do
    key ← read_string
    code ← read_uint 4
    value ← read_value code
    read_entries n (insert key value metadata)

pub record Header : Type 0 where
  pub version : ℕ
  pub tensor_count : ℕ
  pub metadata : List (String × Meta)

abbrev pub is_magic : List ℕ → Bool
is_magic (a ∷ b ∷ c ∷ d ∷ []) = (a == 71 && b == 71) && (c == 85 && d == 70)
is_magic _ = false

-- `read_gguf_header`
unfoldable pub read_gguf_header : (List ℕ → String) → Parser Header
unfolding read_exact read_uint read_entries
read_gguf_header decode = do
  magic ← read_exact 4
  if not (is_magic magic) then fail GgufError.bad_magic else (do
    version ← read_uint 4
    tensor_count ← read_uint 8
    kv_count ← read_uint 8
    if ltb 100000 kv_count then fail GgufError.too_many_entries else (do
      metadata ← read_entries decode kv_count []
      pure (record { version = version; tensor_count = tensor_count; metadata = metadata })))
