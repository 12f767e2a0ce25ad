-- ===== src/Gguf/Reader/Local.antt =====
-- The header reader never looks past what it consumes: bytes that follow, such as the tensor data,
-- change nothing.
use llm_env.Prelude.{
  ℕ, zero, suc, ◌*◌, ◌≤◌, ◌≡◌, refl, ap, Bool, true, false, not, ◌&&◌, String, List, [], ◌∷◌, ◌++◌,
  length, length-append, take, drop, ltb, leb, ◌==◌, insert, if◌then◌else◌, arith,
}
use llm_env.Prelude.Int.{pos}
use llm_env.Gguf.{
  GgufError, Result, ok, err, Scalar, Meta, integer, boolean, real, text, scalar, array, summary,
}
use llm_env.Gguf.Reader.{
  Parser, pure, fail, continue_with, ◌>>=◌, read_exact, skip_exact, little_endian, signed, is_magic,
  read_uint, Kind, uint, sint, float, nested, unknown, kind_of, read_string, read_kind, read_scalar,
  read_scalars, skip_strings, skip_kind, skip_array_payload, read_array, read_value, read_entries,
  Header, read_gguf_header,
}

abbrev pub IsLocal : {A : Type 0} → Parser A → Type 0
IsLocal {A} p =
    (bs more : List ℕ) (a : A) (rest : List ℕ)
    → p bs ≡ ok (a, rest)
    → p (bs ++ more) ≡ ok (a, rest ++ more)

module _ {A : Type 0} where
  pure-IsLocal : (a : A) → IsLocal (pure a)
  pure-IsLocal a bs more b rest h = cc

  fail-IsLocal : (e : GgufError) → IsLocal (fail {A = A} e)
  fail-IsLocal e bs more b rest h = cc

  if-IsLocal : (c : Bool) (p q : Parser A) → IsLocal p → IsLocal q → IsLocal (if c then p else q)
  if-IsLocal true p q h k = h
  if-IsLocal false p q h k = k

continue-IsLocal :
    {A B : Type 0} (f : A → Parser B) (r r' : Result (A × List ℕ)) (more : List ℕ) (b : B)
    (rest : List ℕ)
    → ((a : A) → IsLocal (f a))
    → ((a : A) (s : List ℕ) → r ≡ ok (a, s) → r' ≡ ok (a, s ++ more))
    → continue_with r f ≡ ok (b, rest)
    → continue_with r' f ≡ ok (b, rest ++ more)
continue-IsLocal f (ok (a, s)) r' more b rest k h e = rw (h a s refl) (k a s more b rest e)
continue-IsLocal f (err x) r' more b rest k h e = cc

bind-IsLocal :
    {A B : Type 0} {p : Parser A} {f : A → Parser B}
    → IsLocal p
    → ((a : A) → IsLocal (f a))
    → IsLocal (p >>= f)
bind-IsLocal {p = p} {f} h k bs more b rest e =
    continue-IsLocal f (p bs) (p (bs ++ more)) more b rest k (λ a s q. h bs more a s q) e

take-append : {A : Type 0} (n : ℕ) (xs ys : List A) → n ≤ length xs → take n (xs ++ ys) ≡ take n xs
take-append zero xs ys h = refl
take-append (suc n) [] ys h = absurd (omega arith)
take-append {A = A} (suc n) (x ∷ xs) ys h =
    ap (λ (l : List A). x ∷ l) (take-append n xs ys (omega arith))

drop-append :
    {A : Type 0} (n : ℕ) (xs ys : List A) → n ≤ length xs → drop n (xs ++ ys) ≡ drop n xs ++ ys
drop-append zero xs ys h = refl
drop-append (suc n) [] ys h = absurd (omega arith)
drop-append (suc n) (x ∷ xs) ys h = drop-append n xs ys (omega arith)

read_exact-IsLocal : (n : ℕ) → IsLocal (read_exact n)
unfolding read_exact
read_exact-IsLocal n bs more a rest h =
    ground (arith, length-append bs more, take-append n bs more, drop-append n bs more)

skip_exact-IsLocal : (n : ℕ) → IsLocal (skip_exact n)
unfolding skip_exact
skip_exact-IsLocal n bs more a rest h = ground (arith, length-append bs more, drop-append n bs more)

read_uint-IsLocal : (n : ℕ) → IsLocal (read_uint n)
unfolding read_uint
read_uint-IsLocal n =
    bind-IsLocal (read_exact-IsLocal n) (λ bytes. pure-IsLocal (little_endian bytes))

read_as-IsLocal :
    (n : ℕ) (unpack : List ℕ → Scalar) → IsLocal (read_exact n >>= (λ bytes. pure (unpack bytes)))
read_as-IsLocal n unpack =
    bind-IsLocal (read_exact-IsLocal n) (λ bytes. pure-IsLocal (unpack bytes))

skip_strings-IsLocal : (n : ℕ) → IsLocal (skip_strings n)
unfolding skip_strings
skip_strings-IsLocal zero = pure-IsLocal tt
skip_strings-IsLocal (suc n) =
    bind-IsLocal (read_uint-IsLocal 8)
      (λ size. bind-IsLocal (skip_exact-IsLocal size) (λ t. skip_strings-IsLocal n))

skip_kind-IsLocal : (n : ℕ) (k : Kind) → IsLocal (skip_kind n k)
skip_kind-IsLocal n (uint size) = skip_exact-IsLocal (size * n)
skip_kind-IsLocal n (sint size) = skip_exact-IsLocal (size * n)
skip_kind-IsLocal n (float size) = skip_exact-IsLocal (size * n)
skip_kind-IsLocal n Kind.bool = skip_exact-IsLocal (1 * n)
skip_kind-IsLocal n Kind.string = skip_strings-IsLocal n
skip_kind-IsLocal n nested = fail-IsLocal GgufError.nested_array
skip_kind-IsLocal n unknown = fail-IsLocal GgufError.unknown_element_type

skip_array_payload-IsLocal : (code n : ℕ) → IsLocal (skip_array_payload code n)
unfolding skip_array_payload
skip_array_payload-IsLocal code n = skip_kind-IsLocal n (kind_of code)

module _ (decode : List ℕ → String) where
  read_string-IsLocal : IsLocal (read_string decode)
  unfolding read_string
  read_string-IsLocal =
      bind-IsLocal (read_uint-IsLocal 8)
        (λ size. bind-IsLocal (read_exact-IsLocal size) (λ bytes. pure-IsLocal (decode bytes)))

  read_kind-IsLocal : (k : Kind) → IsLocal (read_kind decode k)
  read_kind-IsLocal (uint size) =
      read_as-IsLocal size (λ bytes. integer (pos (little_endian bytes)))
  read_kind-IsLocal (sint size) =
      read_as-IsLocal size (λ bytes. integer (signed size (little_endian bytes)))
  read_kind-IsLocal (float size) = read_as-IsLocal size real
  read_kind-IsLocal Kind.bool =
      read_as-IsLocal 1 (λ bytes. boolean (not (little_endian bytes == 0)))
  read_kind-IsLocal Kind.string = bind-IsLocal read_string-IsLocal (λ s. pure-IsLocal (text s))
  read_kind-IsLocal nested = fail-IsLocal GgufError.unknown_type_code
  read_kind-IsLocal unknown = fail-IsLocal GgufError.unknown_type_code

  read_scalar-IsLocal : (code : ℕ) → IsLocal (read_scalar decode code)
  unfolding read_scalar
  read_scalar-IsLocal code = read_kind-IsLocal (kind_of code)

  read_scalars-IsLocal : (code n : ℕ) → IsLocal (read_scalars decode code n)
  unfolding read_scalars
  read_scalars-IsLocal code zero = pure-IsLocal []
  read_scalars-IsLocal code (suc n) =
      bind-IsLocal (read_scalar-IsLocal code)
        (λ x. bind-IsLocal (read_scalars-IsLocal code n) (λ xs. pure-IsLocal (x ∷ xs)))

  read_array-IsLocal : IsLocal (read_array decode)
  unfolding read_array
  read_array-IsLocal = bind-IsLocal (read_uint-IsLocal 4) (λ code.
      bind-IsLocal (read_uint-IsLocal 8) (λ count.
        if-IsLocal (ltb 100000000 count) _ _ (fail-IsLocal GgufError.array_too_large) (
          if-IsLocal (not (code == 9) && leb count 4096) _ _
            (bind-IsLocal (read_scalars-IsLocal code count) (λ xs. pure-IsLocal (array xs)))
            (bind-IsLocal (skip_array_payload-IsLocal code count)
              (λ t. pure-IsLocal (summary code count))))))

  read_value-IsLocal : (code : ℕ) → IsLocal (read_value decode code)
  unfolding read_value
  read_value-IsLocal code =
      if-IsLocal (code == 9) _ _ read_array-IsLocal
        (bind-IsLocal (read_scalar-IsLocal code) (λ x. pure-IsLocal (scalar x)))

  read_entries-IsLocal :
      (n : ℕ) (metadata : List (String × Meta)) → IsLocal (read_entries decode n metadata)
  unfolding read_entries
  read_entries-IsLocal zero metadata = pure-IsLocal metadata
  read_entries-IsLocal (suc n) metadata = bind-IsLocal read_string-IsLocal (λ key.
      bind-IsLocal (read_uint-IsLocal 4) (λ code.
        bind-IsLocal (read_value-IsLocal code)
          (λ value. read_entries-IsLocal n (insert key value metadata))))

  -- A header that is read from the first bytes of a file stays the same, and ends at the same place,
  -- whatever bytes follow them.
  pub read_gguf_header-IsLocal :
      (bs more : List ℕ) (h : Header) (rest : List ℕ)
      → read_gguf_header decode bs ≡ ok (h, rest)
      → read_gguf_header decode (bs ++ more) ≡ ok (h, rest ++ more)
  unfolding read_gguf_header
  read_gguf_header-IsLocal = bind-IsLocal (read_exact-IsLocal 4) (λ magic.
      if-IsLocal (not (is_magic magic)) _ _ (fail-IsLocal GgufError.bad_magic) (
        bind-IsLocal (read_uint-IsLocal 4) (λ version. bind-IsLocal (read_uint-IsLocal 8) (λ count.
          bind-IsLocal (read_uint-IsLocal 8) (λ kv_count.
            if-IsLocal (ltb 100000 kv_count) _ _ (fail-IsLocal GgufError.too_many_entries)
              (bind-IsLocal (read_entries-IsLocal kv_count []) (λ metadata. pure-IsLocal _)))))))
