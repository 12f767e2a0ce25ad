-- ===== src/Gguf/Sizes.antt =====
-- pylib/gguf.py, `_alignment` and `tensor_sizes`: the size of each tensor is the distance to the
-- next offset. The code reads the header again here, with the same statements.
pub mod Tiles
mod Tests
use llm_env.Prelude.{
  ℕ, zero, suc, ◌+◌, ◌-◌, ◌*◌, ◌%◌, Bool, true, false, not, ◌&&◌, ◌||◌, Option, none, some, String,
  List, [], ◌∷◌, length, ltb, leb, ◌==◌, insert, lookup, if◌then◌else◌,
}
use llm_env.Prelude.Int.{ℤ, pos}
use llm_env.Gguf.{GgufError, Result, ok, err, Meta, integer, scalar}
use llm_env.Gguf.Reader.{
  Parser, pure, fail, ◌>>=◌, skip_exact, read_uint, read_string, Header, read_gguf_header,
}

abbrev pub default_alignment : ℕ
default_alignment = 32

-- `_alignment`
unfoldable pub alignment : List (String × Meta) → Result ℕ
alignment metadata = elim (lookup "general.alignment" metadata) [
  | none ↦ ok default_alignment
  | some (scalar (integer (pos (suc n)))) ↦ ok (suc n)
  | some other ↦ err GgufError.bad_alignment
]

pub record Info : Type 0 where
  pub name : String
  pub offset : ℕ

-- One turn of the loop over the tensors.
unfoldable pub read_info : (List ℕ → String) → ℕ → Parser Info
unfolding read_string read_uint skip_exact
read_info decode align = do
  name ← read_string decode
  n_dims ← read_uint 4
  dims ← skip_exact (8 * n_dims)
  tensor_type ← skip_exact 4
  offset ← read_uint 8
  if not (offset % align == 0)
      then fail GgufError.misaligned_offset
      else pure (record { name = name; offset = offset })

unfoldable pub read_infos : (List ℕ → String) → ℕ → ℕ → Parser (List Info)
unfolding read_info
read_infos decode align zero = pure []
read_infos decode align (suc n) = do
  info ← read_info decode align
  infos ← read_infos decode align n
  pure (info ∷ infos)

-- `infos.sort(key=...)`, which keeps the order of equal offsets.
unfoldable pub insert_info : Info → List Info → List Info
insert_info x [] = x ∷ []
insert_info x (y ∷ ys) =
    let rest = insert_info x ys in if leb x.offset y.offset then x ∷ y ∷ ys else y ∷ rest

unfoldable pub sort_infos : List Info → List Info
unfolding insert_info
sort_infos [] = []
sort_infos (x ∷ xs) = insert_info x (sort_infos xs)

-- No offset is at or after the next one.
unfoldable pub is_increasing : List Info → Bool
is_increasing [] = true
is_increasing (x ∷ []) = true
is_increasing (x ∷ (y ∷ ys)) = ltb x.offset y.offset && is_increasing (y ∷ ys)

-- The last offset lies in the data section, which starts at `start`.
unfoldable pub is_within : ℕ → ℕ → List Info → Bool
is_within start file_size [] = true
is_within start file_size (x ∷ []) = leb (x.offset + start) file_size
is_within start file_size (x ∷ (y ∷ ys)) = is_within start file_size (y ∷ ys)

-- The sizes in the order of the offsets; the last tensor ends with the section.
unfoldable pub deltas : ℕ → List Info → List (String × ℕ)
deltas data_span [] = []
deltas data_span (x ∷ []) = (x.name, data_span - x.offset) ∷ []
deltas data_span (x ∷ (y ∷ ys)) = (x.name, y.offset - x.offset) ∷ deltas data_span (y ∷ ys)

-- The dict that the last loop fills.
unfoldable pub to_dict : List (String × ℕ) → List (String × ℕ) → List (String × ℕ)
to_dict [] sizes = sizes
to_dict ((name, size) ∷ rest) sizes = to_dict rest (insert name size sizes)

unfoldable pub align_up : ℕ → ℕ → ℕ
align_up start align = if start % align == 0 then start else start + (align - start % align)

-- What follows the reading: the two checks and the sizes.
unfoldable pub sizes_of : ℕ → ℕ → List Info → Result (List (String × ℕ))
unfolding is_increasing is_within deltas to_dict
sizes_of start file_size infos =
    if not (is_increasing infos)
    then err GgufError.unordered_offsets
    else if not (is_within start file_size infos)
    then err GgufError.offset_past_end
    else ok (to_dict (deltas (file_size - start) infos) [])

abbrev pub after_infos : ℕ → ℕ → Result (List Info × List ℕ) → Result (List (String × ℕ))
after_infos file_size align (err e) = err e
after_infos file_size align (ok (infos, rest)) =
    sizes_of (align_up (file_size - length rest) align) file_size (sort_infos infos)

abbrev pub after_alignment :
    (List ℕ → String) → ℕ → Header → List ℕ → Result ℕ → Result (List (String × ℕ))
after_alignment decode file_size h rest (err e) = err e
after_alignment decode file_size h rest (ok align) =
    after_infos file_size align (read_infos decode align h.tensor_count rest)

abbrev pub after_header :
    (List ℕ → String) → ℕ → Result (Header × List ℕ) → Result (List (String × ℕ))
after_header decode file_size (err e) = err e
after_header decode file_size (ok (h, rest)) =
    after_alignment decode file_size h rest (alignment h.metadata)

unfoldable pub tensor_sizes : (List ℕ → String) → List ℕ → Result (List (String × ℕ))
unfolding read_gguf_header alignment read_infos align_up sort_infos sizes_of
tensor_sizes decode file = after_header decode (length file) (read_gguf_header decode file)
