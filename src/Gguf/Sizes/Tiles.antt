-- ===== src/Gguf/Sizes/Tiles.antt =====
-- The sizes cover the data section without gap or overlap.
use llm_env.Prelude.{
  ℕ, ◌+◌, ◌-◌, ◌≤◌, ◌<◌, ◌≡◌, true, String, List, [], ◌∷◌, map, sum, length, insert, arith,
}
use llm_env.Gguf.{Result, ok, err}
use llm_env.Gguf.Reader.{Header, read_gguf_header}
use llm_env.Gguf.Sizes.{
  Info, is_increasing, is_within, deltas, to_dict, sizes_of, tensor_sizes, alignment, after_infos,
  after_alignment, after_header, align_up, sort_infos, read_infos,
}

abbrev pub size_of : String × ℕ → ℕ
size_of (name, size) = size

abbrev pub total : List (String × ℕ) → ℕ
total sizes = sum (map size_of sizes)

-- The sizes of increasing offsets that end within the data section add up, with the first offset, to
-- the whole section.
pub deltas-total :
    (start file_size : ℕ) (x : Info) (xs : List Info)
    → is_increasing (x ∷ xs) ≡ true
    → is_within start file_size (x ∷ xs) ≡ true
    → x.offset + total (deltas (file_size - start) (x ∷ xs)) ≡ file_size - start
unfolding is_increasing is_within deltas
deltas-total start file_size x [] i w = ground arith
deltas-total start file_size x (y ∷ ys) i w =
    let later = deltas-total start file_size y ys (ground arith) w in
    let less : x.offset < y.offset = ground arith in omega arith

total-insert_le : (k : String) (v : ℕ) (d : List (String × ℕ)) → total (insert k v d) ≤ v + total d
total-insert_le k v [] = omega arith
total-insert_le k v ((j, w) ∷ d) = ground (arith, total-insert_le k v d)

total-to_dict_le :
    (xs sizes : List (String × ℕ)) → total (to_dict xs sizes) ≤ total xs + total sizes
unfolding to_dict
total-to_dict_le [] sizes = omega arith
total-to_dict_le ((name, size) ∷ rest) sizes =
    omega (arith, total-to_dict_le rest (insert name size sizes), total-insert_le name size sizes)

deltas-total_le :
    (start file_size : ℕ) (infos : List Info)
    → is_increasing infos ≡ true
    → is_within start file_size infos ≡ true
    → total (deltas (file_size - start) infos) ≤ file_size - start
unfolding deltas
deltas-total_le start file_size [] i w = omega arith
deltas-total_le start file_size (x ∷ xs) i w = omega (arith, deltas-total start file_size x xs i w)

sizes_of-total_le :
    (start file_size : ℕ) (infos : List Info) (sizes : List (String × ℕ))
    → sizes_of start file_size infos ≡ ok sizes
    → total sizes ≤ file_size - start
unfolding sizes_of
sizes_of-total_le start file_size infos sizes h =
    let tiles = deltas-total_le start file_size infos in
    let bound = total-to_dict_le (deltas (file_size - start) infos) [] in ground arith

align_up_le : (start align : ℕ) → start ≤ align_up start align
unfolding align_up
align_up_le start align = ground arith

after_infos-total_le :
    (file_size align : ℕ) (r : Result (List Info × List ℕ)) (sizes : List (String × ℕ))
    → after_infos file_size align r ≡ ok sizes
    → total sizes ≤ file_size
after_infos-total_le file_size align (err e) sizes h = cc
after_infos-total_le file_size align (ok (infos, rest)) sizes h = omega (
  arith,
  sizes_of-total_le (align_up (file_size - length rest) align) file_size (sort_infos infos) sizes h,
)

after_alignment-total_le :
    (decode : List ℕ → String) (file_size : ℕ) (h : Header) (rest : List ℕ) (r : Result ℕ)
    (sizes : List (String × ℕ))
    → after_alignment decode file_size h rest r ≡ ok sizes
    → total sizes ≤ file_size
after_alignment-total_le decode file_size h rest (err e) sizes q = cc
after_alignment-total_le decode file_size h rest (ok align) sizes q =
    after_infos-total_le file_size align (read_infos decode align h.tensor_count rest) sizes q

after_header-total_le :
    (decode : List ℕ → String) (file_size : ℕ) (r : Result (Header × List ℕ))
    (sizes : List (String × ℕ))
    → after_header decode file_size r ≡ ok sizes
    → total sizes ≤ file_size
after_header-total_le decode file_size (err e) sizes q = cc
after_header-total_le decode file_size (ok (h, rest)) sizes q =
    after_alignment-total_le decode file_size h rest (alignment h.metadata) sizes q

-- The sizes that `tensor_sizes` gives for a file never add up to more than the file has bytes.
pub tensor_sizes-total_le :
    (decode : List ℕ → String) (file : List ℕ) (sizes : List (String × ℕ))
    → tensor_sizes decode file ≡ ok sizes
    → total sizes ≤ length file
unfolding tensor_sizes
tensor_sizes-total_le decode file sizes h =
    after_header-total_le decode (length file) (read_gguf_header decode file) sizes h
