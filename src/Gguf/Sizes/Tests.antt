-- ===== src/Gguf/Sizes/Tests.antt =====
-- A file of two tensors, its sizes as the code computes them, and the theorems applied to it.
use llm_env.Prelude.{
  ℕ, ◌≤◌, ◌≡◌, refl, true, String, List, [], ◌∷◌, ◌++◌, ◌==◌, if◌then◌else◌, replicate,
}
use llm_env.Gguf.{ok}
use llm_env.Gguf.Reader.{little_endian}
use llm_env.Gguf.Sizes.{Info, is_increasing, is_within, tensor_sizes}
use llm_env.Gguf.Sizes.Tiles.{total, tensor_sizes-total_le}

-- A stand-in for the decoder that knows two texts.
abbrev decode : List ℕ → String
decode (c ∷ rest) = if c == 97 then "a" else "b"
decode [] = "b"

abbrev zeros : ℕ → List ℕ
zeros n = replicate n 0

abbrev tensor : ℕ → ℕ → List ℕ
tensor name offset = 1 ∷ (zeros 7 ++ name ∷ (zeros 8 ++ offset ∷ zeros 7))

abbrev file : List ℕ
file =
    71
    ∷ 71
    ∷ 85
    ∷ 70
    ∷ 3
    ∷ (zeros 3 ++ 2 ∷ (zeros 15 ++ (tensor 97 32 ++ (tensor 98 0 ++ zeros 70))))

file_sizes : tensor_sizes decode file ≡ ok (("b", 32) ∷ ("a", 16) ∷ [])
unfolding tensor_sizes little_endian
file_sizes = refl

tensor_sizes-total_le_example : total (("b", 32) ∷ ("a", 16) ∷ []) ≤ 144
tensor_sizes-total_le_example =
    tensor_sizes-total_le decode file (("b", 32) ∷ ("a", 16) ∷ []) file_sizes

abbrev first : Info
first = record { name = "b"; offset = 0 }

abbrev second : Info
second = record { name = "a"; offset = 32 }

increasing : is_increasing (first ∷ second ∷ []) ≡ true
unfolding is_increasing
increasing = refl

within : is_within 96 144 (first ∷ second ∷ []) ≡ true
unfolding is_within
within = refl
