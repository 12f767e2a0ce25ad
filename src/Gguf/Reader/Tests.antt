-- ===== src/Gguf/Reader/Tests.antt =====
-- A header of one entry, "a" = 7 as a 32-bit number, read by the code, and the theorem applied to it.
use llm_env.Prelude.{ℕ, ◌≡◌, refl, String, List, [], ◌∷◌, ◌++◌}
use llm_env.Prelude.Int.{pos}
use llm_env.Gguf.{ok, scalar, integer}
use llm_env.Gguf.Reader.{Header, read_gguf_header, little_endian}
use llm_env.Gguf.Reader.Local.{read_gguf_header-IsLocal}

-- A stand-in for the decoder that knows one text.
abbrev decode : List ℕ → String
decode bytes = "a"

abbrev header_bytes : List ℕ
header_bytes =
    71 ∷ 71 ∷ 85 ∷ 70 ∷ 3 ∷ 0 ∷ 0 ∷ 0 ∷ 0 ∷ 0 ∷ 0 ∷ 0 ∷ 0 ∷ 0 ∷ 0 ∷ 0 ∷ 1 ∷ 0 ∷ 0 ∷ 0 ∷ 0 ∷ 0 ∷ 0
    ∷ 0 ∷ 1 ∷ 0 ∷ 0 ∷ 0 ∷ 0 ∷ 0 ∷ 0 ∷ 0 ∷ 97 ∷ 4 ∷ 0 ∷ 0 ∷ 0 ∷ 7 ∷ 0 ∷ 0 ∷ 0 ∷ []

abbrev header : Header
header = record { version = 3; tensor_count = 0; metadata = ("a", scalar (integer (pos 7))) ∷ [] }

header_read : read_gguf_header decode header_bytes ≡ ok (header, [])
unfolding read_gguf_header little_endian
header_read = refl

read_gguf_header-IsLocal_example :
    read_gguf_header decode (header_bytes ++ (1 ∷ 2 ∷ 3 ∷ [])) ≡ ok (header, 1 ∷ 2 ∷ 3 ∷ [])
read_gguf_header-IsLocal_example =
    read_gguf_header-IsLocal decode header_bytes (1 ∷ 2 ∷ 3 ∷ []) header [] header_read
