-- ===== src/Gguf.antt =====
-- pylib/gguf.py: reading the header of a GGUF model file, the sizes of its tensors, and the
-- attention geometry for the VRAM budget. A file is the list of its bytes, and a reader takes the
-- bytes from the current position on; `fh.seek` and `fh.tell` are that position.
pub mod Reader
pub mod Sizes
pub mod Geometry
use llm_env.Prelude.{ℕ, Bool, String, List}
use llm_env.Prelude.Int.{ℤ}

-- One error for each message.
pub data GgufError : Type 0 where
  truncated nested_array unknown_element_type array_too_large unknown_type_code : GgufError
  bad_magic too_many_entries bad_alignment : GgufError
  misaligned_offset unordered_offsets offset_past_end : GgufError
  no_architecture missing_key not_positive_int not_per_layer not_booleans : GgufError

pub data Result {ℓ} (A : Type ℓ) : Type ℓ where
  ok : A → Result A
  err : GgufError → Result A

infixl 5 ◌>>=◌
abbrev pub ◌>>=◌ {ℓ κ} : {A : Type ℓ} {B : Type κ} → Result A → (A → Result B) → Result B
ok a >>= f = f a
err e >>= f = err e

-- A value of a scalar type code, or a string; a float is kept as its bytes.
pub data Scalar : Type 0 where
  integer : ℤ → Scalar
  boolean : Bool → Scalar
  real : List ℕ → Scalar
  text : String → Scalar

-- A metadata value: a large array is only its element type and count.
pub data Meta : Type 0 where
  scalar : Scalar → Meta
  array : List Scalar → Meta
  summary : ℕ → ℕ → Meta
