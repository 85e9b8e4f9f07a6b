-- ===== src/Decoder/Layout.antt =====
-- Structs in memory: fields one after the other, little-endian, with the padding that the ABI puts
-- between them.
use e_trace_gen_e_bpfevent_t.Base.{
  negsuc, IsS32, IsS32, ℕ, ℤ, pos, zero, suc, ◌/◌, ◌%◌, ◌^◌, ◌<◌, ◌≡◌, List, [], ◌∷◌, ◌++◌, length,
  take, drop, replicate, le_value, signed32, signed64, to_bits,
}

pub data FieldKind : Type 0 where
  u32 u64 i32 i64 : FieldKind
  buffer padding : ℕ → FieldKind

pub data FieldValue : Type 0 where
  number : ℕ → FieldValue
  integer : ℤ → FieldValue
  bytes : List ℕ → FieldValue

-- A copy of bytes into a struct sets its fields in order; padding has no value.
unfoldable pub decode_fields : List FieldKind → List ℕ → List FieldValue
decode_fields [] mem = []
decode_fields (FieldKind.u32 ∷ ks) mem =
    FieldValue.number (le_value (take 4 mem)) ∷ decode_fields ks (drop 4 mem)
decode_fields (FieldKind.u64 ∷ ks) mem =
    FieldValue.number (le_value (take 8 mem)) ∷ decode_fields ks (drop 8 mem)
decode_fields (FieldKind.i32 ∷ ks) mem =
    FieldValue.integer (signed32 (le_value (take 4 mem))) ∷ decode_fields ks (drop 4 mem)
decode_fields (FieldKind.i64 ∷ ks) mem =
    FieldValue.integer (signed64 (le_value (take 8 mem))) ∷ decode_fields ks (drop 8 mem)
decode_fields (FieldKind.buffer n ∷ ks) mem =
    FieldValue.bytes (take n mem) ∷ decode_fields ks (drop n mem)
decode_fields (FieldKind.padding n ∷ ks) mem = decode_fields ks (drop n mem)

abbrev pub nat_at : List FieldValue → ℕ → ℕ
nat_at (FieldValue.number n ∷ vs) zero = n
nat_at (v ∷ vs) (suc i) = nat_at vs i
nat_at _ _ = 0

abbrev pub int_at : List FieldValue → ℕ → ℤ
int_at (FieldValue.integer z ∷ vs) zero = z
int_at (v ∷ vs) (suc i) = int_at vs i
int_at _ _ = pos 0

abbrev pub bytes_at : List FieldValue → ℕ → List ℕ
bytes_at (FieldValue.bytes b ∷ vs) zero = b
bytes_at (v ∷ vs) (suc i) = bytes_at vs i
bytes_at _ _ = []

-- The bytes that a struct has in memory, with zeros for padding: a specification, since the bytes
-- are written by the kernel.
unfoldable pub le_bytes : ℕ → ℕ → List ℕ
le_bytes zero n = []
le_bytes (suc k) n = (n % 256) ∷ le_bytes k (n / 256)

unfoldable pub encode_fields : List FieldKind → List FieldValue → List ℕ
encode_fields (FieldKind.padding n ∷ ks) vs = replicate n 0 ++ encode_fields ks vs
encode_fields (FieldKind.u32 ∷ ks) (FieldValue.number n ∷ vs) = le_bytes 4 n ++ encode_fields ks vs
encode_fields (FieldKind.u64 ∷ ks) (FieldValue.number n ∷ vs) = le_bytes 8 n ++ encode_fields ks vs
encode_fields (FieldKind.i32 ∷ ks) (FieldValue.integer z ∷ vs) =
    le_bytes 4 (to_bits 32 z) ++ encode_fields ks vs
encode_fields (FieldKind.i64 ∷ ks) (FieldValue.integer z ∷ vs) =
    le_bytes 8 (to_bits 64 z) ++ encode_fields ks vs
encode_fields (FieldKind.buffer n ∷ ks) (FieldValue.bytes b ∷ vs) = b ++ encode_fields ks vs
encode_fields _ _ = []

-- The values of `int64_t`.
abbrev pub IsS64 : ℤ → Type 0
IsS64 (pos n) = n < 2 ^ 63
IsS64 (negsuc n) = n < 2 ^ 63

-- Values that their fields can hold.
unfoldable pub Fits : List FieldKind → List FieldValue → Type 0
Fits [] [] = Unit
Fits (FieldKind.padding n ∷ ks) vs = Fits ks vs
Fits (FieldKind.u32 ∷ ks) (FieldValue.number n ∷ vs) = (n < 2 ^ 32) × Fits ks vs
Fits (FieldKind.u64 ∷ ks) (FieldValue.number n ∷ vs) = (n < 2 ^ 64) × Fits ks vs
Fits (FieldKind.i32 ∷ ks) (FieldValue.integer z ∷ vs) = IsS32 z × Fits ks vs
Fits (FieldKind.i64 ∷ ks) (FieldValue.integer z ∷ vs) = IsS64 z × Fits ks vs
Fits (FieldKind.buffer n ∷ ks) (FieldValue.bytes b ∷ vs) = (length b ≡ n) × Fits ks vs
Fits _ _ = ⊥
