-- ===== src/Decoder/RoundTrip.antt =====
-- The bytes of a struct are read back, field by field.
use mathlib.Core.List.{append_assoc}
use e_trace_gen_e_bpfevent_t.Base.{
  ℕ, ℤ, pos, negsuc, zero, suc, ◌+◌, ◌*◌, ◌/◌, ◌^◌, ◌<◌, ◌≡◌, refl, ap, List, [], ◌∷◌, ◌++◌, length,
  length-append, length-replicate, take, drop, replicate, le_value, signed64, to_bits,
  s32-eq_of_IsS32, arith,
}
use e_trace_gen_e_bpfevent_t.Decoder.Layout.{
  FieldKind, FieldValue, le_bytes, decode_fields, encode_fields, Fits, IsS64,
}

take-append : (b t : List ℕ) → take (length b) (b ++ t) ≡ b
take-append [] t = refl
take-append (x ∷ b) t = ap (◌∷◌ x) (take-append b t)

drop-append : (b t : List ℕ) → drop (length b) (b ++ t) ≡ t
drop-append [] t = refl
drop-append (x ∷ b) t = drop-append b t

pow256_suc : (k : ℕ) → 256 ^ suc k ≡ 256 * 256 ^ k
pow256_suc k = omega arith

le_value-le_bytes : (k n : ℕ) → n < 256 ^ k → le_value (le_bytes k n) ≡ n
unfolding le_value le_bytes
le_value-le_bytes zero n h = omega (arith, h)
le_value-le_bytes (suc k) n h =
    omega (arith, le_value-le_bytes k (n / 256) (omega (arith, h, pow256_suc k)))

length-le_bytes : (k n : ℕ) → length (le_bytes k n) ≡ k
unfolding le_bytes
length-le_bytes zero n = refl
length-le_bytes (suc k) n = ap suc (length-le_bytes k (n / 256))

signed64-to_bits : (z : ℤ) → IsS64 z → signed64 (to_bits 64 z) ≡ z
signed64-to_bits (pos n) h = ground arith
signed64-to_bits (negsuc n) h = ground arith

bits-lt32 : (z : ℤ) → to_bits 32 z < 256 ^ 4
bits-lt32 (pos n) = omega arith
bits-lt32 (negsuc n) = omega arith

bits-lt64 : (z : ℤ) → to_bits 64 z < 256 ^ 8
bits-lt64 (pos n) = omega arith
bits-lt64 (negsuc n) = omega arith

-- A chunk of the right length in front is what is read, and what follows stays.
chunk :
    (n : ℕ) (b e rest : List ℕ)
    → length b ≡ n
    → (take n ((b ++ e) ++ rest) ≡ b) × (drop n ((b ++ e) ++ rest) ≡ e ++ rest)
chunk n b e rest h =
    rw (← h, append_assoc b e rest) (take-append b (e ++ rest), drop-append b (e ++ rest))

pub decode_fields-encode :
    (ks : List FieldKind) (vs : List FieldValue) (rest : List ℕ)
    → Fits ks vs
    → decode_fields ks (encode_fields ks vs ++ rest) ≡ vs
unfolding decode_fields encode_fields Fits
decode_fields-encode [] [] rest h = refl
decode_fields-encode (FieldKind.u32 ∷ ks) (FieldValue.number n ∷ vs) rest h =
    let c = chunk 4 (le_bytes 4 n) (encode_fields ks vs) rest (length-le_bytes 4 n) in
    cc (c.0, c.1, le_value-le_bytes 4 n (omega (arith, h.0)), decode_fields-encode ks vs rest h.1)
decode_fields-encode (FieldKind.u64 ∷ ks) (FieldValue.number n ∷ vs) rest h =
    let c = chunk 8 (le_bytes 8 n) (encode_fields ks vs) rest (length-le_bytes 8 n) in
    cc (c.0, c.1, le_value-le_bytes 8 n (omega (arith, h.0)), decode_fields-encode ks vs rest h.1)
decode_fields-encode (FieldKind.i32 ∷ ks) (FieldValue.integer z ∷ vs) rest h =
    let c =
      chunk 4 (le_bytes 4 (to_bits 32 z)) (encode_fields ks vs) rest
        (length-le_bytes 4 (to_bits 32 z)) in
    cc (
      c.0,
      c.1,
      le_value-le_bytes 4 (to_bits 32 z) (bits-lt32 z),
      s32-eq_of_IsS32 z h.0,
      decode_fields-encode ks vs rest h.1,
    )
decode_fields-encode (FieldKind.i64 ∷ ks) (FieldValue.integer z ∷ vs) rest h =
    let c =
      chunk 8 (le_bytes 8 (to_bits 64 z)) (encode_fields ks vs) rest
        (length-le_bytes 8 (to_bits 64 z)) in
    cc (
      c.0,
      c.1,
      le_value-le_bytes 8 (to_bits 64 z) (bits-lt64 z),
      signed64-to_bits z h.0,
      decode_fields-encode ks vs rest h.1,
    )
decode_fields-encode (FieldKind.buffer n ∷ ks) (FieldValue.bytes b ∷ vs) rest h =
    let c = chunk n b (encode_fields ks vs) rest h.0 in
    cc (c.0, c.1, decode_fields-encode ks vs rest h.1)
decode_fields-encode (FieldKind.padding n ∷ ks) vs rest h =
    let c = chunk n (replicate n 0) (encode_fields ks vs) rest (length-replicate n 0) in
    cc (c.1, decode_fields-encode ks vs rest h)
decode_fields-encode _ _ rest h = absurd h

-- The size of a field.
unfoldable pub width : FieldKind → ℕ
width FieldKind.u32 = 4
width FieldKind.u64 = 8
width FieldKind.i32 = 4
width FieldKind.i64 = 8
width (FieldKind.buffer n) = n
width (FieldKind.padding n) = n

unfoldable pub widths : List FieldKind → ℕ
widths [] = 0
widths (k ∷ ks) = width k + widths ks

length-chunk :
    (n : ℕ) (b : List ℕ) (ks : List FieldKind) (vs : List FieldValue)
    → length b ≡ n
    → length (encode_fields ks vs) ≡ widths ks
    → length (b ++ encode_fields ks vs) ≡ n + widths ks
length-chunk n b ks vs hb hk = omega (arith, length-append b (encode_fields ks vs), hb, hk)

pub length-encode_fields :
    (ks : List FieldKind) (vs : List FieldValue)
    → Fits ks vs
    → length (encode_fields ks vs) ≡ widths ks
unfolding encode_fields Fits widths width
length-encode_fields [] [] h = refl
length-encode_fields (FieldKind.u32 ∷ ks) (FieldValue.number n ∷ vs) h =
    length-chunk 4 (le_bytes 4 n) ks vs (length-le_bytes 4 n) (length-encode_fields ks vs h.1)
length-encode_fields (FieldKind.u64 ∷ ks) (FieldValue.number n ∷ vs) h =
    length-chunk 8 (le_bytes 8 n) ks vs (length-le_bytes 8 n) (length-encode_fields ks vs h.1)
length-encode_fields (FieldKind.i32 ∷ ks) (FieldValue.integer z ∷ vs) h =
    length-chunk 4 (le_bytes 4 (to_bits 32 z)) ks vs (length-le_bytes 4 (to_bits 32 z))
      (length-encode_fields ks vs h.1)
length-encode_fields (FieldKind.i64 ∷ ks) (FieldValue.integer z ∷ vs) h =
    length-chunk 8 (le_bytes 8 (to_bits 64 z)) ks vs (length-le_bytes 8 (to_bits 64 z))
      (length-encode_fields ks vs h.1)
length-encode_fields (FieldKind.buffer n ∷ ks) (FieldValue.bytes b ∷ vs) h =
    length-chunk n b ks vs h.0 (length-encode_fields ks vs h.1)
length-encode_fields (FieldKind.padding n ∷ ks) vs h =
    length-chunk n (replicate n 0) ks vs (length-replicate n 0) (length-encode_fields ks vs h)
length-encode_fields _ _ h = absurd h
