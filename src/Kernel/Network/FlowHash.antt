-- ===== src/Kernel/Network/FlowHash.antt =====
-- The flow hash loses nothing: distinct 64-bit seeds have distinct ids.
use e_trace_gen_e_bpfevent_t.Base.{
  bit_xor-zero, refl, ℕ, ◌≡◌, ◌<◌, ◌*◌, ◌/◌, ◌^◌, ap, sym, ◌∙◌, arith, bit_xor, bit_xor-cancel,
  bit_xor-shr, u64, shr,
}
use e_trace_gen_e_bpfevent_t.Kernel.Network.Flow.{xor_shift, hash_fold64}

-- The words below 2^64.
abbrev pub IsWord : ℕ → Type 0
IsWord x = x < 2 ^ 64

xor-IsWord : (x y : ℕ) → IsWord x → IsWord y → IsWord (bit_xor x y)
xor-IsWord x y hx hy = below (bit_xor-shr 64 x y ∙ cc (gone x hx, gone y hy, none_left))
  where
    gone : (z : ℕ) → IsWord z → z / 2 ^ 64 ≡ 0
    gone z h = omega arith

    none_left : bit_xor 0 0 ≡ 0
    none_left = refl

    below : {z : ℕ} → z / 2 ^ 64 ≡ 0 → IsWord z
    below h = omega arith

shifted_twice : (x : ℕ) → IsWord x → x / 2 ^ 33 / 2 ^ 33 ≡ 0
shifted_twice x h = omega arith

pub xor_shift-IsWord : (x : ℕ) → IsWord x → IsWord (xor_shift x)
unfolding xor_shift
xor_shift-IsWord x h = xor-IsWord x (shr x 33) h (omega arith)

-- A shift by more than half the width undoes itself.
pub xor_shift-xor_shift : (x : ℕ) → IsWord x → xor_shift (xor_shift x) ≡ x
unfolding xor_shift
xor_shift-xor_shift x h =
    rw
      (
        bit_xor-shr 33 x (x / 2 ^ 33),
        shifted_twice x h,
        bit_xor-zero (x / 2 ^ 33) (x / 2 ^ 33) (omega arith),
      )
      (bit_xor-cancel x (x / 2 ^ 33))

-- The two odd factors have inverses modulo 2^64.
unmul_first : (x : ℕ) → IsWord x → u64 (u64 (x * 0xff51afd7ed558ccd) * 0x4f74430c22a54005) ≡ x
unmul_first x h = omega arith

unmul_second : (x : ℕ) → IsWord x → u64 (u64 (x * 0xc4ceb9fe1a85ec53) * 0x9cb4b2f8129337db) ≡ x
unmul_second x h = omega arith

-- The steps of `hash_fold64` undone, last first.
abbrev pub unfold64 : ℕ → ℕ
unfold64 y =
    xor_shift (u64 (xor_shift (u64 (xor_shift y * 0x9cb4_b2f8_1293_37db)) * 0x4f74_430c_22a5_4005))

-- A seed below 2^64 can be computed back from its hash, so different seeds have different ids.
pub unfold64-hash_fold64 : (x : ℕ) → IsWord x → unfold64 (hash_fold64 x) ≡ x
unfolding hash_fold64
unfold64-hash_fold64 x h =
    let x2 = u64 (xor_shift x * 0xff51_afd7_ed55_8ccd) in
    let x4 = u64 (xor_shift x2 * 0xc4ce_b9fe_1a85_ec53) in
    rw
      (
        xor_shift-xor_shift x4 (omega arith),
        unmul_second (xor_shift x2) (xor_shift-IsWord x2 (omega arith)),
        xor_shift-xor_shift x2 (omega arith),
        unmul_first (xor_shift x) (xor_shift-IsWord x h),
      )
      (xor_shift-xor_shift x h)

-- Two seeds below 2^64 with the same hash are the same.
pub hash_fold64_injective : (x y : ℕ) → IsWord x → IsWord y → hash_fold64 x ≡ hash_fold64 y → x ≡ y
hash_fold64_injective x y hx hy same =
    sym (unfold64-hash_fold64 x hx) ∙ ap unfold64 same ∙ unfold64-hash_fold64 y hy
