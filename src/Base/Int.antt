-- ===== src/Base/Int.antt =====
-- Signed integers over the native numbers, under the library's names (its ℤ stands on the unary ℕ).
use Prim.Native.Nat.{ℕ, ◌-◌, ◌%◌, ◌^◌, ◌<◌}
use mathlib.Core.Path.{◌≡◌}
use mathlib.Core.Bool.{Bool, true, false}
use native.Mathlib.Omega.{arith}
use e_trace_gen_e_bpfevent_t.Base.Tests.{ltb, if◌then◌else◌}

-- `negsuc n` is -(n + 1).
pub data ℤ : Type 0 where
  pos : ℕ → ℤ
  negsuc : ℕ → ℤ

-- `z >= 0` and `z > 0`
abbrev pub is_nonneg : ℤ → Bool
is_nonneg (pos n) = true
is_nonneg (negsuc n) = false

abbrev pub is_positive : ℤ → Bool
is_positive (pos n) = ltb 0 n
is_positive (negsuc n) = false

-- The two's complement bit pattern of an integer at width w.
abbrev pub to_bits : ℕ → ℤ → ℕ
to_bits w (pos n) = n % 2 ^ w
to_bits w (negsuc n) = 2 ^ w - 1 - n % 2 ^ w

-- The integer that a pattern of 32 bits stands for.
abbrev pub signed32 : ℕ → ℤ
signed32 n = if ltb n (2 ^ 31) then pos n else negsuc (2 ^ 32 - 1 - n)

abbrev pub signed64 : ℕ → ℤ
signed64 n = if ltb n (2 ^ 63) then pos n else negsuc (2 ^ 64 - 1 - n)

-- The cast `(__s32)z` of a signed value.
abbrev pub s32 : ℤ → ℤ
s32 z = signed32 (to_bits 32 z)

-- The values of `int32_t`.
abbrev pub IsS32 : ℤ → Type 0
IsS32 (pos n) = n < 2 ^ 31
IsS32 (negsuc n) = n < 2 ^ 31

pub s32-eq_of_IsS32 : (z : ℤ) → IsS32 z → s32 z ≡ z
s32-eq_of_IsS32 (pos n) h = ground arith
s32-eq_of_IsS32 (negsuc n) h = ground arith

pub signed32-IsS32 : (n : ℕ) → n < 2 ^ 32 → IsS32 (signed32 n)
signed32-IsS32 n h = ground arith
