-- ===== src/Base/Words.antt =====
-- Unsigned words as native numbers below a power of two, and little-endian reads of byte buffers.
use Prim.Native.Nat.{ℕ, ◌+◌, ◌*◌, ◌/◌, ◌%◌, ◌^◌}
use mathlib.Core.List.{List, [], ◌∷◌}
use e_trace_gen_e_bpfevent_t.Base.Lists.{take, drop}
use e_trace_gen_e_bpfevent_t.Base.Tests.{◌==◌, if◌then◌else◌}

abbrev pub u16 : ℕ → ℕ
u16 n = n % 2 ^ 16

abbrev pub u32 : ℕ → ℕ
u32 n = n % 2 ^ 32

abbrev pub u64 : ℕ → ℕ
u64 n = n % 2 ^ 64

-- `x << k` on `__u64`, and `x >> k`.
abbrev pub shl64 : ℕ → ℕ → ℕ
shl64 x k = x * 2 ^ k % 2 ^ 64

abbrev pub shr : ℕ → ℕ → ℕ
shr x k = x / 2 ^ k

-- The number that bytes stand for, least significant first.
unfoldable pub le_value : List ℕ → ℕ
le_value [] = 0
le_value (b ∷ bs) = b + 256 * le_value bs

-- The `n` bytes from offset `off` on.
abbrev pub slice : ℕ → ℕ → List ℕ → List ℕ
slice off n bytes = take n (drop off bytes)

-- A little-endian field of `n` bytes at offset `off`.
unfoldable pub field_at : ℕ → ℕ → List ℕ → ℕ
unfolding le_value
field_at off n bytes = le_value (slice off n bytes)

-- A C string in a buffer: the bytes before the first NUL.
abbrev pub c_str : List ℕ → List ℕ
c_str [] = []
c_str (b ∷ bs) = if b == 0 then [] else b ∷ c_str bs
