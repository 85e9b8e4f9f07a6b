-- ===== src/Base/Text.antt =====
-- Text as bytes: literals, decimal numbers, and what stands before or after white space.
use Prim.Native.Char.{code}
use Prim.Native.String.{String}
use Prim.Native.Nat.{ℕ, zero, suc, ◌+◌, ◌-◌, ◌*◌, ◌/◌, ◌%◌}
use mathlib.Core.Bool.{Bool, ◌&&◌, ◌||◌}
use mathlib.Core.List.{List, [], ◌∷◌, ◌++◌}
use e_trace_gen_e_bpfevent_t.Base.Tests.{leb, ◌==◌, if◌then◌else◌}

-- The bytes of an ASCII text.
abbrev pub codes : String → List ℕ
codes String.[] = []
codes (String.◌∷◌ c s) = code c ∷ codes s

-- The decimal digits of a number, before a text.
unfoldable pub decimal : ℕ → ℕ → List ℕ → List ℕ
decimal zero n text = text
decimal (suc fuel) n text =
    let more = decimal fuel (n / 10) ((48 + n % 10) ∷ text) in
    if n / 10 == 0 then (48 + n % 10) ∷ text else more

-- `std::to_string` of an unsigned number: 20 digits hold every number of 64 bits.
unfoldable pub to_string : ℕ → List ℕ
to_string n = decimal 20 n []

abbrev pub is_digit : ℕ → Bool
is_digit c = leb 48 c && leb c 57

-- `isspace` in the C locale.
abbrev pub is_space : ℕ → Bool
is_space c = c == 32 || leb 9 c && leb c 13

-- Without the bytes at the end that satisfy a test.
unfoldable pub strip_back : (ℕ → Bool) → List ℕ → List ℕ
strip_back test [] = []
strip_back test (c ∷ s) = elim (strip_back test s) [
  | [] ↦ if test c then [] else c ∷ []
  | d ∷ kept ↦ c ∷ d ∷ kept
]

-- The pieces between white space.
unfoldable pub tokens : List ℕ → List ℕ → List (List ℕ)
tokens [] [] = []
tokens (a ∷ acc) [] = (a ∷ acc) ∷ []
tokens [] (c ∷ s) =
    let next = tokens (c ∷ []) s in let rest = tokens [] s in if is_space c then rest else next
tokens (a ∷ acc) (c ∷ s) =
    let next = tokens ((a ∷ acc) ++ (c ∷ [])) s in
    let rest = tokens [] s in if is_space c then (a ∷ acc) ∷ rest else next

-- The number at the front of a text, and whether there is a digit.
unfoldable pub leading_number : ℕ → List ℕ → ℕ
leading_number n [] = n
leading_number n (c ∷ s) =
    let more = leading_number (n * 10 + (c - 48)) s in if is_digit c then more else n
