-- ===== src/Base/Decimal.antt =====
-- Decimal numbers are read back.
use Prim.Native.Nat.{ℕ, zero, suc, ◌+◌, ◌-◌, ◌*◌, ◌/◌, ◌%◌, ◌^◌, ◌<◌}
use mathlib.Core.Path.{◌≡◌, refl, ◌∙◌, sym, ap, subst}
use mathlib.Core.Bool.{true}
use mathlib.Core.Logic.{inl, inr}
use mathlib.Core.List.{List, [], ◌∷◌, ◌++◌}
use native.Mathlib.Omega.{arith}
use e_trace_gen_e_bpfevent_t.Base.Tests.{◌==◌, if◌then◌else◌, Bool-cases, if_keeps}
use e_trace_gen_e_bpfevent_t.Base.Lists.{All, All-append}
use e_trace_gen_e_bpfevent_t.Base.Text.{decimal, is_digit, to_string, leading_number}

abbrev pub IsDigit : ℕ → Type 0
IsDigit c = is_digit c ≡ true

-- The digits stand before the text that follows.
decimal-append : (f n : ℕ) (s t : List ℕ) → decimal f n (s ++ t) ≡ decimal f n s ++ t
unfolding decimal
decimal-append zero n s t = refl
decimal-append (suc f) n s t = ground (arith, decimal-append f (n / 10) ((48 + n % 10) ∷ s) t)

-- The last digit.
decimal_step :
    (f n : ℕ)
    → decimal (suc f) n []
      ≡ (if n / 10 == 0 then [] else decimal f (n / 10) []) ++ ((48 + n % 10) ∷ [])
unfolding decimal
decimal_step f n = ground (arith, decimal-append f (n / 10) [] ((48 + n % 10) ∷ []))

leading_number-snoc :
    (a c : ℕ) (s : List ℕ)
    → All IsDigit s
    → IsDigit c
    → leading_number a (s ++ (c ∷ [])) ≡ leading_number a s * 10 + (c - 48)
unfolding leading_number
leading_number-snoc a c [] hs hc = ground arith
leading_number-snoc a c (d ∷ s) hs hc =
    ground (arith, leading_number-snoc (a * 10 + (d - 48)) c s hs.1 hc)

last-IsDigit : (n : ℕ) → IsDigit (48 + n % 10)
last-IsDigit n = ground arith

pub decimal-digits : (f n : ℕ) → All IsDigit (decimal f n [])
unfolding decimal
decimal-digits zero n = tt
decimal-digits (suc f) n = rw (decimal_step f n) (
    All-append IsDigit (if n / 10 == 0 then [] else decimal f (n / 10) []) _
      (if_keeps (All IsDigit) (n / 10 == 0) tt (decimal-digits f (n / 10))) (last-IsDigit n, tt))

pow10_suc : (k : ℕ) → 10 ^ suc k ≡ 10 * 10 ^ k
pow10_suc k = omega arith

-- Enough fuel writes the whole number.
pub leading_number-decimal : (f n : ℕ) → n < 10 ^ f → leading_number 0 (decimal f n []) ≡ n
unfolding decimal leading_number
leading_number-decimal zero n h = omega (arith, h)
leading_number-decimal (suc f) n h = elim (Bool-cases (n / 10 == 0)) [
  | inl small ↦ ground arith
  | inr big ↦
      rw (decimal_step f n, big)
        (leading_number-snoc 0 (48 + n % 10) (decimal f (n / 10) []) (decimal-digits f (n / 10))
            (last-IsDigit n)
          ∙ omega (arith, leading_number-decimal f (n / 10) (omega (arith, h, pow10_suc f))))
]

decimal-cons : (f n : ℕ) → (c : ℕ) × (s : List ℕ) × (decimal (suc f) n [] ≡ c ∷ s)
decimal-cons f n = elim (Bool-cases (n / 10 == 0)) [
  | inl small ↦ (48 + n % 10, [], rw (decimal_step f n, small) refl)
  | inr big ↦ rw (decimal_step f n, big) (append_cons (decimal f (n / 10) []) (48 + n % 10))
]
  where
    append_cons : (t : List ℕ) (d : ℕ) → (c : ℕ) × (s : List ℕ) × (t ++ (d ∷ []) ≡ c ∷ s)
    append_cons [] d = (d, [], refl)
    append_cons (c ∷ t) d = (c, t ++ (d ∷ []), refl)

pub to_string-digits :
    (n : ℕ) → (c : ℕ) × (s : List ℕ) × (to_string n ≡ c ∷ s) × All IsDigit (c ∷ s)
unfolding to_string
to_string-digits n =
    let (c, s, is) = decimal-cons 19 n in (c, s, is, subst (All IsDigit) is (decimal-digits 20 n))

-- A number of 64 bits as text: digits, at least one, with the number's value.
pub to_string_lem :
    (n : ℕ)
    → n < 2 ^ 64
    → (c : ℕ) × (s : List ℕ) × (to_string n ≡ c ∷ s)
      × All IsDigit (c ∷ s)
      × (leading_number 0 (c ∷ s) ≡ n)
unfolding to_string
to_string_lem n h =
    let (c, s, is) = decimal-cons 19 n in
    (
      c,
      s,
      is,
      subst (All IsDigit) is (decimal-digits 20 n),
      sym (ap (leading_number 0) is) ∙ leading_number-decimal 20 n (omega (arith, h)),
    )
