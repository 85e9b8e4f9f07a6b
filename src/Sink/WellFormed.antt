-- ===== src/Sink/WellFormed.antt =====
-- Numbers, texts and bytes in the scan of a line.
use e_trace_gen_e_bpfevent_t.Base.{
  if_both, ℕ, ℤ, pos, negsuc, suc, ◌+◌, ◌/◌, ◌%◌, ◌<◌, ◌≡◌, refl, ap, ◌∙◌, true, false, ◌==◌, ltb,
  if_keeps, List, [], ◌∷◌, ◌++◌, All, arith, to_string, to_string-digits, IsDigit,
}
use e_trace_gen_e_bpfevent_t.Sink.Escape.{escape_byte, json_escape, bytes_to_hex, hex_digit}
use e_trace_gen_e_bpfevent_t.Sink.Body.{integer_text}
use e_trace_gen_e_bpfevent_t.Sink.Json.{Place, is_hex, step, scan}

pub scan-append : (place : Place) (s t : List ℕ) → scan place (s ++ t) ≡ scan (scan place s) t
unfolding scan
scan-append place [] t = refl
scan-append place (c ∷ s) t = scan-append (step place c) s t

hex_digit-hex : (d : ℕ) → d < 16 → is_hex (hex_digit d) ≡ true
hex_digit-hex d h = ground arith

-- Digits stay in a number.
scan-digits : (d : ℕ) (s : List ℕ) → All IsDigit s → scan (Place.in_number d) s ≡ Place.in_number d
unfolding scan step
scan-digits d [] h = refl
scan-digits d (c ∷ s) h = rw (h.0) (scan-digits d s h.1)

value-digit : (d c : ℕ) → IsDigit c → step (Place.value d) c ≡ Place.in_number d
unfolding step
value-digit d c h = ground (arith, h)

minus-digit : (d c : ℕ) → IsDigit c → step (Place.minus d) c ≡ Place.in_number d
unfolding step
minus-digit d c h = ground (arith, h)

pub scan-number : (d n : ℕ) → scan (Place.value d) (to_string n) ≡ Place.in_number d
unfolding scan step
scan-number d n =
    let (c, s, is, digits) = to_string-digits n in
    ap (scan (Place.value d)) is
    ∙ ap (λ p. scan p s) (value-digit d c digits.0)
    ∙ scan-digits d s digits.1

pub scan-integer : (d : ℕ) (z : ℤ) → scan (Place.value d) (integer_text z) ≡ Place.in_number d
unfolding integer_text scan step
scan-integer d (pos n) = scan-number d n
scan-integer d (negsuc n) =
    let (c, s, is, digits) = to_string-digits (n + 1) in
    ap (scan (Place.minus d)) is
    ∙ ap (λ p. scan p s) (minus-digit d c digits.0)
    ∙ scan-digits d s digits.1

text-hex : (d e : ℕ) → e < 16 → step (Place.in_text d) (hex_digit e) ≡ Place.in_text d
unfolding step
text-hex d e h = ground arith

unicode-hex :
    (k d e : ℕ) → e < 16 → step (Place.unicode (suc k) d) (hex_digit e) ≡ Place.unicode k d
unfolding step
unicode-hex k d e h = rw (hex_digit-hex e h) refl

unicode-end : (d e : ℕ) → e < 16 → step (Place.unicode 0 d) (hex_digit e) ≡ Place.in_text d
unfolding step
unicode-end d e h = rw (hex_digit-hex e h) refl

-- Four hexadecimal digits.
scan-unicode :
    (d a b e f : ℕ)
    → a < 16
    → b < 16
    → e < 16
    → f < 16
    → scan (Place.unicode 3 d) (hex_digit a ∷ hex_digit b ∷ hex_digit e ∷ hex_digit f ∷ [])
      ≡ Place.in_text d
unfolding scan
scan-unicode d a b e f ha hb he hf =
    ap (λ p. step (step (step p (hex_digit b)) (hex_digit e)) (hex_digit f)) (unicode-hex 2 d a ha)
    ∙ ap (λ p. step (step p (hex_digit e)) (hex_digit f)) (unicode-hex 1 d b hb)
    ∙ ap (λ p. step p (hex_digit f)) (unicode-hex 0 d e he)
    ∙ unicode-end d f hf

pub plain-byte :
    (d c : ℕ)
    → (c == 34) ≡ false
    → (c == 92) ≡ false
    → ltb c 32 ≡ false
    → step (Place.in_text d) c ≡ Place.in_text d
unfolding step
plain-byte d c quote backslash control = rw (quote, backslash, control) refl

-- An escaped byte stays in its string.
scan-escape_byte : (d c : ℕ) → scan (Place.in_text d) (escape_byte c) ≡ Place.in_text d
unfolding escape_byte scan step
scan-escape_byte d c =
    let P : List ℕ → Type 0 = λ s. scan (Place.in_text d) s ≡ Place.in_text d in
    if_both P (c == 34) (λ h. refl)
      (λ quote.
        if_both P (c == 92) (λ h. refl)
          (λ backslash. if_keeps P (c == 8) refl (
            if_keeps P (c == 12) refl (
              if_keeps P (c == 10) refl (
                if_keeps P (c == 13) refl (
                  if_keeps P (c == 9) refl (
                    if_both P (ltb c 32)
                      (λ h.
                        scan-unicode d (c / 4096 % 16) (c / 256 % 16) (c / 16 % 16) (c % 16)
                          (omega arith) (omega arith) (omega arith) (omega arith))
                      (λ control. plain-byte d c quote backslash control))))))))

pub scan-escaped : (d : ℕ) (s : List ℕ) → scan (Place.in_text d) (json_escape s) ≡ Place.in_text d
unfolding json_escape scan
scan-escaped d [] = refl
scan-escaped d (c ∷ s) =
    scan-append (Place.in_text d) (escape_byte c) (json_escape s)
    ∙ ap (λ p. scan p (json_escape s)) (scan-escape_byte d c)
    ∙ scan-escaped d s

pub scan-hex : (d : ℕ) (s : List ℕ) → scan (Place.in_text d) (bytes_to_hex s) ≡ Place.in_text d
unfolding bytes_to_hex scan
scan-hex d [] = refl
scan-hex d (b ∷ s) =
    ap (λ p. scan (step p (hex_digit (b % 16))) (bytes_to_hex s))
      (text-hex d (b / 16 % 16) (omega arith))
    ∙ ap (λ p. scan p (bytes_to_hex s)) (text-hex d (b % 16) (omega arith))
    ∙ scan-hex d s
