-- ===== src/Sink/ReadBack.antt =====
-- What is escaped is read back.
use e_trace_gen_e_bpfevent_t.Base.{
  ℕ, suc, ◌+◌, ◌*◌, ◌/◌, ◌%◌, ◌<◌, ◌≡◌, refl, ap, sym, ◌∙◌, true, false, ◌==◌, ==_iff, ltb, if_both,
  List, [], ◌∷◌, ◌++◌, some, arith,
}
use e_trace_gen_e_bpfevent_t.Sink.Escape.{escape_byte, json_escape, hex_digit, unicode_escape}
use e_trace_gen_e_bpfevent_t.Sink.Json.{Reading, read, hex_value, cons_to}

hex_value-hex_digit : (d : ℕ) → d < 16 → hex_value (hex_digit d) ≡ some d
hex_value-hex_digit d h = ground arith

read-value :
    (k n c d : ℕ) (t : List ℕ)
    → hex_value c ≡ some d
    → read (Reading.digits (suc k) n) (c ∷ t) ≡ read (Reading.digits k (n * 16 + d)) t
unfolding read
read-value k n c d t h = ground arith

read-last_value :
    (n c d : ℕ) (t : List ℕ)
    → hex_value c ≡ some d
    → n * 16 + d < 256
    → read (Reading.digits 0 n) (c ∷ t) ≡ cons_to (n * 16 + d) (read Reading.plain t)
unfolding read
read-last_value n c d t h small = ground arith

read-digit :
    (k n d : ℕ) (t : List ℕ)
    → d < 16
    → read (Reading.digits (suc k) n) (hex_digit d ∷ t) ≡ read (Reading.digits k (n * 16 + d)) t
read-digit k n d t h = read-value k n (hex_digit d) d t (hex_value-hex_digit d h)

read-last_digit :
    (n d : ℕ) (t : List ℕ)
    → d < 16
    → n * 16 + d < 256
    → read (Reading.digits 0 n) (hex_digit d ∷ t) ≡ cons_to (n * 16 + d) (read Reading.plain t)
read-last_digit n d t h small = read-last_value n (hex_digit d) d t (hex_value-hex_digit d h) small

-- A control byte comes back from its four digits.
read-unicode :
    (c : ℕ) (t : List ℕ)
    → c < 32
    → read Reading.plain (unicode_escape c ++ t) ≡ cons_to c (read Reading.plain t)
unfolding read
read-unicode c t h =
    read-digit 2 0 (c / 4096 % 16)
      (hex_digit (c / 256 % 16) ∷ hex_digit (c / 16 % 16) ∷ hex_digit (c % 16) ∷ t) (omega arith)
    ∙ read-digit 1 (0 * 16 + c / 4096 % 16) (c / 256 % 16)
        (hex_digit (c / 16 % 16) ∷ hex_digit (c % 16) ∷ t) (omega arith)
    ∙ read-digit 0 ((0 * 16 + c / 4096 % 16) * 16 + c / 256 % 16) (c / 16 % 16)
        (hex_digit (c % 16) ∷ t) (omega arith)
    ∙ read-last_digit (((0 * 16 + c / 4096 % 16) * 16 + c / 256 % 16) * 16 + c / 16 % 16) (c % 16) t
        (omega arith) (omega arith)
    ∙ ap (λ x. cons_to x (read Reading.plain t)) (omega arith)

read-plain :
    (c : ℕ) (t : List ℕ)
    → (c == 34) ≡ false
    → (c == 92) ≡ false
    → ltb c 32 ≡ false
    → read Reading.plain (c ∷ t) ≡ cons_to c (read Reading.plain t)
unfolding read
read-plain c t quote backslash control = rw (quote, backslash, control) refl

read-escape_byte :
    (c : ℕ) (t : List ℕ)
    → read Reading.plain (escape_byte c ++ t) ≡ cons_to c (read Reading.plain t)
unfolding escape_byte read
read-escape_byte c t =
    let P : List ℕ → Type 0 = λ s. read Reading.plain (s ++ t) ≡ cons_to c (read Reading.plain t) in
    let back : (k : ℕ)
        → (c == k) ≡ true
        → cons_to k (read Reading.plain t) ≡ cons_to c (read Reading.plain t) =
      λ k h. ap (λ x. cons_to x (read Reading.plain t)) (sym ((==_iff c k).0 h)) in
    if_both P (c == 34) (back 34) (λ quote. if_both P (c == 92) (back 92) (λ backslash.
      if_both P (c == 8) (back 8) (λ h8. if_both P (c == 12) (back 12) (λ h12.
        if_both P (c == 10) (back 10) (λ h10. if_both P (c == 13) (back 13) (λ h13.
          if_both P (c == 9) (back 9) (λ h9.
            if_both P (ltb c 32) (λ h. read-unicode c t (ground arith))
              (λ control. read-plain c t quote backslash control))))))))

-- A JSON string that holds escaped text stands for exactly that text: every quote, backslash and
-- control byte comes back.
pub read-json_escape : (s : List ℕ) → read Reading.plain (json_escape s) ≡ some s
unfolding json_escape read
read-json_escape [] = refl
read-json_escape (c ∷ s) = read-escape_byte c (json_escape s) ∙ ap (cons_to c) (read-json_escape s)
