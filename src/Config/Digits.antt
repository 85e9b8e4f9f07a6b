-- ===== src/Config/Digits.antt =====
-- Pieces of a line, and digits among them.
use mathlib.Core.List.{append-nil, append_assoc}
use e_trace_gen_e_bpfevent_t.Base.{
  ℕ, ◌^◌, ◌<◌, ◌≡◌, refl, sym, ap, ◌∙◌, true, false, ◌==◌, ltb, if◌then◌else◌, List, [], ◌∷◌, ◌++◌,
  some, All, arith, is_space, strip_back, to_string, to_string_lem, IsDigit, leading_number,
}
use e_trace_gen_e_bpfevent_t.Util.Proc.{stoull}
use e_trace_gen_e_bpfevent_t.Config.Text.{getlines, strip_front, trim}

-- A piece without the separator, before it and at the end.
pub getlines-piece :
    (d : ℕ) (acc t s : List ℕ)
    → All (λ c. (c == d) ≡ false) t
    → getlines d acc (t ++ (d ∷ s)) ≡ (acc ++ t) ∷ getlines d [] s
unfolding getlines
getlines-piece d acc [] s h =
    ap (λ b. if b then acc ∷ getlines d [] s else getlines d (acc ++ (d ∷ [])) s) (itself d)
    ∙ ap (λ a. a ∷ getlines d [] s) (sym (append-nil acc))
  where
    itself : (n : ℕ) → (n == n) ≡ true
    itself n = ground arith
getlines-piece d acc (c ∷ t) s h =
    ap
      (λ b.
        if b
        then acc ∷ getlines d [] (t ++ (d ∷ s))
        else getlines d (acc ++ (c ∷ [])) (t ++ (d ∷ s)))
      h.0
    ∙ getlines-piece d (acc ++ (c ∷ [])) t s h.1
    ∙ ap (λ a. a ∷ getlines d [] s) (append_assoc acc (c ∷ []) t)

getlines_end :
    (d : ℕ) (acc : List ℕ) (c : ℕ) → getlines d (acc ++ (c ∷ [])) [] ≡ (acc ++ (c ∷ [])) ∷ []
unfolding getlines
getlines_end d [] c = refl
getlines_end d (a ∷ acc) c = refl

pub getlines-last :
    (d c : ℕ) (acc t : List ℕ)
    → All (λ b. (b == d) ≡ false) (c ∷ t)
    → getlines d acc (c ∷ t) ≡ (acc ++ (c ∷ t)) ∷ []
unfolding getlines
getlines-last d c acc [] h =
    ap (λ b. if b then acc ∷ [] else getlines d (acc ++ (c ∷ [])) []) h.0 ∙ getlines_end d acc c
getlines-last d c acc (b ∷ t) h =
    ap (λ e. if e then acc ∷ getlines d [] (b ∷ t) else getlines d (acc ++ (c ∷ [])) (b ∷ t)) h.0
    ∙ getlines-last d b (acc ++ (c ∷ [])) t h.1
    ∙ ap (λ a. a ∷ []) (append_assoc acc (c ∷ []) (b ∷ t))

pub digit-plain :
    (c : ℕ)
    → IsDigit c
    → ((c == 44) ≡ false)
      × ((c == 93) ≡ false)
      × (is_space c ≡ false)
      × ((c == 45) ≡ false)
      × ((c == 43) ≡ false)
digit-plain c h = (ground arith, ground arith, ground arith, ground arith, ground arith)

pub digits-plain :
    (d : ℕ)
    → ((c : ℕ) → IsDigit c → (c == d) ≡ false)
    → (s : List ℕ) → All IsDigit s
    → All (λ c. (c == d) ≡ false) s
digits-plain d other [] h = tt
digits-plain d other (c ∷ s) h = (other c h.0, digits-plain d other s h.1)

-- White space is not there to be stripped.
strip_back-digits : (s : List ℕ) → All IsDigit s → strip_back is_space s ≡ s
unfolding strip_back
strip_back-digits [] h = refl
strip_back-digits (c ∷ []) h = ap (λ b. if b then [] else c ∷ []) ((digit-plain c h.0).2)
strip_back-digits (c ∷ d ∷ s) h = rw (strip_back-digits (d ∷ s) h.1) refl

trim-digits : (c : ℕ) (s : List ℕ) → All IsDigit (c ∷ s) → trim (c ∷ s) ≡ c ∷ s
unfolding trim strip_front
trim-digits c s h =
    ap (λ b. strip_back is_space (if b then strip_front s else c ∷ s)) ((digit-plain c h.0).2)
    ∙ strip_back-digits (c ∷ s) h

trim-spaced : (c : ℕ) (s : List ℕ) → All IsDigit (c ∷ s) → trim (32 ∷ c ∷ s) ≡ c ∷ s
unfolding trim strip_front
trim-spaced c s h = trim-digits c s h

stoull-digits :
    (n c : ℕ) (s : List ℕ)
    → n < 2 ^ 64
    → All IsDigit (c ∷ s)
    → leading_number 0 (c ∷ s) ≡ n
    → stoull (c ∷ s) ≡ some n
unfolding stoull
stoull-digits n c s h digits value =
    let plain = digit-plain c digits.0 in
    let small : ltb (leading_number 0 (c ∷ s)) (2 ^ 64) ≡ true = rw value (ground arith) in
    rw (plain.3, plain.4, digits.0, small) (ap some value)

-- A printed number, with a space in front of it or not.
pub read_item :
    (n : ℕ)
    → n < 2 ^ 64
    → (stoull (trim (to_string n)) ≡ some n) × (stoull (trim (32 ∷ to_string n)) ≡ some n)
read_item n h =
    let (c, s, is, digits, value) = to_string_lem n h in
    let read = stoull-digits n c s h digits value in
    (
      ap (λ t. stoull (trim t)) is ∙ ap stoull (trim-digits c s digits) ∙ read,
      ap (λ t. stoull (trim (32 ∷ t))) is ∙ ap stoull (trim-spaced c s digits) ∙ read,
    )
