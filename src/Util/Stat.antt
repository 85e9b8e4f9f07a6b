-- ===== src/Util/Stat.antt =====
-- What the stat line of a process gives, whatever its name is.
use mathlib.Core.List.{append-nil, append_assoc}
use e_trace_gen_e_bpfevent_t.Base.{
  All-append, to_string_lem, ℕ, ◌^◌, ◌<◌, ◌≡◌, ◌≢◌, refl, sym, ap, ◌∙◌, false, List, [], ◌∷◌, ◌++◌,
  none, some, length, All, get_or, arith, IsDigit, leading_number, is_space, tokens, to_string,
}
use e_trace_gen_e_bpfevent_t.Util.Proc.{stoull, after_close, parse_start_time_ticks}

stoull-digits :
    (c : ℕ) (s : List ℕ)
    → IsDigit c
    → leading_number 0 (c ∷ s) < 2 ^ 64
    → stoull (c ∷ s) ≡ some (leading_number 0 (c ∷ s))
unfolding stoull
stoull-digits c s digit small = ground arith

-- A number of 64 bits is read back from its decimal digits.
pub stoull-to_string : (n : ℕ) → n < 2 ^ 64 → stoull (to_string n) ≡ some n
stoull-to_string n h =
    let (c, s, is, digits, value) = to_string_lem n h in
    ap stoull is ∙ stoull-digits c s digits.0 (omega (arith, value, h)) ∙ ap some value

abbrev pub IsBlack : ℕ → Type 0
IsBlack c = is_space c ≡ false

tokens-word :
    (acc w rest : List ℕ) (a : ℕ)
    → All IsBlack w
    → tokens (a ∷ acc) (w ++ (32 ∷ rest)) ≡ ((a ∷ acc) ++ w) ∷ tokens [] rest
unfolding tokens
tokens-word acc [] rest a h = rw (append-nil acc) refl
tokens-word acc (c ∷ w) rest a h = rw (h.0) (
    tokens-word (acc ++ (c ∷ [])) w rest a h.1
    ∙ ap (λ l. (a ∷ l) ∷ tokens [] rest) (append_assoc acc (c ∷ []) w))

-- The fields, each followed by a space.
abbrev pub spaced : List (List ℕ) → List ℕ
spaced [] = []
spaced (w ∷ ws) = w ++ (32 ∷ spaced ws)

abbrev pub IsField : List ℕ → Type 0
IsField w = (w ≢ []) × All IsBlack w × All (λ c. c ≢ 41) w

tokens-field : (w rest : List ℕ) → IsField w → tokens [] (w ++ (32 ∷ rest)) ≡ w ∷ tokens [] rest
unfolding tokens
tokens-field [] rest h = absurd (h.0 refl)
tokens-field (c ∷ w) rest h = rw (h.1.0) (tokens-word [] w rest c h.1.1)

tokens-spaced :
    (ws : List (List ℕ)) (rest : List ℕ)
    → All IsField ws
    → tokens [] (spaced ws ++ rest) ≡ ws ++ tokens [] rest
tokens-spaced [] rest h = refl
tokens-spaced (w ∷ ws) rest h =
    rw (append_assoc w (32 ∷ spaced ws) rest)
      (tokens-field w (spaced ws ++ rest) h.0 ∙ ap (◌∷◌ w) (tokens-spaced ws rest h.1))

spaced-open : (ws : List (List ℕ)) → All IsField ws → All (λ c. c ≢ 41) (spaced ws)
spaced-open [] h = tt
spaced-open (w ∷ ws) h =
    All-append (λ c. c ≢ 41) w (32 ∷ spaced ws) h.0.2 (omega arith, spaced-open ws h.1)

digits-IsBlack : (s : List ℕ) → All IsDigit s → All IsBlack s × All (λ c. c ≢ 41) s
digits-IsBlack [] h = (tt, tt)
digits-IsBlack (c ∷ s) h =
    let (black, others) = digits-IsBlack s h.1 in
    ((ground (arith, h.0), black), (ground (arith, h.0), others))

to_string-IsField : (n : ℕ) → n < 2 ^ 64 → IsField (to_string n)
to_string-IsField n h =
    let (c, s, is, digits, value) = to_string_lem n h in
    rw is ((λ e. cc e), (digits-IsBlack (c ∷ s) digits).0, (digits-IsBlack (c ∷ s) digits).1)

after_close-none : (s : List ℕ) → All (λ c. c ≢ 41) s → after_close s ≡ none
unfolding after_close
after_close-none [] h = refl
after_close-none (c ∷ s) h = ground (arith, after_close-none s h.1)

after_close-last :
    (front s : List ℕ) → All (λ c. c ≢ 41) s → after_close (front ++ (41 ∷ 32 ∷ s)) ≡ some s
unfolding after_close
after_close-last [] s h = ground (arith, after_close-none s h)
after_close-last (c ∷ front) s h = ground (arith, after_close-last front s h)

get_or-append : (xs ys : List (List ℕ)) (y d : List ℕ) → get_or (xs ++ (y ∷ ys)) (length xs) d ≡ y
get_or-append [] ys y d = refl
get_or-append (x ∷ xs) ys y d = get_or-append xs ys y d

parse_found :
    (line rest : List ℕ) (n : ℕ)
    → after_close line ≡ some rest
    → stoull (get_or (tokens [] rest) 19 []) ≡ some n
    → parse_start_time_ticks line ≡ n
unfolding parse_start_time_ticks
parse_found line rest n closed read = ground arith

-- The start time is read from its field whatever stands before: the process name may have any
-- bytes, spaces and parentheses too. After the last `") "` come 19 other fields and the start time
-- below 2^64, each without white space and `)` and followed by a space, then anything without `)`.
pub parse_start_time_ticks_lem :
    (front : List ℕ) (fields : List (List ℕ)) (ticks : ℕ) (rest : List ℕ)
    → length fields ≡ 19
    → All IsField fields
    → ticks < 2 ^ 64
    → All (λ c. c ≢ 41) rest
    → parse_start_time_ticks
        (front ++ (41 ∷ 32 ∷ spaced (fields ++ (to_string ticks ∷ [])) ++ rest))
      ≡ ticks
parse_start_time_ticks_lem front fields ticks rest count hf ht hr =
    let all = fields ++ (to_string ticks ∷ []) in
    let each =
      All-append IsField fields (to_string ticks ∷ []) hf (to_string-IsField ticks ht, tt) in
    let shut = All-append (λ c. c ≢ 41) (spaced all) rest (spaced-open all each) hr in
    let pick : get_or (tokens [] (spaced all ++ rest)) 19 [] ≡ to_string ticks =
      ap (λ l. get_or l 19 [])
        (tokens-spaced all rest each ∙ append_assoc fields (to_string ticks ∷ []) (tokens [] rest))
      ∙ ap (λ i. get_or (fields ++ (to_string ticks ∷ tokens [] rest)) i []) (sym count)
      ∙ get_or-append fields (tokens [] rest) (to_string ticks) [] in
    parse_found _ (spaced all ++ rest) ticks (after_close-last front (spaced all ++ rest) shut)
      (ap stoull pick ∙ stoull-to_string ticks ht)
