-- ===== src/Config/Allowlist.antt =====
-- A list of numbers in brackets, printed and read back by the parser of the allowlists.
use mathlib.Core.List.{append-nil, append_assoc}
use e_trace_gen_e_bpfevent_t.Base.{
  ℕ, ◌+◌, ◌-◌, ◌^◌, ◌<◌, ◌≡◌, refl, sym, ap, ◌∙◌, Bool, true, false, ◌==◌, ltb, if◌then◌else◌, List,
  [], ◌∷◌, ◌++◌, Option, none, some, All, take, drop, length, arith, to_string, to_string-digits,
  All-append, IsDigit, subst, leb, Bool-cases, inl, inr,
}
use e_trace_gen_e_bpfevent_t.Util.Proc.{stoull}
use e_trace_gen_e_bpfevent_t.Config.Text.{getlines, trim, index_of}
use e_trace_gen_e_bpfevent_t.Config.Runtime.{bracketed, add_uint32, parse_uint32_allowlist}
use e_trace_gen_e_bpfevent_t.Config.Digits.{
  getlines-piece, getlines-last, digit-plain, digits-plain, read_item,
}

-- The numbers, with a comma and a space between two of them, in brackets.
abbrev pub items : List ℕ → List ℕ
items [] = []
items (n ∷ []) = to_string n
items (n ∷ m ∷ ns) = to_string n ++ (44 ∷ 32 ∷ items (m ∷ ns))

abbrev pub printed : List ℕ → List ℕ
printed ns = 91 ∷ (items ns ++ (93 ∷ []))

-- The numbers that fit 32 bits.
abbrev pub fitting : List ℕ → List ℕ
fitting [] = []
fitting (n ∷ ns) = let rest = fitting ns in if ltb n (2 ^ 32) then n ∷ rest else rest

-- The pieces of the printed list: the first has no space in front.
abbrev pieces : List ℕ → List (List ℕ)
pieces [] = []
pieces (n ∷ ns) = (32 ∷ to_string n) ∷ pieces ns

to_string-IsDigit : (n : ℕ) → All IsDigit (to_string n)
to_string-IsDigit n =
    let (c, s, is, digits) = to_string-digits n in subst (All IsDigit) (sym is) digits

-- The pieces of the list.
split_items :
    (n : ℕ) (ns acc : List ℕ) → getlines 44 acc (items (n ∷ ns)) ≡ (acc ++ to_string n) ∷ pieces ns
unfolding getlines
split_items n [] acc =
    let (c, s, is, digits) = to_string-digits n in
    subst (λ t. getlines 44 acc t ≡ (acc ++ t) ∷ []) (sym is)
      (getlines-last 44 c acc s (digits-plain 44 (λ b h. (digit-plain b h).0) (c ∷ s) digits))
split_items n (m ∷ ns) acc =
    getlines-piece 44 acc (to_string n) (32 ∷ items (m ∷ ns))
      (digits-plain 44 (λ b h. (digit-plain b h).0) (to_string n) (to_string-IsDigit n))
    ∙ ap (λ rest. (acc ++ to_string n) ∷ rest) (split_items m ns (32 ∷ []))

add_item :
    (token : List ℕ) (tokens : List (List ℕ)) (n : ℕ) (out : List ℕ)
    → stoull (trim token) ≡ some n
    → add_uint32 (token ∷ tokens) out
      ≡ add_uint32 tokens (if ltb n (2 ^ 32) then out ++ (n ∷ []) else out)
unfolding add_uint32
add_item token tokens n out is =
    ap
      (λ o. elim o [
        | none ↦ add_uint32 tokens out
        | some k ↦ add_uint32 tokens (if ltb k (2 ^ 32) then out ++ (k ∷ []) else out)
      ])
      is

add_fitting :
    (n : ℕ) (ns out : List ℕ)
    → (if ltb n (2 ^ 32) then out ++ (n ∷ []) else out) ++ fitting ns ≡ out ++ fitting (n ∷ ns)
add_fitting n ns out = elim (Bool-cases (ltb n (2 ^ 32))) [
  | inl fits ↦ rw fits (append_assoc out (n ∷ []) (fitting ns))
  | inr big ↦ rw big refl
]

add_pieces :
    (ns out : List ℕ) → All (λ m. m < 2 ^ 64) ns → add_uint32 (pieces ns) out ≡ out ++ fitting ns
unfolding add_uint32
add_pieces [] out h = sym (append-nil out)
add_pieces (n ∷ ns) out h =
    add_item (32 ∷ to_string n) (pieces ns) n out (read_item n h.0).1
    ∙ add_pieces ns (if ltb n (2 ^ 32) then out ++ (n ∷ []) else out) h.1
    ∙ add_fitting n ns out

-- What `index_of` makes of an index in the rest.
abbrev later : Option ℕ → Option ℕ
later none = none
later (some i) = some (i + 1)

index_of-later :
    (d : ℕ) (s : List ℕ)
    → All (λ c. (c == d) ≡ false) s
    → index_of d (s ++ (d ∷ [])) ≡ some (length s)
unfolding index_of
index_of-later d [] h = ap (λ (b : Bool). if◌then◌else◌ {A = Option ℕ} b (some 0) none) (itself d)
  where
    itself : (n : ℕ) → (n == n) ≡ true
    itself n = ground arith
index_of-later d (c ∷ s) h =
    ap
      (λ (b : Bool).
        if◌then◌else◌ {A = Option ℕ} b (some 0)
          (elim (index_of d (s ++ (d ∷ []))) [ none ↦ none | some i ↦ some (i + 1) ]))
      h.0
    ∙ ap later (index_of-later d s h.1)
    ∙ ap some (omega arith)

items-plain : (ns : List ℕ) → All (λ c. (c == 93) ≡ false) (items ns)
items-plain [] = tt
items-plain (n ∷ []) =
    digits-plain 93 (λ b h. (digit-plain b h).1) (to_string n) (to_string-IsDigit n)
items-plain (n ∷ m ∷ ns) =
    All-append (λ c. (c == 93) ≡ false) (to_string n) (44 ∷ 32 ∷ items (m ∷ ns))
      (digits-plain 93 (λ b h. (digit-plain b h).1) (to_string n) (to_string-IsDigit n))
      (refl, (refl, items-plain (m ∷ ns)))

take-front : (s t : List ℕ) → take (length s) (s ++ t) ≡ s
take-front [] t = refl
take-front (c ∷ s) t = ap (λ r. c ∷ r) (take-front s t)

front-cut :
    (s t : List ℕ)
    → (if leb (length s + 1) 0 then none else some (take (length s + 1 - 0 - 1) (s ++ t))) ≡ some s
front-cut s t = rw (count (length s), nonzero (length s)) (ap some (take-front s t))
  where
    count : (n : ℕ) → n + 1 - 0 - 1 ≡ n
    count n = omega arith

    nonzero : (n : ℕ) → leb (n + 1) 0 ≡ false
    nonzero n = ground arith

bracketed-printed : (ns : List ℕ) → bracketed (printed ns) ≡ some (items ns)
unfolding bracketed index_of
bracketed-printed ns =
    ap
      (λ o. elim (later o) [
        | none ↦ none
        | some r ↦ if leb r 0 then none else some (take (r - 0 - 1) (drop 1 (printed ns)))
      ])
      (index_of-later 93 (items ns) (items-plain ns))
    ∙ front-cut (items ns) (93 ∷ [])

read_back :
    (ns out : List ℕ)
    → All (λ n. n < 2 ^ 64) ns
    → add_uint32 (getlines 44 [] (items ns)) out ≡ out ++ fitting ns
unfolding getlines add_uint32
read_back [] out h = sym (append-nil out)
read_back (n ∷ ns) out h =
    ap (λ ts. add_uint32 ts out) (split_items n ns [])
    ∙ add_item (to_string n) (pieces ns) n out (read_item n h.0).0
    ∙ add_pieces ns (if ltb n (2 ^ 32) then out ++ (n ∷ []) else out) h.1
    ∙ add_fitting n ns out

-- A list of 64-bit numbers, printed in brackets with a comma and a space between two of them, is
-- read back as those of its numbers that fit 32 bits, in their order, behind the entries that the
-- list had before.
pub parse_uint32_allowlist-printed :
    (ns out : List ℕ)
    → All (λ n. n < 2 ^ 64) ns
    → parse_uint32_allowlist (printed ns) out ≡ out ++ fitting ns
unfolding parse_uint32_allowlist
parse_uint32_allowlist-printed ns out h =
    ap (λ o. elim o [ none ↦ out | some body ↦ add_uint32 (getlines 44 [] body) out ])
      (bracketed-printed ns)
    ∙ read_back ns out h
