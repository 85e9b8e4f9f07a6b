-- ===== src/Kernel/Network/AbstractName.antt =====
-- The string that an endpoint carries for a UNIX socket with an abstract name.
use e_trace_gen_e_bpfevent_t.Base.{
  if_keeps, ℕ, zero, suc, List, [], ◌∷◌, ◌≡◌, ◌<◌, ◌≤◌, ◌+◌, ◌-◌, ◌^◌, min, refl, ap, sym, ◌∙◌,
  arith, true, false, Bool-cases, inl, inr, ◌==◌, leb, length, length-set, set, get_or, take, drop,
  c_str, get_or-set, get_or-set_other, ==_iff,
}
use e_trace_gen_e_bpfevent_t.Schema.Kinds.{unix_path_len}
use e_trace_gen_e_bpfevent_t.Kernel.Network.Endpoint.{
  past_end, has_name, copy_abstract, copy_unix_sockaddr_path,
}
use e_trace_gen_e_bpfevent_t.Kernel.Network.EndpointForm.{copy_abstract-inside}
use e_trace_gen_e_bpfevent_t.Kernel.Network.UnixPath.{
  c_str-zero, c_str-step, past_end_lem, source, source-stop, source-nul, source-byte,
}

-- The buffer with the terminator at the place that the loop reached.
abbrev closed : List ℕ × ℕ → List ℕ
closed r = set r.0 r.1 0

module _ (path : List ℕ) (path_len : ℕ) (small : path_len < 2 ^ 31) where
  -- What stands before both indices stays, and the write index only grows.
  copy_abstract-before :
      (rounds i j k : ℕ) (out : List ℕ)
      → k < j
      → (j ≤ (copy_abstract path path_len rounds i j out).1)
        × (get_or (copy_abstract path path_len rounds i j out).0 k 0 ≡ get_or out k 0)
  unfolding copy_abstract
  copy_abstract-before zero i j k out before = (omega arith, refl)
  copy_abstract-before (suc rounds) i j k out before =
      if_keeps (λ (r : List ℕ × ℕ). (j ≤ r.1) × (get_or r.0 k 0 ≡ get_or out k 0))
        (past_end path_len i) (omega arith, refl)
        (if_keeps (λ (r : List ℕ × ℕ). (j ≤ r.1) × (get_or r.0 k 0 ≡ get_or out k 0))
          (get_or path i 0 == 0) (omega arith, refl)
          (let rest =
              copy_abstract-before rounds (i + 1) (j + 1) k (set out j (get_or path i 0))
                (omega arith) in
            (
              omega (arith, rest.0),
              rest.1 ∙ get_or-set_other out k j (get_or path i 0) (omega arith),
            )))

  abstract_past :
      (rounds i j : ℕ) (out : List ℕ)
      → leb path_len i ≡ true
      → copy_abstract path path_len (suc rounds) i j out ≡ (out, j)
  unfolding copy_abstract
  abstract_past rounds i j out past = rw (past_end_lem path path_len small i, past) refl

  abstract_nul :
      (rounds i j : ℕ) (out : List ℕ)
      → leb path_len i ≡ false
      → get_or path i 0 ≡ 0
      → copy_abstract path path_len (suc rounds) i j out ≡ (out, j)
  unfolding copy_abstract
  abstract_nul rounds i j out inside nul = rw (past_end_lem path path_len small i, inside, nul) refl

  abstract_byte :
      (rounds i j : ℕ) (out : List ℕ)
      → leb path_len i ≡ false
      → (get_or path i 0 == 0) ≡ false
      → copy_abstract path path_len (suc rounds) i j out
        ≡ copy_abstract path path_len rounds (suc i) (suc j) (set out j (get_or path i 0))
  unfolding copy_abstract
  abstract_byte rounds i j out inside more =
      rw (past_end_lem path path_len small i, inside, more, next i, next j) refl
    where
      next : (n : ℕ) → n + 1 ≡ suc n
      next n = omega arith

  module _ (m : ℕ) (m_is : m ≡ min path_len (unix_path_len - 1))
      (long : path_len ≤ length path) where
    closed_here : (i : ℕ) (out : List ℕ) → i < length out → c_str (drop i (set out i 0)) ≡ []
    closed_here i out inside =
        c_str-zero (set out i 0) i (omega (arith, length-set out i 0 inside))
          (get_or-set out i 0 0 inside)

    named_byte :
        (rounds i c : ℕ) (out : List ℕ)
        → suc i + rounds < unix_path_len
        → i < m
        → length out ≡ unix_path_len
        → get_or path i 0 ≡ c
        → (c == 0) ≡ false
        → c_str (
            drop
              (suc i)
              (closed (copy_abstract path path_len rounds (suc i) (suc i) (set out i c))))
          ≡ source path path_len small m (suc i)
        → c_str (drop i (closed (copy_abstract path path_len rounds (suc i) (suc i) (set out i c))))
          ≡ source path path_len small m i
    named_byte rounds i c out room before fits at more rest =
        let copy = copy_abstract path path_len rounds (suc i) (suc i) (set out i c) in
        let kept = copy_abstract-before rounds (suc i) (suc i) i (set out i c) (omega arith) in
        let first = length-set out i c (omega arith) in
        let inside =
          copy_abstract-inside path path_len rounds (suc i) (suc i) (set out i c)
            (omega (arith, first, room)) in
        c_str-step (closed copy) i c
          (omega (
            arith,
            first,
            inside.0,
            length-set copy.0 copy.1 0 (omega (arith, first, inside.0, inside.1, room)),
          ))
          (get_or-set_other copy.0 i copy.1 0 (omega (arith, kept.0))
            ∙ kept.1
            ∙ get_or-set out i c 0 (omega arith))
          more
        ∙ ap (λ s. c ∷ s) rest
        ∙ sym (
            source-byte path path_len small m i before (omega arith) (rw at more)
            ∙ ap (λ b. b ∷ source path path_len small m (suc i)) at)

    named :
        (rounds i : ℕ) (out : List ℕ)
        → i + rounds ≡ unix_path_len - 1
        → i ≤ m
        → length out ≡ unix_path_len
        → c_str (drop i (closed (copy_abstract path path_len rounds i i out)))
          ≡ source path path_len small m i
    unfolding copy_abstract
    named zero i out sum le fits =
        closed_here i out (omega arith)
        ∙ sym (
            ap (λ n. source path path_len small m n) (here i le sum)
            ∙ source-stop path path_len small m)
      where
        here : (i : ℕ) → i ≤ m → i + 0 ≡ unix_path_len - 1 → i ≡ m
        here i le sum = omega arith
    named (suc rounds) i out sum le fits = elim (Bool-cases (leb path_len i)) [
      | inl past ↦
          let here : i ≡ m = ground arith in
          rw (abstract_past rounds i i out past) (
            closed_here i out (omega arith)
            ∙ sym
                (ap (λ n. source path path_len small m n) here ∙ source-stop path path_len small m))
      | inr inside ↦ elim (Bool-cases (get_or path i 0 == 0)) [
        | inl nul ↦
            let is_nul = (==_iff (get_or path i 0) 0).0 nul in
            rw (abstract_nul rounds i i out inside is_nul) (
              closed_here i out (omega arith)
              ∙ sym (source-nul path path_len small m i (ground arith) (ground arith) is_nul))
        | inr more ↦ rw (abstract_byte rounds i i out inside more) (
            named_byte rounds i (get_or path i 0) out (omega arith) (ground arith) fits refl more (
              named rounds (suc i) (set out i (get_or path i 0)) (omega arith) (ground arith)
                (length-set out i (get_or path i 0) (omega arith) ∙ fits)))
      ]
    ]

-- A name that starts with a byte is found at once.
has_name_first :
    (path : List ℕ) (path_len rounds : ℕ)
    → path_len < 2 ^ 31
    → leb path_len 1 ≡ false
    → (get_or path 1 0 == 0) ≡ false
    → has_name path path_len (suc rounds) 1 ≡ true
unfolding has_name
has_name_first path path_len rounds small long_enough more =
    rw (past_end_lem path path_len small 1, long_enough, more) refl

-- The branch of an abstract name.
abstract_steps :
    (path : List ℕ) (path_len : ℕ) (out : List ℕ)
    → (path_len == 0) ≡ false
    → (get_or path 0 0 == 0) ≡ true
    → has_name path path_len (unix_path_len - 1) 1 ≡ true
    → copy_unix_sockaddr_path path path_len out
      ≡ closed (copy_abstract path path_len (unix_path_len - 2) 1 1 (set out 0 b'@'))
unfolding copy_unix_sockaddr_path
abstract_steps path path_len out some_len is_abstract has = rw (some_len, is_abstract, has) refl

-- What the copy loop leaves.
abbrev copied_name : List ℕ → ℕ → List ℕ → List ℕ × ℕ
copied_name path path_len out = copy_abstract path path_len (unix_path_len - 2) 1 1 (set out 0 b'@')

-- For a UNIX address that starts with NUL and goes on with another byte, the endpoint's path is `@`
-- followed by the abstract name: the bytes after the NUL up to the given length, to the next NUL,
-- and to the buffer's end, whichever comes first. The length is above 1 and below 2^31, the address
-- has as many bytes, and the endpoint's buffer has 108.
pub copy_unix_sockaddr_path-abstract :
    (path : List ℕ) (path_len : ℕ) (out : List ℕ)
    → path_len < 2 ^ 31
    → path_len ≤ length path
    → 1 < path_len
    → get_or path 0 0 ≡ 0
    → (get_or path 1 0 == 0) ≡ false
    → length out ≡ unix_path_len
    → c_str (copy_unix_sockaddr_path path path_len out)
      ≡ b'@' ∷ c_str (take (min path_len (unix_path_len - 1) - 1) (drop 1 path))
copy_unix_sockaddr_path-abstract path path_len out small long some_len is_abstract more fits =
    ap c_str (
      abstract_steps path path_len out (ground arith) (ground arith)
        (has_name_first path path_len (unix_path_len - 2) small (ground arith) more))
    ∙ c_str-step (closed (copied_name path path_len out)) 0 b'@'
        (omega (
          arith,
          length-set (copied_name path path_len out).0 (copied_name path path_len out).1 0
              (omega (arith, inside.0, inside.1, first)),
          inside.0,
          first,
        ))
        (get_or-set_other (copied_name path path_len out).0 0 (copied_name path path_len out).1 0
            (omega (arith, kept.0))
          ∙ kept.1
          ∙ get_or-set out 0 b'@' 0 (omega arith))
        refl
    ∙ ap (λ s. b'@' ∷ s)
        (named path path_len small (min path_len (unix_path_len - 1)) refl long (unix_path_len - 2)
          1 (set out 0 b'@') refl (ground arith) (first ∙ fits))
  where
    kept :
        (1 ≤ (copied_name path path_len out).1)
        × (get_or (copied_name path path_len out).0 0 0 ≡ get_or (set out 0 b'@') 0 0)
    kept =
        copy_abstract-before path path_len small (unix_path_len - 2) 1 1 0 (set out 0 b'@')
          (omega arith)

    first : length (set out 0 b'@') ≡ length out
    first = length-set out 0 b'@' (omega arith)

    inside :
        (length (copied_name path path_len out).0 ≡ length (set out 0 b'@'))
        × ((copied_name path path_len out).1 ≤ 1 + (unix_path_len - 2))
    inside =
        copy_abstract-inside path path_len (unix_path_len - 2) 1 1 (set out 0 b'@')
          (omega (arith, first))
