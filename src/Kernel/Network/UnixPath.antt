-- ===== src/Kernel/Network/UnixPath.antt =====
-- The string that an endpoint carries for a UNIX socket bound to a pathname.
use e_trace_gen_e_bpfevent_t.Base.{
  if_keeps, ==_iff, ℕ, zero, suc, List, [], ◌∷◌, ◌≡◌, ◌<◌, ◌≤◌, ◌+◌, ◌-◌, ◌^◌, min, refl, ap, sym,
  ◌∙◌, arith, true, false, Bool-cases, inl, inr, ◌==◌, leb, length, length-set, set, get_or, take,
  drop, c_str, get_or-set, get_or-set_other, drop_step, if◌then◌else◌,
}
use e_trace_gen_e_bpfevent_t.Schema.Kinds.{unix_path_len}
use e_trace_gen_e_bpfevent_t.Kernel.Network.Endpoint.{
  past_end, copy_pathname, copy_unix_sockaddr_path,
}
use e_trace_gen_e_bpfevent_t.Kernel.Network.EndpointForm.{length-copy_pathname}

-- A NUL at the front.
pub c_str-zero :
    (bytes : List ℕ) (i : ℕ) → i < length bytes → get_or bytes i 0 ≡ 0 → c_str (drop i bytes) ≡ []
c_str-zero bytes i inside nul = rw (drop_step bytes i 0 inside, nul) refl

-- Another byte at the front.
pub c_str-step :
    (bytes : List ℕ) (i c : ℕ)
    → i < length bytes
    → get_or bytes i 0 ≡ c
    → (c == 0) ≡ false
    → c_str (drop i bytes) ≡ c ∷ c_str (drop (suc i) bytes)
c_str-step bytes i c inside at more = rw (drop_step bytes i 0 inside, at, more) refl

module _ (path : List ℕ) (path_len : ℕ) (small : path_len < 2 ^ 31) where
  pub past_end_lem : (i : ℕ) → past_end path_len i ≡ leb path_len i
  past_end_lem i = ground arith

  -- What stands before the index stays.
  copy_pathname-before :
      (rounds j i : ℕ) (out : List ℕ)
      → i < j
      → get_or (copy_pathname path path_len rounds j out) i 0 ≡ get_or out i 0
  unfolding copy_pathname
  copy_pathname-before zero j i out before = refl
  copy_pathname-before (suc rounds) j i out before =
      if_keeps (λ (r : List ℕ). get_or r i 0 ≡ get_or out i 0) (past_end path_len j) refl
        (if_keeps (λ (r : List ℕ). get_or r i 0 ≡ get_or out i 0) (get_or path j 0 == 0)
          (get_or-set_other out i j (get_or path j 0) (omega arith))
          (copy_pathname-before rounds (j + 1) i (set out j (get_or path j 0)) (omega arith)
            ∙ get_or-set_other out i j (get_or path j 0) (omega arith)))

  -- One round: past the end, at a NUL, and at another byte.
  copy_past :
      (rounds i : ℕ) (out : List ℕ)
      → leb path_len i ≡ true
      → copy_pathname path path_len (suc rounds) i out ≡ out
  unfolding copy_pathname
  copy_past rounds i out past = rw (past_end_lem i, past) refl

  copy_nul :
      (rounds i : ℕ) (out : List ℕ)
      → leb path_len i ≡ false
      → get_or path i 0 ≡ 0
      → copy_pathname path path_len (suc rounds) i out ≡ set out i 0
  unfolding copy_pathname
  copy_nul rounds i out inside nul = rw (past_end_lem i, inside, nul) refl

  copy_byte :
      (rounds i : ℕ) (out : List ℕ)
      → leb path_len i ≡ false
      → (get_or path i 0 == 0) ≡ false
      → copy_pathname path path_len (suc rounds) i out
        ≡ copy_pathname path path_len rounds (suc i) (set out i (get_or path i 0))
  unfolding copy_pathname
  copy_byte rounds i out inside more = rw (past_end_lem i, inside, more, next i) refl
    where
      next : (n : ℕ) → n + 1 ≡ suc n
      next n = omega arith

  -- The string that should be copied, from an index on.
  abbrev pub source : ℕ → ℕ → List ℕ
  source m i = c_str (take (m - i) (drop i path))

  pub source-stop : (m : ℕ) → source m m ≡ []
  source-stop m = rw (self m) refl
    where
      self : (n : ℕ) → n - n ≡ 0
      self n = omega arith

  take-suc :
      (m i : ℕ)
      → i < m
      → i < length path
      → take (m - i) (drop i path) ≡ get_or path i 0 ∷ take (m - suc i) (drop (suc i) path)
  take-suc m i before inside = rw (drop_step path i 0 inside, count m i before) refl
    where
      count : (m i : ℕ) → i < m → m - i ≡ suc (m - suc i)
      count m i h = omega arith

  pub source-nul : (m i : ℕ) → i < m → i < length path → get_or path i 0 ≡ 0 → source m i ≡ []
  source-nul m i before inside nul = rw (take-suc m i before inside, nul) refl

  pub source-byte :
      (m i : ℕ)
      → i < m
      → i < length path
      → (get_or path i 0 == 0) ≡ false
      → source m i ≡ get_or path i 0 ∷ source m (suc i)
  source-byte m i before inside more = rw (take-suc m i before inside, more) refl

  -- The loop from an index on, and the terminator that the code writes behind it.
  module _ (m : ℕ) (m_is : m ≡ min path_len (unix_path_len - 1))
      (long : path_len ≤ length path) where
    -- At the end of the name the terminator is next.
    copied_end :
        (i : ℕ) (out : List ℕ)
        → i ≡ m
        → length out ≡ unix_path_len
        → c_str (drop i (set out m 0)) ≡ source m i
    copied_end i out here fits = rw (here) (
        c_str-zero (set out m 0) m (omega (arith, length-set out m 0 (omega arith)))
          (get_or-set out m 0 0 (omega arith))
        ∙ sym (source-stop m))

    copied_nul :
        (i : ℕ) (out : List ℕ)
        → i < m
        → length out ≡ unix_path_len
        → get_or path i 0 ≡ 0
        → c_str (drop i (set (set out i 0) m 0)) ≡ source m i
    copied_nul i out before fits nul =
        c_str-zero (set (set out i 0) m 0) i
          (let first = length-set out i 0 (omega arith) in
            omega (arith, first, length-set (set out i 0) m 0 (omega (arith, first))))
          (get_or-set_other (set out i 0) i m 0 (omega arith) ∙ get_or-set out i 0 0 (omega arith))
        ∙ sym (source-nul m i before (omega arith) nul)

    -- What one byte adds, given the rest.
    copied_byte :
        (rounds i c : ℕ) (out : List ℕ)
        → suc i + rounds ≤ unix_path_len
        → i < m
        → length out ≡ unix_path_len
        → get_or path i 0 ≡ c
        → (c == 0) ≡ false
        → c_str (drop (suc i) (set (copy_pathname path path_len rounds (suc i) (set out i c)) m 0))
          ≡ source m (suc i)
        → c_str (drop i (set (copy_pathname path path_len rounds (suc i) (set out i c)) m 0))
          ≡ source m i
    copied_byte rounds i c out room before fits at more rest =
        let copy = copy_pathname path path_len rounds (suc i) (set out i c) in
        let first = length-set out i c (omega arith) in
        let kept =
          length-copy_pathname path path_len rounds (suc i) (set out i c)
            (omega (arith, first, room)) in
        c_str-step (set copy m 0) i c
          (omega (arith, first, kept, length-set copy m 0 (omega (arith, first, kept))))
          (get_or-set_other copy i m 0 (omega arith)
            ∙ copy_pathname-before rounds (suc i) i (set out i c) (omega arith)
            ∙ get_or-set out i c 0 (omega arith))
          more
        ∙ ap (λ s. c ∷ s) rest
        ∙ sym
            (source-byte m i before (omega arith) (rw at more) ∙ ap (λ b. b ∷ source m (suc i)) at)

    copied :
        (rounds i : ℕ) (out : List ℕ)
        → i + rounds ≡ unix_path_len - 1
        → i ≤ m
        → length out ≡ unix_path_len
        → c_str (drop i (set (copy_pathname path path_len rounds i out) m 0)) ≡ source m i
    unfolding copy_pathname
    copied zero i out sum le fits = copied_end i out (omega arith) fits
    copied (suc rounds) i out sum le fits = elim (Bool-cases (leb path_len i)) [
      | inl past ↦ rw (copy_past rounds i out past) (copied_end i out (ground arith) fits)
      | inr inside ↦ elim (Bool-cases (get_or path i 0 == 0)) [
        | inl nul ↦
            let is_nul = (==_iff (get_or path i 0) 0).0 nul in
            rw (copy_nul rounds i out inside is_nul) (copied_nul i out (ground arith) fits is_nul)
        | inr more ↦ rw (copy_byte rounds i out inside more) (
            copied_byte rounds i (get_or path i 0) out (omega arith) (ground arith) fits refl more (
              copied rounds (suc i) (set out i (get_or path i 0)) (omega arith) (ground arith)
                (length-set out i (get_or path i 0) (omega arith) ∙ fits)))
      ]
    ]

-- The terminator stands behind the name or at the end of the buffer.
one_end :
    (path_len : ℕ) (out : List ℕ)
    → (if leb (unix_path_len - 1) path_len
        then set out (unix_path_len - 1) 0
        else set out path_len 0)
      ≡ set out (min path_len (unix_path_len - 1)) 0
one_end path_len out = elim (Bool-cases (leb (unix_path_len - 1) path_len)) [
  | inl over ↦ rw over (ap (λ n. set out n 0) (ground arith))
  | inr within ↦ rw within (ap (λ n. set out n 0) (ground arith))
]

-- The branch of a pathname.
named_steps :
    (path : List ℕ) (path_len : ℕ) (out : List ℕ)
    → (path_len == 0) ≡ false
    → (get_or path 0 0 == 0) ≡ false
    → copy_unix_sockaddr_path path path_len out
      ≡ set
          (copy_pathname path path_len (unix_path_len - 1) 0 out)
          (min path_len (unix_path_len - 1))
          0
unfolding copy_unix_sockaddr_path
named_steps path path_len out some_len named =
    rw (some_len, named) (one_end path_len (copy_pathname path path_len (unix_path_len - 1) 0 out))

-- For a UNIX address that starts with a byte other than NUL, the endpoint's path is the C string at
-- the start of the address bytes: up to the given length, to the first NUL, and to 107 bytes,
-- whichever comes first. The length is above 0 and below 2^31, the address has as many bytes, and
-- the endpoint's buffer has 108.
pub copy_unix_sockaddr_path_lem :
    (path : List ℕ) (path_len : ℕ) (out : List ℕ)
    → path_len < 2 ^ 31
    → path_len ≤ length path
    → (path_len == 0) ≡ false
    → (get_or path 0 0 == 0) ≡ false
    → length out ≡ unix_path_len
    → c_str (copy_unix_sockaddr_path path path_len out)
      ≡ c_str (take (min path_len (unix_path_len - 1)) path)
copy_unix_sockaddr_path_lem path path_len out small long some_len named fits =
    ap c_str (named_steps path path_len out some_len named)
    ∙ copied path path_len small (min path_len (unix_path_len - 1)) refl long (unix_path_len - 1) 0
        out refl (omega arith) fits
    ∙ ap (λ n. c_str (take n path)) (whole (min path_len (unix_path_len - 1)))
  where
    whole : (n : ℕ) → n - 0 ≡ n
    whole n = omega arith
