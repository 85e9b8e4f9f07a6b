-- ===== src/Kernel/Network/EndpointForm.antt =====
-- The form of every parsed endpoint: sizes of its buffers, address length and family.
use e_trace_gen_e_bpfevent_t.Base.{
  if_keeps, if_cases, if_both, ◌≤◌, field_at, drop, replicate, true, ◌+◌, ◌-◌, ℕ, zero, suc, List,
  [], ◌∷◌, ◌≡◌, ◌⊎◌, inl, inr, refl, ap, ◌∙◌, arith, length, length-take_le, slice, set, length-set,
  if◌then◌else◌, ◌==◌, leb, ltb, ◌&&◌, ◌||◌, not, get_or, Bool,
}
use e_trace_gen_e_bpfevent_t.Schema.{NetworkEndpoint}
use e_trace_gen_e_bpfevent_t.Schema.Kinds.{unix_path_len}
use e_trace_gen_e_bpfevent_t.Kernel.Env.{Env}
use e_trace_gen_e_bpfevent_t.Kernel.Reserve.{reset_network_endpoint}
use e_trace_gen_e_bpfevent_t.Kernel.Network.Endpoint.{
  sizeof_sockaddr_un, overwrite, past_end, has_name, copy_abstract, copy_pathname,
  copy_unix_sockaddr_path, parse_inet, parse_inet6, parse_unix, parse_family, parse_sockaddr_user,
  af_unix, af_inet, af_inet6, is_zero,
}

-- The buffers have the sizes of the struct, and an address is there only for its family.
pub record IsEndpoint (ep : NetworkEndpoint) : Type 0 where
  pub addr_size : length ep.addr ≡ 16
  pub path_size : length ep.path ≡ unix_path_len
  pub addr_of :
      (ep.addr_len ≡ 0)
      ⊎ ((ep.addr_len ≡ 4) × (ep.family ≡ af_inet))
      ⊎ ((ep.addr_len ≡ 16) × (ep.family ≡ af_inet6))

length-overwrite :
    (src dst : List ℕ) → length src ≤ length dst → length (overwrite src dst) ≡ length dst
length-overwrite [] dst inside = refl
length-overwrite (b ∷ src) [] inside = absurd (omega arith)
length-overwrite (b ∷ src) (d ∷ dst) inside = ap suc (length-overwrite src dst (omega arith))

-- A field of the address that was read fits the buffer.
length-field :
    (n off : ℕ) (bytes addr : List ℕ)
    → n ≤ 16
    → length addr ≡ 16
    → length (overwrite (slice off n bytes) addr) ≡ 16
length-field n off bytes addr small fits =
    length-overwrite (slice off n bytes) addr
      (omega (arith, small, fits, length-take_le n (drop off bytes)))
    ∙ fits

module _ (path : List ℕ) (path_len : ℕ) where
  -- The loop writes as many bytes as it has rounds, at most.
  pub copy_abstract-inside :
      (rounds i out_idx : ℕ) (out : List ℕ)
      → out_idx + rounds ≤ length out
      → (length (copy_abstract path path_len rounds i out_idx out).0 ≡ length out)
        × ((copy_abstract path path_len rounds i out_idx out).1 ≤ out_idx + rounds)
  unfolding copy_abstract
  copy_abstract-inside zero i out_idx out room = (refl, omega arith)
  copy_abstract-inside (suc rounds) i out_idx out room =
      if_keeps (λ (r : List ℕ × ℕ). (length r.0 ≡ length out) × (r.1 ≤ out_idx + suc rounds))
        (past_end path_len i) (refl, omega arith)
        (if_keeps (λ (r : List ℕ × ℕ). (length r.0 ≡ length out) × (r.1 ≤ out_idx + suc rounds))
          (get_or path i 0 == 0) (refl, omega arith)
          (let kept = length-set out out_idx (get_or path i 0) (omega arith) in
            let rest =
              copy_abstract-inside rounds (i + 1) (out_idx + 1) (set out out_idx (get_or path i 0))
                (omega (arith, kept)) in
            (rest.0 ∙ kept, omega (arith, rest.1))))

  pub length-copy_pathname :
      (rounds i : ℕ) (out : List ℕ)
      → i + rounds ≤ length out
      → length (copy_pathname path path_len rounds i out) ≡ length out
  unfolding copy_pathname
  length-copy_pathname zero i out room = refl
  length-copy_pathname (suc rounds) i out room =
      let kept = length-set out i (get_or path i 0) (omega arith) in
      if_keeps (λ (r : List ℕ). length r ≡ length out) (past_end path_len i) refl
        (if_keeps (λ (r : List ℕ). length r ≡ length out) (get_or path i 0 == 0) kept
          (length-copy_pathname rounds (i + 1) (set out i (get_or path i 0)) (omega (arith, kept))
            ∙ kept))

  pub length-copy_unix_sockaddr_path :
      (out : List ℕ)
      → length out ≡ unix_path_len
      → length (copy_unix_sockaddr_path path path_len out) ≡ length out
  unfolding copy_unix_sockaddr_path
  length-copy_unix_sockaddr_path out fits =
      let at = length-set out 0 b'@' (omega arith) in
      let named =
        copy_abstract-inside (unix_path_len - 2) 1 1 (set out 0 b'@') (omega (arith, at)) in
      let copied = length-copy_pathname (unix_path_len - 1) 0 out (omega arith) in
      if_keeps (λ (r : List ℕ). length r ≡ length out) (path_len == 0) refl
        (if_keeps (λ (r : List ℕ). length r ≡ length out) (get_or path 0 0 == 0)
          (if_keeps (λ (r : List ℕ). length r ≡ length out)
            (not (has_name path path_len (unix_path_len - 1) 1)) refl
            (length-set _ _ 0 (omega (arith, named.0, named.1, at)) ∙ named.0 ∙ at))
          (if_both (λ (r : List ℕ). length r ≡ length out) (leb (unix_path_len - 1) path_len)
            (λ over. length-set _ (unix_path_len - 1) 0 (omega (arith, copied)) ∙ copied)
            (λ within. length-set _ path_len 0 (ground (arith, copied)) ∙ copied)))

-- An endpoint whose address is not read yet.
abbrev IsBlank : ℕ → NetworkEndpoint → Type 0
IsBlank fam ep =
    (length ep.addr ≡ 16) × (length ep.path ≡ unix_path_len) × (ep.addr_len ≡ 0) × (ep.family ≡ fam)

blank-IsEndpoint : {fam : ℕ} {ep : NetworkEndpoint} → IsBlank fam ep → IsEndpoint ep
blank-IsEndpoint (a, p, n, f) = record { addr_size = a; path_size = p; addr_of = inl n }

module _ (env : Env) (user_ptr len : ℕ) (ep : NetworkEndpoint) where
  parse_inet-IsEndpoint : IsBlank af_inet ep → IsEndpoint (parse_inet env user_ptr len ep)
  unfolding parse_inet
  parse_inet-IsEndpoint blank =
      if_keeps IsEndpoint (is_zero (env.probe_read_user user_ptr 8).0)
        (record {
          addr_size =
              length-field 4 4 (env.probe_read_user user_ptr 8).1 ep.addr (omega arith) blank.0;
          path_size = blank.1;
          addr_of = inr (inl (refl, blank.3));
        })
        (blank-IsEndpoint blank)

  parse_inet6-IsEndpoint : IsBlank af_inet6 ep → IsEndpoint (parse_inet6 env user_ptr len ep)
  unfolding parse_inet6
  parse_inet6-IsEndpoint blank =
      if_keeps IsEndpoint (is_zero (env.probe_read_user user_ptr 28).0)
        (record {
          addr_size =
              length-field 16 8 (env.probe_read_user user_ptr 28).1 ep.addr (omega arith) blank.0;
          path_size = blank.1;
          addr_of = inr (inr (refl, blank.3));
        })
        (blank-IsEndpoint blank)

  parse_unix-IsEndpoint : {fam : ℕ} → IsBlank fam ep → IsEndpoint (parse_unix env user_ptr len ep)
  unfolding parse_unix
  parse_unix-IsEndpoint blank =
      let copy_len = if ltb sizeof_sockaddr_un len then sizeof_sockaddr_un else len in
      let un =
        overwrite (env.probe_read_user user_ptr copy_len).1 (replicate sizeof_sockaddr_un 0) in
      if_keeps IsEndpoint (leb 2 copy_len && is_zero (env.probe_read_user user_ptr copy_len).0)
        (record {
          addr_size = blank.0;
          path_size =
              length-copy_unix_sockaddr_path (drop 2 un) (copy_len - 2) ep.path blank.1 ∙ blank.1;
          addr_of = inl blank.2;
        })
        (blank-IsEndpoint blank)

  parse_family-IsEndpoint :
      (fam : ℕ) → IsBlank fam ep → IsEndpoint (parse_family env user_ptr len fam ep)
  unfolding parse_family
  parse_family-IsEndpoint fam (a, p, n, f) =
      if_cases IsEndpoint (fam == af_inet && leb 8 len)
        (λ taken. parse_inet-IsEndpoint (a, p, n, f ∙ is_family af_inet (leb 8 len) taken))
        (if_cases IsEndpoint (fam == af_inet6 && leb 28 len)
          (λ taken. parse_inet6-IsEndpoint (a, p, n, f ∙ is_family af_inet6 (leb 28 len) taken))
          (if_keeps IsEndpoint (fam == af_unix) (parse_unix-IsEndpoint (a, p, n, f))
            (blank-IsEndpoint (a, p, n, f))))
    where
      is_family : (m : ℕ) (long : Bool) → (fam == m && long) ≡ true → fam ≡ m
      is_family m long taken = ground arith

-- Whatever user memory holds, no write of a parsed endpoint goes past the end of its path or
-- address, which have 108 and 16 bytes afterwards, and the endpoint has an address length of 0, or
-- of 4 with family AF_INET, or of 16 with family AF_INET6. The path has 108 bytes before.
pub parse_sockaddr_user-IsEndpoint :
    (env : Env) (user_ptr len : ℕ) (endpoint : NetworkEndpoint)
    → length endpoint.path ≡ unix_path_len
    → IsEndpoint (parse_sockaddr_user env user_ptr len endpoint)
unfolding parse_sockaddr_user reset_network_endpoint
parse_sockaddr_user-IsEndpoint env user_ptr len endpoint fits =
    let fam = field_at 0 2 (env.probe_read_user user_ptr 2).1 in
    if_keeps IsEndpoint (user_ptr == 0 || ltb len 2) (blank-IsEndpoint blank) (
      if_keeps IsEndpoint (not (is_zero (env.probe_read_user user_ptr 2).0))
        (blank-IsEndpoint blank)
        (parse_family-IsEndpoint env user_ptr len
          (record (reset_network_endpoint endpoint) { family = fam }) fam
          (refl, blank.1, refl, refl)))
  where
    blank : IsBlank 0 (reset_network_endpoint endpoint)
    blank = (refl, length-set endpoint.path 0 0 (omega arith) ∙ fits, refl, refl)
