-- ===== src/Kernel/Network/Endpoint.antt =====
-- Socket addresses of bpf/event_logger_common.bpf.h: `copy_unix_sockaddr_path`,
-- `parse_sockaddr_user` and `copy_optval_prefix`. The three address structs are read from the
-- bytes that user memory gives, at the offsets of their fields on a little-endian machine.
use e_trace_gen_e_bpfevent_t.Base.{
  ℕ, zero, suc, ℤ, pos, negsuc, List, [], ◌∷◌, ◌+◌, ◌-◌, ◌*◌, Bool, true, false, not, ◌&&◌, ◌||◌,
  ltb, leb, ◌==◌, if◌then◌else◌, signed32, field_at, get_or, set, drop, replicate, slice,
}
use e_trace_gen_e_bpfevent_t.Schema.{NetworkEndpoint}
use e_trace_gen_e_bpfevent_t.Schema.Kinds.{unix_path_len}
use e_trace_gen_e_bpfevent_t.Kernel.Env.{Env}
use e_trace_gen_e_bpfevent_t.Kernel.Reserve.{reset_network_endpoint}

abbrev pub af_unix : ℕ
af_unix = 1

abbrev pub af_inet : ℕ
af_inet = 2

abbrev pub af_inet6 : ℕ
af_inet6 = 10

-- `sizeof` of `sockaddr_in_min`, `sockaddr_in6_min` and `sockaddr_un_min`.
abbrev pub sizeof_sockaddr_in : ℕ
sizeof_sockaddr_in = 8

abbrev pub sizeof_sockaddr_in6 : ℕ
sizeof_sockaddr_in6 = 28

abbrev pub sizeof_sockaddr_un : ℕ
sizeof_sockaddr_un = 110

-- A helper's return code 0.
abbrev pub is_zero : ℤ → Bool
is_zero (pos n) = n == 0
is_zero (negsuc n) = false

-- `memcpy(dst, src, size)`: the first bytes of `dst` are replaced.
abbrev pub overwrite : List ℕ → List ℕ → List ℕ
overwrite [] dst = dst
overwrite (b ∷ src) [] = b ∷ src
overwrite (b ∷ src) (d ∷ dst) = b ∷ overwrite src dst

-- `i >= (__s32)path_len`
abbrev pub past_end : ℕ → ℕ → Bool
past_end path_len i = elim (signed32 path_len) [ pos n ↦ leb n i | negsuc _ ↦ true ]

module _ (path : List ℕ) (path_len : ℕ) where
  -- The search for a name behind a leading NUL, at index `i` with so many rounds left.
  unfoldable pub has_name : ℕ → ℕ → Bool
  has_name zero i = false
  has_name (suc rounds) i =
      let rest = has_name rounds (i + 1) in
      if past_end path_len i then false else if not (get_or path i 0 == 0) then true else rest

  -- The copy of an abstract name, with `out_idx`.
  unfoldable pub copy_abstract : ℕ → ℕ → ℕ → List ℕ → List ℕ × ℕ
  copy_abstract zero i out_idx out = (out, out_idx)
  copy_abstract (suc rounds) i out_idx out =
      let c = get_or path i 0 in
      let rest = copy_abstract rounds (i + 1) (out_idx + 1) (set out out_idx c) in
      if past_end path_len i then (out, out_idx) else if c == 0 then (out, out_idx) else rest

  -- The copy of a pathname.
  unfoldable pub copy_pathname : ℕ → ℕ → List ℕ → List ℕ
  copy_pathname zero i out = out
  copy_pathname (suc rounds) i out =
      let c = get_or path i 0 in
      let rest = copy_pathname rounds (i + 1) (set out i c) in
      if past_end path_len i then out else if c == 0 then set out i c else rest

  -- `copy_unix_sockaddr_path`, on the endpoint's path.
  unfoldable pub copy_unix_sockaddr_path : List ℕ → List ℕ
  copy_unix_sockaddr_path out =
      if path_len == 0
      then out
      else if get_or path 0 0 == 0
      then (if not (has_name (unix_path_len - 1) 1)
          then out
          else let (out', out_idx) = copy_abstract (unix_path_len - 2) 1 1 (set out 0 b'@') in
            set out' out_idx 0)
      else let out' = copy_pathname (unix_path_len - 1) 0 out in
        if leb (unix_path_len - 1) path_len
        then set out' (unix_path_len - 1) 0
        else set out' path_len 0

-- `bpf_ntohs` of the field at `off`.
unfoldable pub ntohs_at : ℕ → List ℕ → ℕ
ntohs_at off bytes = get_or bytes off 0 * 256 + get_or bytes (off + 1) 0

module _ (env : Env) (user_ptr len : ℕ) where
  unfoldable pub parse_inet : NetworkEndpoint → NetworkEndpoint
  parse_inet ep =
      let (ret, bytes) = env.probe_read_user user_ptr sizeof_sockaddr_in in
      if is_zero ret
      then record ep {
        port = ntohs_at 2 bytes;
        addr_len = 4;
        addr = overwrite (slice 4 4 bytes) ep.addr;
      }
      else ep

  unfoldable pub parse_inet6 : NetworkEndpoint → NetworkEndpoint
  parse_inet6 ep =
      let (ret, bytes) = env.probe_read_user user_ptr sizeof_sockaddr_in6 in
      if is_zero ret
      then record ep {
        port = ntohs_at 2 bytes;
        addr_len = 16;
        addr = overwrite (slice 8 16 bytes) ep.addr;
      }
      else ep

  unfoldable pub parse_unix : NetworkEndpoint → NetworkEndpoint
  parse_unix ep =
      let copy_len = if ltb sizeof_sockaddr_un len then sizeof_sockaddr_un else len in
      let (ret, bytes) = env.probe_read_user user_ptr copy_len in
      let un = overwrite bytes (replicate sizeof_sockaddr_un 0) in
      if leb 2 copy_len && is_zero ret
      then record ep { path = copy_unix_sockaddr_path (drop 2 un) (copy_len - 2) ep.path }
      else ep

  -- What follows the read of the address family.
  unfoldable pub parse_family : ℕ → NetworkEndpoint → NetworkEndpoint
  parse_family fam ep =
      if fam == af_inet && leb sizeof_sockaddr_in len
      then parse_inet ep
      else if fam == af_inet6 && leb sizeof_sockaddr_in6 len
      then parse_inet6 ep
      else if fam == af_unix
      then parse_unix ep
      else ep

  unfoldable pub parse_sockaddr_user : NetworkEndpoint → NetworkEndpoint
  parse_sockaddr_user endpoint =
      let ep = reset_network_endpoint endpoint in
      let (ret, bytes) = env.probe_read_user user_ptr 2 in
      let fam = field_at 0 2 bytes in
      if user_ptr == 0 || ltb len 2
      then ep
      else if not (is_zero ret)
      then ep
      else parse_family fam (record ep { family = fam })

-- `copy_optval_prefix`: the read's result is ignored, whatever it left in the buffer stays.
unfoldable pub copy_optval_prefix : Env → List ℕ → ℕ → ℕ → List ℕ
copy_optval_prefix env dst user_ptr len =
    if user_ptr == 0 || len == 0
    then dst
    else overwrite (env.probe_read_user user_ptr (if ltb 16 len then 16 else len)).1 dst
