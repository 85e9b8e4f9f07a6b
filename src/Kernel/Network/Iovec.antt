-- ===== src/Kernel/Network/Iovec.antt =====
-- Byte counts over user-space vectors, of bpf/event_logger_common.bpf.h. Each loop is bounded by
-- eight rounds; an entry that cannot be read counts nothing, and sums wrap at 64 bits.
use e_trace_gen_e_bpfevent_t.Base.{ℕ, List, zero, suc, ◌+◌, ◌*◌, leb, if◌then◌else◌, u64, field_at}
use e_trace_gen_e_bpfevent_t.Kernel.Env.{Env}
use e_trace_gen_e_bpfevent_t.Kernel.Network.Endpoint.{is_zero}

abbrev pub max_iovec_entries : ℕ
max_iovec_entries = 8

abbrev pub max_mmsghdr_entries : ℕ
max_mmsghdr_entries = 8

-- `sizeof` of `iovec_min`, `msghdr_min` and `mmsghdr_min`.
abbrev pub sizeof_iovec : ℕ
sizeof_iovec = 16

abbrev pub sizeof_msghdr : ℕ
sizeof_msghdr = 32

abbrev pub sizeof_mmsghdr : ℕ
sizeof_mmsghdr = 40

-- The loop that the three functions share: item `i` lies at `base + i * size`, and adds
-- `value` of its bytes if the read succeeds.
module _ (env : Env) (base size count : ℕ) (value : List ℕ → ℕ) where
  unfoldable pub sum_items : ℕ → ℕ → ℕ → ℕ
  sum_items zero i total = total
  sum_items (suc rounds) i total =
      let (ret, item) = env.probe_read_user (u64 (base + i * size)) size in
      let rest =
        sum_items rounds (i + 1) (if is_zero ret then u64 (total + value item) else total) in
      if leb count i then total else rest

abbrev pub iov_len_of : List ℕ → ℕ
iov_len_of item = field_at 8 8 item

unfoldable pub sum_iovec_lengths : Env → ℕ → ℕ → ℕ
sum_iovec_lengths env iov count =
    sum_items env iov sizeof_iovec count iov_len_of max_iovec_entries 0 0

unfoldable pub sum_mmsghdr_lengths : Env → ℕ → ℕ → ℕ
sum_mmsghdr_lengths env msgs count =
    sum_items env msgs sizeof_mmsghdr count
      (λ item. sum_iovec_lengths env (field_at 16 8 item) (field_at 24 8 item)) max_mmsghdr_entries
      0 0

abbrev pub msg_len_of : List ℕ → ℕ
msg_len_of item = field_at 32 4 item

unfoldable pub sum_mmsghdr_transfers : Env → ℕ → ℕ → ℕ
sum_mmsghdr_transfers env msgs count =
    sum_items env msgs sizeof_mmsghdr count msg_len_of max_mmsghdr_entries 0 0
