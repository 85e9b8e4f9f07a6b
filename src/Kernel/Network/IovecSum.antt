-- ===== src/Kernel/Network/IovecSum.antt =====
-- What the bounded loops over vectors add up to.
use native.Mathlib.Numerals.{unary_clauses}
use e_trace_gen_e_bpfevent_t.Base.{
  ◌∙◌, true, false, ap, fun_ext, field_at, ℕ, zero, suc, List, ◌≡◌, ◌+◌, ◌-◌, ◌*◌, ◌<◌, ◌^◌, min,
  arith, if◌then◌else◌, u64, Bool-cases, inl, inr, leb,
}
use e_trace_gen_e_bpfevent_t.Kernel.Env.{Env}
use e_trace_gen_e_bpfevent_t.Kernel.Network.Endpoint.{is_zero}
use e_trace_gen_e_bpfevent_t.Kernel.Network.Iovec.{
  sum_mmsghdr_lengths, sum_items, sum_iovec_lengths, sum_mmsghdr_transfers, iov_len_of, msg_len_of,
  sizeof_iovec, sizeof_mmsghdr, max_iovec_entries, max_mmsghdr_entries,
}

-- f i + f (i + 1) + ..., n terms.
abbrev pub sum_from : (ℕ → ℕ) → ℕ → ℕ → ℕ
sum_from f i zero = 0
sum_from f i (suc n) = f i + sum_from f (i + 1) n

-- The value of item `i`, or 0 if it cannot be read.
abbrev pub item_value : Env → ℕ → ℕ → (List ℕ → ℕ) → ℕ → ℕ
item_value env base size value i =
    if is_zero (env.probe_read_user (u64 (base + i * size)) size).0
    then value (env.probe_read_user (u64 (base + i * size)) size).1
    else 0

min_stop : (count i rounds : ℕ) → leb count i ≡ true → min (count - i) rounds ≡ 0
min_stop count i rounds done = ground arith

min_step :
    (count i rounds : ℕ)
    → leb count i ≡ false
    → min (count - i) (suc rounds) ≡ suc (min (count - (i + 1)) rounds)
min_step count i rounds more = ground arith

u64_assoc : (a b c : ℕ) → u64 (u64 (a + b) + c) ≡ u64 (a + (b + c))
u64_assoc a b c = omega arith

module _ (env : Env) (base size count : ℕ) (value : List ℕ → ℕ) where
  -- One round.
  add_item :
      (i total : ℕ)
      → total < 2 ^ 64
      → (if is_zero (env.probe_read_user (u64 (base + i * size)) size).0
          then u64 (total + value (env.probe_read_user (u64 (base + i * size)) size).1)
          else total)
        ≡ u64 (total + item_value env base size value i)
  add_item i total small = ground arith

  pub sum_items_lem :
      (rounds i total : ℕ)
      → total < 2 ^ 64
      → sum_items env base size count value rounds i total
        ≡ u64 (total + sum_from (item_value env base size value) i (min (count - i) rounds))
  unfolding sum_items
  sum_items_lem zero i total small = ground arith
  sum_items_lem (suc rounds) i total small = elim (Bool-cases (leb count i)) [
    | inl done ↦ rw (done, min_stop count i (suc rounds) done) (omega arith)
    | inr more ↦
        rw (more, min_step count i rounds more, add_item i total small)
          (sum_items_lem rounds (i + 1) (u64 (total + item_value env base size value i))
              (omega arith)
            ∙ u64_assoc total _ _)
  ]

  -- From the first item on.
  sum_all :
      (rounds : ℕ)
      → sum_items env base size count value rounds 0 0
        ≡ u64 (sum_from (item_value env base size value) 0 (min count rounds))
  sum_all rounds =
      sum_items_lem rounds 0 0 (omega arith) ∙ ap u64 (simp unary_clauses (omega arith))

-- The byte count of an iovec is the sum of the lengths of its first eight entries, or of all if it
-- has fewer, modulo 2^64; an entry that cannot be read counts 0.
pub sum_iovec_lengths_lem :
    (env : Env) (iov count : ℕ)
    → sum_iovec_lengths env iov count
      ≡ u64 (sum_from (item_value env iov sizeof_iovec iov_len_of) 0 (min count max_iovec_entries))
unfolding sum_iovec_lengths
sum_iovec_lengths_lem env iov count =
    sum_all env iov sizeof_iovec count iov_len_of max_iovec_entries

-- The transfer count of a message vector is the sum of the `msg_len` of its first eight headers,
-- or of all if it has fewer, modulo 2^64; a header that cannot be read counts 0.
pub sum_mmsghdr_transfers_lem :
    (env : Env) (msgs count : ℕ)
    → sum_mmsghdr_transfers env msgs count
      ≡ u64 (
          sum_from
            (item_value env msgs sizeof_mmsghdr msg_len_of)
            0
            (min count max_mmsghdr_entries))
unfolding sum_mmsghdr_transfers
sum_mmsghdr_transfers_lem env msgs count =
    sum_all env msgs sizeof_mmsghdr count msg_len_of max_mmsghdr_entries

-- The byte count of a message vector is the sum over its first eight headers, or over all if it has
-- fewer, of the byte counts of their iovecs, modulo 2^64; a header that cannot be read counts 0.
pub sum_mmsghdr_lengths_lem :
    (env : Env) (msgs count : ℕ)
    → sum_mmsghdr_lengths env msgs count
      ≡ u64 (
          sum_from
            (item_value env msgs sizeof_mmsghdr (λ item. u64 (
              sum_from
                (item_value env (field_at 16 8 item) sizeof_iovec iov_len_of)
                0
                (min (field_at 24 8 item) max_iovec_entries))))
            0
            (min count max_mmsghdr_entries))
unfolding sum_mmsghdr_lengths
sum_mmsghdr_lengths_lem env msgs count =
    sum_all env msgs sizeof_mmsghdr count
      (λ item. sum_iovec_lengths env (field_at 16 8 item) (field_at 24 8 item)) max_mmsghdr_entries
    ∙ ap
        (λ v.
          u64 (sum_from (item_value env msgs sizeof_mmsghdr v) 0 (min count max_mmsghdr_entries)))
        (fun_ext λ item. sum_iovec_lengths_lem env (field_at 16 8 item) (field_at 24 8 item))
