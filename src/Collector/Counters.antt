-- ===== src/Collector/Counters.antt =====
-- src/collector/collector_libbpf.cpp: `ReadPerCpuCounter`, beside `stat_inc` of the programs.
use e_trace_gen_e_bpfevent_t.Base.{
  ◌≢◌, zero, suc, refl, sym, ap, ◌∙◌, ==_iff, Bool-cases, inl, inr, subst, ℕ, ◌+◌, ◌<◌, ◌≡◌, ◌==◌,
  ltb, if◌then◌else◌, Option, none, some, u64, arith,
}
use e_trace_gen_e_bpfevent_t.Kernel.State.{KernelState, count_up, stat_inc, stat_max}

-- The sum over the first `n` CPUs, in 64 bits.
unfoldable pub sum_cpus : ℕ → (ℕ → ℕ) → ℕ
sum_cpus zero values = 0
sum_cpus (suc n) values = u64 (sum_cpus n values + values n)

-- `cpu_count` is what `libbpf_num_possible_cpus` returns, 0 for a failure. `bpf_map_lookup_elem`
-- gives the values of the key on every CPU, or fails past the array of the map.
unfoldable pub read_per_cpu_counter : ℕ → (ℕ → ℕ → ℕ) → ℕ → Option ℕ
unfolding sum_cpus
read_per_cpu_counter cpu_count stats key =
    if cpu_count == 0
    then none
    else if ltb key stat_max
    then some (sum_cpus cpu_count (λ cpu. stats cpu key))
    else none

sum_cpus-same :
    (n : ℕ) (f g : ℕ → ℕ) → ((cpu : ℕ) → cpu < n → f cpu ≡ g cpu) → sum_cpus n f ≡ sum_cpus n g
unfolding sum_cpus
sum_cpus-same zero f g same = refl
sum_cpus-same (suc n) f g same =
    grind (arith, same n (omega arith), sum_cpus-same n f g (λ cpu h. same cpu (omega arith)))

-- One value more by one, modulo 2 ^ 64, and the others the same.
sum_cpus-up :
    (n cpu : ℕ) (f g : ℕ → ℕ)
    → cpu < n
    → g cpu ≡ u64 (f cpu + 1)
    → ((c : ℕ) → c ≢ cpu → g c ≡ f c)
    → sum_cpus n g ≡ u64 (sum_cpus n f + 1)
unfolding sum_cpus
sum_cpus-up zero cpu f g lt up same = absurd (omega arith)
sum_cpus-up (suc n) cpu f g lt up same = elim (Bool-cases (cpu == n)) [
  | inl here ↦
      let at : cpu ≡ n = (==_iff cpu n).0 here in
      let rest = sum_cpus-same n g f (λ c h. same c (λ e. omega arith)) in
      let last : g n ≡ u64 (f n + 1) = subst (λ k. g k ≡ u64 (f k + 1)) at up in
      grind (arith, rest, last)
  | inr other ↦
      let rest = sum_cpus-up n cpu f g (ground arith) up same in
      let last = same n (λ e. ground arith) in grind (arith, rest, last)
]

sum_cpus-count_up :
    (n cpu key : ℕ) (stats : ℕ → ℕ → ℕ)
    → cpu < n
    → (j : ℕ)
    → sum_cpus n (λ c. count_up stats cpu key c j)
      ≡ (if j == key then u64 (sum_cpus n (λ c. stats c j) + 1) else sum_cpus n (λ c. stats c j))
sum_cpus-count_up n cpu key stats on j = elim (Bool-cases (j == key)) [
  | inl counted ↦
      sum_cpus-up n cpu (λ c. stats c j) (λ c. count_up stats cpu key c j) on (ground arith)
        (λ c e. ground arith)
      ∙ sym (
          ap (λ b. if b then u64 (sum_cpus n (λ c. stats c j) + 1) else sum_cpus n (λ c. stats c j))
            counted)
  | inr other ↦
      sum_cpus-same n (λ c. count_up stats cpu key c j) (λ c. stats c j) (λ c h. ground arith)
      ∙ sym (
          ap (λ b. if b then u64 (sum_cpus n (λ c. stats c j) + 1) else sum_cpus n (λ c. stats c j))
            other)
]

stat_inc-stats :
    (cpu key : ℕ) (s : KernelState)
    → key < stat_max
    → (stat_inc cpu key s).bpf_stats ≡ count_up s.bpf_stats cpu key
unfolding stat_inc
stat_inc-stats cpu key s known = ground arith

abbrev pub plus_one : Option ℕ → Option ℕ
plus_one none = none
plus_one (some total) = some (u64 (total + 1))

-- An increment of a counter of the array, on a CPU that the collector sums over, raises what it
-- reads of that counter by one, in 64 bits, and leaves what it reads of every other one.
pub read_per_cpu_counter-stat_inc :
    (cpu_count cpu key : ℕ) (s : KernelState)
    → cpu < cpu_count
    → key < stat_max
    → (j : ℕ)
    → read_per_cpu_counter cpu_count (stat_inc cpu key s).bpf_stats j ≡ (
        if j == key
        then plus_one (read_per_cpu_counter cpu_count s.bpf_stats j)
        else read_per_cpu_counter cpu_count s.bpf_stats j)
unfolding stat_inc read_per_cpu_counter
read_per_cpu_counter-stat_inc cpu_count cpu key s on known j =
    ap (λ stats. read_per_cpu_counter cpu_count stats j) (stat_inc-stats cpu key s known)
    ∙ ground (arith, sum_cpus-count_up cpu_count cpu key s.bpf_stats on j)
