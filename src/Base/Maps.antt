-- ===== src/Base/Maps.antt =====
-- BPF maps. The contents of a map are what a lookup returns at each key; the helpers that change a
-- map are the kernel's, so they are parameters with their documented behaviour as laws.
use Prim.Native.Nat.{ℕ}
use mathlib.Core.Path.{◌≡◌}
use mathlib.Core.Logic.{◌≢◌, ◌⊎◌}
use mathlib.Core.Bool.{true, false}
use mathlib.Core.Option.{Option, none, some}
use e_trace_gen_e_bpfevent_t.Base.Tests.{ltb, if◌then◌else◌}
use e_trace_gen_e_bpfevent_t.Base.Int.{ℤ, is_nonneg}

abbrev pub Contents : Type 0 → Type 0 → Type 0
Contents K V = K → Option V

-- `bpf_map_update_elem(map, key, value, BPF_ANY)` and `bpf_map_delete_elem(map, key)`.
pub record BpfMap (K V : Type 0) : Type 0 where
  pub update_elem : Contents K V → K → V → ℤ × Contents K V
  pub delete_elem : Contents K V → K → ℤ × Contents K V

-- An update that succeeds stores the value. An LRU map may evict other entries on the way, so at
-- any other key the entry stays or is gone. An update that fails stores nothing at its key.
pub record IsBpfMap {K V : Type 0} (m : BpfMap K V) : Type 0 where
  pub update_stores :
      (c : Contents K V) (k : K) (v : V)
      → is_nonneg (m.update_elem c k v).0 ≡ true
      → (m.update_elem c k v).1 k ≡ some v
  pub update_fails :
      (c : Contents K V) (k : K) (v : V)
      → is_nonneg (m.update_elem c k v).0 ≡ false
      → (m.update_elem c k v).1 k ≡ c k
  pub update_others :
      (c : Contents K V) (k : K) (v : V) (j : K)
      → j ≢ k
      → ((m.update_elem c k v).1 j ≡ c j) ⊎ ((m.update_elem c k v).1 j ≡ none)
  pub delete_removes : (c : Contents K V) (k : K) → (m.delete_elem c k).1 k ≡ none
  pub delete_others : (c : Contents K V) (k j : K) → j ≢ k → (m.delete_elem c k).1 j ≡ c j

-- A lookup in a BPF array of `n` entries: no entry past its end.
abbrev pub array_lookup : {V : Type 0} → ℕ → (ℕ → V) → ℕ → Option V
array_lookup n values key = if ltb key n then some (values key) else none
