-- ===== src/Base/Entries.antt =====
-- A predicate on every entry of a BPF map, under the helpers that change the map.
use mathlib.Core.Path.{◌≡◌, sym, ◌∙◌}
use mathlib.Core.Logic.{inl, inr}
use mathlib.Core.Option.{some}
use native.Mathlib.Omega.{arith}
use e_trace_gen_e_bpfevent_t.Base.Tests.{Bool-cases}
use e_trace_gen_e_bpfevent_t.Base.Int.{is_nonneg}
use e_trace_gen_e_bpfevent_t.Base.Maps.{Contents, BpfMap, IsBpfMap}

abbrev pub Stored : {K V : Type 0} → (K → V → Type 0) → Contents K V → Type 0
Stored {K} {V} P c = (k : K) (v : V) → c k ≡ some v → P k v

-- A predicate at equal keys and values.
transport_entry :
    {K V : Type 0} (P : K → V → Type 0) {j k : K} {v w : V} → j ≡ k → v ≡ w → P k v → P j w
transport_entry P p q h = rw (p, ← q) h

module _ {K V : Type 0} (decide_key : Discrete K) {m : BpfMap K V} (laws : IsBpfMap m)
    (P : K → V → Type 0) where
  pub update-Stored :
      (c : Contents K V) (k : K) (v : V) → Stored P c → P k v → Stored P (m.update_elem c k v).1
  update-Stored c k v old new j w found = elim (decide_key j k) [
    | yes same ↦ elim (Bool-cases (is_nonneg (m.update_elem c k v).0)) [
      | inl ok ↦ transport_entry P same (cc (laws.update_stores c k v ok)) new
      | inr failed ↦ old j w (cc (laws.update_fails c k v failed))
    ]
    | no other ↦ ground (arith, laws.update_others c k v j other, old j w)
  ]

  pub delete-Stored : (c : Contents K V) (k : K) → Stored P c → Stored P (m.delete_elem c k).1
  delete-Stored c k old j w found = elim (decide_key j k) [
    | yes same ↦ cc (laws.delete_removes c k)
    | no other ↦ old j w (sym (laws.delete_others c k j other) ∙ found)
  ]
