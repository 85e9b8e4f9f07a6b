-- ===== src/Kernel/Sound/Stores.antt =====
-- Effects of saving and deleting the stored record of the current task.
use native.Mathlib.Decide.{ℕ_discrete}
use e_trace_gen_e_bpfevent_t.Base.{
  inl, ℕ, ℤ, refl, ap, Contents, BpfMap, IsBpfMap, update-Stored, delete-Stored,
}
use e_trace_gen_e_bpfevent_t.Schema.{FileEvent, SyscallEvent}
use e_trace_gen_e_bpfevent_t.Kernel.State.{
  KernelState, FileStateKey, SyscallStateKey, NetworkStateKey, NetworkStateValue, MapHelpers,
  IsMapHelpers,
}
use e_trace_gen_e_bpfevent_t.Kernel.Env.{Env}
use e_trace_gen_e_bpfevent_t.Kernel.File.{delete_file_entry, make_file_key}
use e_trace_gen_e_bpfevent_t.Kernel.Syscall.{delete_syscall_entry, make_syscall_key}
use e_trace_gen_e_bpfevent_t.Kernel.Network.Pairing.{delete_network_entry, make_network_key}
use e_trace_gen_e_bpfevent_t.Kernel.Sound.{
  IsSound, Effect, IsFileEntry, IsSyscallEntry, IsNetworkEntry, SparedBy,
}
use e_trace_gen_e_bpfevent_t.Kernel.Sound.Effects.{Quiet}

pub FileStateKey-discrete : Discrete FileStateKey
FileStateKey-discrete = hlevel ℕ_discrete

ℤ-discrete : Discrete ℤ
ℤ-discrete = hlevel ℕ_discrete

pub SyscallStateKey-discrete : Discrete SyscallStateKey
SyscallStateKey-discrete = hlevel (ℕ_discrete, ℤ-discrete)

pub NetworkStateKey-discrete : Discrete NetworkStateKey
NetworkStateKey-discrete = hlevel ℕ_discrete

-- A map after a save or a delete of the task's own entry.
module _ {K V : Type 0} {m : BpfMap K V} (laws : IsBpfMap m) (owner : K → ℕ) (c : Contents K V)
    (k : K) where
  update-SparedBy : (v : V) → SparedBy (owner k) owner c (m.update_elem c k v).1
  update-SparedBy v j other = laws.update_others c k v j (λ same. other (ap owner same))

  delete-SparedBy :
      {before : Contents K V}
      → SparedBy (owner k) owner before c
      → SparedBy (owner k) owner before (m.delete_elem c k).1
  delete-SparedBy old j other =
      rw (laws.delete_others c k j (λ same. other (ap owner same))) (old j other)

-- Saving a record under the current task.
module _ {h : MapHelpers} (laws : IsMapHelpers h) (env : Env) {s : KernelState}
    (i : IsSound s) where
  pub file_saved-Quiet :
      (kind : ℕ) (ev : FileEvent)
      → IsFileEntry (make_file_key env kind) ev
      → Quiet env s (record s {
        file_enter_state =
            (h.file_map.update_elem s.file_enter_state (make_file_key env kind) ev).1;
      })
  unfolding make_file_key
  file_saved-Quiet kind ev stored = record {
    sound = record {
      file_entries =
          update-Stored FileStateKey-discrete laws.file_laws IsFileEntry _ _ ev i.file_entries
            stored;
      syscall_entries = i.syscall_entries;
      network_entries = i.network_entries;
    };
    same_events = refl;
    spares = record {
      files = update-SparedBy laws.file_laws (λ k. k.pid_tgid) _ (make_file_key env kind) ev;
      syscalls = λ j other. inl refl;
      networks = λ j other. inl refl;
    };
    same_gates = refl;
  }

  pub syscall_saved-Quiet :
      (nr : ℤ) (ev : SyscallEvent)
      → IsSyscallEntry (make_syscall_key env nr) ev
      → Quiet env s (record s {
        syscall_enter_state =
            (h.syscall_map.update_elem s.syscall_enter_state (make_syscall_key env nr) ev).1;
      })
  unfolding make_syscall_key
  syscall_saved-Quiet nr ev stored = record {
    sound = record {
      file_entries = i.file_entries;
      syscall_entries =
          update-Stored SyscallStateKey-discrete laws.syscall_laws IsSyscallEntry _ _ ev
            i.syscall_entries stored;
      network_entries = i.network_entries;
    };
    same_events = refl;
    spares = record {
      files = λ j other. inl refl;
      syscalls = update-SparedBy laws.syscall_laws (λ k. k.pid_tgid) _ (make_syscall_key env nr) ev;
      networks = λ j other. inl refl;
    };
    same_gates = refl;
  }

  pub network_saved-Quiet :
      (kind : ℕ) (ev : NetworkStateValue)
      → IsNetworkEntry (make_network_key env kind) ev
      → Quiet env s (record s {
        network_enter_state =
            (h.network_map.update_elem s.network_enter_state (make_network_key env kind) ev).1;
      })
  unfolding make_network_key
  network_saved-Quiet kind ev stored = record {
    sound = record {
      file_entries = i.file_entries;
      syscall_entries = i.syscall_entries;
      network_entries =
          update-Stored NetworkStateKey-discrete laws.network_laws IsNetworkEntry _ _ ev
            i.network_entries stored;
    };
    same_events = refl;
    spares = record {
      files = λ j other. inl refl;
      syscalls = λ j other. inl refl;
      networks =
          update-SparedBy laws.network_laws (λ k. k.pid_tgid) _ (make_network_key env kind) ev;
    };
    same_gates = refl;
  }

-- Deleting the current task's entry.
module _ {h : MapHelpers} (laws : IsMapHelpers h) (env : Env) {s s' : KernelState}
    (e : Effect env s s') where
  pub delete_file_entry-Effect : (kind : ℕ) → Effect env s (delete_file_entry h env kind s')
  unfolding make_file_key
  delete_file_entry-Effect kind = record {
    sound = record {
      file_entries =
          delete-Stored FileStateKey-discrete laws.file_laws IsFileEntry _ _ e.sound.file_entries;
      syscall_entries = e.sound.syscall_entries;
      network_entries = e.sound.network_entries;
    };
    emits = e.emits;
    spares = record {
      files =
          delete-SparedBy laws.file_laws (λ k. k.pid_tgid) _ (make_file_key env kind)
            e.spares.files;
      syscalls = e.spares.syscalls;
      networks = e.spares.networks;
    };
    gates_kept = e.gates_kept;
  }

  pub delete_syscall_entry-Effect : (nr : ℤ) → Effect env s (delete_syscall_entry h env nr s')
  unfolding make_syscall_key
  delete_syscall_entry-Effect nr = record {
    sound = record {
      file_entries = e.sound.file_entries;
      syscall_entries =
          delete-Stored SyscallStateKey-discrete laws.syscall_laws IsSyscallEntry _ _
            e.sound.syscall_entries;
      network_entries = e.sound.network_entries;
    };
    emits = e.emits;
    spares = record {
      files = e.spares.files;
      syscalls =
          delete-SparedBy laws.syscall_laws (λ k. k.pid_tgid) _ (make_syscall_key env nr)
            e.spares.syscalls;
      networks = e.spares.networks;
    };
    gates_kept = e.gates_kept;
  }

  pub delete_network_entry-Effect : (kind : ℕ) → Effect env s (delete_network_entry h env kind s')
  unfolding make_network_key
  delete_network_entry-Effect kind = record {
    sound = record {
      file_entries = e.sound.file_entries;
      syscall_entries = e.sound.syscall_entries;
      network_entries =
          delete-Stored NetworkStateKey-discrete laws.network_laws IsNetworkEntry _ _
            e.sound.network_entries;
    };
    emits = e.emits;
    spares = record {
      files = e.spares.files;
      syscalls = e.spares.syscalls;
      networks =
          delete-SparedBy laws.network_laws (λ k. k.pid_tgid) _ (make_network_key env kind)
            e.spares.networks;
    };
    gates_kept = e.gates_kept;
  }
