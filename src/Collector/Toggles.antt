-- ===== src/Collector/Toggles.antt =====
-- src/collector/collector_libbpf.cpp: the functions that write the switches of the probes to the
-- maps. libbpf's `bpf_map_update_elem` is a parameter.
use e_trace_gen_e_bpfevent_t.Base.{
  ℕ, ℤ, pos, negsuc, Bool, true, false, ◌&&◌, ◌≡◌, ◌==◌, is_nonneg, if◌then◌else◌, List, [], ◌∷◌,
}
use e_trace_gen_e_bpfevent_t.Schema.Kinds.{
  process_exec, process_fork, process_exit, process_clone, process_clone3, process_vfork,
  file_openat, file_unlinkat, file_renameat2, network_socket, network_socketpair, network_connect,
  network_bind, network_accept, network_accept4, network_listen, network_getsockname,
  network_getpeername, network_setsockopt, network_getsockopt, network_sendto, network_sendmsg,
  network_recvfrom, network_recvmsg, network_read, network_write, network_readv, network_writev,
  network_sendmmsg, network_recvmmsg, network_shutdown, network_close,
}
use e_trace_gen_e_bpfevent_t.Config.Runtime.{FileProbeConfig}

-- `bpf_map_update_elem(fd, &key, &value, BPF_ANY)` on an array map: what it returns, and the
-- entries after it.
abbrev pub UpdateElem : Type 0
UpdateElem = ℤ → (ℕ → ℕ) → ℕ → ℕ → ℤ × (ℕ → ℕ)

-- `ret == 0`
abbrev pub is_zero : ℤ → Bool
is_zero (pos n) = n == 0
is_zero (negsuc n) = false

-- An update that succeeds changes the entry at its key and no other.
abbrev pub IsUpdateElem : UpdateElem → Type 0
IsUpdateElem update =
    (fd : ℤ) (values : ℕ → ℕ) (key value : ℕ)
    → is_zero (update fd values key value).0 ≡ true
    → (j : ℕ) → (update fd values key value).1 j ≡ (if j == key then value else values j)

-- `enabled ? 1U : 0U`
abbrev pub toggle : Bool → ℕ
toggle true = 1
toggle false = 0

abbrev pub process_keys : List ℕ
process_keys =
    process_exec ∷ process_fork ∷ process_exit ∷ process_clone ∷ process_clone3 ∷ process_vfork ∷ []

abbrev pub network_keys : List ℕ
network_keys =
    network_socket ∷ network_socketpair ∷ network_connect ∷ network_bind ∷ network_listen
    ∷ network_accept ∷ network_accept4 ∷ network_getsockname ∷ network_getpeername
    ∷ network_setsockopt ∷ network_getsockopt ∷ network_close ∷ network_sendto ∷ network_recvfrom
    ∷ network_shutdown ∷ network_sendmsg ∷ network_recvmsg ∷ network_read ∷ network_write
    ∷ network_readv ∷ network_writev ∷ network_sendmmsg ∷ network_recvmmsg ∷ []

module _ (update : UpdateElem) (map_fd : ℤ) where
  -- One write: `all_ok` and the entries.
  unfoldable pub set_toggle : ℕ → Bool → Bool × (ℕ → ℕ) → Bool × (ℕ → ℕ)
  set_toggle key enabled (all_ok, values) =
      let r = update map_fd values key (toggle enabled) in (all_ok && is_zero r.0, r.1)

  -- The loop over the keys of a domain.
  unfoldable pub set_toggles : List ℕ → Bool → Bool × (ℕ → ℕ) → Bool × (ℕ → ℕ)
  unfolding set_toggle
  set_toggles [] enabled result = result
  set_toggles (key ∷ keys) enabled result = set_toggles keys enabled (set_toggle key enabled result)

  unfoldable pub apply_file_probe_config : FileProbeConfig → (ℕ → ℕ) → Bool × (ℕ → ℕ)
  unfolding set_toggle
  apply_file_probe_config cfg values =
      if is_nonneg map_fd
      then set_toggle file_renameat2 cfg.renameat2
          (set_toggle file_unlinkat cfg.unlinkat (set_toggle file_openat cfg.openat (true, values)))
      else (false, values)

  unfoldable pub apply_process_probe_config : Bool → (ℕ → ℕ) → Bool × (ℕ → ℕ)
  unfolding set_toggles
  apply_process_probe_config enabled values =
      if is_nonneg map_fd then set_toggles process_keys enabled (true, values) else (false, values)

  unfoldable pub apply_network_probe_config : Bool → (ℕ → ℕ) → Bool × (ℕ → ℕ)
  unfolding set_toggles
  apply_network_probe_config enabled values =
      if is_nonneg map_fd then set_toggles network_keys enabled (true, values) else (false, values)

  unfoldable pub set_allowlist_enabled : Bool → (ℕ → ℕ) → Bool × (ℕ → ℕ)
  set_allowlist_enabled enabled values =
      if is_nonneg map_fd
      then (let r = update map_fd values 0 (toggle enabled) in (is_zero r.0, r.1))
      else (false, values)
