-- ===== src/Kernel/Pairs/Sockets.antt =====
-- Descriptors from the exit of `socket` and `close` to the byte-stream programs.
use e_trace_gen_e_bpfevent_t.Base.{
  ◌==◌, none, Bool, to_bits, ℕ, ℤ, ◌≡◌, true, false, some, is_nonneg, arith, s32, ◌∙◌, ap,
}
use e_trace_gen_e_bpfevent_t.Schema.{NetworkEvent}
use e_trace_gen_e_bpfevent_t.Schema.Kinds.{network_socket, network_close}
use e_trace_gen_e_bpfevent_t.Kernel.State.{KernelState, NetworkStateValue, MapHelpers, IsMapHelpers}
use e_trace_gen_e_bpfevent_t.Kernel.Env.{Env, SysExit}
use e_trace_gen_e_bpfevent_t.Kernel.Gate.{tgid_of}
use e_trace_gen_e_bpfevent_t.Kernel.Network.Pairing.{
  SocketFds, make_network_key, is_socket_fd, track_fds, with_socket_fds, add_socket_fd,
  delete_socket_fd,
}
use e_trace_gen_e_bpfevent_t.Kernel.Network.SocketFds.{
  IsTaken, add_socket_fd-is_socket_fd, delete_socket_fd-is_socket_fd, finished_socket_fd,
  finished_close_fd,
}
use e_trace_gen_e_bpfevent_t.Kernel.Network.Enter.{network_enter, socket_enter}
use e_trace_gen_e_bpfevent_t.Kernel.Network.Exit.{network_exit}
use e_trace_gen_e_bpfevent_t.Kernel.Pairs.Network.{IsNetworkOpen, exit_tracks}

-- A lookup of a descriptor, by the process and the map alone.
abbrev looked_up : ℕ → ℤ → SocketFds → Bool
looked_up tgid fd fds = elim (fds (record { tgid = tgid; fd = to_bits 32 fd })) [
  | none ↦ false
  | some value ↦ value.is_socket == 1
]

-- Descriptors are known by process, whatever the task.
same_process :
    (env env' : Env) (fd : ℤ) (s t : KernelState)
    → tgid_of env'.current_pid_tgid ≡ tgid_of env.current_pid_tgid
    → s.socket_fd_state ≡ t.socket_fd_state
    → is_socket_fd env' fd s ≡ is_socket_fd env fd t
unfolding is_socket_fd
same_process env env' fd s t same same_fds = λ i. looked_up (same i) fd (same_fds i)

track_socket :
    (h : MapHelpers) (env : Env) (ret_code : ℤ) (state : NetworkStateValue) (out : NetworkEvent)
    (fds : SocketFds)
    → is_nonneg ret_code ≡ true
    → track_fds env network_socket ret_code state h out fds ≡ add_socket_fd h env out.fd fds
unfolding track_fds
track_socket h env ret_code state out fds ok = rw ok

track_close :
    (h : MapHelpers) (env : Env) (ret_code : ℤ) (state : NetworkStateValue) (out : NetworkEvent)
    (fds : SocketFds)
    → is_nonneg ret_code ≡ true
    → track_fds env network_close ret_code state h out fds ≡ delete_socket_fd h env out.fd fds
unfolding track_fds
track_close h env ret_code state out fds ok = rw ok

known_enters :
    (h : MapHelpers) (env : Env) (kind : ℕ) (fd : ℤ) (build : NetworkEvent → NetworkStateValue)
    (s : KernelState)
    → is_socket_fd env fd s ≡ true
    → socket_enter h env kind fd build s ≡ network_enter h env kind build s
unfolding socket_enter network_enter
known_enters h env kind fd build s known = ground arith

unknown_enters :
    (h : MapHelpers) (env : Env) (kind : ℕ) (fd : ℤ) (build : NetworkEvent → NetworkStateValue)
    (s : KernelState)
    → is_socket_fd env fd s ≡ false
    → socket_enter h env kind fd build s ≡ s
unfolding socket_enter
unknown_enters h env kind fd build s unknown = ground arith

module _ {h : MapHelpers} (laws : IsMapHelpers h) (exit env : Env) (ctx : SysExit)
    (saved : NetworkStateValue) (slot : NetworkEvent) (s : KernelState) where
  -- When an open exit handler of `socket` finishes a successful call, and the map takes the
  -- descriptor, then in the state that it leaves, with no call in between, the enter handler of a
  -- byte-stream call of the same process on that descriptor, of any task and kind, does what the
  -- enter handler of any other network call does.
  pub socket_then_io :
      IsNetworkOpen exit network_socket s
      → exit.reserved_network ≡ some slot
      → s.network_enter_state (make_network_key exit network_socket) ≡ some saved
      → is_nonneg ctx.ret ≡ true
      → IsTaken h exit (s32 ctx.ret) s.socket_fd_state
      → tgid_of env.current_pid_tgid ≡ tgid_of exit.current_pid_tgid
      → (kind : ℕ) (build : NetworkEvent → NetworkStateValue)
      → let s' = network_exit h exit network_socket ctx s in
        socket_enter h env kind (s32 ctx.ret) build s' ≡ network_enter h env kind build s'
  socket_then_io gates reserved found ok taken same kind build =
      known_enters h env kind (s32 ctx.ret) build _ (
        same_process exit env (s32 ctx.ret) (network_exit h exit network_socket ctx s)
          (with_socket_fds (add_socket_fd h exit (s32 ctx.ret) s.socket_fd_state) s) same
          (exit_tracks h exit network_socket laws ctx saved slot s gates reserved found
            ∙ track_socket h exit ctx.ret saved _ s.socket_fd_state ok
            ∙ ap (λ fd. add_socket_fd h exit fd s.socket_fd_state)
                (finished_socket_fd exit ctx.ret saved ok))
        ∙ add_socket_fd-is_socket_fd laws exit (s32 ctx.ret) s taken)

  -- When an open exit handler of `close` finishes a successful call, then a byte-stream call of the
  -- same process on the closed descriptor is not recorded: its enter handler changes nothing.
  pub close_then_io :
      IsNetworkOpen exit network_close s
      → exit.reserved_network ≡ some slot
      → s.network_enter_state (make_network_key exit network_close) ≡ some saved
      → is_nonneg ctx.ret ≡ true
      → tgid_of env.current_pid_tgid ≡ tgid_of exit.current_pid_tgid
      → (kind : ℕ) (build : NetworkEvent → NetworkStateValue)
      → let s' = network_exit h exit network_close ctx s in
        socket_enter h env kind saved.ev.fd build s' ≡ s'
  close_then_io gates reserved found ok same kind build =
      unknown_enters h env kind saved.ev.fd build _ (
        same_process exit env saved.ev.fd (network_exit h exit network_close ctx s)
          (with_socket_fds (delete_socket_fd h exit saved.ev.fd s.socket_fd_state) s) same
          (exit_tracks h exit network_close laws ctx saved slot s gates reserved found
            ∙ track_close h exit ctx.ret saved _ s.socket_fd_state ok
            ∙ ap (λ fd. delete_socket_fd h exit fd s.socket_fd_state)
                (finished_close_fd exit ctx.ret saved))
        ∙ delete_socket_fd-is_socket_fd laws exit saved.ev.fd s)
