-- ===== src/Kernel/Network/Finish.antt =====
-- What the exit of a network call changes in the saved record, and what it leaves.
use e_trace_gen_e_bpfevent_t.Base.{ap, ℕ, ℤ, ◌≡◌, ◌∙◌, false, is_nonneg, arith, s32}
use e_trace_gen_e_bpfevent_t.Schema.{NetworkEvent}
use e_trace_gen_e_bpfevent_t.Kernel.State.{NetworkStateValue, MapHelpers}
use e_trace_gen_e_bpfevent_t.Kernel.Env.{Env}
use e_trace_gen_e_bpfevent_t.Kernel.Network.Pairing.{
  SocketFds, finish_fds, finish_remote, finish_bytes, finish_flow, finish_local, finish_opt_len,
  finish_option, finish_network_event, track_fds,
}

-- What the enter handler decided for good.
abbrev pub SameCall : NetworkEvent → NetworkEvent → Type 0
SameCall ev ev' =
    (ev'.hdr ≡ ev.hdr)
    × (ev'.kind ≡ ev.kind)
    × (ev'.ret ≡ ev.ret)
    × (ev'.direction ≡ ev.direction)
    × (ev'.transport ≡ ev.transport)
    × (ev'.bytes_requested ≡ ev.bytes_requested)

SameCall-trans : (a b c : NetworkEvent) → SameCall a b → SameCall b c → SameCall a c
SameCall-trans a b c (p0, p1, p2, p3, p4, p5) (q0, q1, q2, q3, q4, q5) =
    (q0 ∙ p0, q1 ∙ p1, q2 ∙ p2, q3 ∙ p3, q4 ∙ p4, q5 ∙ p5)

module _ (env : Env) (kind : ℕ) (ret_code : ℤ) (state : NetworkStateValue) where
  module _ (out : NetworkEvent) where
    finish_fds-SameCall : SameCall out (finish_fds env kind ret_code state out)
    unfolding finish_fds
    finish_fds-SameCall = ground arith

    finish_remote-SameCall : SameCall out (finish_remote env kind ret_code state out)
    unfolding finish_remote
    finish_remote-SameCall = ground arith

    finish_bytes-SameCall : SameCall out (finish_bytes env kind ret_code state out)
    unfolding finish_bytes
    finish_bytes-SameCall = ground arith

    finish_flow-SameCall : SameCall out (finish_flow env kind ret_code state out)
    unfolding finish_flow
    finish_flow-SameCall = ground arith

    finish_local-SameCall : SameCall out (finish_local env kind ret_code state out)
    unfolding finish_local
    finish_local-SameCall = ground arith

    finish_option-SameCall : SameCall out (finish_option env kind ret_code state out)
    unfolding finish_option finish_opt_len
    finish_option-SameCall = ground arith

  -- The saved record with what every exit writes.
  abbrev pub at_exit : NetworkEvent
  at_exit = record (state.ev) {
    hdr = record (state.ev.hdr) { ts_ns = env.ktime_at_exit };
    ret = s32 ret_code;
  }

  -- The record that a network exit submits has the header, the kind, the direction, the transport
  -- and the requested byte count of the saved record, but for the time of the exit, and the 32-bit
  -- result of the call.
  pub finish_network_event_lem : SameCall at_exit (finish_network_event env kind ret_code state)
  unfolding finish_network_event
  finish_network_event_lem =
      let fds = finish_fds env kind ret_code state at_exit in
      let remote = finish_remote env kind ret_code state fds in
      let bytes = finish_bytes env kind ret_code state remote in
      let flow = finish_flow env kind ret_code state bytes in
      let local = finish_local env kind ret_code state flow in
      let option = finish_option env kind ret_code state local in
      SameCall-trans at_exit fds option (finish_fds-SameCall at_exit) (
        SameCall-trans fds remote option (finish_remote-SameCall fds) (
          SameCall-trans remote bytes option (finish_bytes-SameCall remote) (
            SameCall-trans bytes flow option (finish_flow-SameCall bytes) (
              SameCall-trans flow local option (finish_local-SameCall flow)
                (finish_option-SameCall local)))))

  module _ (failed : is_nonneg ret_code ≡ false) where
    failed_fds : (out : NetworkEvent) → finish_fds env kind ret_code state out ≡ out
    unfolding finish_fds
    failed_fds out = simp failed

    failed_remote : (out : NetworkEvent) → finish_remote env kind ret_code state out ≡ out
    unfolding finish_remote
    failed_remote out = ground arith

    failed_bytes : (out : NetworkEvent) → finish_bytes env kind ret_code state out ≡ out
    unfolding finish_bytes
    failed_bytes out = ground arith

    failed_local : (out : NetworkEvent) → finish_local env kind ret_code state out ≡ out
    unfolding finish_local
    failed_local out = ground arith

    failed_option : (out : NetworkEvent) → finish_option env kind ret_code state out ≡ out
    unfolding finish_option
    failed_option out = ground arith

    failed_track :
        (h : MapHelpers) (out : NetworkEvent) (fds : SocketFds)
        → track_fds env kind ret_code state h out fds ≡ fds
    unfolding track_fds
    failed_track h out fds = simp failed

    -- A network call that fails leaves the tracked descriptors alone, and its record is the saved
    -- one with the time of the exit, the 32-bit result, and the flow id.
    pub finish_network_event-failed :
        (h : MapHelpers) (fds : SocketFds)
        → (finish_network_event env kind ret_code state
            ≡ finish_flow env kind ret_code state at_exit)
          × (track_fds env kind ret_code state h (finish_network_event env kind ret_code state) fds
              ≡ fds)
    unfolding finish_network_event
    finish_network_event-failed h fds = (
      failed_option _
          ∙ failed_local _
          ∙ ap (finish_flow env kind ret_code state)
              (failed_bytes _ ∙ failed_remote _ ∙ failed_fds at_exit),
      failed_track h _ fds,
    )
