-- ===== src/Tests/Sockets.antt =====
-- The properties of Kernel/Network, and of single handlers, at concrete states.
use e_trace_gen_e_bpfevent_t.Base.{pos, [], ◌∷◌, ◌≡◌, refl, some, arith, field_at}
use e_trace_gen_e_bpfevent_t.Schema.Kinds.{network_socket, network_close, network_read}
use e_trace_gen_e_bpfevent_t.Kernel.State.{KernelState, NetworkStateValue}
use e_trace_gen_e_bpfevent_t.Kernel.Env.{Env}
use e_trace_gen_e_bpfevent_t.Kernel.Gate
use e_trace_gen_e_bpfevent_t.Kernel.Network.Build.{build_socket, build_close, build_read}
use e_trace_gen_e_bpfevent_t.Kernel.Network.Enter.{network_enter, socket_enter}
use e_trace_gen_e_bpfevent_t.Kernel.Network.Exit.{network_exit}
use e_trace_gen_e_bpfevent_t.Kernel.Network.Endpoint.{
  ntohs_at, parse_inet, parse_family, parse_sockaddr_user,
}
use e_trace_gen_e_bpfevent_t.Kernel.Network.EndpointForm.{
  IsEndpoint, parse_sockaddr_user-IsEndpoint,
}
use e_trace_gen_e_bpfevent_t.Kernel.Network.Flow.{hash_fold64}
use e_trace_gen_e_bpfevent_t.Kernel.Network.FlowHash.{unfold64, unfold64-hash_fold64}
use e_trace_gen_e_bpfevent_t.Kernel.Network.Iovec.{sum_items, sum_iovec_lengths}
use e_trace_gen_e_bpfevent_t.Kernel.Pairs.Sockets.{socket_then_io, close_then_io}
use e_trace_gen_e_bpfevent_t.Tests.Setup.{
  roomy, roomy-IsMapHelpers, task_at, enter_args, exit_with, loaded, file_slot, network_slot,
  syscall_slot, endpoint_slot,
}

abbrev task : Env
task = task_at 7 100 (2 ∷ 0 ∷ 31 ∷ 144 ∷ 127 ∷ 0 ∷ 0 ∷ 1 ∷ 5 ∷ 0 ∷ 0 ∷ 0 ∷ 0 ∷ 0 ∷ 0 ∷ 0 ∷ [])

-- Task 7 inside `openat`, `socket` and `close`.
abbrev saved_socket : NetworkStateValue
saved_socket = build_socket task enter_args network_slot

abbrev saved_close : NetworkStateValue
saved_close = build_close task enter_args network_slot

abbrev busy : KernelState
busy = record loaded {
  file_enter_state = λ k. some file_slot;
  syscall_enter_state = λ k. some syscall_slot;
  network_enter_state = λ k. some saved_close;
  socket_fd_state = λ k. some (record { is_socket = 1 });
}

abbrev opening : KernelState
opening = record loaded { network_enter_state = λ k. some saved_socket }

socket_then_io_example :
    let s' = network_exit roomy task network_socket (exit_with 3) opening in
    socket_enter roomy task network_read (pos 3) (build_read task enter_args) s'
    ≡ network_enter roomy task network_read (build_read task enter_args) s'
unfolding Gate.is_event_allowed Gate.is_network_probe_enabled
socket_then_io_example =
    socket_then_io roomy-IsMapHelpers task task (exit_with 3) saved_socket network_slot opening
      (refl, refl) refl refl refl refl refl network_read (build_read task enter_args)

close_then_io_example :
    let s' = network_exit roomy task network_close (exit_with 0) busy in
    socket_enter roomy task network_read (pos 3) (build_read task enter_args) s' ≡ s'
unfolding Gate.is_event_allowed Gate.is_network_probe_enabled
close_then_io_example =
    close_then_io roomy-IsMapHelpers task task (exit_with 0) saved_close network_slot busy
      (refl, refl) refl refl refl refl network_read (build_read task enter_args)

unfold64-hash_fold64_example : unfold64 (hash_fold64 0x7_0000_0007) ≡ 0x7_0000_0007
unfold64-hash_fold64_example = unfold64-hash_fold64 0x7_0000_0007 (omega arith)

parse_sockaddr_user-IsEndpoint_example : IsEndpoint (parse_sockaddr_user task 4096 16 endpoint_slot)
parse_sockaddr_user-IsEndpoint_example =
    parse_sockaddr_user-IsEndpoint task 4096 16 endpoint_slot refl

-- Tests: 127.0.0.1:8080 is parsed, and three readable entries of 5 bytes are 15 bytes.
parsed_port : (parse_sockaddr_user task 4096 16 endpoint_slot).port ≡ 8080
unfolding parse_sockaddr_user parse_family parse_inet ntohs_at field_at
parsed_port = refl

summed : sum_iovec_lengths task 4096 3 ≡ 15
unfolding sum_iovec_lengths sum_items field_at
summed = refl
