-- ===== src/Tests/Records.antt =====
-- Finished records and UNIX paths at concrete calls.
use e_trace_gen_e_bpfevent_t.Kernel.Network.AbstractName.{copy_unix_sockaddr_path-abstract}
use e_trace_gen_e_bpfevent_t.Base.{
  drop, List, ℕ, none, ◌-◌, negsuc, [], ◌∷◌, ◌≡◌, refl, arith, replicate, min, take, c_str,
}
use e_trace_gen_e_bpfevent_t.Schema.Kinds.{unix_path_len, network_accept}
use e_trace_gen_e_bpfevent_t.Kernel.State.{NetworkStateValue}
use e_trace_gen_e_bpfevent_t.Kernel.Env.{Env}
use e_trace_gen_e_bpfevent_t.Kernel.Network.Endpoint.{copy_unix_sockaddr_path}
use e_trace_gen_e_bpfevent_t.Kernel.Network.UnixPath.{copy_unix_sockaddr_path_lem}
use e_trace_gen_e_bpfevent_t.Kernel.Network.Build.{build_accept}
use e_trace_gen_e_bpfevent_t.Kernel.Network.Pairing.{finish_network_event, finish_flow, track_fds}
use e_trace_gen_e_bpfevent_t.Kernel.Network.Finish.{at_exit, finish_network_event-failed}
use e_trace_gen_e_bpfevent_t.Tests.Setup.{roomy, task_at, enter_args, network_slot}

-- "/a/b", and what stands behind it.
abbrev bound_path : List ℕ
bound_path = 47 ∷ 97 ∷ 47 ∷ 98 ∷ 0 ∷ 9 ∷ replicate 102 7

copy_unix_sockaddr_path_lem_example :
    c_str (copy_unix_sockaddr_path bound_path 6 (replicate 108 0))
    ≡ c_str (take (min 6 (unix_path_len - 1)) bound_path)
copy_unix_sockaddr_path_lem_example =
    copy_unix_sockaddr_path_lem bound_path 6 (replicate 108 0) (omega arith) (omega arith) refl refl
      refl

bound_name : c_str (take (min 6 (unix_path_len - 1)) bound_path) ≡ 47 ∷ 97 ∷ 47 ∷ 98 ∷ []
bound_name = refl

abbrev task : Env
task = task_at 7 100 (replicate 16 0)

abbrev accepting : NetworkStateValue
accepting = build_accept task enter_args network_slot

-- The call gives -9.
finish_network_event-failed_example :
    (finish_network_event task network_accept (negsuc 8) accepting
      ≡ finish_flow task network_accept
          (negsuc 8)
          accepting
          (at_exit task network_accept (negsuc 8) accepting))
    × (track_fds task network_accept
          (negsuc 8)
          accepting
          roomy
          (finish_network_event task network_accept (negsuc 8) accepting)
          (λ k. none)
        ≡ (λ k. none))
finish_network_event-failed_example =
    finish_network_event-failed task network_accept (negsuc 8) accepting refl roomy (λ k. none)

-- NUL, then "bus".
abbrev abstract_name : List ℕ
abstract_name = 0 ∷ 98 ∷ 117 ∷ 115 ∷ replicate 104 0

copy_unix_sockaddr_path-abstract_example :
    c_str (copy_unix_sockaddr_path abstract_name 4 (replicate 108 0))
    ≡ 64 ∷ c_str (take (min 4 (unix_path_len - 1) - 1) (drop 1 abstract_name))
copy_unix_sockaddr_path-abstract_example =
    copy_unix_sockaddr_path-abstract abstract_name 4 (replicate 108 0) (omega arith) (omega arith)
      (omega arith) refl refl refl
