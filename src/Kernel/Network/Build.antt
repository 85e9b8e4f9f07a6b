-- ===== src/Kernel/Network/Build.antt =====
-- What the enter handlers of bpf/event_logger_network.bpf.c write into the state that they save.
use e_trace_gen_e_bpfevent_t.Base.{
  ℕ, ℤ, not, ◌&&◌, ltb, ◌==◌, if◌then◌else◌, u32, signed32, field_at,
}
use e_trace_gen_e_bpfevent_t.Schema.{NetworkEvent}
use e_trace_gen_e_bpfevent_t.Schema.Kinds.{
  network_socket, network_connect, network_accept, network_sendto, network_recvfrom,
  network_socketpair, network_accept4, network_sendmsg, network_recvmsg, network_read,
  network_write, network_readv, network_writev, network_sendmmsg, network_recvmmsg,
  network_direction_unknown,
}
use e_trace_gen_e_bpfevent_t.Kernel.State.{NetworkStateValue}
use e_trace_gen_e_bpfevent_t.Kernel.Env.{Env, SysEnter}
use e_trace_gen_e_bpfevent_t.Kernel.Network.Endpoint.{
  is_zero, parse_sockaddr_user, copy_optval_prefix,
}
use e_trace_gen_e_bpfevent_t.Kernel.Network.Iovec.{
  sizeof_msghdr, sum_iovec_lengths, sum_mmsghdr_lengths,
}
use e_trace_gen_e_bpfevent_t.Kernel.Network.Flow.{infer_network_transport, infer_network_direction}

-- `net_scratch` followed by `state->ev = *ev`.
abbrev pub fresh_state : NetworkEvent → NetworkStateValue
fresh_state ev = record {
  ev = ev;
  sockaddr_ptr = 0;
  sockaddr_len_ptr = 0;
  sockaddr_len = 0;
  peer_fd_ptr = 0;
  optval_ptr = 0;
  optlen_ptr = 0;
  mmsg_ptr = 0;
  mmsg_count = 0;
}

-- `(__s32)ctx->args[n]`
abbrev pub arg_s32 : ℕ → ℤ
arg_s32 n = signed32 (u32 n)

-- The `msghdr` that `sendmsg` and `recvmsg` point to: byte count and peer address.
unfoldable pub read_msghdr : Env → ℕ → NetworkEvent → NetworkEvent
read_msghdr env msg ev =
    let (ret, hdr) = env.probe_read_user msg sizeof_msghdr in
    if not (msg == 0) && is_zero ret
    then record ev {
      bytes_requested = sum_iovec_lengths env (field_at 16 8 hdr) (field_at 24 8 hdr);
      remote =
          if not (field_at 0 8 hdr == 0) && ltb 0 (field_at 8 4 hdr)
          then parse_sockaddr_user env (field_at 0 8 hdr) (field_at 8 4 hdr) ev.remote
          else ev.remote;
    }
    else ev

-- The states that the handlers build from a reserved record.
module _ (env : Env) (ctx : SysEnter) where
  abbrev pub build_socket : NetworkEvent → NetworkStateValue
  build_socket ev = fresh_state (record ev {
    domain = arg_s32 ctx.args0;
    sock_type = arg_s32 ctx.args1;
    protocol = arg_s32 ctx.args2;
    transport = infer_network_transport (arg_s32 ctx.args0) (arg_s32 ctx.args1);
    direction = infer_network_direction network_socket;
  })

  abbrev pub build_socketpair : NetworkEvent → NetworkStateValue
  build_socketpair ev =
      record (fresh_state (record ev {
        domain = arg_s32 ctx.args0;
        sock_type = arg_s32 ctx.args1;
        protocol = arg_s32 ctx.args2;
        transport = infer_network_transport (arg_s32 ctx.args0) (arg_s32 ctx.args1);
        direction = infer_network_direction network_socketpair;
      })) { peer_fd_ptr = ctx.args3 }

  abbrev pub build_connect : NetworkEvent → NetworkStateValue
  build_connect ev = fresh_state (record ev {
    fd = arg_s32 ctx.args0;
    direction = infer_network_direction network_connect;
    remote = parse_sockaddr_user env ctx.args1 (u32 ctx.args2) ev.remote;
  })

  abbrev pub build_bind : NetworkEvent → NetworkStateValue
  build_bind ev = fresh_state (record ev {
    fd = arg_s32 ctx.args0;
    direction = network_direction_unknown;
    local = parse_sockaddr_user env ctx.args1 (u32 ctx.args2) ev.local;
  })

  abbrev pub build_accept : NetworkEvent → NetworkStateValue
  build_accept ev =
      record (fresh_state (record ev {
        fd = arg_s32 ctx.args0;
        direction = infer_network_direction network_accept;
      })) { sockaddr_ptr = ctx.args1; sockaddr_len_ptr = ctx.args2 }

  abbrev pub build_accept4 : NetworkEvent → NetworkStateValue
  build_accept4 ev =
      record (fresh_state (record ev {
        fd = arg_s32 ctx.args0;
        flags = arg_s32 ctx.args3;
        direction = infer_network_direction network_accept4;
      })) { sockaddr_ptr = ctx.args1; sockaddr_len_ptr = ctx.args2 }

  abbrev pub build_listen : NetworkEvent → NetworkStateValue
  build_listen ev = fresh_state (record ev { fd = arg_s32 ctx.args0; backlog = arg_s32 ctx.args1 })

  abbrev pub build_getsockname : NetworkEvent → NetworkStateValue
  build_getsockname ev = record (fresh_state (record ev { fd = arg_s32 ctx.args0 })) {
    sockaddr_ptr = ctx.args1;
    sockaddr_len_ptr = ctx.args2;
  }

  abbrev pub build_getpeername : NetworkEvent → NetworkStateValue
  build_getpeername ev = record (fresh_state (record ev { fd = arg_s32 ctx.args0 })) {
    sockaddr_ptr = ctx.args1;
    sockaddr_len_ptr = ctx.args2;
  }

  abbrev pub build_setsockopt : NetworkEvent → NetworkStateValue
  build_setsockopt ev =
      record (fresh_state (record ev {
        fd = arg_s32 ctx.args0;
        opt_level = arg_s32 ctx.args1;
        opt_name = arg_s32 ctx.args2;
        opt_len = arg_s32 ctx.args4;
        optval_prefix = copy_optval_prefix env ev.optval_prefix ctx.args3 (u32 ctx.args4);
      })) { optval_ptr = ctx.args3 }

  abbrev pub build_getsockopt : NetworkEvent → NetworkStateValue
  build_getsockopt ev =
      record (fresh_state (record ev {
        fd = arg_s32 ctx.args0;
        opt_level = arg_s32 ctx.args1;
        opt_name = arg_s32 ctx.args2;
        opt_len =
            if ctx.args4 == 0
            then ev.opt_len
            else signed32 (field_at 0 4 (env.probe_read_user ctx.args4 4).1);
      })) { optval_ptr = ctx.args3; optlen_ptr = ctx.args4 }

  abbrev pub build_sendto : NetworkEvent → NetworkStateValue
  build_sendto ev = fresh_state (record ev {
    fd = arg_s32 ctx.args0;
    flags = arg_s32 ctx.args3;
    direction = infer_network_direction network_sendto;
    bytes_requested = ctx.args2;
    remote = parse_sockaddr_user env ctx.args4 (u32 ctx.args5) ev.remote;
  })

  abbrev pub build_sendmsg : NetworkEvent → NetworkStateValue
  build_sendmsg ev = fresh_state (
      read_msghdr env ctx.args1 (record ev {
        fd = arg_s32 ctx.args0;
        flags = arg_s32 ctx.args2;
        direction = infer_network_direction network_sendmsg;
      }))

  abbrev pub build_recvfrom : NetworkEvent → NetworkStateValue
  build_recvfrom ev =
      record (fresh_state (record ev {
        fd = arg_s32 ctx.args0;
        flags = arg_s32 ctx.args3;
        direction = infer_network_direction network_recvfrom;
        bytes_requested = ctx.args2;
      })) { sockaddr_ptr = ctx.args4; sockaddr_len_ptr = ctx.args5 }

  abbrev pub build_recvmsg : NetworkEvent → NetworkStateValue
  build_recvmsg ev = fresh_state (
      read_msghdr env ctx.args1 (record ev {
        fd = arg_s32 ctx.args0;
        flags = arg_s32 ctx.args2;
        direction = infer_network_direction network_recvmsg;
      }))

  abbrev pub build_read : NetworkEvent → NetworkStateValue
  build_read ev = fresh_state (record ev {
    fd = arg_s32 ctx.args0;
    direction = infer_network_direction network_read;
    bytes_requested = ctx.args2;
  })

  abbrev pub build_write : NetworkEvent → NetworkStateValue
  build_write ev = fresh_state (record ev {
    fd = arg_s32 ctx.args0;
    direction = infer_network_direction network_write;
    bytes_requested = ctx.args2;
  })

  abbrev pub build_readv : NetworkEvent → NetworkStateValue
  build_readv ev = fresh_state (record ev {
    fd = arg_s32 ctx.args0;
    direction = infer_network_direction network_readv;
    bytes_requested = sum_iovec_lengths env ctx.args1 ctx.args2;
  })

  abbrev pub build_writev : NetworkEvent → NetworkStateValue
  build_writev ev = fresh_state (record ev {
    fd = arg_s32 ctx.args0;
    direction = infer_network_direction network_writev;
    bytes_requested = sum_iovec_lengths env ctx.args1 ctx.args2;
  })

  abbrev pub build_sendmmsg : NetworkEvent → NetworkStateValue
  build_sendmmsg ev =
      record (fresh_state (record ev {
        fd = arg_s32 ctx.args0;
        flags = arg_s32 ctx.args3;
        direction = infer_network_direction network_sendmmsg;
        bytes_requested = sum_mmsghdr_lengths env ctx.args1 (u32 ctx.args2);
      })) { mmsg_ptr = ctx.args1; mmsg_count = ctx.args2 }

  abbrev pub build_recvmmsg : NetworkEvent → NetworkStateValue
  build_recvmmsg ev =
      record (fresh_state (record ev {
        fd = arg_s32 ctx.args0;
        flags = arg_s32 ctx.args3;
        direction = infer_network_direction network_recvmmsg;
        bytes_requested = sum_mmsghdr_lengths env ctx.args1 (u32 ctx.args2);
      })) { mmsg_ptr = ctx.args1; mmsg_count = ctx.args2 }

  abbrev pub build_shutdown : NetworkEvent → NetworkStateValue
  build_shutdown ev = fresh_state (record ev { fd = arg_s32 ctx.args0; how = arg_s32 ctx.args1 })

  abbrev pub build_close : NetworkEvent → NetworkStateValue
  build_close ev = fresh_state (record ev { fd = arg_s32 ctx.args0 })
