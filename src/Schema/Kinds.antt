-- ===== src/Schema/Kinds.antt =====
-- The enumerations of include/event_schema.h and its buffer lengths, as the numbers they stand for.
use e_trace_gen_e_bpfevent_t.Base.{ℕ}

abbrev pub comm_len : ℕ
comm_len = 16

abbrev pub path_len : ℕ
path_len = 256

abbrev pub unix_path_len : ℕ
unix_path_len = 108

abbrev pub event_type_process : ℕ
event_type_process = 1

abbrev pub event_type_file : ℕ
event_type_file = 2

abbrev pub event_type_syscall : ℕ
event_type_syscall = 3

abbrev pub event_type_network : ℕ
event_type_network = 4

abbrev pub process_exec : ℕ
process_exec = 1

abbrev pub process_fork : ℕ
process_fork = 2

abbrev pub process_exit : ℕ
process_exit = 3

abbrev pub process_clone : ℕ
process_clone = 4

abbrev pub process_clone3 : ℕ
process_clone3 = 5

abbrev pub process_vfork : ℕ
process_vfork = 6

abbrev pub file_openat : ℕ
file_openat = 1

abbrev pub file_unlinkat : ℕ
file_unlinkat = 2

abbrev pub file_renameat2 : ℕ
file_renameat2 = 3

abbrev pub network_socket : ℕ
network_socket = 1

abbrev pub network_connect : ℕ
network_connect = 2

abbrev pub network_accept : ℕ
network_accept = 3

abbrev pub network_bind : ℕ
network_bind = 4

abbrev pub network_listen : ℕ
network_listen = 5

abbrev pub network_close : ℕ
network_close = 6

abbrev pub network_sendto : ℕ
network_sendto = 7

abbrev pub network_recvfrom : ℕ
network_recvfrom = 8

abbrev pub network_shutdown : ℕ
network_shutdown = 9

abbrev pub network_socketpair : ℕ
network_socketpair = 10

abbrev pub network_accept4 : ℕ
network_accept4 = 11

abbrev pub network_getsockname : ℕ
network_getsockname = 12

abbrev pub network_getpeername : ℕ
network_getpeername = 13

abbrev pub network_setsockopt : ℕ
network_setsockopt = 14

abbrev pub network_getsockopt : ℕ
network_getsockopt = 15

abbrev pub network_sendmsg : ℕ
network_sendmsg = 16

abbrev pub network_recvmsg : ℕ
network_recvmsg = 17

abbrev pub network_read : ℕ
network_read = 18

abbrev pub network_write : ℕ
network_write = 19

abbrev pub network_readv : ℕ
network_readv = 20

abbrev pub network_writev : ℕ
network_writev = 21

abbrev pub network_sendmmsg : ℕ
network_sendmmsg = 22

abbrev pub network_recvmmsg : ℕ
network_recvmmsg = 23

abbrev pub network_direction_unknown : ℕ
network_direction_unknown = 0

abbrev pub network_direction_inbound : ℕ
network_direction_inbound = 1

abbrev pub network_direction_outbound : ℕ
network_direction_outbound = 2

abbrev pub network_transport_unknown : ℕ
network_transport_unknown = 0

abbrev pub network_transport_tcp : ℕ
network_transport_tcp = 1

abbrev pub network_transport_udp : ℕ
network_transport_udp = 2

abbrev pub network_transport_unix : ℕ
network_transport_unix = 3

abbrev pub network_transport_raw : ℕ
network_transport_raw = 4
