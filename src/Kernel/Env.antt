-- ===== src/Kernel/Env.antt =====
-- What the kernel hands one invocation of a program: the current task, the clock, the slot that a
-- ring buffer reservation returns, and user memory. All of it is the kernel's, hence a parameter.
use e_trace_gen_e_bpfevent_t.Base.{ℕ, ℤ, List, Option, Bool}
use e_trace_gen_e_bpfevent_t.Schema.{ProcessEvent, FileEvent, SyscallEvent, NetworkEvent}

-- The fields of `struct task_struct` that the programs read.
pub record Task : Type 0 where
  pub real_parent_tgid : ℕ
  pub exit_code : ℕ

-- A reserved slot is not cleared: it comes with whatever the buffer held, and `none` is a full
-- buffer. `probe_read_user addr size` and the string reads give the return code and what stands in
-- the destination afterwards; the string reads take the destination's old bytes. The clock is read
-- once when a header is filled and once more when an exit handler finishes its record.
pub record Env : Type 0 where
  pub cpu : ℕ
  pub current_pid_tgid : ℕ
  pub current_uid_gid : ℕ
  pub current_comm : List ℕ
  pub current_task : Option Task
  pub ktime_at_reserve : ℕ
  pub ktime_at_exit : ℕ
  pub reserved_process : Option ProcessEvent
  pub reserved_file : Option FileEvent
  pub reserved_syscall : Option SyscallEvent
  pub reserved_network : Option NetworkEvent
  pub scratch_available : Bool
  pub probe_read_user : ℕ → ℕ → ℤ × List ℕ
  pub probe_read_user_str : ℕ → ℕ → List ℕ → ℤ × List ℕ
  pub probe_read_kernel_str : ℕ → ℕ → List ℕ → ℤ × List ℕ

-- `struct trace_event_raw_sys_enter` and `struct trace_event_raw_sys_exit`: six `unsigned long`
-- arguments, and a `long` syscall number and result.
pub record SysEnter : Type 0 where
  pub id : ℤ
  pub args0 : ℕ
  pub args1 : ℕ
  pub args2 : ℕ
  pub args3 : ℕ
  pub args4 : ℕ
  pub args5 : ℕ

pub record SysExit : Type 0 where
  pub id : ℤ
  pub ret : ℤ
