-- ===== src/Os.antt =====
-- The operating system as the program meets it: each call is answered by a kernel that may look at
-- all the calls and answers before it, and a trace records them, the newest first. A theorem that
-- holds for every `Kernel` holds whatever the system, other processes and the network do.
pub mod Descriptors
pub mod Quiet
use rust_kernel_engine.Base.{ℕ, ℤ, List, ◌∷◌, Option, ok, Bool}
use rust_kernel_engine.State.{St}
use rust_kernel_engine.Std.Keys.{Text}

-- `libc::epoll_event`
pub record EpollEvent : Type 0 where
  pub events : ℕ
  pub u64 : ℕ

-- The calls that the source makes, directly or through `std`, `nix` and `core_affinity`. What a call
-- writes to memory of the caller is in its answer.
pub data Syscall : Type 0 where
  epoll_create1 : Syscall
  epoll_ctl_add epoll_ctl_mod : (epfd fd : ℤ) (event : EpollEvent) → Syscall
  epoll_ctl_del : (epfd fd : ℤ) → Syscall
  epoll_wait : (epfd max_events timeout_ms : ℤ) → Syscall
  read : (fd : ℤ) (len : ℕ) → Syscall
  write : (fd : ℤ) (buf : List ℕ) → Syscall
  accept : (fd : ℤ) → Syscall
  close : (fd : ℤ) → Syscall
  exists_path : (path : Text) → Syscall
  open_file : (path : Text) → Syscall
  file_size : (fd : ℤ) → Syscall
  mmap : (fd : ℤ) (len : ℕ) → Syscall
  munmap : (len : ℕ) → Syscall
  sendfile : (out_fd in_fd : ℤ) (offset : Option ℤ) (count : ℕ) → Syscall
  splice :
      (fd_in : ℤ) (off_in : Option ℤ) (fd_out : ℤ) (off_out : Option ℤ) (len flags : ℕ) → Syscall
  vmsplice : (fd : ℤ) (buffers : List (List ℕ)) (flags : ℕ) → Syscall
  set_affinity : (core : ℕ) → Syscall
  sched_setaffinity : (cpus : List Bool) → Syscall
  sched_getaffinity : Syscall
  socket : Syscall
  setsockopt : (fd : ℤ) (option : ℕ) → Syscall
  bind : (fd : ℤ) (ip port : ℕ) → Syscall
  listen : (fd : ℤ) (backlog : ℕ) → Syscall

-- The value returned, bytes read or mapped, events reported, processors set.
pub record Reply : Type 0 where
  pub ret : ℤ
  pub bytes : List ℕ
  pub events : List EpollEvent
  pub cpus : List Bool

abbrev pub Trace : Type 0
Trace = List (Syscall × Reply)

abbrev pub Kernel : Type 0
Kernel = Trace → Syscall → Reply

-- A computation that makes system calls.
abbrev pub Os {ℓ} : Type ℓ → Type ℓ
Os A = St Trace A

abbrev pub sys : Kernel → Syscall → Os Reply
sys kernel call t = let reply = kernel t call in (ok reply, (call, reply) ∷ t)
