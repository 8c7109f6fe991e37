-- ===== src/Net/Epoll.antt =====
-- src/net/epoll.rs. A method changes the backend and makes system calls; its result is an outcome,
-- and the state after an error is kept, since `drop` runs on it.
pub mod Calls
pub mod Casts
pub mod Descriptors
pub mod Interest
pub mod Events
pub mod Drop
use mathlib.Core.List.{Perm}
use rust_kernel_engine.Base.{
  ℕ, zero, suc, ◌+◌, ◌-◌, ◌%◌, ◌^◌, ℤ, pos, negsuc, is_neg, to_u64, List, [], ◌∷◌, ◌++◌, map, Bool,
  true, false, Option, none, some, Outcome, ok, err, panic, Error, epoll_create_failed,
  epoll_add_failed, epoll_mod_failed, epoll_del_failed, epoll_wait_failed, read_failed,
  write_failed, accept_failed, close_failed, ltb, if◌then◌else◌, replicate, get_elem?,
}
use rust_kernel_engine.State.{St, bind, ◌>>=◌, ◌>>◌, pure, fail}
use rust_kernel_engine.Std.Keys.{fd_key}
use rust_kernel_engine.Std.HashMap.{HashMap, insert, remove}
use rust_kernel_engine.Os
use rust_kernel_engine.Os.{
  EpollEvent, Syscall, epoll_create1, epoll_ctl_add, epoll_ctl_mod, epoll_ctl_del, epoll_wait,
  Reply, Trace, Kernel, Os,
}

-- `read_buffer` and `write_buffer` are written at registration only, and stay empty.
pub record ConnectionState : Type 0 where
  pub read_buffer : List ℕ
  pub write_buffer : List ℕ
  pub bytes_read : ℕ
  pub bytes_written : ℕ

pub record EpollBackend : Type 0 where
  pub epoll_fd : ℤ
  pub events : List EpollEvent
  pub max_events : ℕ
  pub connections : HashMap ℤ ConnectionState

-- A backend and the calls made so far.
pub record Machine : Type 0 where
  pub backend : EpollBackend
  pub trace : Trace

-- The order in which a map of connections is iterated: each descriptor in it, once.
pub record ConnectionOrder : Type 0 where
  pub keys : HashMap ℤ ConnectionState → List ℤ
  pub keys_perm : (m : HashMap ℤ ConnectionState) → Perm (keys m) (map (λ c. c.0) m)

abbrev pub M {ℓ} : Type ℓ → Type ℓ
M A = St Machine A

abbrev pub lift {ℓ} : {A : Type ℓ} → Os A → M A
lift f s = let (r, t) = f s.trace in (r, record s { trace = t })

abbrev pub backend : M EpollBackend
backend s = (ok s.backend, s)

abbrev pub set_connections : HashMap ℤ ConnectionState → M (Unit {0})
set_connections c s = (ok tt, record s { backend = record (s.backend) { connections = c } })

abbrev pub set_events : List EpollEvent → M (Unit {0})
set_events es s = (ok tt, record s { backend = record (s.backend) { events = es } })

-- `x as RawFd` and `x as i32` for a 64-bit word: its low 32 bits as a signed number.
abbrev pub as_raw_fd : ℕ → ℤ
as_raw_fd n =
    let low = n % 2 ^ 32 in if ltb low (2 ^ 31) then pos low else negsuc (2 ^ 32 - 1 - low)

abbrev pub zeroed : EpollEvent
zeroed = record { events = 0; u64 = 0 }

abbrev pub fresh_connection : ConnectionState
fresh_connection = record { read_buffer = []; write_buffer = []; bytes_read = 0; bytes_written = 0 }

abbrev event_for : ℤ → ℕ → EpollEvent
event_for fd events = record { events = events; u64 = to_u64 fd }

-- What the kernel writes to the front of the event array.
abbrev pub overwrite : List EpollEvent → List EpollEvent → List EpollEvent
overwrite [] old = old
overwrite (e ∷ es) [] = []
overwrite (e ∷ es) (o ∷ old) = e ∷ overwrite es old

module _ (kernel : Kernel) where
  abbrev sys : Syscall → M Reply
  sys call = lift (Os.sys kernel call)

  unfoldable pub created : ℕ → Reply → Outcome EpollBackend
  created max_events reply =
      if is_neg reply.ret
      then err epoll_create_failed
      else ok (record {
        epoll_fd = reply.ret;
        events = replicate max_events zeroed;
        max_events = max_events;
        connections = [];
      })

  unfoldable pub new : ℕ → Os EpollBackend
  unfolding created
  new max_events t =
      let reply = kernel t epoll_create1 in (created max_events reply, (epoll_create1, reply) ∷ t)

  unfoldable pub register : ℤ → ℕ → M (Unit {0})
  register fd events = do
    self ← backend
    reply ← sys (epoll_ctl_add self.epoll_fd fd (event_for fd events))
    if is_neg reply.ret
        then fail epoll_add_failed
        else set_connections (insert fd fresh_connection self.connections)

  unfoldable pub modify : ℤ → ℕ → M (Unit {0})
  modify fd events = do
    self ← backend
    reply ← sys (epoll_ctl_mod self.epoll_fd fd (event_for fd events))
    if is_neg reply.ret then fail epoll_mod_failed else pure tt

  unfoldable pub unregister : ℤ → M (Unit {0})
  unregister fd = do
    self ← backend
    reply ← sys (epoll_ctl_del self.epoll_fd fd)
    if is_neg reply.ret then fail epoll_del_failed else set_connections (remove fd self.connections)

  unfoldable pub wait : ℤ → M ℕ
  wait timeout_ms = do
    self ← backend
    reply ← sys (epoll_wait self.epoll_fd (as_raw_fd self.max_events) timeout_ms)
    set_events (overwrite reply.events self.events)
    if is_neg reply.ret then fail epoll_wait_failed else pure (to_u64 reply.ret)

  -- The bytes read stand for what the call writes to the front of `buf`, of `len` bytes.
  unfoldable pub read : ℤ → ℕ → M (ℕ × List ℕ)
  read fd len = do
    reply ← sys (Syscall.read fd len)
    if is_neg reply.ret then fail read_failed else pure (to_u64 reply.ret, reply.bytes)

  unfoldable pub write : ℤ → List ℕ → M ℕ
  write fd buf = do
    reply ← sys (Syscall.write fd buf)
    if is_neg reply.ret then fail write_failed else pure (to_u64 reply.ret)

  unfoldable pub accept : ℤ → M ℤ
  accept listen_fd = do
    reply ← sys (Syscall.accept listen_fd)
    if is_neg reply.ret then fail accept_failed else pure reply.ret

  unfoldable pub close : ℤ → M (Unit {0})
  unfolding unregister
  close fd = do
    unregister fd
    reply ← sys (Syscall.close fd)
    if is_neg reply.ret then fail close_failed else pure tt

  -- The loop of `process_events` from index `i` on; an index outside the array panics.
  pub collect : ℕ → ℕ → M (List (ℤ × ℕ))
  collect zero i s = (ok [], s)
  collect (suc rounds) i s = elim (get_elem? s.backend.events i) [
    | none ↦ (panic, s)
    | some event ↦
        bind (collect rounds (suc i) s) λ rest. pure ((as_raw_fd event.u64, event.events) ∷ rest)
  ]

  unfoldable pub process_events : ℤ → M (List (ℤ × ℕ))
  unfolding wait collect
  process_events timeout_ms = do num_events ← wait timeout_ms; collect num_events 0

  -- `drop`: the loop over the registered descriptors, errors ignored, and the last `close`.
  pub close_all : List ℤ → Machine → Machine
  unfolding close
  close_all [] s = s
  close_all (fd ∷ fds) s = close_all fds (close fd s).1

  unfoldable pub drop : ConnectionOrder → Machine → Machine
  unfolding close_all
  drop order s =
      let s' = close_all (order.keys s.backend.connections) s in
      (sys (Syscall.close s'.backend.epoll_fd) s').1

unfoldable pub get_event_fd : EpollBackend → ℕ → Outcome ℤ
get_event_fd self idx = elim (get_elem? self.events idx) [
  | none ↦ panic
  | some event ↦ ok (as_raw_fd event.u64)
]

unfoldable pub get_event_flags : EpollBackend → ℕ → Outcome ℕ
get_event_flags self idx = elim (get_elem? self.events idx) [
  | none ↦ panic
  | some event ↦ ok event.events
]
