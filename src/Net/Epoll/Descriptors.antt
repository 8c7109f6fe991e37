-- ===== src/Net/Epoll/Descriptors.antt =====
-- The descriptors that src/net/epoll.rs leaves open.
use rust_kernel_engine.Base.{
  ℕ, ◌+◌, ◌≡◌, to_u64, ℤ, is_neg, int_eq, List, Bool, true, false, Outcome, ok, arith, subst,
  Bool-cases, inl, inr,
}
use rust_kernel_engine.State.{bind-keeps}
use rust_kernel_engine.Std.Keys.{fd_key, int_eq_iff}
use rust_kernel_engine.Std.HashMap.{get, get-insert, get-remove}
use rust_kernel_engine.Os.{Kernel, Trace, Syscall}
use rust_kernel_engine.Os.Descriptors.{OpenAtMost, one_if, Adds, IsFresh}
use rust_kernel_engine.Net.Epoll.{
  EpollBackend, ConnectionOrder, Machine, fresh_connection, register, unregister, read, write,
  accept, close, wait, process_events, collect, drop,
}
use rust_kernel_engine.Net.Epoll.Drop.{Deletes, get-order, close_all_lem, close_all-keeps}
use rust_kernel_engine.Net.Epoll.Interest.{is_some, collect-machine}

module _ (kernel : Kernel) (fd : ℤ) (n : ℕ) where
  -- Is there a connection for `fd`, and is it the epoll instance?
  abbrev pub tracked : EpollBackend → ℕ
  tracked b = one_if (is_some (get fd b.connections)) + one_if (int_eq b.epoll_fd fd)

  -- The backend answers for the connections and the epoll instance; at most `n` more are open.
  abbrev pub Held : Machine → Type 0
  Held s = OpenAtMost fd (n + tracked s.backend) s.trace

  -- Before a registration: the descriptor may be open once more than the backend answers for.
  abbrev pub DueIf : Bool → Machine → Type 0
  DueIf true s = OpenAtMost fd (n + 1 + one_if (int_eq s.backend.epoll_fd fd)) s.trace
  DueIf false s = Held s

  abbrev pub Due : ℤ → Machine → Type 0
  Due g s = DueIf (int_eq g fd) s

  abbrev pub AfterAccept : Outcome ℤ × Machine → Type 0
  AfterAccept (ok client, s) = Due client s
  AfterAccept (_, s) = Held s

  pub write-Held :
      (client : ℤ) (buf : List ℕ) (s : Machine) → Held s → Held (write kernel client buf s).1
  unfolding write
  write-Held client buf s h = ground arith

  pub close-Held : (g : ℤ) (s : Machine) → Held s → Held (close kernel g s).1
  unfolding close unregister
  close-Held g s h = ground (arith, int_eq_iff g fd, get-remove g fd s.backend.connections)

  -- A registration takes over a descriptor that is open once more.
  pub register-Held :
      (g : ℤ) (events : ℕ) (s : Machine)
      → Adds kernel
      → Due g s
      → Held (register kernel g events s).1
  unfolding register
  register-Held g events s adds due =
      let added = adds s.trace s.backend.epoll_fd g (record { events = events; u64 = to_u64 g }) in
      let found = get-insert g fd fresh_connection s.backend.connections in
      elim (Bool-cases (int_eq g fd)) [
        | inl e ↦
            let h : DueIf true s = subst (λ b. DueIf b s) e due in
            ground (arith, added, found, int_eq_iff g fd, e, h)
        | inr e ↦
            let h : DueIf false s = subst (λ b. DueIf b s) e due in
            ground (arith, added, found, int_eq_iff g fd, e, h)
      ]

  pub read-Held : (g : ℤ) (len : ℕ) (s : Machine) → Held s → Held (read kernel g len s).1
  unfolding read
  read-Held g len s h = ground arith

  wait-Held : (timeout : ℤ) (s : Machine) → Held s → Held (wait kernel timeout s).1
  unfolding wait
  wait-Held timeout s h = ground arith

  pub process_events-Held :
      (timeout : ℤ) (s : Machine) → Held s → Held (process_events kernel timeout s).1
  unfolding process_events
  process_events-Held timeout s h =
      bind-keeps Held (wait kernel timeout s) (λ k. collect kernel k 0) (wait-Held timeout s h)
        (λ k s' h'. rw (collect-machine kernel k 0 s') h')

  fresh_at : (g : ℤ) (t : Trace) → int_eq g fd ≡ true → OpenAtMost g 0 t → OpenAtMost fd 0 t
  fresh_at g t e h = subst (λ d. OpenAtMost d 0 t) ((int_eq_iff g fd).0 e) h

  -- A connection that is accepted was not open before.
  pub accept-Held :
      (g : ℤ) (s : Machine) → IsFresh kernel → Held s → AfterAccept (accept kernel g s)
  unfolding accept
  accept-Held g s fresh h =
      let client = (kernel s.trace (Syscall.accept g)).ret in
      elim (Bool-cases (is_neg client)) [
        | inl failed ↦ rw failed (ground (arith, failed))
        | inr accepted ↦ elim (Bool-cases (int_eq client fd)) [
          | inl same ↦
              let before = fresh_at client s.trace same (fresh s.trace g accepted) in
              rw (accepted, same) (ground (arith, accepted, same, before))
          | inr other ↦ rw (accepted, other) (ground (arith, accepted, other, h))
        ]
      ]

  -- If the kernel deletes what it is asked to delete, `drop` closes what the backend answered for.
  pub drop_open :
      (order : ConnectionOrder) (s : Machine)
      → Deletes kernel
      → Held s
      → OpenAtMost fd n (drop kernel order s).trace
  unfolding drop
  drop_open order s deletes h =
      let fds = order.keys s.backend.connections in
      let held = close_all-keeps Held kernel close-Held fds s h in
      let gone = (close_all_lem kernel deletes fds fd s).0 in
      ground (arith, held, gone, get-order order fd s.backend.connections)
