-- ===== src/Worker/Reactor/Accepting.antt =====
-- The loop over `accept` in `event_loop` of src/worker/reactor.rs: it ends with an `accept` that fails.
use rust_kernel_engine.Base.{
  ℕ, zero, suc, ◌+◌, ◌≤◌, ◌<◌, ◌^◌, ◌≡◌, refl, ℤ, to_u64, is_neg, ◌∷◌, true, false, Outcome, ok,
  err, panic, epoll_add_failed, Bool-cases, inl, inr, arith,
}
use rust_kernel_engine.Config.{ServerConfig}
use rust_kernel_engine.Os.{Kernel, Trace, Reply, Syscall, EpollEvent, epoll_ctl_add}
use rust_kernel_engine.Net.Epoll
use rust_kernel_engine.Net.Epoll.{Machine}
use rust_kernel_engine.Worker.Reactor.{Environment, accept_loop, after_accept}

-- The trace after one call more.
abbrev after_call : Kernel → Syscall → Trace → Trace
after_call kernel call t = (call, kernel t call) ∷ t

-- Finitely many clients: a bound on the connections that `accept` still hands out. It falls with each
-- one, and to watch a connection brings no other.
pub record HasBacklog (kernel : Kernel) (listen_fd : ℤ) : Type 0 where
  pub waiting : Trace → ℕ
  pub waiting-accept :
      (t : Trace)
      → is_neg (kernel t (Syscall.accept listen_fd)).ret ≡ false
      → waiting (after_call kernel (Syscall.accept listen_fd) t) < waiting t
  pub waiting-epoll_ctl_add :
      (t : Trace) (epfd fd : ℤ) (event : EpollEvent)
      → waiting (after_call kernel (epoll_ctl_add epfd fd event) t) ≤ waiting t

-- How the loop ends: its last call is an `accept` that failed, or it could not watch a connection.
abbrev pub Ends : ℤ → Outcome (Unit {0}) × Machine → Type 0
Ends listen_fd (ok _, s) =
    (reply : Reply) × (earlier : Trace) × (s.trace ≡ (Syscall.accept listen_fd, reply) ∷ earlier)
    × (is_neg reply.ret ≡ true)
Ends listen_fd (err e, s) = e ≡ epoll_add_failed
Ends listen_fd (panic, s) = ⊥

-- What a new connection is watched for: `EPOLLIN | EPOLLET`.
abbrev edge_triggered : ℤ → EpollEvent
edge_triggered fd = record { events = 1 + 2 ^ 31; u64 = to_u64 fd }

module _ (env : Environment) (config : ServerConfig) (listen_fd : ℤ)
    (backlog : HasBacklog env.kernel listen_fd) where
  open env use {kernel}
  open backlog use {waiting, waiting-accept, waiting-epoll_ctl_add}

  after_accept-Ends :
      (fuel : ℕ) (client_fd : ℤ) (s : Machine)
      → waiting s.trace < fuel
      → ((s' : Machine)
          → waiting s'.trace < fuel
          → Ends listen_fd (accept_loop env config fuel listen_fd s'))
      → Ends listen_fd
          (after_accept env config (ok client_fd) (accept_loop env config fuel listen_fd) s)
  unfolding after_accept Epoll.register
  after_accept-Ends fuel client_fd s enough again =
      let call = epoll_ctl_add s.backend.epoll_fd client_fd (edge_triggered client_fd) in
      let fewer =
        waiting-epoll_ctl_add s.trace s.backend.epoll_fd client_fd (edge_triggered client_fd) in
      elim (Bool-cases (is_neg (kernel s.trace call).ret)) [
        | inl failed ↦ rw failed refl
        | inr watched ↦ rw watched (again _ (omega (arith, fewer)))
      ]

  -- If the connections that `accept` can still hand out are fewer than the bound of the model, the loop
  -- ends within it: either its last call was an `accept` that failed, or it returns the error of
  -- `register`, which could not watch a connection.
  pub accept_loop-Ends :
      (fuel : ℕ) (s : Machine)
      → waiting s.trace < fuel
      → Ends listen_fd (accept_loop env config fuel listen_fd s)
  unfolding accept_loop Epoll.accept after_accept
  accept_loop-Ends zero s enough = absurd (omega arith)
  accept_loop-Ends (suc fuel) s enough =
      let reply = kernel s.trace (Syscall.accept listen_fd) in
      elim (Bool-cases (is_neg reply.ret)) [
        | inl failed ↦ rw failed (reply, s.trace, refl, failed)
        | inr came ↦ rw came (
            after_accept-Ends fuel reply.ret
              (record s { trace = after_call kernel (Syscall.accept listen_fd) s.trace })
              (omega (arith, waiting-accept s.trace came)) (accept_loop-Ends fuel))
      ]
