-- ===== src/Net/Epoll/Calls.antt =====
-- The system calls of src/net/epoll.rs that a view of the trace ignores.
use rust_kernel_engine.Base.{ℕ, ℤ, ◌≡◌, arith, ◌∷◌}
use rust_kernel_engine.Os.{Kernel, Trace, Reply, Syscall}
use rust_kernel_engine.Os.Quiet.{Ignores}
use rust_kernel_engine.State.{bind-keeps}
use rust_kernel_engine.Net.Epoll
use rust_kernel_engine.Net.Epoll.{Machine, wait, collect}
use rust_kernel_engine.Net.Epoll.Interest.{collect-machine}

module _ {ℓ} {A : Type ℓ} (view : Trace → A) (ignores : Ignores view) (kernel : Kernel) where
  pub view-accept : (fd : ℤ) (s : Machine) → view (Epoll.accept kernel fd s).1.trace ≡ view s.trace
  unfolding Epoll.accept
  view-accept fd s = grind arith

  -- A `read`, for a view that ignores also these.
  pub view-read :
      ((g : ℤ) (n : ℕ) (reply : Reply) (t : Trace) → view ((Syscall.read g n, reply) ∷ t) ≡ view t)
      → (fd : ℤ) (len : ℕ) (s : Machine) → view (Epoll.read kernel fd len s).1.trace ≡ view s.trace
  unfolding Epoll.read
  view-read reads fd len s = grind arith

  view-wait : (timeout : ℤ) (s : Machine) → view (wait kernel timeout s).1.trace ≡ view s.trace
  unfolding wait
  view-wait timeout s = grind arith

  pub view-process_events :
      (timeout : ℤ) (s : Machine)
      → view (Epoll.process_events kernel timeout s).1.trace ≡ view s.trace
  unfolding Epoll.process_events
  view-process_events timeout s =
      bind-keeps (λ s'. view s'.trace ≡ view s.trace) (wait kernel timeout s) _
        (view-wait timeout s) (λ n s' e. rw (collect-machine kernel n 0 s') e)
