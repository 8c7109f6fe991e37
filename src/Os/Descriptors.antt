-- ===== src/Os/Descriptors.antt =====
-- The descriptors that calls open and close.
use rust_kernel_engine.Base.{
  ℕ, ◌+◌, ◌≤◌, ◌≡◌, ℤ, is_neg, [], ◌∷◌, Bool, false, int_eq, if◌then◌else◌,
}
use rust_kernel_engine.Os.{
  Syscall, socket, accept, open_file, epoll_create1, epoll_ctl_add, close, Reply, Trace, Kernel,
  EpollEvent,
}

-- 1 if the tests hold, 0 if not.
abbrev pub one_if : Bool → ℕ
one_if b = if b then 1 else 0

abbrev pub is_made : ℤ → Reply → ℕ
is_made fd reply = if is_neg reply.ret then 0 else one_if (int_eq reply.ret fd)

abbrev opens : ℤ → Syscall → Reply → ℕ → ℕ
opens fd socket reply before = before + is_made fd reply
opens fd (accept _) reply before = before + is_made fd reply
opens fd (open_file _) reply before = before + is_made fd reply
opens fd epoll_create1 reply before = before + is_made fd reply
opens fd _ reply before = before

abbrev closes : ℤ → Syscall → ℕ → ℕ
closes fd (close g) before = before + one_if (int_eq g fd)
closes fd _ before = before

-- How often `fd` was returned as a new descriptor, and how often it was closed.
abbrev pub opened : ℤ → Trace → ℕ
opened fd [] = 0
opened fd ((call, reply) ∷ t) = opens fd call reply (opened fd t)

abbrev pub closed : ℤ → Trace → ℕ
closed fd [] = 0
closed fd ((call, reply) ∷ t) = closes fd call (closed fd t)

-- At most `n` more were opened than closed.
abbrev pub OpenAtMost : ℤ → ℕ → Trace → Type 0
OpenAtMost fd n t = opened fd t ≤ closed fd t + n

-- A descriptor that `accept` returns is not open.
abbrev pub IsFresh : Kernel → Type 0
IsFresh kernel =
    (t : Trace) (listen_fd : ℤ)
    → is_neg (kernel t (accept listen_fd)).ret ≡ false
    → OpenAtMost (kernel t (accept listen_fd)).ret 0 t

-- The kernel watches every descriptor that it is asked to watch.
abbrev pub Adds : Kernel → Type 0
Adds kernel =
    (t : Trace) (epfd fd : ℤ) (event : EpollEvent)
    → is_neg (kernel t (epoll_ctl_add epfd fd event)).ret ≡ false
