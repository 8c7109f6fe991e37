-- ===== src/Os/Quiet.antt =====
-- Calls that neither change what an epoll instance watches nor read or write.
use rust_kernel_engine.Base.{◌≡◌, Bool, true, false, ◌∷◌}
use rust_kernel_engine.Os.{Syscall, epoll_ctl_add, epoll_ctl_del, write, read, Reply, Trace}

abbrev pub is_quiet : Syscall → Bool
is_quiet (epoll_ctl_add epfd fd event) = false
is_quiet (epoll_ctl_del epfd fd) = false
is_quiet (read fd len) = false
is_quiet (write fd buf) = false
is_quiet _ = true

-- A view of the calls made so far that quiet calls leave as it is.
abbrev pub Ignores {ℓ} : {A : Type ℓ} → (Trace → A) → Type ℓ
Ignores view =
    (call : Syscall) (reply : Reply) (t : Trace)
    → is_quiet call ≡ true
    → view ((call, reply) ∷ t) ≡ view t
