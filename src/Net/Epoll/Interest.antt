-- ===== src/Net/Epoll/Interest.antt =====
-- The map of connections against the descriptors that the kernel watches.
use rust_kernel_engine.Base.{
  ℕ, zero, suc, ◌≡◌, refl, ℤ, is_neg, List, [], ◌∷◌, Bool, true, false, Option, none, some, arith,
  if◌then◌else◌, int_eq,
}
use rust_kernel_engine.State.{bind-keeps}
use rust_kernel_engine.Std.Keys.{fd_key, int_eq_iff}
use rust_kernel_engine.Std.HashMap.{get, get-insert, get-remove}
use rust_kernel_engine.Os.Quiet.{Ignores}
use rust_kernel_engine.Os.{Syscall, epoll_ctl_add, epoll_ctl_del, Reply, Trace, Kernel}
use rust_kernel_engine.Net.Epoll.{
  Machine, fresh_connection, register, modify, unregister, wait, read, write, accept, close,
  process_events, collect,
}

-- After a call and its answer: is `fd` watched? Only successful additions and deletions count.
abbrev watched_after : ℤ → Syscall → Reply → Bool → Bool
watched_after fd (epoll_ctl_add epfd g event) reply before =
    if int_eq g fd then (if is_neg reply.ret then before else true) else before
watched_after fd (epoll_ctl_del epfd g) reply before =
    if int_eq g fd then (if is_neg reply.ret then before else false) else before
watched_after fd _ reply before = before

-- Does the kernel watch `fd` for the one epoll instance of the trace?
abbrev pub watched : ℤ → Trace → Bool
watched fd [] = false
watched fd ((call, reply) ∷ t) = watched_after fd call reply (watched fd t)

-- Other calls change nothing of it.
pub watched-Ignores : (fd : ℤ) → Ignores (watched fd)
watched-Ignores fd (epoll_ctl_add epfd g event) reply t quiet = cc
watched-Ignores fd (epoll_ctl_del epfd g) reply t quiet = cc
watched-Ignores fd _ reply t quiet = refl

abbrev pub is_some {ℓ} : {A : Type ℓ} → Option A → Bool
is_some none = false
is_some (some _) = true

-- The backend has a connection for exactly the watched descriptors.
abbrev pub IsTracked : Machine → Type 0
IsTracked s = (fd : ℤ) → is_some (get fd s.backend.connections) ≡ watched fd s.trace

module _ (kernel : Kernel) where
  pub register-IsTracked :
      (fd : ℤ) (events : ℕ) (s : Machine) → IsTracked s → IsTracked (register kernel fd events s).1
  unfolding register
  register-IsTracked fd events s h g =
      ground (arith, h g, int_eq_iff fd g, get-insert fd g fresh_connection s.backend.connections)

  pub unregister-IsTracked :
      (fd : ℤ) (s : Machine) → IsTracked s → IsTracked (unregister kernel fd s).1
  unfolding unregister
  unregister-IsTracked fd s h g = ground (arith, h g, get-remove fd g s.backend.connections)

  pub close-IsTracked : (fd : ℤ) (s : Machine) → IsTracked s → IsTracked (close kernel fd s).1
  unfolding close
  close-IsTracked fd s h g = ground (arith, h g, get-remove fd g s.backend.connections)

  pub accept-IsTracked : (fd : ℤ) (s : Machine) → IsTracked s → IsTracked (accept kernel fd s).1
  unfolding accept
  accept-IsTracked fd s h g = ground (arith, h g)

  pub read-IsTracked :
      (fd : ℤ) (len : ℕ) (s : Machine) → IsTracked s → IsTracked (read kernel fd len s).1
  unfolding read
  read-IsTracked fd len s h g = ground (arith, h g)

  pub write-IsTracked :
      (fd : ℤ) (buf : List ℕ) (s : Machine) → IsTracked s → IsTracked (write kernel fd buf s).1
  unfolding write
  write-IsTracked fd buf s h g = ground (arith, h g)

  pub modify-IsTracked :
      (fd : ℤ) (events : ℕ) (s : Machine) → IsTracked s → IsTracked (modify kernel fd events s).1
  unfolding modify
  modify-IsTracked fd events s h g = ground (arith, h g)

  wait-IsTracked : (timeout : ℤ) (s : Machine) → IsTracked s → IsTracked (wait kernel timeout s).1
  unfolding wait
  wait-IsTracked timeout s h g = ground (arith, h g)

  pub collect-machine : (n i : ℕ) (s : Machine) → (collect kernel n i s).1 ≡ s
  unfolding collect
  collect-machine zero i s = refl
  collect-machine (suc n) i s = ground (arith, collect-machine n (suc i) s)

  pub process_events-IsTracked :
      (timeout : ℤ) (s : Machine) → IsTracked s → IsTracked (process_events kernel timeout s).1
  unfolding process_events
  process_events-IsTracked timeout s h =
      bind-keeps IsTracked (wait kernel timeout s) (λ n. collect kernel n 0)
        (wait-IsTracked timeout s h) (λ n s' h'. rw (collect-machine n 0 s') h')
