-- ===== src/Net/Epoll/Drop.antt =====
-- `drop` of src/net/epoll.rs: the descriptors watched and closed in a trace.
use mathlib.Core.Bool.{Bool-set}
use mathlib.Core.List.{Permᴰ}
use mathlib.Core.List.Permᴰ.{nil, cons, swap, trans}
use mathlib.Core.Logic.{∥∥₁_elim}
use rust_kernel_engine.Base.{
  ◌≡◌, refl, sym, ◌∙◌, ℤ, is_neg, List, [], ◌∷◌, map, Bool, false, ◌||◌, none, arith, if◌then◌else◌,
  int_eq,
}
use rust_kernel_engine.Std.Keys.{fd_key}
use rust_kernel_engine.Std.HashMap.{HashMap, get, get-remove}
use rust_kernel_engine.Os.{Syscall, epoll_ctl_del, Trace, Kernel}
use rust_kernel_engine.Net.Epoll.{
  Machine, ConnectionState, ConnectionOrder, close, drop, close_all, sys,
}
use rust_kernel_engine.Net.Epoll.Interest.{watched, IsTracked, close-IsTracked, is_some}

-- Was `close` called on `fd`?
abbrev closes : ℤ → Syscall → Bool
closes fd (Syscall.close g) = int_eq g fd
closes fd _ = false

abbrev pub is_closed : ℤ → Trace → Bool
is_closed fd [] = false
is_closed fd ((call, reply) ∷ t) = closes fd call || is_closed fd t

abbrev pub has : ℤ → List ℤ → Bool
has fd [] = false
has fd (g ∷ fds) = int_eq g fd || has fd fds

abbrev pub keys : HashMap ℤ ConnectionState → List ℤ
keys m = map (λ c. c.0) m

pub get-keys : (fd : ℤ) (m : HashMap ℤ ConnectionState) → is_some (get fd m) ≡ has fd (keys m)
unfolding get
get-keys fd [] = refl
get-keys fd ((g, c) ∷ m) = ground (arith, get-keys fd m)

has-Permᴰ : (fd : ℤ) {xs ys : List ℤ} → Permᴰ xs ys → has fd xs ≡ has fd ys
has-Permᴰ fd nil = refl
has-Permᴰ fd (cons e p) = ground (arith, e, has-Permᴰ fd p)
has-Permᴰ fd (swap e e') = ground (arith, e, e')
has-Permᴰ fd (trans p q) = has-Permᴰ fd p ∙ has-Permᴰ fd q

-- The order of iteration leaves out no connection and makes up none.
pub get-order :
    (order : ConnectionOrder) (fd : ℤ) (m : HashMap ℤ ConnectionState)
    → is_some (get fd m) ≡ has fd (order.keys m)
get-order order fd m =
    get-keys fd m ∙ sym (∥∥₁_elim (order.keys_perm m) (Bool-set _ _) (λ p. has-Permᴰ fd p))

-- The kernel deletes every descriptor that it is asked to delete.
abbrev pub Deletes : Kernel → Type 0
Deletes kernel = (t : Trace) (epfd fd : ℤ) → is_neg (kernel t (epoll_ctl_del epfd fd)).ret ≡ false

module _ (P : Machine → Type 0) (kernel : Kernel)
    (closed : (fd : ℤ) (s : Machine) → P s → P (close kernel fd s).1) where
  pub close_all-keeps : (fds : List ℤ) (s : Machine) → P s → P (close_all kernel fds s)
  unfolding close_all
  close_all-keeps [] s h = h
  close_all-keeps (fd ∷ fds) s h = close_all-keeps fds (close kernel fd s).1 (closed fd s h)

  -- What `close` and a last call of the kernel's `close` keep, `drop` keeps.
  pub drop-keeps :
      ((fd : ℤ) (s : Machine) → P s → P (sys kernel (Syscall.close fd) s).1)
      → (order : ConnectionOrder) (s : Machine) → P s
      → P (drop kernel order s)
  unfolding drop
  drop-keeps last order s h = last _ _ (close_all-keeps (order.keys s.backend.connections) s h)

module _ (kernel : Kernel) (deletes : Deletes kernel) where
  close_lem :
      (fd g : ℤ) (s : Machine)
      → (get g (close kernel fd s).1.backend.connections
          ≡ (if int_eq fd g then none else get g s.backend.connections))
        × (is_closed g (close kernel fd s).1.trace ≡ (int_eq fd g || is_closed g s.trace))
  unfolding close
  close_lem fd g s =
      ground (arith, deletes s.trace s.backend.epoll_fd fd, get-remove fd g s.backend.connections)

  pub close_all_lem :
      (fds : List ℤ) (g : ℤ) (s : Machine)
      → (get g (close_all kernel fds s).backend.connections
          ≡ (if has g fds then none else get g s.backend.connections))
        × (is_closed g (close_all kernel fds s).trace ≡ (has g fds || is_closed g s.trace))
  unfolding close_all
  close_all_lem [] g s = (refl, refl)
  close_all_lem (fd ∷ fds) g s =
      ground (arith, close_lem fd g s, close_all_lem fds g (close kernel fd s).1)

  close_all-IsTracked :
      (fds : List ℤ) (s : Machine) → IsTracked s → IsTracked (close_all kernel fds s)
  unfolding close_all
  close_all-IsTracked [] s h = h
  close_all-IsTracked (fd ∷ fds) s h =
      close_all-IsTracked fds (close kernel fd s).1 (close-IsTracked kernel fd s h)

  close-epoll_fd :
      (fd : ℤ) (s : Machine) → (close kernel fd s).1.backend.epoll_fd ≡ s.backend.epoll_fd
  unfolding close
  close-epoll_fd fd s = ground arith

  close_all-epoll_fd :
      (fds : List ℤ) (s : Machine) → (close_all kernel fds s).backend.epoll_fd ≡ s.backend.epoll_fd
  unfolding close_all
  close_all-epoll_fd [] s = refl
  close_all-epoll_fd (fd ∷ fds) s =
      close_all-epoll_fd fds (close kernel fd s).1 ∙ close-epoll_fd fd s

  -- If the kernel deletes what it is asked to delete, then after `drop` it watches none of the
  -- descriptors, and the descriptors closed are those closed before, those that were watched, and the
  -- epoll descriptor.
  pub drop_closes :
      (order : ConnectionOrder) (fd : ℤ) (s : Machine)
      → IsTracked s
      → (watched fd (drop kernel order s).trace ≡ false)
        × (is_closed fd (drop kernel order s).trace
            ≡ (int_eq s.backend.epoll_fd fd || (watched fd s.trace || is_closed fd s.trace)))
  unfolding drop
  drop_closes order fd s h =
      let fds = order.keys s.backend.connections in
      ground (
        arith,
        h fd,
        get-order order fd s.backend.connections,
        close_all_lem fds fd s,
        close_all-epoll_fd fds s,
        close_all-IsTracked fds s h fd,
      )
