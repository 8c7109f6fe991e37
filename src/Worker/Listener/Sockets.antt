-- ===== src/Worker/Listener/Sockets.antt =====
-- The sockets that `create_listen_socket` leaves open.
use rust_kernel_engine.Base.{
  ◌∙◌, ℕ, ◌+◌, ◌≡◌, refl, ℤ, int_eq, is_neg, ◌∷◌, false, Option, none, some, Outcome, ok, err,
  panic, bad_host, arith, Bool-cases, Option-cases, inl, inr,
}
use rust_kernel_engine.Config.{ServerConfig}
use rust_kernel_engine.Std.Keys.{Text}
use rust_kernel_engine.Os.{Syscall, socket, listen, Reply, Trace, Kernel}
use rust_kernel_engine.Os.Descriptors.{opened, closed, one_if}
use rust_kernel_engine.Os.Quiet.{Ignores}
use rust_kernel_engine.Worker.Listener.{create_listen_socket, listen_on, configure, close_socket}

-- The socket `fd` is bound to an address and then listens, by the last two calls.
abbrev pub Listens : ℤ → ℕ → ℕ → Trace → Type 0
Listens fd ip port t =
    (bound listening : Reply) × (earlier : Trace) × (t
      ≡ (listen fd 128, listening) ∷ (Syscall.bind fd ip port, bound) ∷ earlier)
    × (is_neg bound.ret ≡ false)
    × (is_neg listening.ret ≡ false)

-- What a call leaves, for a host that has the address `ip`: how often `g` was opened and closed.
abbrev pub Leaves : ℤ → ℕ → ℕ → Trace → Outcome ℤ × Trace → Type 0
Leaves g ip port t (ok fd, t') =
    Listens fd ip port t'
    × (opened g t' + closed g t ≡ closed g t' + opened g t + one_if (int_eq fd g))
Leaves g ip port t (err e, t') = opened g t' + closed g t ≡ closed g t' + opened g t
Leaves g ip port t (panic, t') = ⊥

module _ (kernel : Kernel) (parse_ipv4 : Text → Option ℕ) where
  listen_on-Leaves :
      (g fd : ℤ) (ip port : ℕ) (t s : Trace)
      → opened g s + closed g t ≡ closed g s + opened g t + one_if (int_eq fd g)
      → Leaves g ip port t (listen_on kernel parse_ipv4 fd ip port s)
  unfolding listen_on
  listen_on-Leaves g fd ip port t s h =
      let bound = kernel s (Syscall.bind fd ip port) in
      let listening = kernel ((Syscall.bind fd ip port, bound) ∷ s) (listen fd 128) in
      elim (Bool-cases (is_neg bound.ret)) [
        | inl b ↦ rw b (omega (arith, h))
        | inr b ↦ elim (Bool-cases (is_neg listening.ret)) [
          | inl l ↦ rw (b, l) (omega (arith, h))
          | inr l ↦ rw (b, l) ((bound, listening, s, refl, b, l), h)
        ]
      ]

  -- If the host is an IPv4 address, the call ends with a socket that is bound to the configured
  -- address and listens, or in an error. Take any descriptor: after a success it is open once more if
  -- it is that socket, and as often as before if not; after an error it has been closed as often as it
  -- was opened.
  pub create_listen_socket-Leaves :
      (g : ℤ) (config : ServerConfig) (ip : ℕ) (t : Trace)
      → parse_ipv4 config.host ≡ some ip
      → Leaves g ip config.port t (create_listen_socket kernel parse_ipv4 config t)
  unfolding create_listen_socket configure
  create_listen_socket-Leaves g config ip t e = elim (Bool-cases (is_neg (kernel t socket).ret)) [
    | inl made_none ↦ rw made_none (ground (arith, made_none))
    | inr made_one ↦
        rw (made_one, e)
          (listen_on-Leaves g (kernel t socket).ret ip config.port t _ (ground (arith, made_one)))
  ]

  -- If the host is no IPv4 address and a socket can be made, the call ends in an error and leaves
  -- the socket open.
  create_listen_socket_leak :
      (config : ServerConfig) (t : Trace)
      → parse_ipv4 config.host ≡ none
      → is_neg (kernel t socket).ret ≡ false
      → ((create_listen_socket kernel parse_ipv4 config t).0 ≡ err bad_host)
        × (opened (kernel t socket).ret (create_listen_socket kernel parse_ipv4 config t).1
            ≡ opened (kernel t socket).ret t
              + one_if (int_eq (kernel t socket).ret (kernel t socket).ret))
        × (closed (kernel t socket).ret (create_listen_socket kernel parse_ipv4 config t).1
            ≡ closed (kernel t socket).ret t)
  unfolding create_listen_socket configure
  create_listen_socket_leak config t e made_one =
      rw (e, made_one) (refl, ground (arith, made_one), refl)

module _ {ℓ} {A : Type ℓ} (view : Trace → A) (ignores : Ignores view) (kernel : Kernel)
    (parse_ipv4 : Text → Option ℕ) where
  view-configure :
      (config : ServerConfig) (fd : ℤ) (t : Trace)
      → view (configure kernel parse_ipv4 config fd t).1 ≡ view t
  unfolding configure listen_on close_socket
  view-configure config fd t = elim (Option-cases (parse_ipv4 config.host)) [
    | inl e ↦ rw e (grind arith)
    | inr (ip, e) ↦ rw e (grind arith)
  ]

  -- The calls that make the socket are ignored.
  pub view-create_listen_socket :
      (config : ServerConfig) (t : Trace)
      → view (create_listen_socket kernel parse_ipv4 config t).1 ≡ view t
  unfolding create_listen_socket
  view-create_listen_socket config t = elim (Bool-cases (is_neg (kernel t socket).ret)) [
    | inl e ↦ rw e (ignores _ _ _ refl)
    | inr e ↦ rw e (view-configure config (kernel t socket).ret _ ∙ ignores _ _ _ refl)
  ]
