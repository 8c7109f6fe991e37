-- ===== src/Worker/Listener.antt =====
-- src/worker/reactor.rs, `create_listen_socket`. The parser of IPv4 addresses is a parameter.
pub mod Descriptors
pub mod Sockets
use rust_kernel_engine.Base.{
  ℕ, ℤ, is_neg, Option, Error, ok_or, socket_failed, bad_host, bind_failed, listen_failed,
  if◌then◌else◌,
}
use rust_kernel_engine.State.{bind, ◌>>=◌, pure, fail, of_outcome}
use rust_kernel_engine.Std.Keys.{Text}
use rust_kernel_engine.Config.{ServerConfig}
use rust_kernel_engine.Os.{Syscall, socket, setsockopt, listen, close, Kernel, Os, sys}

abbrev so_reuseaddr : ℕ
so_reuseaddr = 2

abbrev so_reuseport : ℕ
so_reuseport = 15

module _ (kernel : Kernel) (parse_ipv4 : Text → Option ℕ) where
  close_socket : ℤ → Error → Os ℤ
  close_socket socket_fd e = do sys kernel (close socket_fd) >>= λ _. fail e

  listen_on : ℤ → ℕ → ℕ → Os ℤ
  unfolding close_socket
  listen_on socket_fd ip port = do
    bound ← sys kernel (Syscall.bind socket_fd ip port)
    if is_neg bound.ret then close_socket socket_fd bind_failed else do
      listening ← sys kernel (listen socket_fd 128)
      if is_neg listening.ret then close_socket socket_fd listen_failed else pure socket_fd

  -- The results of `setsockopt` are ignored; an address that cannot be read is an error by `?`.
  configure : ServerConfig → ℤ → Os ℤ
  unfolding listen_on
  configure config socket_fd = do
    _ ← sys kernel (setsockopt socket_fd so_reuseaddr)
    _ ← sys kernel (setsockopt socket_fd so_reuseport)
    ip ← of_outcome (ok_or (parse_ipv4 config.host) bad_host)
    listen_on socket_fd ip config.port

  unfoldable pub create_listen_socket : ServerConfig → Os ℤ
  unfolding configure
  create_listen_socket config = do
    created ← sys kernel socket
    if is_neg created.ret then fail socket_failed else configure config created.ret
