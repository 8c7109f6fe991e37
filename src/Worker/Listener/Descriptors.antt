-- ===== src/Worker/Listener/Descriptors.antt =====
-- `create_listen_socket` of src/worker/reactor.rs: the descriptors that it leaves open.
use rust_kernel_engine.Base.{ℕ, ◌+◌, ◌≡◌, ℤ, Option, some, Outcome, ok, int_eq, arith}
use rust_kernel_engine.Config.{ServerConfig}
use rust_kernel_engine.Std.Keys.{Text}
use rust_kernel_engine.Os.{Trace, Kernel}
use rust_kernel_engine.Os.Descriptors.{OpenAtMost, one_if}
use rust_kernel_engine.Worker.Listener.{create_listen_socket, configure, listen_on, close_socket}

module _ (kernel : Kernel) (parse_ipv4 : Text → Option ℕ) (fd : ℤ) (n : ℕ) where
  -- A socket that is returned is open once more.
  abbrev pub LeavesOpen : Outcome ℤ × Trace → Type 0
  LeavesOpen (ok made, t) = OpenAtMost fd (n + one_if (int_eq made fd)) t
  LeavesOpen (_, t) = OpenAtMost fd n t

  -- For an IPv4 host, only a socket that is returned is left open.
  pub create_listen_socket-LeavesOpen :
      (config : ServerConfig) (ip : ℕ) (t : Trace)
      → parse_ipv4 config.host ≡ some ip
      → OpenAtMost fd n t
      → LeavesOpen (create_listen_socket kernel parse_ipv4 config t)
  unfolding create_listen_socket configure listen_on close_socket
  create_listen_socket-LeavesOpen config ip t e h = ground (arith, e, h)
