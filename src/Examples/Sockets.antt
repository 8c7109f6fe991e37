-- ===== src/Examples/Sockets.antt =====
-- Examples for src/net/epoll.rs, with a kernel on which every call succeeds and a wait reports one
-- event.
use rust_kernel_engine.Base.{ℕ, ◌≡◌, refl, pos, List, [], ◌∷◌, map, replicate}
use rust_kernel_engine.Std.HashMap.{insert, remove}
use rust_kernel_engine.Os.{
  EpollEvent, Syscall, epoll_ctl_add, epoll_ctl_del, epoll_wait, Reply, Kernel,
}
use rust_kernel_engine.Examples.Serving.{as_inserted}
use rust_kernel_engine.Net.Epoll.{Machine, register, drop, zeroed, close}

abbrev replies : ℕ → List EpollEvent → Reply
replies n events = record { ret = pos n; bytes = []; events = events; cpus = [] }

abbrev readable : EpollEvent
readable = record { events = 1; u64 = 7 }

abbrev one_event : Kernel
one_event t (epoll_wait _ _ _) = replies 1 (readable ∷ [])
one_event t _ = replies 0 []

abbrev idle : Machine
idle = record {
  backend = record {
    epoll_fd = pos 3;
    events = replicate 4 zeroed;
    max_events = 4;
    connections = [];
  };
  trace = [];
}

abbrev watching : Machine
watching = (register one_event (pos 7) 1 idle).1

-- Descriptor 7 is closed, then the epoll descriptor.
drop_test :
    map (λ c. c.0) (drop one_event as_inserted watching).trace
    ≡ Syscall.close (pos 3)
      ∷ Syscall.close (pos 7)
      ∷ epoll_ctl_del (pos 3) (pos 7)
      ∷ epoll_ctl_add (pos 3) (pos 7) readable
      ∷ []
unfolding drop register insert remove close
drop_test = refl
