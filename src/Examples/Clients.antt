-- ===== src/Examples/Clients.antt =====
-- Examples for the connections of `event_loop` in src/worker/reactor.rs.
use rust_kernel_engine.Base.{
  ℕ, ◌+◌, ◌-◌, ◌<◌, ◌≡◌, refl, pos, negsuc, is_neg, [], ◌∷◌, true, false, none, some, ok, err,
  write_failed, leb, if◌then◌else◌, Bool-cases, inl, inr, arith,
}
use native.Mathlib.Nat.{le_refl}
use rust_kernel_engine.Std.HashMap.{insert}
use rust_kernel_engine.Std.FilePath.{join}
use rust_kernel_engine.Std.Str.{codes, find}
use rust_kernel_engine.Http.Parser.{Parsed, partial, parse, clean_path}
use rust_kernel_engine.Http.Response.{to_bytes, bad_request}
use rust_kernel_engine.Os.{Syscall, Trace, Kernel, epoll_wait}
use rust_kernel_engine.Os.Descriptors.{opened, closed, IsFresh}
use rust_kernel_engine.Net.Epoll
use rust_kernel_engine.Worker.Reactor.{
  Environment, handle_request, handle_events, event_rounds, accept_loop,
}
use rust_kernel_engine.Worker.Reactor.Accepting.{HasBacklog, Ends, accept_loop-Ends}
use rust_kernel_engine.Worker.Reactor.Failures.{Stops, event_rounds-Stops, handle_request_partial}
use rust_kernel_engine.Worker.Reactor.FileRequests.{Serves, handle_request-Serves}
use rust_kernel_engine.Worker.Reactor.{handle_request, handle_event, handle_events}
use rust_kernel_engine.Worker.Reactor.Requests.{asked}
use rust_kernel_engine.Worker.Reactor.Rounds.{Attends, handle_events-Attends}
use rust_kernel_engine.Examples.Serving.{
  answer, one_file, page, settings, get_path, server, clean_a, health, api,
}

-- One client, who connects again when descriptor 7 has been closed.
abbrev one_client : Kernel
one_client t (Syscall.accept listen_fd) =
    if leb (opened (pos 7) t) (closed (pos 7) t) then answer (pos 7) [] else answer (negsuc 0) []
one_client t call = one_file 4 t call

pub one_client-IsFresh : IsFresh one_client
one_client-IsFresh t listen_fd accepted =
    elim (Bool-cases (leb (opened (pos 7) t) (closed (pos 7) t))) [
      | inl e ↦ rw e (ground (arith, e))
      | inr e ↦ absurd (ground (arith, e, accepted))
    ]

-- How many connections are to come.
abbrev to_come : Trace → ℕ
to_come t = closed (pos 7) t + 1 - opened (pos 7) t

to_come-accept :
    (t : Trace)
    → is_neg (one_client t (Syscall.accept (pos 5))).ret ≡ false
    → to_come ((Syscall.accept (pos 5), one_client t (Syscall.accept (pos 5))) ∷ t) < to_come t
to_come-accept t accepted = ground (arith, accepted)

abbrev backlog : HasBacklog one_client (pos 5)
backlog = record {
  waiting = to_come;
  waiting-accept = to_come-accept;
  waiting-epoll_ctl_add = λ t epfd fd event. le_refl (to_come t);
}

abbrev pub busy : Environment
busy = record page { kernel = one_client }

accept_loop-Ends_example : Ends (pos 5) (accept_loop busy settings 2 (pos 5) server.machine)
accept_loop-Ends_example =
    accept_loop-Ends busy settings (pos 5) backlog 2 server.machine (omega arith)

-- The client at descriptor 7 has sent a request and does not take the answer.
abbrev broken_pipe : Kernel
broken_pipe t (Syscall.write fd buf) = answer (negsuc 0) []
broken_pipe t (epoll_wait epfd max_events timeout_ms) =
    answer (pos 1) (record { events = 1; u64 = 7 } ∷ [])
broken_pipe t call = one_file 4 t call

abbrev unread : Environment
unread = record health { kernel = broken_pipe }

-- The first answer cannot be written, and the second round does not come.
stopped : (event_rounds unread api 8 (pos 5) (true ∷ true ∷ []) server).0 ≡ err write_failed
unfolding event_rounds handle_events handle_event Epoll.process_events Epoll.wait Epoll.read
    Epoll.write handle_request parse insert clean_path find
stopped = refl

event_rounds-Stops_example : Stops (event_rounds unread api 8 (pos 5) (true ∷ true ∷ []) server)
event_rounds-Stops_example = event_rounds-Stops unread api 8 (pos 5) (true ∷ true ∷ []) server refl

-- Nothing that is read is a whole head.
abbrev first_half : Parsed
first_half = record { status = partial; method = none; path = none; version = none; headers = [] }

abbrev split_request : Environment
split_request = record page { httparse = λ buf. some first_half }

handle_request_partial_example :
    (handle_request split_request settings (pos 7) (codes "GET /a.h") server).1.machine
    ≡ record (server.machine) {
      trace =
          asked split_request settings
            (Syscall.write (pos 7) (to_bytes split_request.iteration bad_request))
            [];
    }
handle_request_partial_example =
    handle_request_partial split_request settings (pos 7) (codes "GET /a.h") server first_half refl
      refl

asks_for_a : parse page.lowercase page.httparse [] ≡ ok (get_path (codes "/a.html"))
unfolding parse insert
asks_for_a = refl

handle_request-Serves_example :
    Serves page settings
      (pos 7)
      (join settings.static_dir (codes "a.html"))
      []
      (handle_request page settings (pos 7) [] server)
handle_request-Serves_example =
    handle_request-Serves page settings (pos 7) [] server (get_path (codes "/a.html")) b'/'
      (codes "a.html") refl asks_for_a clean_a (omega arith)

-- Two clients, and the listening socket between them.
handle_events-Attends_example :
    Attends page settings []
      (pos 5)
      ((pos 7, 1) ∷ (pos 5, 1) ∷ (pos 8, 3) ∷ [])
      (handle_events page settings 8 (pos 5) ((pos 7, 1) ∷ (pos 5, 1) ∷ (pos 8, 3) ∷ []) server)
handle_events-Attends_example =
    handle_events-Attends page settings 8 (pos 5) ((pos 7, 1) ∷ (pos 5, 1) ∷ (pos 8, 3) ∷ []) server
