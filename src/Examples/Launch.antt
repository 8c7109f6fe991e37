-- ===== src/Examples/Launch.antt =====
-- Examples for the start of the server: src/main.rs and `Reactor::start` of src/worker/reactor.rs.
use rust_kernel_engine.Base.{
  ◌≡◌, refl, pos, List, [], ◌∷◌, ◌≢◌, All, Bool, true, false, none, some, if◌then◌else◌, arith,
  Option, ok, panic, Outcome, ap, sym, ◌∙◌,
}
use rust_kernel_engine.Std.Keys.{Text, text_eq, text_eq_iff}
use rust_kernel_engine.Std.Str.{codes, find}
use rust_kernel_engine.Config.{ServerConfig, Command, serve, detect_backend}
use rust_kernel_engine.Config.Arguments.{args_for, parse_args-args_for}
use rust_kernel_engine.Net.Epoll.Interest.{watched}
use rust_kernel_engine.Net.IoUring
use rust_kernel_engine.Net.Epoll
use rust_kernel_engine.Worker.Queue
use rust_kernel_engine.Http.Parser.{parse, clean_path}
use rust_kernel_engine.File.Mmap
use rust_kernel_engine.Std.FilePath.{join}
use rust_kernel_engine.Std.HashMap.{insert}
use rust_kernel_engine.Worker.Reactor.{event_loop, event_rounds, handle_events, handle_event}
use rust_kernel_engine.Sys.Affinity.{pin_to_cores}
use rust_kernel_engine.Worker.Listener.{create_listen_socket}
use rust_kernel_engine.Worker.Metrics.{Prometheus, Reactor, no_requests}
use rust_kernel_engine.Worker.Metrics.Registration.{IsRegistry}
use rust_kernel_engine.Worker.Start.{start}
use rust_kernel_engine.Worker.Start.Composition.{SetsUp, start-SetsUp}
use rust_kernel_engine.Server.{Outside, started, main, trace_of, result_of}
use rust_kernel_engine.Server.Runs.{main_releases, main-args_for}
use rust_kernel_engine.Server.Writes.{main-writes_answers}
use rust_kernel_engine.Worker.Reactor.Writes.{writes_answers}
use rust_kernel_engine.Server.Tallies.{Told, main-Told}
use rust_kernel_engine.Server.Closing.{HasAddress, main_closes}
use rust_kernel_engine.Os.Descriptors.{OpenAtMost}
use rust_kernel_engine.Examples.Clients.{busy, one_client-IsFresh}
use rust_kernel_engine.Examples.Rings.{two_entries}
use rust_kernel_engine.Examples.Serving.{page, settings}
use rust_kernel_engine.Examples.Startup.{any_address}
use rust_kernel_engine.Examples.SystemLimits.{files}
use rust_kernel_engine.Examples.TaskQueues.{bounded, bounded-IsFifo}

-- A registry that is the list of the names in it.
abbrev taken : Text → List Text → Bool
taken name [] = false
taken name (n ∷ ns) = if text_eq n name then true else taken name ns

abbrev names_only : Prometheus
names_only = record {
  Registry = List Text;
  empty = [];
  accepts = λ name help. true;
  register = λ name r. if taken name r then none else some (name ∷ r);
}

not_taken : (name : Text) (ns : List Text) → All (λ n. n ≢ name) ns → taken name ns ≡ false
not_taken name [] h = refl
not_taken name (n ∷ ns) (other, h) = ground (arith, (text_eq_iff n name).0, not_taken name ns h)

names_only-IsRegistry : IsRegistry names_only
names_only-IsRegistry = record {
  names = λ r. r;
  names_empty = refl;
  accepts_valid = λ name help valid said. refl;
  register_new = λ name r fresh. (name ∷ r, rw (not_taken name r fresh) refl, refl);
}

abbrev config : ServerConfig
config = record settings { host = codes "0.0.0.0"; num_workers = 3 }

abbrev outside : Outside
outside = record {
  aq = bounded;
  prometheus = names_only;
  ring = two_entries;
  env = page;
  parse_ipv4 = any_address;
  io_uring_feature = true;
  available_parallelism = some 4;
  num_cpus = 4;
  rlimit = some (1024, 4096);
  files = files;
}

abbrev reactor : Reactor names_only
reactor = record { config = config; running = false; registry = []; metrics = no_requests }

main-args_for_example :
    (registry : List Text) × (main outside 8 (true ∷ []) (args_for config) []
      ≡ started (detect_backend true (IoUring.is_available two_entries true) false) (
          start bounded names_only page any_address 8
            (true ∷ [])
            (record {
              config = config;
              running = false;
              registry = registry;
              metrics = no_requests;
            })
            (pin_to_cores page.kernel 4 (0 ∷ []) []).1))
main-args_for_example =
    main-args_for outside names_only-IsRegistry 8 (true ∷ []) config [] 1024 4096 refl refl
      (omega arith) (omega arith)

-- One round of the event loop, whatever the registry.
start_runs :
    (registry : List Text)
    → (start bounded names_only page any_address 8
        (true ∷ [])
        (record { config = config; running = false; registry = registry; metrics = no_requests })
        (pin_to_cores page.kernel 4 (0 ∷ []) []).1).result
      ≡ ok tt
unfolding start Queue.new create_listen_socket event_loop Epoll.new Epoll.created Epoll.register
    Epoll.process_events Epoll.wait Epoll.read Epoll.write Epoll.accept Epoll.close parse clean_path
    find insert event_rounds handle_events handle_event pin_to_cores join Mmap.new
start_runs registry = refl

not_panic : {r : Outcome (Unit {0})} → r ≡ ok tt → r ≢ panic
not_panic e f = absurd (cc)

runs : result_of outside (main outside 8 (true ∷ []) (args_for config) []) ≢ panic
runs =
    let (registry, e) = main-args_for_example in
    not_panic (ap (result_of outside) e ∙ start_runs registry)

main_releases_example :
    watched (pos 5) (trace_of outside [] (main outside 8 (true ∷ []) (args_for config) [])) ≡ false
main_releases_example =
    main_releases outside bounded-IsFifo (λ t epfd fd. refl) 8 (true ∷ []) (args_for config) []
      (pos 5) (λ g. refl) runs

start-SetsUp_example :
    SetsUp bounded bounded-IsFifo names_only page any_address config
      (create_listen_socket page.kernel any_address config []).0
      (start bounded names_only page any_address 8 (true ∷ []) reactor [])
start-SetsUp_example =
    start-SetsUp bounded bounded-IsFifo names_only page any_address 8 (true ∷ []) reactor []

main-writes_answers_example :
    writes_answers (trace_of outside [] (main outside 8 (true ∷ []) (args_for config) [])) ≡ true
main-writes_answers_example = main-writes_answers outside 8 (true ∷ []) (args_for config) [] refl

main-Told_example : Told outside (main outside 8 (true ∷ []) (args_for config) [])
main-Told_example = main-Told outside 8 (true ∷ []) (args_for config) [] refl

-- With a client that connects.
abbrev with_client : Outside
with_client = record outside { env = busy }

abbrev host_of : Option (Command ServerConfig) → Text
host_of (some (serve c)) = c.host
host_of _ = []

config-HasAddress : HasAddress with_client bounded-IsFifo (args_for config)
config-HasAddress c e =
    let parsed = parse_args-args_for (some 4) config (omega arith) (omega arith) in
    let same : c.host ≡ config.host = ap host_of (sym e ∙ parsed) in (0, ap any_address same)

start_runs_with_client :
    (registry : List Text)
    → (start bounded names_only busy any_address 8
        (true ∷ [])
        (record { config = config; running = false; registry = registry; metrics = no_requests })
        (pin_to_cores busy.kernel 4 (0 ∷ []) []).1).result
      ≡ ok tt
unfolding start Queue.new create_listen_socket event_loop Epoll.new Epoll.created Epoll.register
    Epoll.process_events Epoll.wait Epoll.read Epoll.write Epoll.accept Epoll.close parse clean_path
    find insert event_rounds handle_events handle_event pin_to_cores join Mmap.new
start_runs_with_client registry = refl

runs_with_client :
    result_of with_client (main with_client 8 (true ∷ []) (args_for config) []) ≢ panic
runs_with_client =
    let (registry, e) =
      main-args_for with_client names_only-IsRegistry 8 (true ∷ []) config [] 1024 4096 refl refl
        (omega arith) (omega arith) in
    not_panic (ap (result_of with_client) e ∙ start_runs_with_client registry)

main_closes_example :
    OpenAtMost
      (pos 7)
      0
      (trace_of with_client [] (main with_client 8 (true ∷ []) (args_for config) []))
main_closes_example =
    main_closes with_client bounded-IsFifo (λ t. refl) one_client-IsFresh (λ t epfd fd event. refl)
      (λ t epfd fd. refl) (pos 7) 0 8 (true ∷ []) (args_for config) [] config-HasAddress
      (omega arith) runs_with_client
