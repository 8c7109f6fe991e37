-- ===== src/Examples/Serving.antt =====
-- Examples for src/worker/reactor.rs, with a kernel that knows one file.
use mathlib.Core.List.Perm
use rust_kernel_engine.Base.{
  ℕ, ◌≡◌, refl, ℤ, pos, negsuc, List, [], ◌∷◌, map, true, false, some, ok, err, arith, empty_file,
  if◌then◌else◌, replicate,
}
use rust_kernel_engine.Std.Keys.{Text, text_eq}
use rust_kernel_engine.Std.HashMap.{get, insert}
use rust_kernel_engine.Std.Str.{codes, ascii_lower, find}
use rust_kernel_engine.Std.FilePath.{join}
use rust_kernel_engine.Config.{ServerConfig, fast_path, dynamic_path}
use rust_kernel_engine.Http.Parser.{HttpRequest, Httparse, complete, parse, clean_path}
use rust_kernel_engine.Os.{EpollEvent, Syscall, epoll_wait, exists_path, file_size, Reply, Kernel}
use rust_kernel_engine.Net.Epoll
use rust_kernel_engine.Net.Epoll.{zeroed, ConnectionOrder}
use rust_kernel_engine.Worker.Reactor.{
  Environment, Server, Metrics, handle_dynamic, handle_request, respond, event_rounds,
}
use rust_kernel_engine.Worker.Reactor.Handlers.{Answers, handle_dynamic-Answers}
use rust_kernel_engine.Worker.Reactor.Delivery.{Delivers, handle_request-Delivers}
use rust_kernel_engine.Worker.Reactor.Requests.{counted, handle_request_empty_file}
use rust_kernel_engine.Worker.Reactor.EventLoop.{Tracked, event_rounds-Tracked}

abbrev pub answer : ℤ → List EpollEvent → Reply
answer ret events = record { ret = ret; bytes = codes "page"; events = events; cpus = [] }

-- Descriptor 5 is the listening socket. Files have 4 bytes, or none at `/www/empty`.
abbrev pub one_file : ℕ → Kernel
one_file size t (file_size _) = answer (pos size) []
one_file size t (Syscall.accept _) = answer (negsuc 0) []
one_file size t (epoll_wait _ _ _) = answer (pos 1) (record { events = 1; u64 = 5 } ∷ [])
one_file size t (exists_path path) =
    answer (if text_eq path (codes "/www/none") then negsuc 0 else pos 0) []
one_file size t _ = answer (pos 9) []

-- Every buffer is a request for it.
abbrev asks : Text → Httparse
asks path buf = some (record {
  status = complete 0;
  method = some (codes "GET");
  path = some path;
  version = some 1;
  headers = [];
})

-- Connections in the order of the model's map.
abbrev pub as_inserted : ConnectionOrder
as_inserted = record { keys = λ m. map (λ c. c.0) m; keys_perm = λ m. Perm.refl _ }

abbrev environment : ℕ → Text → Environment
environment size path = record {
  kernel = one_file size;
  httparse = asks path;
  lowercase = record { to_lowercase = map ascii_lower; to_lowercase_ascii = λ s h. refl };
  iteration = record { entries = λ m. m; entries_perm = λ m. Perm.refl m };
  connection_order = as_inserted;
  to_vec = λ o. some (codes "{}");
  encode = λ m. some (codes "requests_total 0");
}

abbrev pub page : Environment
page = environment 4 (codes "/a.html")

abbrev pub settings : ServerConfig
settings = record {
  host = codes "localhost";
  port = 8080;
  num_workers = 1;
  mode = fast_path;
  static_dir = codes "/www";
  use_io_uring = false;
}

abbrev pub get_path : Text → HttpRequest
get_path path = record { method = codes "GET"; path = path; version = 1; headers = []; body = [] }

abbrev pub no_metrics : Metrics
no_metrics = record { requests_total = 0; requests_duration = 0; bytes_sent = 0 }

abbrev pub server : Server
server = record {
  machine = record {
    backend = record {
      epoll_fd = pos 3;
      events = replicate 4 zeroed;
      max_events = 4;
      connections = [];
    };
    trace = [];
  };
  metrics = no_metrics;
}

pub clean_a : clean_path (get_path (codes "/a.html")) ≡ codes "/a.html"
unfolding clean_path find
clean_a = refl

handle_dynamic-Answers_example :
    Answers page settings
      (get_path (codes "/api/stats"))
      (handle_dynamic page settings (get_path (codes "/api/stats")) no_metrics)
handle_dynamic-Answers_example =
    handle_dynamic-Answers page settings (get_path (codes "/api/stats")) no_metrics (λ o e. cc)
      (λ e. cc)

abbrev pub health : Environment
health = environment 4 (codes "/api/health")

abbrev pub api : ServerConfig
api = record settings { mode = dynamic_path }

-- A check of the server's health.
answered : (handle_request health api (pos 7) [] server).0 ≡ ok tt
unfolding handle_request parse insert clean_path find Epoll.write
answered = refl

handle_request-Delivers_example :
    Delivers health api
      (pos 7)
      (respond health api (parse health.lowercase health.httparse []) (counted health api server)).0
      (handle_request health api (pos 7) [] server).1
handle_request-Delivers_example = handle_request-Delivers health api (pos 7) [] server answered

abbrev empty_page : Environment
empty_page = environment 0 (codes "/a.html")

parse_any : parse empty_page.lowercase empty_page.httparse [] ≡ ok (get_path (codes "/a.html"))
unfolding parse insert
parse_any = refl

handle_request_empty_file_example :
    (handle_request empty_page settings (pos 7) [] server).0 ≡ err empty_file
unfolding join
handle_request_empty_file_example =
    handle_request_empty_file empty_page settings (pos 7) [] server (get_path (codes "/a.html"))
      b'/' (codes "a.html") 9 refl parse_any clean_a (omega arith) refl refl refl

server-Tracked : Tracked page settings server
unfolding get
server-Tracked fd = refl

event_rounds-Tracked_example :
    Tracked page settings (event_rounds page settings 8 (pos 5) (true ∷ true ∷ []) server).1
event_rounds-Tracked_example =
    event_rounds-Tracked page settings 8 (pos 5) (true ∷ true ∷ []) server server-Tracked
