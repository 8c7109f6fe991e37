-- ===== src/Bench.antt =====
-- bench/run_bench.rs. A `Duration` is its number of nanoseconds. The peer, the clock, the file system
-- and the text format of a latency are parameters; what is only printed is left out, the percentiles
-- excepted, since their selection can go wrong.
pub mod Options
pub mod Records
pub mod Requests
pub mod Runs
pub mod Statistics
use rust_kernel_engine.Base.{
  ℕ, zero, suc, ◌+◌, ◌-◌, ◌*◌, ◌/◌, ◌%◌, ◌^◌, List, [], ◌∷◌, ◌++◌, Bool, true, false, ◌||◌, Option,
  none, some, Outcome, ok, err, panic, ◌>>=◌, connect_failed, stream_failed, create_failed,
  line_failed, ◌==◌, length, replicate, get_elem?, if◌then◌else◌,
}
use mathlib.Core.Option
use rust_kernel_engine.State.{St, bind, pure, fail}
use rust_kernel_engine.Arguments.{Command, serve, help, Step, next, exit, with_value, parse_loop}
use rust_kernel_engine.Std.Keys.{Text, text_eq}
use rust_kernel_engine.Std.Numbers.{from_str_radix, usize_max, to_string}
use rust_kernel_engine.Std.Str.{codes}
use rust_kernel_engine.Std.Sort.{sort}

pub record BenchmarkConfig : Type 0 where
  pub target_host : Text
  pub target_port : ℕ
  pub num_connections : ℕ
  pub requests_per_connection : ℕ
  pub payload_size : ℕ
  pub duration_secs : ℕ

-- The counters are atomic 64-bit words, which wrap; the latencies are behind a lock, oldest first.
pub record BenchmarkStats : Type 0 where
  pub total_requests : ℕ
  pub total_bytes : ℕ
  pub latencies : List ℕ

unfoldable pub new : BenchmarkStats
new = record { total_requests = 0; total_bytes = 0; latencies = [] }

unfoldable pub record_request : ℕ → ℕ → BenchmarkStats → BenchmarkStats
record_request bytes latency self = record {
  total_requests = (self.total_requests + 1) % 2 ^ 64;
  total_bytes = (self.total_bytes + bytes) % 2 ^ 64;
  latencies = self.latencies ++ latency ∷ [];
}

-- `latencies[latencies.len() * percent / 100]`, where the product wraps: an index outside of the list
-- panics.
at_percent : List ℕ → ℕ → Outcome ℕ
at_percent latencies percent =
    elim (get_elem? latencies (length latencies * percent % 2 ^ 64 / 100)) [
      | none ↦ panic
      | some latency ↦ ok latency
    ]

-- The median and the two high percentiles, if there is a latency at all.
pub of_sorted : List ℕ → Outcome (Option (ℕ × ℕ × ℕ))
unfolding at_percent
of_sorted [] = ok none
of_sorted (first ∷ rest) = do
  p50 ← at_percent (first ∷ rest) 50
  p95 ← at_percent (first ∷ rest) 95
  p99 ← at_percent (first ∷ rest) 99
  ok (some (p50, p95, p99))

-- The latencies are sorted in place. The result is what is printed of them.
unfoldable pub print_results : St BenchmarkStats (Option (ℕ × ℕ × ℕ))
unfolding of_sorted
print_results self =
    (of_sorted (sort self.latencies), record self { latencies = sort self.latencies })

-- The rows of the exported file from row `i` on; the header is line 0, so row `i` is line `i + 1`.
pub write_rows : (writes : ℕ → Bool) → (ℕ → Text) → ℕ → List ℕ → Outcome Text
write_rows writes format_ms i [] = ok []
write_rows writes format_ms i (latency ∷ latencies) =
    let rest = write_rows writes format_ms (suc i) latencies in
    if writes (suc i)
    then (rest >>= λ rows. ok (to_string i ++ b',' ∷ (format_ms latency ++ 10 ∷ rows)))
    else err line_failed

-- The text that is handed to the `BufWriter`: `writes` says for each line whether `writeln!` returns
-- no error. An error of the flush when the writer is dropped is ignored, as `std` does.
unfoldable pub export_csv :
    (creates : Bool) (writes : ℕ → Bool) → (ℕ → Text) → BenchmarkStats → Outcome Text
unfolding write_rows
export_csv creates writes format_ms self =
    if creates
    then (if writes 0
        then (write_rows writes format_ms 0 self.latencies >>= λ rows.
            ok (codes "request_num,latency_ms" ++ 10 ∷ rows))
        else err line_failed)
    else err create_failed

unfoldable pub create_http_request : ℕ → Text
create_http_request payload_size =
    if payload_size == 0
    then codes "GET /api/health HTTP/1.1\r\nHost: localhost\r\nConnection: keep-alive\r\n\r\n"
    else codes "POST /api/data HTTP/1.1\r\nHost: localhost\r\nContent-Length: "
      ++ (to_string payload_size
          ++ (codes "\r\nConnection: keep-alive\r\n\r\n" ++ replicate payload_size b'x'))

-- The peer of one connection: does it accept, and what becomes of the round `i` of it? A round has
-- the results of `write_all`, `flush` and `read`, and the time that it took.
pub record Peer : Type 0 where
  pub accepts : Text → Bool
  pub write_all : ℕ → Text → Bool
  pub flush : ℕ → Bool
  pub read : ℕ → Option ℕ
  pub elapsed : ℕ → ℕ

module _ (peer : Peer) where
  open peer use {accepts, write_all, flush, read, elapsed}

  -- One round: a `?` behind each call.
  exchange : ℕ → Text → Outcome ℕ
  exchange i request =
      if write_all i request
      then (if flush i
          then elim (read i) [ none ↦ err stream_failed | some bytes_read ↦ ok bytes_read ]
          else err stream_failed)
      else err stream_failed

  -- The `for` loop: `rounds` rounds from round `i` on.
  request_loop : ℕ → ℕ → Text → St BenchmarkStats (Unit {0})
  unfolding exchange record_request
  request_loop zero i request stats = (ok tt, stats)
  request_loop (suc rounds) i request stats =
      bind (exchange i request, stats)
        λ bytes_read stats'.
          request_loop rounds (suc i) request (record_request bytes_read (elapsed i) stats')

  unfoldable pub run_connection_worker : BenchmarkConfig → St BenchmarkStats (Unit {0})
  unfolding request_loop create_http_request
  run_connection_worker config stats =
      if accepts (config.target_host ++ b':' ∷ to_string config.target_port)
      then request_loop config.requests_per_connection 0 (create_http_request config.payload_size)
          stats
      else (err connect_failed, stats)

-- The threads of the connections, one after the other; an error of a worker is printed.
connection_loop : (ℕ → Peer) → BenchmarkConfig → ℕ → ℕ → BenchmarkStats → BenchmarkStats
unfolding run_connection_worker
connection_loop peers config zero i stats = stats
connection_loop peers config (suc rest) i stats =
    connection_loop peers config rest (suc i) (run_connection_worker (peers i) config stats).1

-- What is done with the statistics at the end: the percentiles printed, and the text exported.
abbrev pub Summary : Type 0
Summary = Option (ℕ × ℕ × ℕ) × Text

unfoldable pub finish :
    (creates : Bool) (writes : ℕ → Bool) → (ℕ → Text) → St BenchmarkStats Summary
unfolding print_results export_csv
finish creates writes format_ms stats = bind (print_results stats) λ printed stats'.
    (export_csv creates writes format_ms stats' >>= λ csv. ok (printed, csv), stats')

unfoldable pub run_benchmark :
    (ℕ → Peer)
    → (creates : Bool) (writes : ℕ → Bool) → (ℕ → Text)
    → BenchmarkConfig
    → Outcome Summary × BenchmarkStats
unfolding connection_loop finish new
run_benchmark peers creates writes format_ms config =
    finish creates writes format_ms (connection_loop peers config config.num_connections 0 new)

abbrev pub defaults : BenchmarkConfig
defaults = record {
  target_host = codes "127.0.0.1";
  target_port = 8080;
  num_connections = 10;
  requests_per_connection = 1000;
  payload_size = 128;
  duration_secs = 60;
}

-- `x.parse().unwrap_or(default)` for a number of machine size.
abbrev pub size_or : ℕ → Text → ℕ
size_or default v = Option.get_or (from_str_radix 10 usize_max v) default

parse_arg : List Text → BenchmarkConfig → ℕ → Text → Step BenchmarkConfig
parse_arg args config i arg =
    if text_eq arg (codes "--host")
    then with_value args config i (λ v. record config { target_host = v })
    else if text_eq arg (codes "--port")
    then with_value args config i
        (λ v. record config { target_port = Option.get_or (from_str_radix 10 65535 v) 8080 })
    else if text_eq arg (codes "--connections") || text_eq arg (codes "-c")
    then with_value args config i (λ v. record config { num_connections = size_or 10 v })
    else if text_eq arg (codes "--requests") || text_eq arg (codes "-n")
    then with_value args config i (λ v. record config { requests_per_connection = size_or 1000 v })
    else if text_eq arg (codes "--payload") || text_eq arg (codes "-p")
    then with_value args config i (λ v. record config { payload_size = size_or 128 v })
    else if text_eq arg (codes "--help") || text_eq arg (codes "-h")
    then exit
    else next config i

unfoldable pub parse_args : List Text → Option (Command BenchmarkConfig)
unfolding parse_loop parse_arg
parse_args args = parse_loop parse_arg (suc (length args)) args defaults 1

-- `none` for `--help`.
unfoldable pub main :
    (ℕ → Peer)
    → (creates : Bool) (writes : ℕ → Bool) → (ℕ → Text)
    → List Text
    → Option (Outcome Summary × BenchmarkStats)
unfolding parse_args run_benchmark
main peers creates writes format_ms args = elim (parse_args args) [
  | none ↦ none
  | some help ↦ none
  | some (serve config) ↦ some (run_benchmark peers creates writes format_ms config)
]
