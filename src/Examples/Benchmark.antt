-- ===== src/Examples/Benchmark.antt =====
-- Examples for bench/run_bench.rs, with a peer that stops answering and an `httparse` that knows the
-- request with a payload of three bytes.
use mathlib.Core.List.Perm
use rust_kernel_engine.Base.{
  ℕ, Bool, ◌+◌, ◌≡◌, refl, List, [], ◌∷◌, ◌++◌, true, none, some, ok, err, stream_failed,
  if◌then◌else◌, ltb,
}
use rust_kernel_engine.Std.Keys.{text_eq}
use rust_kernel_engine.Std.Numbers.{to_string, from_str_radix}
use rust_kernel_engine.Std.Str.{codes}
use rust_kernel_engine.Std.Sort.{sort}
use rust_kernel_engine.Arguments.{serve, with_value}
use rust_kernel_engine.Http.Parser.{Httparse}
use rust_kernel_engine.Bench.{
  BenchmarkStats, new, record_request, print_results, export_csv, finish, Peer,
  run_connection_worker, defaults, parse_args,
}
use rust_kernel_engine.Bench.Records.{record_all, finish-Perm}
use rust_kernel_engine.Bench.Requests.{head_of, parsed_of}

abbrev stats : BenchmarkStats
stats = record { total_requests = 4; total_bytes = 40; latencies = 9 ∷ 3 ∷ 7 ∷ 5 ∷ [] }

printed : (print_results stats).0 ≡ ok (some (7, 9, 9))
unfolding print_results sort
printed = refl

-- Two requests in two orders.
finish-Perm_example :
    finish true (λ k. true) to_string (record_all ((10, 5) ∷ (20, 3) ∷ []) new)
    ≡ finish true (λ k. true) to_string (record_all ((20, 3) ∷ (10, 5) ∷ []) new)
finish-Perm_example =
    finish-Perm true (λ k. true) to_string ((10, 5) ∷ (20, 3) ∷ []) ((20, 3) ∷ (10, 5) ∷ [])
      (Perm.swap (20, 3) (10, 5) [])

-- The request that took longer was recorded first, and stands second in the file.
exported :
    (finish true
      (λ k. true)
      (λ n. codes "t" ++ to_string n)
      (record_all ((10, 5) ∷ (20, 3) ∷ []) new)).0
    ≡ ok (some (5, 5, 5), codes "request_num,latency_ms\n0,t3\n1,t5\n")
unfolding finish print_results export_csv record_request new sort to_string
exported = refl

-- It answers two requests.
abbrev peer : Peer
peer = record {
  accepts = λ address. text_eq address (codes "127.0.0.1:8080");
  write_all = λ i request. true;
  flush = λ i. true;
  read = λ i. if ltb i 2 then some 100 else none;
  elapsed = λ i. i + 7;
}

stopped :
    run_connection_worker peer defaults new
    ≡ (err stream_failed, record { total_requests = 2; total_bytes = 200; latencies = 7 ∷ 8 ∷ [] })
unfolding run_connection_worker to_string record_request new
stopped = refl

options :
    parse_args (codes "bench" ∷ codes "-c" ∷ codes "50" ∷ codes "-p" ∷ codes "x" ∷ [])
    ≡ some (serve (record defaults { num_connections = 50 }))
unfolding parse_args from_str_radix with_value
options = refl

-- The file system is full after two lines.
abbrev two_lines : ℕ → Bool
two_lines k = ltb k 2

abbrev wire : List ℕ
wire = head_of 3 ++ codes "xxx"

abbrev one_request : Httparse
one_request buf = if text_eq buf wire then some (parsed_of 3) else none
