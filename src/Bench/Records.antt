-- ===== src/Bench/Records.antt =====
-- The calls of `record_request` in bench/run_bench.rs, by workers that run at the same time.
use mathlib.Core.Logic.{∥∥₁_elim}
use mathlib.Core.List.{Perm, Permᴰ}
use mathlib.Core.List.Permᴰ.{nil, cons, swap, trans}
use mathlib.Core.List.Permᴰ
use rust_kernel_engine.Base.{
  ℕ, zero, suc, ◌+◌, ◌%◌, ◌^◌, ◌≤◌, ◌≡◌, ◌≢◌, refl, ap, sym, ◌∙◌, List, [], ◌∷◌, ◌++◌, Bool,
  Outcome, ok, err, panic, length, map, arith, append_assoc, append-nil, Outcome-cases, Bool-cases,
  inl, inr,
}
use rust_kernel_engine.Std.Keys.{Text}
use rust_kernel_engine.Std.Numbers.{to_string}
use rust_kernel_engine.Std.Sort.{sort}
use rust_kernel_engine.Std.Sort.Ranks.{sort-Perm}
use rust_kernel_engine.Bench.{
  BenchmarkConfig, BenchmarkStats, new, record_request, print_results, finish, of_sorted, Peer,
  exchange, request_loop, run_connection_worker,
}

-- Calls of `record_request`, one after the other, with their bytes and latencies.
abbrev pub record_all : List (ℕ × ℕ) → BenchmarkStats → BenchmarkStats
record_all [] stats = stats
record_all (r ∷ rs) stats = record_all rs (record_request r.0 r.1 stats)

abbrev pub sum_of : (ℕ × ℕ → ℕ) → List (ℕ × ℕ) → ℕ
sum_of f [] = 0
sum_of f (r ∷ rs) = f r + sum_of f rs

abbrev pub one : ℕ × ℕ → ℕ
one r = 1

abbrev pub bytes : ℕ × ℕ → ℕ
bytes r = r.0

abbrev pub latency : ℕ × ℕ → ℕ
latency r = r.1

record_all_lem :
    (rs : List (ℕ × ℕ)) (stats : BenchmarkStats) (a b : ℕ)
    → stats.total_requests ≡ a % 2 ^ 64
    → stats.total_bytes ≡ b % 2 ^ 64
    → ((record_all rs stats).total_requests ≡ (a + sum_of one rs) % 2 ^ 64)
      × ((record_all rs stats).total_bytes ≡ (b + sum_of bytes rs) % 2 ^ 64)
      × ((record_all rs stats).latencies ≡ stats.latencies ++ map latency rs)
unfolding record_request
record_all_lem [] stats a b e f = (omega (arith, e), omega (arith, f), sym (append-nil _))
record_all_lem (r ∷ rs) stats a b e f =
    let (requests, total, all) =
      record_all_lem rs (record_request r.0 r.1 stats) (a + 1) (b + r.0) (omega (arith, e))
        (omega (arith, f)) in
    (
      requests ∙ ap (λ n. n % 2 ^ 64) (omega arith),
      total ∙ ap (λ n. n % 2 ^ 64) (omega arith),
      all ∙ append_assoc stats.latencies (r.1 ∷ []) (map latency rs),
    )

sum_of-Permᴰ : (f : ℕ × ℕ → ℕ) {rs rs' : List (ℕ × ℕ)} → Permᴰ rs rs' → sum_of f rs ≡ sum_of f rs'
sum_of-Permᴰ f nil = refl
sum_of-Permᴰ f (cons e p) = omega (arith, ap f e, sum_of-Permᴰ f p)
sum_of-Permᴰ f (swap e e') = omega (arith, ap f e, ap f e')
sum_of-Permᴰ f (trans p q) = sum_of-Permᴰ f p ∙ sum_of-Permᴰ f q

sum_of-Perm : (f : ℕ × ℕ → ℕ) {rs rs' : List (ℕ × ℕ)} → Perm rs rs' → sum_of f rs ≡ sum_of f rs'
sum_of-Perm f p = ∥∥₁_elim p (hlevel) (λ d. sum_of-Permᴰ f d)

latencies-Perm :
    {rs rs' : List (ℕ × ℕ)} → Perm rs rs' → sort (map latency rs) ≡ sort (map latency rs')
latencies-Perm p = sort-Perm (∥∥₁_elim p (hlevel) (λ d. ∣ Permᴰ.map latency d ∣₁))

-- The statistics after calls `rs` and the end of the tool.
abbrev pub sorted_stats : List (ℕ × ℕ) → BenchmarkStats
sorted_stats rs = record {
  total_requests = (0 + sum_of one rs) % 2 ^ 64;
  total_bytes = (0 + sum_of bytes rs) % 2 ^ 64;
  latencies = sort (map latency rs);
}

pub print_results-record_all :
    (rs : List (ℕ × ℕ))
    → print_results (record_all rs new) ≡ (of_sorted (sort (map latency rs)), sorted_stats rs)
unfolding print_results new
print_results-record_all rs =
    let (requests, total, all) = record_all_lem rs new 0 0 refl refl in
    rw (requests, total, all) refl

sorted_stats-Perm : {rs rs' : List (ℕ × ℕ)} → Perm rs rs' → sorted_stats rs ≡ sorted_stats rs'
sorted_stats-Perm p = rw (sum_of-Perm one p, sum_of-Perm bytes p, latencies-Perm p) refl

-- The workers may record their requests in any order: the counters, the percentiles that are printed
-- and the file that is exported depend only on which requests were recorded.
pub finish-Perm :
    (creates : Bool) (writes : ℕ → Bool) (format_ms : ℕ → Text) (rs rs' : List (ℕ × ℕ))
    → Perm rs rs'
    → finish creates writes format_ms (record_all rs new)
      ≡ finish creates writes format_ms (record_all rs' new)
unfolding finish
finish-Perm creates writes format_ms rs rs' p =
    rw
      (
        print_results-record_all rs,
        print_results-record_all rs',
        sorted_stats-Perm p,
        latencies-Perm p,
      )
      refl

-- What a worker has recorded when it ends in `r`, from the statistics `stats`: `limit` requests after a
-- success, at most as many after an error.
abbrev pub Recorded : ℕ → BenchmarkStats → Outcome (Unit {0}) × BenchmarkStats → Type 0
Recorded limit stats (ok _, stats') =
    (rs : List (ℕ × ℕ)) × (stats' ≡ record_all rs stats) × (length rs ≡ limit)
Recorded limit stats (err e, stats') =
    (rs : List (ℕ × ℕ)) × (stats' ≡ record_all rs stats) × (length rs ≤ limit)
Recorded limit stats (panic, stats') = ⊥

Recorded-suc :
    (limit bytes_read time : ℕ) (stats : BenchmarkStats) (r : Outcome (Unit {0}) × BenchmarkStats)
    → Recorded limit (record_request bytes_read time stats) r
    → Recorded (suc limit) stats r
Recorded-suc limit n time stats (ok _, stats') (rs, e, many) = ((n, time) ∷ rs, e, ap suc many)
Recorded-suc limit n time stats (err f, stats') (rs, e, many) = ((n, time) ∷ rs, e, omega arith)
Recorded-suc limit n time stats (panic, stats') h = h

module _ (peer : Peer) where
  exchange-ne-panic : (i : ℕ) (request : Text) → exchange peer i request ≢ panic
  unfolding exchange
  exchange-ne-panic i request = ground arith

  request_loop-Recorded :
      (rounds i : ℕ) (request : Text) (stats : BenchmarkStats)
      → Recorded rounds stats (request_loop peer rounds i request stats)
  unfolding request_loop
  request_loop-Recorded zero i request stats = ([], refl, refl)
  request_loop-Recorded (suc rounds) i request stats =
      elim (Outcome-cases (exchange peer i request)) [
        | inl (n, e) ↦ rw e (
            Recorded-suc rounds n (peer.elapsed i) stats _
              (request_loop-Recorded rounds (suc i) request _))
        | inr (inl (f, e)) ↦ rw e ([], refl, omega arith)
        | inr (inr e) ↦ absurd (exchange-ne-panic i request e)
      ]

  -- A worker of the benchmark that succeeds has recorded as many requests as it was asked for; one
  -- that fails has recorded at most as many. Nothing else changes the statistics, and no worker panics.
  pub run_connection_worker-Recorded :
      (config : BenchmarkConfig) (stats : BenchmarkStats)
      → Recorded config.requests_per_connection stats (run_connection_worker peer config stats)
  unfolding run_connection_worker
  run_connection_worker-Recorded config stats =
      elim (Bool-cases (peer.accepts (config.target_host ++ b':' ∷ to_string config.target_port))) [
        | inl e ↦ rw e (request_loop-Recorded config.requests_per_connection 0 _ stats)
        | inr e ↦ rw e ([], refl, omega arith)
      ]
