-- ===== src/Bench/Runs.antt =====
-- `run_benchmark` of bench/run_bench.rs, from the connections to the exported file.
use rust_kernel_engine.Base.{
  ℕ, suc, ◌+◌, ◌≤◌, ◌<◌, ◌≡◌, List, [], ◌∷◌, ◌++◌, Bool, true, false, Outcome, ok, err, panic,
  create_failed, line_failed, ◌⊎◌, length,
}
use rust_kernel_engine.Std.Keys.{Text}
use rust_kernel_engine.Std.Numbers.{to_string}
use rust_kernel_engine.Std.Str.{codes}
use rust_kernel_engine.Std.Sort.{IsSorted}
use rust_kernel_engine.Bench.{BenchmarkStats, Summary}
use rust_kernel_engine.Bench.Records.{record_all, latency}
use rust_kernel_engine.Bench.Statistics.{Describes}

-- Statistics that come from at most `limit` calls of `record_request`.
abbrev Extends : ℕ → BenchmarkStats → BenchmarkStats → Type 0
Extends limit stats stats' =
    (rs : List (ℕ × ℕ)) × (stats' ≡ record_all rs stats) × (length rs ≤ limit)

-- The rows of the exported file from row `i` on, if each can be written.
abbrev pub csv_rows : (ℕ → Text) → ℕ → List ℕ → Text
csv_rows format_ms i [] = []
csv_rows format_ms i (latency ∷ latencies) =
    to_string i ++ b',' ∷ (format_ms latency ++ 10 ∷ csv_rows format_ms (suc i) latencies)

-- Either all rows are written, or the line of one of them is not.
abbrev Written : (ℕ → Bool) → (ℕ → Text) → ℕ → List ℕ → Outcome Text → Type 0
Written writes format_ms i latencies (ok rows) =
    (rows ≡ csv_rows format_ms i latencies)
    × ((k : ℕ) → i < k → k ≤ i + length latencies → writes k ≡ true)
Written writes format_ms i latencies (err e) =
    (e ≡ line_failed) × ((k : ℕ) × (i < k) × (k ≤ i + length latencies) × (writes k ≡ false))
Written writes format_ms i latencies panic = ⊥

-- What the tool says at the end of at most `limit` requests.
abbrev pub Reports :
    (creates : Bool) (writes : ℕ → Bool)
    → (ℕ → Text)
    → ℕ
    → Outcome Summary × BenchmarkStats
    → Type 0
Reports creates writes format_ms limit (ok (printed, csv), stats) =
    (stats.total_requests ≡ length stats.latencies)
    × (length stats.latencies ≤ limit)
    × IsSorted stats.latencies
    × Describes stats.latencies (ok printed)
    × (csv ≡ codes "request_num,latency_ms" ++ 10 ∷ csv_rows format_ms 0 stats.latencies)
    × ((k : ℕ) → k ≤ length stats.latencies → writes k ≡ true)
Reports creates writes format_ms limit (err e, stats) =
    ((creates ≡ false) × (e ≡ create_failed))
    ⊎ ((e ≡ line_failed) × ((k : ℕ) × (k ≤ length stats.latencies) × (writes k ≡ false)))
Reports creates writes format_ms limit (panic, stats) = ⊥
