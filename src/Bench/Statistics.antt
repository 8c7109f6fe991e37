-- ===== src/Bench/Statistics.antt =====
-- The statistics of bench/run_bench.rs: percentiles, and the order of the records.
use rust_kernel_engine.Base.{
  ℕ, ◌*◌, ◌/◌, ◌%◌, ◌^◌, ◌≤◌, ◌<◌, ◌≡◌, refl, ap, List, [], ◌∷◌, Option, none, some, Outcome, ok,
  err, panic, ltb, leb, length, get_elem?, arith,
}
use rust_kernel_engine.Std.Sort.{sort, IsSorted}
use rust_kernel_engine.Std.Sort.Ranks.{
  count, count-sort, length-sort, sort-IsSorted, IsSorted-rank, IsSorted-mono, get-lt,
}
use rust_kernel_engine.Bench.{BenchmarkStats, at_percent, of_sorted, print_results}

-- The rank of a percentile: of the latencies, at most that part lies below it, and more than that
-- part does not lie above it.
abbrev pub IsPercentile : List ℕ → ℕ → ℕ → Type 0
IsPercentile xs percent p =
    (count (λ x. ltb x p) xs ≤ length xs * percent / 100)
    × (length xs * percent / 100 < count (λ x. leb x p) xs)

abbrev pub Describes : List ℕ → Outcome (Option (ℕ × ℕ × ℕ)) → Type 0
Describes xs (ok none) = xs ≡ []
Describes xs (ok (some (p50, p95, p99))) =
    IsPercentile xs 50 p50
    × IsPercentile xs 95 p95
    × IsPercentile xs 99 p99
    × (p50 ≤ p95)
    × (p95 ≤ p99)
Describes xs _ = ⊥

indices : (n : ℕ) → 0 < n → (n * 50 / 100 < n) × (n * 95 / 100 < n) × (n * 99 / 100 < n)
indices n h = (omega arith, omega arith, omega arith)

at_percent_lem :
    (xs : List ℕ) (percent : ℕ) {p : ℕ}
    → length xs * percent < 2 ^ 64
    → get_elem? xs (length xs * percent / 100) ≡ some p
    → at_percent xs percent ≡ ok p
unfolding at_percent
at_percent_lem xs percent fits e = rw (wrapped, e, at_percent) refl
  where
    wrapped : length xs * percent % 2 ^ 64 ≡ length xs * percent
    wrapped = omega arith

pub of_sorted-Describes :
    (xs : List ℕ) → length xs * 99 < 2 ^ 64 → IsSorted xs → Describes xs (of_sorted xs)
unfolding of_sorted
of_sorted-Describes [] fits s = refl
of_sorted-Describes (x ∷ xs) fits s =
    let all = x ∷ xs in
    let n = length all in
    let (i50, i95, i99) = indices n (omega arith) in
    let (p50, e50) = get-lt all (n * 50 / 100) i50 in
    let (p95, e95) = get-lt all (n * 95 / 100) i95 in
    let (p99, e99) = get-lt all (n * 99 / 100) i99 in
    rw
      (
        at_percent_lem all 50 (omega arith) e50,
        at_percent_lem all 95 (omega arith) e95,
        at_percent_lem all 99 (omega arith) e99,
      )
      (
        IsSorted-rank all (n * 50 / 100) p50 s e50,
        IsSorted-rank all (n * 95 / 100) p95 s e95,
        IsSorted-rank all (n * 99 / 100) p99 s e99,
        IsSorted-mono all (n * 50 / 100) (n * 95 / 100) s (omega arith) e50 e95,
        IsSorted-mono all (n * 95 / 100) (n * 99 / 100) s (omega arith) e95 e99,
      )

sort-eq-nil : (xs : List ℕ) → sort xs ≡ [] → xs ≡ []
sort-eq-nil [] h = refl
sort-eq-nil (x ∷ xs) h = absurd (omega (arith, ap length h, length-sort (x ∷ xs)))

Describes-sort :
    (xs : List ℕ) (r : Outcome (Option (ℕ × ℕ × ℕ))) → Describes (sort xs) r → Describes xs r
Describes-sort xs (ok none) h = sort-eq-nil xs h
Describes-sort xs (ok (some (p50, p95, p99))) h = ground (
  arith,
  length-sort xs,
  count-sort (λ x. ltb x p50) xs,
  count-sort (λ x. leb x p50) xs,
  count-sort (λ x. ltb x p95) xs,
  count-sort (λ x. leb x p95) xs,
  count-sort (λ x. ltb x p99) xs,
  count-sort (λ x. leb x p99) xs,
)
Describes-sort xs (err e) h = h
Describes-sort xs panic h = h

-- If 99 times the number of latencies fits into 64 bits, the percentiles are not looked up outside of
-- the list. Without a latency there are none; with some, each has its rank among them, and they
-- rise. What is left of the latencies is sorted.
print_results-Describes :
    (self : BenchmarkStats)
    → length self.latencies * 99 < 2 ^ 64
    → Describes self.latencies (print_results self).0 × IsSorted (print_results self).1.latencies
unfolding print_results
print_results-Describes self fits =
    let sorted = sort-IsSorted self.latencies in
    (
      Describes-sort self.latencies _ (
          of_sorted-Describes (sort self.latencies) (omega (arith, length-sort self.latencies))
            sorted),
      sorted,
    )
