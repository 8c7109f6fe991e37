-- ===== src/Sys/Affinity/Topology.antt =====
-- src/sys/cpu_affinity.rs, `print_cpu_topology`: what it logs. The entries of the directory of nodes
-- are a parameter, those left out that could not be read.
use rust_kernel_engine.Base.{
  ℕ, zero, suc, ◌+◌, ◌≤◌, ◌≡◌, ◌≢◌, refl, ◌∙◌, List, [], ◌∷◌, ◌++◌, min, ◌==◌, ltb, Option, none,
  some, arith, if◌then◌else◌, Bool-cases, inl, inr, ==_iff,
}
use mathlib.Core.Option
use rust_kernel_engine.Std.Keys.{Text}
use rust_kernel_engine.Std.Numbers.{to_string}
use rust_kernel_engine.Std.Str.{codes}
use rust_kernel_engine.Std.Words.{trim, starts_with}
use rust_kernel_engine.Sys.Tuning.{Files}

-- The cores, the NUMA nodes if there are any, and the cache of each processor that is looked at.
pub record Topology : Type 0 where
  pub cores : ℕ
  pub numa_nodes : Option ℕ
  pub caches : List (ℕ × Text)

-- The entries with a name in UTF-8 that starts with "node".
count_nodes : List (Option Text) → ℕ
count_nodes [] = 0
count_nodes (none ∷ names) = count_nodes names
count_nodes (some name ∷ names) =
    (if starts_with name (codes "node") then 1 else 0) + count_nodes names

detected_nodes : Option (List (Option Text)) → Option ℕ
unfolding count_nodes
detected_nodes none = none
detected_nodes (some names) = if count_nodes names == 0 then none else some (count_nodes names)

-- `format!("/sys/devices/system/cpu/cpu{}/cache/index0/size", cpu)`
abbrev cache_path : ℕ → Text
cache_path cpu =
    codes "/sys/devices/system/cpu/cpu" ++ (to_string cpu ++ codes "/cache/index0/size")

-- The line about a processor; a file that cannot be read is passed over.
add_cache : ℕ → Option Text → List (ℕ × Text) → List (ℕ × Text)
add_cache cpu none lines = lines
add_cache cpu (some content) lines = (cpu, trim content) ∷ lines

-- The loop over the processors from `cpu` on.
cache_loop : Files → ℕ → ℕ → List (ℕ × Text)
unfolding add_cache
cache_loop files zero cpu = []
cache_loop files (suc rest) cpu =
    add_cache cpu (files (cache_path cpu)) (cache_loop files rest (suc cpu))

unfoldable pub print_cpu_topology : ℕ → Option (List (Option Text)) → Files → Topology
unfolding detected_nodes cache_loop
print_cpu_topology num_cpus nodes files = record {
  cores = num_cpus;
  numa_nodes = detected_nodes nodes;
  caches = cache_loop files (min num_cpus 4) 0;
}

-- What is logged about a processor.
abbrev shown_for : ℕ → List (ℕ × Text) → Option Text
shown_for cpu [] = none
shown_for cpu ((c, content) ∷ lines) = if c == cpu then some content else shown_for cpu lines

shown_for-add_cache :
    (start cpu : ℕ) (content : Option Text) (lines : List (ℕ × Text))
    → (start ≡ cpu → shown_for cpu lines ≡ none)
    → shown_for cpu (add_cache start content lines)
      ≡ (if start == cpu then Option.map trim content else shown_for cpu lines)
unfolding add_cache
shown_for-add_cache start cpu none lines h = elim (Bool-cases (start == cpu)) [
  | inl e ↦ rw e (h ((==_iff start cpu).0 e))
  | inr e ↦ rw e refl
]
shown_for-add_cache start cpu (some content) lines h = refl

cache_loop_below :
    (files : Files) (rest start cpu : ℕ)
    → suc cpu ≤ start
    → shown_for cpu (cache_loop files rest start) ≡ none
unfolding cache_loop
cache_loop_below files zero start cpu h = refl
cache_loop_below files (suc rest) start cpu h =
    let below = cache_loop_below files rest (suc start) cpu (omega arith) in
    let added =
      shown_for-add_cache start cpu (files (cache_path start)) (cache_loop files rest (suc start))
        (λ e. below) in
    ground (arith, below, added)

cache_loop_lem :
    (files : Files) (rest start cpu : ℕ)
    → start ≤ cpu
    → shown_for cpu (cache_loop files rest start)
      ≡ (if ltb cpu (start + rest) then Option.map trim (files (cache_path cpu)) else none)
unfolding cache_loop
cache_loop_lem files zero start cpu h = ground arith
cache_loop_lem files (suc rest) start cpu h =
    let added =
      shown_for-add_cache start cpu (files (cache_path start)) (cache_loop files rest (suc start))
        (λ e. cache_loop_below files rest (suc start) cpu (omega arith)) in
    added ∙ elim (Bool-cases (start == cpu)) [
      | inl here ↦ let e : start ≡ cpu = (==_iff start cpu).0 here in rw (here, e) (ground arith)
      | inr other ↦
          let away : start ≢ cpu = λ e. absurd (ground (arith, other, e)) in
          let later = cache_loop_lem files rest (suc start) cpu (omega arith) in
          rw other (later ∙ ground arith)
    ]

-- Each of the first four processors is logged with the trimmed text of its own file, if that can be
-- read, and no other processor is.
print_cpu_topology-caches :
    (num_cpus : ℕ) (nodes : Option (List (Option Text))) (files : Files) (cpu : ℕ)
    → shown_for cpu (print_cpu_topology num_cpus nodes files).caches
      ≡ (if ltb cpu (min num_cpus 4) then Option.map trim (files (cache_path cpu)) else none)
unfolding print_cpu_topology
print_cpu_topology-caches num_cpus nodes files cpu =
    cache_loop_lem files (min num_cpus 4) 0 cpu (omega arith) ∙ ground arith
