-- ===== src/Sys/Tuning/Checks.antt =====
-- src/sys/tuning.rs, the checks that read a file and log what they find, and `check_system_limits`.
-- What `read_dir` yields is a parameter.
pub mod Reports
use rust_kernel_engine.Base.{
  ℕ, suc, ◌+◌, ◌-◌, ◌^◌, List, [], ◌∷◌, ◌++◌, Bool, ◌||◌, not, Option, none, some, Outcome, ok, err,
  ◌>>=◌, ltb, if◌then◌else◌,
}
use mathlib.Core.Option
use rust_kernel_engine.Std.Keys.{Text, text_eq}
use rust_kernel_engine.Std.Numbers.{from_str_radix, to_string}
use rust_kernel_engine.Std.Str.{codes}
use rust_kernel_engine.Std.Words.{trim, contains}
use rust_kernel_engine.Sys.Tuning.{Files, Report, check_file_descriptors, check_network_tuning}

-- Is there a warning about the text of a file? Nothing is said of a file that cannot be read.
abbrev warns {ℓ} : {A : Type ℓ} → (A → Bool) → Option A → Option Bool
warns test none = none
warns test (some content) = some (test content)

unfoldable pub check_kernel_version : Files → Option Bool
check_kernel_version files =
    warns (λ content. contains content (codes "5.1") || contains content (codes "5.0"))
      (files (codes "/proc/version"))

unfoldable pub check_transparent_hugepages : Files → Option Bool
check_transparent_hugepages files =
    warns (λ content. contains content (codes "[never]"))
      (files (codes "/sys/kernel/mm/transparent_hugepage/enabled"))

unfoldable pub check_cpu_governor : Files → Option Bool
check_cpu_governor files =
    warns (λ content. not (text_eq (trim content) (codes "performance")))
      (files (codes "/sys/devices/system/cpu/cpu0/cpufreq/scaling_governor"))

-- `format!("/proc/irq/{}/smp_affinity", irq)`
abbrev pub affinity_path : ℕ → Text
affinity_path irq = codes "/proc/irq/" ++ (to_string irq ++ codes "/smp_affinity")

-- The loop over the entries of the directory, by their names; a name that is not UTF-8 counts as
-- empty. `count` is the number of lines so far.
irq_loop : Files → ℕ → List (Option Text) → List (ℕ × Text)
irq_loop files count [] = []
irq_loop files count (name ∷ names) =
    let skipped = irq_loop files count names in
    let counted = irq_loop files (count + 1) names in
    elim (from_str_radix 10 (2 ^ 32 - 1) (Option.get_or name [])) [
      | none ↦ skipped
      | some irq ↦ elim (files (affinity_path irq)) [
        | none ↦ skipped
        | some affinity ↦ if ltb count 5 then (irq, trim affinity) ∷ counted else skipped
      ]
    ]

unfoldable pub check_irq_affinity : Option (List (Option Text)) → Files → List (ℕ × Text)
unfolding irq_loop
check_irq_affinity none files = []
check_irq_affinity (some names) files = irq_loop files 0 names

-- What `print_tuning_recommendations` lists.
abbrev pub recommendations : List Text
recommendations =
    codes "# Network tuning"
    ∷ codes "sysctl -w net.core.somaxconn=4096"
    ∷ codes "sysctl -w net.ipv4.tcp_max_syn_backlog=8192"
    ∷ codes "sysctl -w net.core.netdev_max_backlog=5000"
    ∷ codes "sysctl -w net.ipv4.tcp_fin_timeout=15"
    ∷ codes "sysctl -w net.ipv4.tcp_tw_reuse=1"
    ∷ codes "sysctl -w net.ipv4.tcp_tw_recycle=0"
    ∷ codes ""
    ∷ codes "# Memory tuning"
    ∷ codes "sysctl -w vm.swappiness=10"
    ∷ codes "sysctl -w net.core.rmem_max=16777216"
    ∷ codes "sysctl -w net.core.wmem_max=16777216"
    ∷ codes ""
    ∷ codes "# File descriptor limits"
    ∷ codes "ulimit -n 65536"
    ∷ codes ""
    ∷ codes "# For io_uring"
    ∷ codes "sysctl -w kernel.io_uring_disabled=0"
    ∷ []

-- What `check_system_limits` logs, without the headings.
pub record Limits : Type 0 where
  pub low_descriptors : Bool
  pub network : List Report
  pub old_kernel : Option Bool
  pub recommended : List Text

unfoldable pub check_system_limits : Option (ℕ × ℕ) → Files → Outcome Limits
check_system_limits rlimit files = do
  low ← check_file_descriptors rlimit
  ok (record {
    low_descriptors = low;
    network = check_network_tuning files;
    old_kernel = check_kernel_version files;
    recommended = recommendations;
  })
