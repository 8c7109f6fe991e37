-- ===== src/Sys/Affinity.antt =====
-- src/sys/cpu_affinity.rs. The numbers that `num_cpus::get` and `core_affinity::get_core_ids` return
-- are parameters. A `cpu_set_t` has 1024 bits.
pub mod Calls
pub mod Masks
pub mod Topology
use rust_kernel_engine.Base.{
  ℕ, zero, suc, ◌+◌, ◌-◌, ◌*◌, ◌/◌, pos, is_neg, List, [], ◌∷◌, Bool, true, false, Option, none,
  some, Error, ltb, length, get_elem?, replicate, take, if◌then◌else◌, no_cores, affinity_failed,
  no_node_cores, mask_too_large, setaffinity_failed, getaffinity_failed, ◌==◌, int_eq,
}
use mathlib.Core.Option
use rust_kernel_engine.State.{◌>>=◌, ◌>>◌, bind, pure, fail}
use rust_kernel_engine.Os.{
  Syscall, set_affinity, sched_setaffinity, sched_getaffinity, Trace, Kernel, Os, sys,
}

abbrev pub cpu_setsize : ℕ
cpu_setsize = 1024

-- `CPU_SET`
abbrev pub cpu_set : ℕ → List Bool → List Bool
cpu_set cpu [] = []
cpu_set zero (b ∷ bits) = true ∷ bits
cpu_set (suc cpu) (b ∷ bits) = b ∷ cpu_set cpu bits

-- `CPU_ISSET`. On a machine with more processors than the set has bits, `sched_getaffinity` fails, so
-- no bit outside of it is read.
abbrev pub cpu_isset : ℕ → List Bool → Bool
cpu_isset cpu bits = Option.get_or (get_elem? bits cpu) false

-- The loop over the mask from processor `cpu` on.
set_bits : ℕ → List Bool → List Bool → List Bool
set_bits cpu [] bits = bits
set_bits cpu (enabled ∷ mask) bits =
    set_bits (suc cpu) mask (if enabled then cpu_set cpu bits else bits)

-- The cores from `start` on.
range : ℕ → ℕ → List ℕ
range start zero = []
range start (suc n) = start ∷ range (suc start) n

-- The loop that reads the set, from processor `cpu` on.
read_bits : ℕ → ℕ → List Bool → List Bool
read_bits zero cpu bits = []
read_bits (suc rest) cpu bits = cpu_isset cpu bits ∷ read_bits rest (suc cpu) bits

unfoldable pub get_available_cores : Option (List ℕ) → List ℕ
get_available_cores none = []
get_available_cores (some ids) = ids

module _ (kernel : Kernel) (num_cpus : ℕ) where
  -- `set_for_current` succeeds if the call returns 0.
  unfoldable pub pin_to_cores : List ℕ → Os (Unit {0})
  pin_to_cores [] = fail no_cores
  pin_to_cores (core ∷ cores) = do
    reply ← sys kernel (set_affinity core)
    if int_eq reply.ret (pos 0) then pure tt else fail affinity_failed

  -- Products and sums of cores are far below the range of `usize`.
  unfoldable pub pin_to_numa_node : ℕ → Os (Unit {0})
  unfolding pin_to_cores range
  pin_to_numa_node node =
      let cores_per_node = num_cpus / 2 in
      let cores = range (node * cores_per_node) cores_per_node in
      if length cores == 0 then fail no_node_cores else pin_to_cores (take 1 cores)

-- `num_cpus::get` follows the affinity, so the number is that at the time of the call.
module _ (kernel : Kernel) (num_cpus : Trace → ℕ) where
  unfoldable pub set_affinity_mask : List Bool → Os (Unit {0})
  unfolding set_bits
  set_affinity_mask cpu_mask = if ltb 1024 (length cpu_mask) then fail mask_too_large else do
    reply ← sys kernel (sched_setaffinity (set_bits 0 cpu_mask (replicate cpu_setsize false)))
    if int_eq reply.ret (pos 0) then pure tt else fail setaffinity_failed

  unfoldable pub get_affinity_mask : Os (List Bool)
  unfolding read_bits
  get_affinity_mask = do
    reply ← sys kernel sched_getaffinity
    if int_eq reply.ret (pos 0)
        then (λ t. pure (read_bits (num_cpus t) 0 reply.cpus) t)
        else fail getaffinity_failed
