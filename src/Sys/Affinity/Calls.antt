-- ===== src/Sys/Affinity/Calls.antt =====
-- The system calls of `pin_to_cores` in src/sys/cpu_affinity.rs.
use rust_kernel_engine.Base.{ℕ, ◌≡◌, refl, List, [], ◌∷◌, arith}
use rust_kernel_engine.Os.{Kernel, Trace}
use rust_kernel_engine.Os.Quiet.{Ignores}
use rust_kernel_engine.Sys.Affinity.{pin_to_cores}

module _ {ℓ} {A : Type ℓ} (view : Trace → A) (ignores : Ignores view) (kernel : Kernel)
    (num_cpus : ℕ) where
  pub view-pin_to_cores :
      (cores : List ℕ) (t : Trace) → view (pin_to_cores kernel num_cpus cores t).1 ≡ view t
  unfolding pin_to_cores
  view-pin_to_cores [] t = refl
  view-pin_to_cores (core ∷ cores) t = grind arith
