-- ===== src/File/Mmap/Descriptors.antt =====
-- The descriptors that src/file/mmap.rs leaves open.
use rust_kernel_engine.Base.{ℕ, ℤ, Outcome, ok, err, panic, arith}
use rust_kernel_engine.State.{bind}
use rust_kernel_engine.Std.Keys.{Text}
use rust_kernel_engine.Os.{Trace, Kernel}
use rust_kernel_engine.Os.Descriptors.{OpenAtMost}
use rust_kernel_engine.File.Mmap.{MmapFile, new, drop}

module _ (kernel : Kernel) where
  -- A file that was mapped is closed by `drop`; any other has been closed.
  abbrev pub Released : ℤ → ℕ → Outcome MmapFile × Trace → Type 0
  Released fd n (ok m, t) = OpenAtMost fd n (drop kernel m t)
  Released fd n (_, t) = OpenAtMost fd n t

  -- `new` opens the file, and whatever happens, it is closed again, at the latest by `drop`.
  pub new-Released :
      (path : Text) (fd : ℤ) (n : ℕ) (t : Trace)
      → OpenAtMost fd n t
      → Released fd n (new kernel path t)
  unfolding new drop
  new-Released path fd n t h = ground arith

  -- So too where the mapping is used and dropped.
  pub use-Released :
      {A : Type 0} (fd : ℤ) (n : ℕ) (p : Outcome MmapFile × Trace) (f : MmapFile → A)
      → Released fd n p
      → OpenAtMost fd n (bind p λ m. λ t. (ok (f m), drop kernel m t)).1
  use-Released fd n (ok m, t) f h = h
  use-Released fd n (err e, t) f h = h
  use-Released fd n (panic, t) f h = h
