-- ===== src/File/Mmap/Mapping.antt =====
-- What `MmapFile::new` returns, and what it leaves open.
use rust_kernel_engine.Base.{
  ℕ, ◌+◌, ◌<◌, ◌≡◌, ◌≢◌, ℤ, int_eq, pos, ◌∷◌, Outcome, ok, err, panic, empty_file, false, arith,
}
use rust_kernel_engine.Std.Keys.{Text}
use rust_kernel_engine.Os.{open_file, file_size, Trace, Kernel}
use rust_kernel_engine.Os.Descriptors.{opened, closed, one_if}
use rust_kernel_engine.File.Mmap.{MmapFile, new, drop, len, is_empty}

module _ (kernel : Kernel) where
  -- How often `fd` was opened and closed by a call of `new`, counted from the trace `t` before it.
  abbrev pub Balanced : ℤ → Trace → Outcome MmapFile × Trace → Type 0
  Balanced fd t (ok m, t') =
      (opened fd t' + closed fd t ≡ closed fd t' + opened fd t + one_if (int_eq m.file fd))
      × (opened fd (drop kernel m t') + closed fd t ≡ closed fd (drop kernel m t') + opened fd t)
      × (0 < len m)
      × (is_empty m ≡ false)
  Balanced fd t (err e, t') = opened fd t' + closed fd t ≡ closed fd t' + opened fd t
  Balanced fd t (panic, t') = ⊥

  -- Whatever the kernel answers, `new` does not panic. Take any descriptor. After an error it has been
  -- closed as often as it was opened; after a success it is open once more if it is the file's, and as
  -- often as before if not, and when the value is dropped it has been closed as often as opened. A
  -- mapping is never empty.
  pub new-Balanced : (fd : ℤ) (path : Text) (t : Trace) → Balanced fd t (new kernel path t)
  unfolding new drop len is_empty
  new-Balanced fd path t = ground arith

  -- A file of size 0 is refused.
  pub new-empty_file :
      (path : Text) (t : Trace) (fd : ℕ)
      → (kernel t (open_file path)).ret ≡ pos fd
      → (kernel ((open_file path, kernel t (open_file path)) ∷ t) (file_size (pos fd))).ret ≡ pos 0
      → (new kernel path t).0 ≡ err empty_file
  unfolding new
  new-empty_file path t fd e z = simp (e, z)

  pub new-ne-panic : (path : Text) (t : Trace) → (new kernel path t).0 ≢ panic
  unfolding new
  new-ne-panic path t = ground arith
