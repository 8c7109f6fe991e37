-- ===== src/File/Mmap/Calls.antt =====
-- The system calls of src/file/mmap.rs.
use rust_kernel_engine.Base.{◌≡◌, refl, ◌∙◌, arith}
use rust_kernel_engine.Std.Keys.{Text}
use rust_kernel_engine.Os.{Kernel, Trace}
use rust_kernel_engine.Os.Quiet.{Ignores}
use rust_kernel_engine.File.Mmap
use rust_kernel_engine.File.Mmap.{MmapFile}

module _ {ℓ} {A : Type ℓ} (view : Trace → A) (ignores : Ignores view) (kernel : Kernel) where
  pub view-new : (path : Text) (t : Trace) → view (Mmap.new kernel path t).1 ≡ view t
  unfolding Mmap.new
  view-new path t = grind arith

  pub view-drop : (m : MmapFile) (t : Trace) → view (Mmap.drop kernel m t) ≡ view t
  unfolding Mmap.drop
  view-drop m t = ignores _ _ _ refl ∙ ignores _ _ _ refl
