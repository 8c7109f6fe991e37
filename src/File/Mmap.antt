-- ===== src/File/Mmap.antt =====
-- src/file/mmap.rs. A `File` is its descriptor, closed when the file is dropped. A mapping is the
-- bytes that the kernel made readable at its address.
pub mod Calls
pub mod Descriptors
pub mod Mapping
use rust_kernel_engine.Base.{
  ℕ, zero, suc, ◌-◌, ◌++◌, length, take, replicate, ℤ, pos, is_neg, to_u64, List, Outcome, ok, err,
  panic, Error, open_failed, metadata_failed, empty_file, mmap_failed, null_mapping, ◌==◌, Bool,
  if◌then◌else◌,
}
use rust_kernel_engine.State.{St, bind, ◌>>=◌, ◌>>◌, pure, fail, settle}
use rust_kernel_engine.Std.Keys.{Text}
use rust_kernel_engine.Os.{
  Syscall, open_file, file_size, mmap, munmap, close, Reply, Trace, Kernel, Os, sys,
}

pub record MmapFile : Type 0 where
  pub ptr : ℕ
  pub len : ℕ
  pub file : ℤ
  pub bytes : List ℕ

module _ (kernel : Kernel) where
  -- An early return drops the file that has been opened.
  give_up : ℤ → Error → Os MmapFile
  give_up file e = do sys kernel (close file) >>= λ _. fail e

  map_file : ℤ → ℕ → Os MmapFile
  unfolding give_up
  map_file file len = do
    mapped ← sys kernel (mmap file len)
    if is_neg mapped.ret
        then give_up file mmap_failed
        else if to_u64 mapped.ret == 0
        then give_up file null_mapping
        else pure (record { ptr = to_u64 mapped.ret; len = len; file = file; bytes = mapped.bytes })

  unfoldable pub new : Text → Os MmapFile
  unfolding map_file
  new path = do
    opened ← sys kernel (open_file path)
    if is_neg opened.ret then fail open_failed else do
      metadata ← sys kernel (file_size opened.ret)
      if is_neg metadata.ret
          then give_up opened.ret metadata_failed
          else if to_u64 metadata.ret == 0
          then give_up opened.ret empty_file
          else map_file opened.ret (to_u64 metadata.ret)

  -- `drop`: the mapping is removed, then the file is closed; both results are ignored.
  unfoldable pub drop : MmapFile → Trace → Trace
  drop m t = (sys kernel (close m.file) (sys kernel (munmap m.len) t).1).1

-- `from_raw_parts(ptr, len)`: the `len` bytes from the address on. What the kernel has made readable is
-- in its answer; the rest of a last page is 0.
unfoldable pub as_slice : MmapFile → List ℕ
as_slice m = take m.len (m.bytes ++ replicate (m.len - length m.bytes) 0)

unfoldable pub len : MmapFile → ℕ
len m = m.len

unfoldable pub is_empty : MmapFile → Bool
is_empty m = m.len == 0

unfoldable pub as_ptr : MmapFile → ℕ
as_ptr m = m.ptr
