-- ===== src/File/Sendfile.antt =====
-- src/file/sendfile.rs. A `File` is its descriptor. Sums of counts and offsets are not wrapped: with
-- a kernel that sends no more than it is asked to, they stay within the size of the file.
pub mod Transfer
use rust_kernel_engine.Base.{
  ℕ, zero, suc, ◌+◌, ◌-◌, ◌*◌, ℤ, pos, is_neg, to_u64, List, Option, none, some, Outcome, ok, err,
  panic, metadata_failed, sendfile_failed, splice_failed, vmsplice_failed, ltb, ◌==◌, min,
  if◌then◌else◌,
}
use rust_kernel_engine.State.{St, bind, ◌>>=◌, ◌>>◌, pure, fail, crash, settle}
use rust_kernel_engine.Os.{
  Syscall, sendfile, splice, vmsplice, file_size, Reply, Trace, Kernel, Os, sys,
}

module _ (kernel : Kernel) where
  unfoldable pub send_file : ℤ → ℤ → Option ℤ → ℕ → Os ℕ
  send_file out_fd in_fd offset count = do
    reply ← sys kernel (sendfile out_fd in_fd offset count)
    if is_neg reply.ret then fail sendfile_failed else pure (to_u64 reply.ret)

  unfoldable pub send_file64 : ℤ → ℤ → Option ℤ → ℕ → Os ℕ
  unfolding send_file
  send_file64 out_fd in_fd offset count = send_file out_fd in_fd offset count

  -- One transfer's result: go on, or stop with a total.
  after_transfer : ℕ → Outcome ℕ → (ℕ → Os ℕ) → Os ℕ
  after_transfer total_sent (ok sent) more = if sent == 0 then pure total_sent else more sent
  after_transfer total_sent (err e) more = if ltb 0 total_sent then pure total_sent else fail e
  after_transfer total_sent panic more = crash

  -- The `while` loop. Each round sends at least one byte, so `size - total_sent + 1` rounds are
  -- enough; a panic stands for fuel that ran out.
  send_loop : ℕ → ℤ → ℤ → ℕ → ℕ → ℕ → Os ℕ
  unfolding after_transfer
  send_loop zero out_fd in_fd size total_sent offset t = (panic, t)
  send_loop (suc fuel) out_fd in_fd size total_sent offset t =
      let remaining = size - total_sent in
      let to_send = min remaining (1024 * 1024 * 1024) in
      let step = bind (settle (send_file out_fd in_fd (some (pos offset)) to_send t)) λ r.
        after_transfer total_sent r
          λ sent. send_loop fuel out_fd in_fd size (total_sent + sent) (offset + sent) in
      if ltb total_sent size then step else (ok total_sent, t)

  unfoldable pub send_entire_file : ℤ → ℤ → Os ℕ
  unfolding send_loop
  send_entire_file out_fd in_fd = do
    metadata ← sys kernel (file_size in_fd)
    if is_neg metadata.ret
        then fail metadata_failed
        else send_loop (suc (to_u64 metadata.ret)) out_fd in_fd (to_u64 metadata.ret) 0 0

  unfoldable pub splice_data : ℤ → Option ℤ → ℤ → Option ℤ → ℕ → ℕ → Os ℕ
  splice_data fd_in off_in fd_out off_out len flags = do
    reply ← sys kernel (splice fd_in off_in fd_out off_out len flags)
    if is_neg reply.ret then fail splice_failed else pure (to_u64 reply.ret)

  unfoldable pub vmsplice_write : ℤ → List (List ℕ) → ℕ → Os ℕ
  vmsplice_write fd buffers flags = do
    reply ← sys kernel (vmsplice fd buffers flags)
    if is_neg reply.ret then fail vmsplice_failed else pure (to_u64 reply.ret)
