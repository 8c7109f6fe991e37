-- ===== src/File/Sendfile/Transfer.antt =====
-- `send_entire_file` of src/file/sendfile.rs: the bytes that its `sendfile` calls send.
use rust_kernel_engine.Base.{
  ℕ, ◌+◌, ◌≤◌, ◌<◌, ◌≡◌, ◌⊎◌, ℤ, pos, is_neg, to_u64, [], ◌∷◌, Option, some, Outcome, ok, err,
  panic, if◌then◌else◌,
}
use rust_kernel_engine.Os.{Syscall, sendfile, Reply, Trace, Kernel}

-- The bytes that the successful `sendfile` calls of a trace have sent.
abbrev sent_by : Syscall → Reply → ℕ
sent_by (sendfile _ _ _ _) reply = if is_neg reply.ret then 0 else to_u64 reply.ret
sent_by _ reply = 0

abbrev pub bytes_sent : Trace → ℕ
bytes_sent [] = 0
bytes_sent ((call, reply) ∷ t) = bytes_sent t + sent_by call reply

-- Each `sendfile` call starts where the calls before it have stopped.
abbrev Resumes : Syscall → ℕ → Type 0
Resumes (sendfile _ _ offset _) before = offset ≡ some (pos before)
Resumes _ before = Unit

abbrev pub IsContiguous : Trace → Type 0
IsContiguous [] = Unit
IsContiguous ((call, reply) ∷ t) = Resumes call (bytes_sent t) × IsContiguous t

-- The documented bound: `sendfile` sends at most `count` bytes.
abbrev pub SendsAtMost : Kernel → Type 0
SendsAtMost kernel =
    (t : Trace) (out_fd in_fd : ℤ) (offset : Option ℤ) (count n : ℕ)
    → (kernel t (sendfile out_fd in_fd offset count)).ret ≡ pos n
    → n ≤ count

-- What the loop has done when it ends in `r`, from a trace on which `total` bytes had been sent.
abbrev pub Progress : ℕ → Outcome ℕ × Trace → Type 0
Progress size (ok n, t) = (n ≡ bytes_sent t) × (n ≤ size) × IsContiguous t
Progress size (err e, t) = (bytes_sent t ≡ 0) × IsContiguous t
Progress size (panic, t) = ⊥

abbrev count_of : Outcome ℕ → ℕ
count_of (ok n) = n
count_of _ = 0

-- The kernel accepts some bytes of every request that is not empty.
abbrev pub Advances : Kernel → Type 0
Advances kernel =
    (t : Trace) (out_fd in_fd : ℤ) (offset : Option ℤ) (count : ℕ)
    → (n : ℕ) × ((kernel t (sendfile out_fd in_fd offset count)).ret ≡ pos n)
      × (n ≤ count)
      × (count < 1 ⊎ 0 < n)
