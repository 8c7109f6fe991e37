-- ===== src/Net/IoUring.antt =====
-- src/net/io_uring.rs, with the feature `io_uring` as a parameter. The crate `io_uring` is an
-- interface. A buffer or an address is the number that its pointer is.
pub mod Submission
use rust_kernel_engine.Base.{
  ℕ, ◌+◌, ◌-◌, ◌%◌, ◌^◌, ℤ, pos, negsuc, to_u64, List, Bool, true, false, Option, none, some,
  Outcome, ok, err, io_uring_disabled, ring_failed, queue_full, submit_failed, wait_failed, ltb,
  if◌then◌else◌,
}

-- The operations of `io_uring::opcode` that the source builds.
pub data Entry : Type 0 where
  read write : (fd : ℤ) (buf len offset : ℕ) → Entry
  accept : (fd : ℤ) (addr addrlen : ℕ) → Entry
  splice : (fd_in off_in fd_out off_out : ℤ) (len : ℕ) → Entry

-- `squeue::Entry`
pub record Sqe : Type 0 where
  pub entry : Entry
  pub user_data : ℕ

-- `push` fails if the submission queue is full; `submit` hands the queue to the kernel and returns the
-- number of entries that it took; `completion` takes the completions that have arrived.
pub record RingLibrary : Type 1 where
  pub Ring : Type 0
  pub new : ℕ → Option Ring
  pub push : Sqe → Ring → Bool × Ring
  pub submit : Ring → Option ℕ × Ring
  pub submit_and_wait : ℕ → Ring → Option ℕ × Ring
  pub completion : Ring → List (ℕ × ℤ) × Ring

abbrev pub as_u32 : ℕ → ℕ
as_u32 n = n % 2 ^ 32

-- `x as i64` for a 64-bit word.
abbrev pub as_i64 : ℕ → ℤ
as_i64 n = if ltb n (2 ^ 63) then pos n else negsuc (2 ^ 64 - 1 - n)

module _ (lib : RingLibrary) where
  pub record IoUringBackend : Type 0 where
    pub ring : lib.Ring
    pub queue_depth : ℕ

  unfoldable pub is_available : (feature : Bool) → Bool
  is_available false = false
  is_available true = elim (lib.new 8) [ none ↦ false | some ring ↦ true ]

  unfoldable pub new : (feature : Bool) → ℕ → Outcome IoUringBackend
  new false queue_depth = err io_uring_disabled
  new true queue_depth = elim (lib.new queue_depth) [
    | none ↦ err ring_failed
    | some ring ↦ ok (record { ring = ring; queue_depth = queue_depth })
  ]

  -- What follows a push: the submission, or the error of a full queue.
  after_push : Bool → IoUringBackend → Outcome (Unit {0}) × IoUringBackend
  after_push false self = (err queue_full, self)
  after_push true self =
      let (submitted, ring) = lib.submit self.ring in
      elim submitted [
        | none ↦ (err submit_failed, record self { ring = ring })
        | some count ↦ (ok tt, record self { ring = ring })
      ]

  push_and_submit : Sqe → IoUringBackend → Outcome (Unit {0}) × IoUringBackend
  unfolding after_push
  push_and_submit sqe self =
      let (pushed, ring) = lib.push sqe self.ring in after_push pushed (record self { ring = ring })

  unfoldable pub submit_read : ℤ → ℕ → ℕ → ℕ → IoUringBackend → Outcome (Unit {0}) × IoUringBackend
  unfolding push_and_submit
  submit_read fd buf len offset =
      push_and_submit (record { entry = read fd buf (as_u32 len) offset; user_data = to_u64 fd })

  unfoldable pub submit_write : ℤ → ℕ → ℕ → ℕ → IoUringBackend → Outcome (Unit {0}) × IoUringBackend
  unfolding push_and_submit
  submit_write fd buf len offset =
      push_and_submit (record { entry = write fd buf (as_u32 len) offset; user_data = to_u64 fd })

  unfoldable pub submit_accept : ℤ → ℕ → ℕ → IoUringBackend → Outcome (Unit {0}) × IoUringBackend
  unfolding push_and_submit
  submit_accept listen_fd addr addrlen =
      push_and_submit
        (record { entry = accept listen_fd addr addrlen; user_data = to_u64 listen_fd })

  unfoldable pub submit_sendfile :
      ℤ → ℤ → ℕ → ℕ → IoUringBackend → Outcome (Unit {0}) × IoUringBackend
  unfolding push_and_submit
  submit_sendfile out_fd in_fd offset len = push_and_submit (record {
    entry = splice in_fd (as_i64 offset) out_fd (negsuc 0) (as_u32 len);
    user_data = to_u64 out_fd;
  })

  unfoldable pub wait_for_completion : IoUringBackend → Outcome (List (ℕ × ℤ)) × IoUringBackend
  wait_for_completion self =
      let (waited, ring) = lib.submit_and_wait 1 self.ring in
      elim waited [
        | none ↦ (err wait_failed, record self { ring = ring })
        | some count ↦
            let (completions, ring') = lib.completion ring in
            (ok completions, record self { ring = ring' })
      ]

  unfoldable pub batch_submit : IoUringBackend → Outcome ℕ × IoUringBackend
  batch_submit self =
      let (submitted, ring) = lib.submit self.ring in
      elim submitted [
        | none ↦ (err submit_failed, record self { ring = ring })
        | some count ↦ (ok count, record self { ring = ring })
      ]
