-- ===== src/Net/IoUring/Submission.antt =====
-- What the methods of `IoUringBackend` in src/net/io_uring.rs hand to the kernel.
use rust_kernel_engine.Base.{
  ℕ, ◌%◌, ◌^◌, ◌≡◌, sym, ap, ◌∙◌, ℤ, negsuc, to_u64, List, [], ◌∷◌, ◌++◌, true, false, Option, none,
  some, Outcome, ok, err, queue_full, submit_failed, length, Bool-cases, inl, inr, append_assoc,
}
use rust_kernel_engine.Net.IoUring.{
  Entry, read, write, accept, splice, Sqe, RingLibrary, IoUringBackend, as_i64, after_push,
  push_and_submit, submit_read, submit_write, submit_accept, submit_sendfile,
}

-- A submission: some entries from the front of the queue go to the kernel.
pub data Submits (queued submitted : List Sqe) (o : Option ℕ) (queued' submitted' : List Sqe)
    : Type 0 where
  failed :
      o ≡ none
      → queued' ≡ queued
      → submitted' ≡ submitted
      → Submits queued submitted o queued' submitted'
  moved :
      (front : List Sqe)
      → o ≡ some (length front)
      → queued ≡ front ++ queued'
      → submitted' ≡ submitted ++ front
      → Submits queued submitted o queued' submitted'

-- The documented behaviour of the crate, against the entries that wait in the submission queue and
-- those that the kernel has taken, the oldest first.
pub record IsRing (lib : RingLibrary) : Type 0 where
  pub queued : lib.Ring → List Sqe
  pub submitted : lib.Ring → List Sqe
  pub push_full : (e : Sqe) (r : lib.Ring) → (lib.push e r).0 ≡ false → (lib.push e r).1 ≡ r
  pub push_back :
      (e : Sqe) (r : lib.Ring)
      → (lib.push e r).0 ≡ true
      → (queued (lib.push e r).1 ≡ queued r ++ e ∷ []) × (submitted (lib.push e r).1 ≡ submitted r)
  pub submit_lem :
      (r : lib.Ring)
      → Submits
          (queued r)
          (submitted r)
          (lib.submit r).0
          (queued (lib.submit r).1)
          (submitted (lib.submit r).1)

-- The calls of the backend that queue an operation.
pub data Call : Type 0 where
  reads writes : (fd : ℤ) (buf len offset : ℕ) → Call
  accepts : (listen_fd : ℤ) (addr addrlen : ℕ) → Call
  sendfiles : (out_fd in_fd : ℤ) (offset len : ℕ) → Call

-- The operation that a call asks for, its lengths in 32 bits and its offset in 64.
abbrev pub entry_of : Call → Entry
entry_of (reads fd buf len offset) = read fd buf (len % 2 ^ 32) offset
entry_of (writes fd buf len offset) = write fd buf (len % 2 ^ 32) offset
entry_of (accepts listen_fd addr addrlen) = accept listen_fd addr addrlen
entry_of (sendfiles out_fd in_fd offset len) =
    splice in_fd (as_i64 offset) out_fd (negsuc 0) (len % 2 ^ 32)

-- The descriptor by which a completion is known.
abbrev pub descriptor_of : Call → ℤ
descriptor_of (reads fd buf len offset) = fd
descriptor_of (writes fd buf len offset) = fd
descriptor_of (accepts listen_fd addr addrlen) = listen_fd
descriptor_of (sendfiles out_fd in_fd offset len) = out_fd

module _ (lib : RingLibrary) (ring : IsRing lib) where
  open ring use {queued, submitted, push_full, push_back, submit_lem}

  abbrev pub call : Call → IoUringBackend lib → Outcome (Unit {0}) × IoUringBackend lib
  call (reads fd buf len offset) = submit_read lib fd buf len offset
  call (writes fd buf len offset) = submit_write lib fd buf len offset
  call (accepts listen_fd addr addrlen) = submit_accept lib listen_fd addr addrlen
  call (sendfiles out_fd in_fd offset len) = submit_sendfile lib out_fd in_fd offset len

  -- Every entry that the backend knows, in the order in which it was queued.
  abbrev pub known : IoUringBackend lib → List Sqe
  known self = submitted self.ring ++ queued self.ring

  -- What a call that queues `sqe` may do.
  abbrev pub Queues : Sqe → IoUringBackend lib → Outcome (Unit {0}) × IoUringBackend lib → Type 0
  Queues sqe self (ok _, self') =
      (known self' ≡ known self ++ sqe ∷ [])
      × ((front : List Sqe) × (submitted self'.ring ≡ submitted self.ring ++ front)
          × (lib.submit (lib.push sqe self.ring).1 ≡ (some (length front), self'.ring)))
  Queues sqe self (err queue_full, self') = self' ≡ self
  Queues sqe self (err submit_failed, self') =
      (queued self'.ring ≡ queued self.ring ++ sqe ∷ [])
      × (submitted self'.ring ≡ submitted self.ring)
      × (lib.submit (lib.push sqe self.ring).1 ≡ (none, self'.ring))
  Queues sqe self _ = ⊥

  after_push-Queues :
      (sqe : Sqe) (self : IoUringBackend lib)
      → (lib.push sqe self.ring).0 ≡ true
      → Queues sqe self (after_push lib true (record self { ring = (lib.push sqe self.ring).1 }))
  unfolding after_push
  after_push-Queues sqe self pushed =
      let r = (lib.push sqe self.ring).1 in
      let (q, s) = push_back sqe self.ring pushed in
      elim (submit_lem r) [
        | failed e q' s' ↦ rw (e, after_push) (q' ∙ q, s' ∙ s, ap (λ o. (o, (lib.submit r).1)) e)
        | moved front e q' s' ↦
            let longer = s' ∙ ap (λ l. l ++ front) s in
            rw (e, after_push)
              (
                ap (λ l. l ++ queued (lib.submit r).1) longer
                    ∙ (append_assoc (submitted self.ring) front _
                        ∙ (ap (λ l. submitted self.ring ++ l) (sym q' ∙ q)
                            ∙ sym (
                                append_assoc (submitted self.ring) (queued self.ring) (sqe ∷ [])))),
                (front, longer, ap (λ o. (o, (lib.submit r).1)) e),
              )
      ]

  push_and_submit-Queues :
      (sqe : Sqe) (self : IoUringBackend lib) → Queues sqe self (push_and_submit lib sqe self)
  unfolding push_and_submit
  push_and_submit-Queues sqe self = elim (Bool-cases (lib.push sqe self.ring).0) [
    | inl e ↦ rw (e, push_and_submit) (after_push-Queues sqe self e)
    | inr e ↦
        rw (e, push_and_submit) (ap (λ r. record self { ring = r }) (push_full sqe self.ring e))
  ]

  -- Whatever operation is called: after a success it stands behind all operations known before, the
  -- queue with it has been submitted, and the kernel has taken as many from the front as that call of
  -- `submit` returned; after the error of a full queue nothing has changed; and after the error of a
  -- submission, which has failed for the queue with it, it stays in the queue, and the kernel has taken
  -- nothing. Its entry carries the descriptor and the arguments of the call, a length in 32 bits.
  pub call-Queues :
      (c : Call) (self : IoUringBackend lib)
      → Queues
          (record { entry = entry_of c; user_data = to_u64 (descriptor_of c) })
          self
          (call c self)
  unfolding submit_read submit_write submit_accept submit_sendfile
  call-Queues (reads fd buf len offset) self = push_and_submit-Queues _ self
  call-Queues (writes fd buf len offset) self = push_and_submit-Queues _ self
  call-Queues (accepts listen_fd addr addrlen) self = push_and_submit-Queues _ self
  call-Queues (sendfiles out_fd in_fd offset len) self = push_and_submit-Queues _ self
