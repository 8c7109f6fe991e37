-- ===== src/Examples/Rings.antt =====
-- Examples for src/net/io_uring.rs, with a ring that is two lists, and for src/net/dpdk_adapter.rs.
use rust_kernel_engine.Base.{
  ◌+◌, ◌^◌, ◌≡◌, refl, sym, pos, List, [], ◌∷◌, ◌++◌, Bool, true, false, some, length, ltb,
  if◌then◌else◌, arith, Bool-cases, inl, inr, append-nil,
}
use rust_kernel_engine.Std.Keys.{Text}
use rust_kernel_engine.Std.Str.{codes}
use rust_kernel_engine.Std.Numbers.{to_string}
use rust_kernel_engine.Std.Words.{lines, split_whitespace}
use rust_kernel_engine.Net.IoUring.{Sqe, read, RingLibrary, IoUringBackend, submit_read}
use rust_kernel_engine.Net.IoUring.Submission.{IsRing, moved, reads, call, Queues, call-Queues}
use rust_kernel_engine.Net.Dpdk.{check_dpdk_available}
use rust_kernel_engine.Net.Dpdk.HugePages.{States, check_dpdk_available_lem}

-- The entries that wait, and those that were submitted.
pub record Lists : Type 0 where
  pub waiting : List Sqe
  pub gone : List Sqe

abbrev pub push_two : Sqe → Lists → Bool × Lists
push_two e r =
    if ltb (length r.waiting) 2
    then (true, record r { waiting = r.waiting ++ e ∷ [] })
    else (false, r)

abbrev pub submit_all : Lists → Lists
submit_all r = record { waiting = []; gone = r.gone ++ r.waiting }

abbrev pub two_entries : RingLibrary
two_entries = record {
  Ring = Lists;
  new = λ n. some (record { waiting = []; gone = [] });
  push = push_two;
  submit = λ r. (some (length r.waiting), submit_all r);
  submit_and_wait = λ n r. (some (length r.waiting), submit_all r);
  completion = λ r. ([], r);
}

push_two_full : (e : Sqe) (r : Lists) → (push_two e r).0 ≡ false → (push_two e r).1 ≡ r
push_two_full e r h = ground arith

push_two_back :
    (e : Sqe) (r : Lists)
    → (push_two e r).0 ≡ true
    → ((push_two e r).1.waiting ≡ r.waiting ++ e ∷ []) × ((push_two e r).1.gone ≡ r.gone)
push_two_back e r h = elim (Bool-cases (ltb (length r.waiting) 2)) [
  | inl room ↦ rw (room, push_two) (refl, refl)
  | inr none_left ↦ absurd (ground arith)
]

two_entries-IsRing : IsRing two_entries
two_entries-IsRing = record {
  queued = λ r. r.waiting;
  submitted = λ r. r.gone;
  push_full = push_two_full;
  push_back = push_two_back;
  submit_lem = λ r. moved r.waiting refl (sym (append-nil r.waiting)) refl;
}

abbrev backend : IoUringBackend two_entries
backend = record { ring = record { waiting = []; gone = [] }; queue_depth = 2 }

-- A length of more than 32 bits is cut.
cut :
    (submit_read two_entries (pos 5) 4096 (2 ^ 32 + 512) 0 backend).1.ring.gone
    ≡ record { entry = read (pos 5) 4096 512 0; user_data = 5 } ∷ []
unfolding submit_read
cut = refl

call-Queues_example :
    Queues two_entries two_entries-IsRing
      (record { entry = read (pos 5) 4096 512 0; user_data = 5 })
      backend
      (call two_entries two_entries-IsRing (reads (pos 5) 4096 (2 ^ 32 + 512) 0) backend)
call-Queues_example =
    call-Queues two_entries two_entries-IsRing (reads (pos 5) 4096 (2 ^ 32 + 512) 0) backend

abbrev meminfo : Text
meminfo = codes "MemTotal:  16 kB\nHugePages_Total:    8\nHugePages_Free:     8\n"

meminfo-States : States meminfo 8
unfolding lines split_whitespace to_string
meminfo-States = record {
  before = codes "MemTotal:  16 kB" ∷ [];
  line = codes "HugePages_Total:    8";
  after = codes "HugePages_Free:     8" ∷ [];
  words = [];
  split = refl;
  none_before = (refl, tt);
  labelled = refl;
  second = refl;
}

check_dpdk_available_lem_example : check_dpdk_available true (some meminfo) ≡ true
check_dpdk_available_lem_example = check_dpdk_available_lem meminfo 8 (omega arith) meminfo-States
