-- ===== src/Base/Outcomes.antt =====
-- How a call of the program ends: with a value, with an `anyhow` error, or in a panic.
use mathlib.Core.Path.{◌≡◌, refl}
use mathlib.Core.Logic.{◌⊎◌, inl, inr}
use mathlib.Core.Option.{Option, none, some}

-- One constructor for each `anyhow!` message (the text of the OS error behind it is dropped), and
-- one for each foreign error that `?` converts.
pub data Error : Type 0 where
  parse_failed incomplete_request missing_method missing_path missing_version : Error
  epoll_create_failed epoll_add_failed epoll_mod_failed epoll_del_failed epoll_wait_failed : Error
  read_failed write_failed accept_failed close_failed : Error
  open_failed metadata_failed empty_file mmap_failed null_mapping : Error
  sendfile_failed splice_failed vmsplice_failed : Error
  no_cores affinity_failed no_node_cores mask_too_large setaffinity_failed getaffinity_failed :
      Error
  socket_failed bad_host bind_failed listen_failed encode_failed metric_failed : Error
  rlimit_failed dpdk_disabled io_uring_disabled : Error
  ring_failed queue_full submit_failed wait_failed : Error
  connect_failed stream_failed create_failed line_failed : Error

pub data Outcome {ℓ} (A : Type ℓ) : Type ℓ where
  ok : A → Outcome A
  err : Error → Outcome A
  panic : Outcome A

infixl 5 ◌>>=◌
-- The `?` of a function without a state.
abbrev pub ◌>>=◌ {ℓ κ} : {A : Type ℓ} {B : Type κ} → Outcome A → (A → Outcome B) → Outcome B
(ok value) >>= next = next value
(err why) >>= next = err why
panic >>= next = panic

-- `ok_or_else(..)?`
abbrev pub ok_or {ℓ} : {A : Type ℓ} → Option A → Error → Outcome A
ok_or none e = err e
ok_or (some a) e = ok a

pub Outcome-cases {ℓ} :
    {A : Type ℓ} (o : Outcome A)
    → ((a : A) × (o ≡ ok a)) ⊎ (((e : Error) × (o ≡ err e)) ⊎ (o ≡ panic))
Outcome-cases (ok a) = inl (a, refl)
Outcome-cases (err e) = inr (inl (e, refl))
Outcome-cases panic = inr (inr refl)
