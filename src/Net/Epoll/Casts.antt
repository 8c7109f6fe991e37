-- ===== src/Net/Epoll/Casts.antt =====
-- The descriptor that `register` stores in an event, and the one that `process_events` reads.
use rust_kernel_engine.Base.{◌^◌, ◌<◌, ◌≡◌, ℤ, pos, negsuc, to_u64, arith}
use rust_kernel_engine.Net.Epoll.{as_raw_fd}

-- The range of `i32`.
abbrev pub IsI32 : ℤ → Type 0
IsI32 (pos n) = n < 2 ^ 31
IsI32 (negsuc n) = n < 2 ^ 31

-- A descriptor comes back unchanged from the 64-bit user data of an event, a negative one included.
as_raw_fd-to_u64 : (fd : ℤ) → IsI32 fd → as_raw_fd (to_u64 fd) ≡ fd
as_raw_fd-to_u64 (pos n) h = ground arith
as_raw_fd-to_u64 (negsuc n) h = ground arith
