-- ===== src/Net.antt =====
-- src/net: the epoll backend.
pub mod Epoll
pub mod Dpdk
pub mod IoUring
