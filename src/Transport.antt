-- ===== src/Transport.antt =====
-- src/transport/egw_transport_common.c and egw_transport_internal.h: a handle on a file descriptor.
-- The operating system is not part of the repository: its calls are the parameter `Os`, over a state
-- `W` of the world.
pub mod Serial
pub mod Tcp
pub mod Io
use service_data_gateway_edg.Prelude.{ℕ, List, Option}

-- What `read` and `write` return: a result, -1 with EAGAIN or EWOULDBLOCK, or -1 with another error.
pub data Sys (A : Type 0) : Type 0 where
  moved : A → Sys A
  again : Sys A
  failed : Sys A

-- `read(fd, …, cap)` gives the bytes that it stores, `write(fd, …, …)` the number that it took.
pub record Os (W : Type 0) : Type 0 where
  pub read_fd : ℕ → ℕ → W → Sys (List ℕ) × W
  pub write_fd : ℕ → List ℕ → W → Sys ℕ × W
  pub close_fd : ℕ → W → W

-- The function pointers of a handle: those of egw_transport_serial.c or of egw_transport_tcp.c.
pub data Driver : Type 0 where
  serial tcp_socket : Driver

-- `struct egw_transport_handle`; `none` is the descriptor -1.
pub record Handle : Type 0 where
  pub fd : Option ℕ
  pub driver : Driver
