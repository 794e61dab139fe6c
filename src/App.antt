-- ===== src/App.antt =====
-- src/app: the gateway's application, a slave and a master on two ends of a serial line. The event
-- loop is libuv, which is not part of the repository: its callbacks are functions on the state, and
-- when they are called is a sequence of steps.
pub mod Tables
pub mod Slave
pub mod Master
pub mod Run
pub mod Exchange
use service_data_gateway_edg.Prelude.{ℕ, Bool, Option}
use service_data_gateway_edg.Ptable.Rows.{Rs}
use service_data_gateway_edg.Transport.{Handle}
use service_data_gateway_edg.Server.{Server}
use service_data_gateway_edg.Client.{Client}
use service_data_gateway_edg.Persist.Thread.{PersistThread}
use service_data_gateway_edg.App.Tables.{Key, SlaveRow}

-- `egw_lb_phase_t`.
pub data Phase : Type 0 where
  server_recv client_recv phase_done : Phase

-- What the slave's read callback reaches through `ctx`, and the world.
pub record Shared (W : Type 0) : Type 0 where
  pub slave_rs : Option (Rs Key SlaveRow)
  pub persist : Option PersistThread
  pub world : W

-- `egw_lb_ctx_t`: `cli_polled` and `srv_polled` say whether libuv watches the two descriptors,
-- `stopped` whether `uv_stop` was called.
pub record Ctx (W : Type 0) : Type 0 where
  pub cli_h : Option Handle
  pub srv_h : Option Handle
  pub server : Server
  pub cli : Client
  pub req_slot : ℕ
  pub phase : Phase
  pub seg_pending : Bool
  pub cli_polled : Bool
  pub srv_polled : Bool
  pub stopped : Bool
  pub shared : Shared W
