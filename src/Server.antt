-- ===== src/Server.antt =====
-- src/protocol/egw_modbus_server.c: the slave's state and what its functions have in common.
pub mod Units
pub mod Ring
pub mod Handlers
pub mod Response
pub mod Process
pub mod Responses
use service_data_gateway_edg.Prelude.{ℕ, List, Bool, Option, Run}
use service_data_gateway_edg.Defs.{Err}
use service_data_gateway_edg.Modbus.{Transport}

-- `struct egw_modbus_server`, less the callbacks. The two buffers are heap arrays.
pub record Server : Type 0 where
  pub transport : Transport
  pub buf : List ℕ
  pub buf_cap : ℕ
  pub rd : ℕ
  pub wr : ℕ
  pub resp_buf : List ℕ
  pub resp_cap : ℕ
  pub resp_len : ℕ
  pub unit_mask : List ℕ
  pub sending : Bool

-- `egw_modbus_srv_read_t`; `regs_out` is the array that the callback writes to.
pub record ReadArgs : Type 0 where
  pub address : ℕ
  pub quantity : ℕ
  pub regs_out : List ℕ
  pub unit_id : ℕ

-- `egw_modbus_srv_write_t`.
pub record WriteArgs : Type 0 where
  pub address : ℕ
  pub quantity : ℕ
  pub regs : List ℕ
  pub unit_id : ℕ

-- `egw_modbus_srv_read_cb` and `egw_modbus_srv_write_cb`. `W` is the state behind `cb_arg`; a read
-- also returns `regs_out` as it leaves it.
abbrev pub ReadCb : Type 0 → Type 0
ReadCb W = ReadArgs → W → Run (Err × List ℕ × W)

abbrev pub WriteCb : Type 0 → Type 0
WriteCb W = WriteArgs → W → Run (Err × W)

pub record Callbacks (W : Type 0) : Type 0 where
  pub read_cb : Option (ReadCb W)
  pub write_cb : Option (WriteCb W)
