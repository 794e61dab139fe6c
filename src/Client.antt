-- ===== src/Client.antt =====
-- src/protocol/egw_modbus_client.c: the master's state. The request slots are objects on a heap,
-- linked in a ring by their `next` and `prev` pointers; a pointer is an address.
pub mod Slots
pub mod Receive
use service_data_gateway_edg.Prelude.{
  ℕ, List, Option, none, some, Run, or_fault, ◌==◌, if◌then◌else◌,
}
use service_data_gateway_edg.Modbus.{Transport}

-- `struct egw_modbus_req_slot`.
pub record Slot : Type 0 where
  pub next : ℕ
  pub prev : ℕ
  pub buf : List ℕ
  pub len : ℕ
  pub unit_id : ℕ
  pub addr : ℕ

abbrev pub Heap : Type 0
Heap = ℕ → Option Slot

-- `struct egw_modbus_client`, with the heap of slots.
pub record Client : Type 0 where
  pub transport : Transport
  pub heap : Heap
  pub slots : Option ℕ
  pub current : Option ℕ
  pub next_tid : ℕ
  pub tx_count : ℕ
  pub rx_count : ℕ
  pub recv_buf : List ℕ
  pub recv_cap : ℕ
  pub recv_len : ℕ

-- `egw_modbus_result_t`: the registers, or `reg_count` -1.
pub data Result : Type 0 where
  failed : ℕ → ℕ → Result
  received : ℕ → ℕ → List ℕ → Result

-- Reading through a pointer; a dangling one is a fault.
abbrev pub at : Heap → ℕ → Run Slot
at heap p = or_fault (heap p)

abbrev pub put : Heap → ℕ → Slot → Heap
put heap p s q = if p == q then some s else heap q

abbrev pub release : Heap → ℕ → Heap
release heap p q = if p == q then none else heap q
