-- ===== src/Tests/ServerTests.antt =====
-- src/protocol/egw_modbus_server.c and egw_modbus_client.c on a slave that serves unit 1 and holds
-- the registers 0, 1, 2, ….
use service_data_gateway_edg.Prelude.{
  ℕ, suc, zero, ◌+◌, ◌<◌, ◌≡◌, ◌≤◌, ◌≢◌, refl, inl, List, [], ◌∷◌, ◌++◌, Option, none, some, Run,
  done, fault, arith, All, replicate, drop, take, length, Bool, true, false, if◌then◌else◌, inr,
  ◌⊎◌,
}
use service_data_gateway_edg.Defs.{ok}
use service_data_gateway_edg.Modbus.{rtu}
use service_data_gateway_edg.Modbus.Pdu.{words}
use service_data_gateway_edg.Modbus.Pdu.RoundTrip.{read_pdu, read_resp_pdu}
use service_data_gateway_edg.Modbus.Encode.Frames.{rtu_frame, adu_len, exception_pdu}
use service_data_gateway_edg.Server.{Server, ReadCb, Callbacks}
use service_data_gateway_edg.Server.Units.{unit_is_active}
use service_data_gateway_edg.Server.Handlers.{raw_len, be_bytes}
use service_data_gateway_edg.Server.Responses.{responded}
use service_data_gateway_edg.Server.Ring.{buf_used, buf_free}
use service_data_gateway_edg.Server.Ring.Queue.{IsValid, contents}
use service_data_gateway_edg.Server.Process.{server_handle_frame, egw_modbus_server_feed}
use service_data_gateway_edg.Server.Process.Feed.{feed_serves_read}
use service_data_gateway_edg.Server.Process.Serve.{
  ignores_read, Asks, request_adu, answer_pdu, serves_read, serve_read_overflow,
  serve_read_no_callback,
}
use service_data_gateway_edg.Client.{failed, Slot, Client, received}
use service_data_gateway_edg.Client.Receive.{egw_modbus_client_feed}
use service_data_gateway_edg.Client.Receive.Deliver.{
  feed_refuses_unit, Waits, delivered, feed_delivers,
}
use service_data_gateway_edg.Loopback.{fed, read_loopback}

abbrev pub slave : Server
slave = record {
  transport = rtu;
  buf = replicate 260 0;
  buf_cap = 260;
  rd = 0;
  wr = 0;
  resp_buf = replicate 260 0;
  resp_cap = 260;
  resp_len = 0;
  unit_mask = 2 ∷ replicate 31 0;
  sending = false;
}

slave_serves_1 : unit_is_active slave.unit_mask 1 ≡ done true
unfolding unit_is_active service_data_gateway_edg.Prelude.load
slave_serves_1 = refl

abbrev pub registers : List ℕ
registers = 10 ∷ 20 ∷ 30 ∷ replicate 253 0

-- The number of calls is the callbacks' state.
abbrev pub read_registers : ReadCb ℕ
read_registers args calls = done (ok, registers, calls + 1)

abbrev pub cbs : Callbacks ℕ
cbs = record { read_cb = some read_registers; write_cb = none }

abbrev no_cbs : Callbacks ℕ
no_cbs = record { read_cb = none; write_cb = none }

pub asks : (count : ℕ) → count < 65536 → Asks slave 0 1 3 16 count
asks count h = record {
  reads = refl;
  tid_16 = omega arith;
  addr_16 = omega arith;
  count_16 = h;
  not_broadcast = omega arith;
  active = slave_serves_1;
}

pub raw_len_2 : raw_len 3 2 ≡ 4
unfolding raw_len
raw_len_2 = refl

raw_len_126 : raw_len 3 126 ≡ 252
unfolding raw_len
raw_len_126 = refl

serves_read_example :
    server_handle_frame cbs slave (request_adu slave 0 1 3 16 2 []) 8 0
    ≡ done (
      responded slave
          (rtu_frame 1 (answer_pdu 3 registers 2))
          (drop (adu_len rtu (answer_pdu 3 registers 2)) slave.resp_buf),
      1,
    )
unfolding be_bytes
serves_read_example =
    serves_read cbs slave 0 1 3 16 2 read_registers [] registers 0 1 (asks 2 (omega arith)) refl
      refl refl (omega (arith, raw_len_2)) (omega arith) (omega arith)

serve_read_overflow_example :
    server_handle_frame cbs slave (request_adu slave 0 1 3 16 126 []) 8 0 ≡ fault
serve_read_overflow_example =
    serve_read_overflow cbs slave 0 1 3 16 126 read_registers [] registers 0 1
      (asks 126 (omega arith)) refl refl refl (omega (arith, raw_len_126))
      (omega (arith, raw_len_126))

serve_read_no_callback_example :
    server_handle_frame no_cbs slave (request_adu slave 0 1 3 16 2 []) 8 0
    ≡ done (responded slave (rtu_frame 1 (exception_pdu 3 0)) (drop 5 slave.resp_buf), 0)
serve_read_no_callback_example =
    serve_read_no_callback no_cbs slave 0 1 3 16 2 [] 0 (asks 2 (omega arith)) refl (omega arith)
      (omega arith)

abbrev pub slot : Slot
slot = record {
  next = 64;
  prev = 64;
  buf = rtu_frame 1 (read_pdu 3 16 2);
  len = 8;
  unit_id = 1;
  addr = 16;
}

abbrev pub master : Client
master = record {
  transport = rtu;
  heap = λ p. some slot;
  slots = some 64;
  current = some 64;
  next_tid = 1;
  tx_count = 1;
  rx_count = 0;
  recv_buf = replicate 260 0;
  recv_cap = 260;
  recv_len = 0;
}

pub master-Waits : Waits master 64 slot 3
unfolding service_data_gateway_edg.Prelude.load
master-Waits = record {
  rtu_master = refl;
  pending = refl;
  live = refl;
  nothing_yet = refl;
  sized = refl;
  asked = refl;
  registers = inl refl;
}

feed_delivers_example :
    egw_modbus_client_feed master (rtu_frame 1 (read_resp_pdu 3 (0 ∷ 10 ∷ 0 ∷ 20 ∷ [])))
    ≡ done (
      received 1 16 (words (0 ∷ 10 ∷ 0 ∷ 20 ∷ [])) ∷ [],
      delivered master (rtu_frame 1 (read_resp_pdu 3 (0 ∷ 10 ∷ 0 ∷ 20 ∷ []))),
    )
feed_delivers_example =
    feed_delivers master 64 slot 3 (0 ∷ 10 ∷ 0 ∷ 20 ∷ []) master-Waits (omega arith) refl
      (omega arith)

All-replicate : (n : ℕ) → All (λ r. r < 65536) (replicate n 0)
All-replicate zero = tt
All-replicate (suc n) = (omega arith, All-replicate n)

pub slave-IsValid : IsValid slave
slave-IsValid = record { sized = refl; rd_in = omega arith; wr_in = omega arith }

pub slave_empty : buf_used slave ≡ 0
unfolding buf_used
slave_empty = refl

slave_free : 8 ≤ buf_free slave
unfolding buf_free
slave_free = omega arith

feed_serves_read_example :
    (after : Server) × (egw_modbus_server_feed cbs slave (rtu_frame 1 (read_pdu 3 16 2)) 0
      ≡ done (
        responded after
            (rtu_frame 1 (answer_pdu 3 registers 2))
            (drop (adu_len rtu (answer_pdu 3 registers 2)) slave.resp_buf),
        1,
      ))
    × (contents after ≡ [])
    × IsValid after
unfolding be_bytes
feed_serves_read_example =
    feed_serves_read cbs slave 1 3 16 2 read_registers registers 0 1 refl refl slave-IsValid
      slave_empty slave_free (asks 2 (omega arith)) refl refl refl (omega (arith, raw_len_2))
      (omega arith) (omega arith)

read_loopback_example :
    fed master (egw_modbus_server_feed cbs slave (take slot.len slot.buf) 0)
    ≡ done (received 1 16 (10 ∷ 20 ∷ []) ∷ [])
read_loopback_example =
    read_loopback cbs slave master 64 slot 3 2 read_registers registers 0 1 refl refl slave-IsValid
      slave_empty slave_free (omega arith) (omega arith) (record { frame = refl; frame_len = refl })
      (asks 2 (omega arith)) refl refl refl
      (omega arith, (omega arith, (omega arith, All-replicate 253))) (omega arith) master-Waits
      (omega arith)

slave_ignores_2 : unit_is_active slave.unit_mask 2 ≡ done false
unfolding unit_is_active service_data_gateway_edg.Prelude.load
slave_ignores_2 = refl

ignores_read_example :
    server_handle_frame cbs slave (request_adu slave 0 2 3 16 2 []) 8 0 ≡ done (slave, 0)
ignores_read_example =
    ignores_read cbs slave 0 2 3 16 2 [] 0 refl (omega arith) (omega arith) (omega arith)
      (inr (omega arith, slave_ignores_2))

feed_refuses_unit_example :
    egw_modbus_client_feed master (rtu_frame 2 (read_resp_pdu 3 (0 ∷ 10 ∷ [])))
    ≡ done (failed 1 16 ∷ [], delivered master (rtu_frame 2 (read_resp_pdu 3 (0 ∷ 10 ∷ []))))
feed_refuses_unit_example =
    feed_refuses_unit master 64 slot 2 3 (0 ∷ 10 ∷ []) master-Waits (omega arith) (omega arith)
      (omega arith)
