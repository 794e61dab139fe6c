-- ===== src/Client/Receive.antt =====
-- src/protocol/egw_modbus_client.c: receiving. The calls of `done_cb` are returned in order.
pub mod Deliver
pub mod Fragments
use service_data_gateway_edg.Prelude.{
  ℕ, zero, suc, ◌+◌, ◌-◌, ◌%◌, ◌||◌, Bool, true, false, not, List, [], ◌∷◌, Option, none, some, Run,
  done, ◌>>=◌, store, load, replicate, length, ltb, ◌==◌, if◌then◌else◌,
}
use service_data_gateway_edg.Modbus.{Transport, rtu, tcp, max_pdu}
use service_data_gateway_edg.Modbus.Pdu.{ReadOutcome, values, malformed, exception, parse_read_pdu}
use service_data_gateway_edg.Modbus.Decode.{Decoded, egw_modbus_decode}
use service_data_gateway_edg.Modbus.Frame.{
  ProtoResult, need_more, frame_error, frame_ready, resp_parse,
}
use service_data_gateway_edg.Client.{Slot, Client, Result, failed, received, at}

abbrev funccode_off : Transport → ℕ
funccode_off rtu = 1
funccode_off tcp = 7

abbrev outcome : Slot → ReadOutcome → Result
outcome s (values regs) = received s.unit_id s.addr regs
outcome s malformed = failed s.unit_id s.addr
outcome s (exception exc) = failed s.unit_id s.addr

judge : Transport → Slot → Option Decoded → Run Result
judge t s none = done (failed s.unit_id s.addr)
judge t s (some d) = if not (d.unit_id == s.unit_id) then done (failed s.unit_id s.addr) else (do
  funccode ← load s.buf (funccode_off t)
  r ← parse_read_pdu d.pdu d.pdu_len funccode 128
  done (outcome s r))

pub handle_for : Client → Option ℕ → Run (List Result × Client)
unfolding judge
handle_for c none = done ([], c)
handle_for c (some p) = do
  s ← at c.heap p
  let counted = record c { rx_count = (c.rx_count + 1) % 4294967296 }
  d ← egw_modbus_decode c.transport c.recv_buf c.recv_len (replicate max_pdu 0)
  r ← judge c.transport s d
  done (r ∷ [], counted)

-- `client_handle_frame`.
unfoldable pub client_handle_frame : Client → Run (List Result × Client)
unfolding handle_for
client_handle_frame c = handle_for c c.current

after_parse : Client → ProtoResult → Run (List Result × Client)
unfolding client_handle_frame
after_parse c need_more = done ([], c)
after_parse c frame_error = done ([], record c { recv_len = 0 })
after_parse c (frame_ready n) = client_handle_frame (record c { recv_len = n })

abbrev is_none : Option ℕ → Bool
is_none none = true
is_none (some p) = false

-- `egw_modbus_client_feed`.
unfoldable pub egw_modbus_client_feed : Client → List ℕ → Run (List Result × Client)
unfolding after_parse
egw_modbus_client_feed c bytes =
    if length bytes == 0 || is_none c.current
    then done ([], c)
    else if ltb (c.recv_cap - c.recv_len) (length bytes)
    then done ([], record c { recv_len = 0 })
    else (do
      b ← store c.recv_buf c.recv_len bytes
      let got : Client = record c { recv_buf = b; recv_len = c.recv_len + length bytes }
      r ← resp_parse got.recv_buf got.recv_len
      after_parse got r)

-- `egw_modbus_client_reserve`: the offset into `recv_buf` that is handed out, and the space.
unfoldable pub egw_modbus_client_reserve : Client → ℕ × ℕ
egw_modbus_client_reserve c =
    if is_none c.current then (0, 0) else (c.recv_len, c.recv_cap - c.recv_len)

-- `egw_modbus_client_commit`, after `n` bytes were written at the reserved place.
unfoldable pub egw_modbus_client_commit : Client → ℕ → Run (List Result × Client)
unfolding after_parse
egw_modbus_client_commit c n =
    if n == 0 || is_none c.current
    then done ([], c)
    else if ltb c.recv_cap (c.recv_len + n)
    then done ([], record c { recv_len = 0 })
    else (do
      let got : Client = record c { recv_len = c.recv_len + n }
      r ← resp_parse got.recv_buf got.recv_len
      after_parse got r)
