-- ===== src/Server/Process/Serve.antt =====
-- src/protocol/egw_modbus_server.c: `server_handle_frame` on the requests that the client builds.
use service_data_gateway_edg.Prelude.{
  ℕ, ◌+◌, ◌%◌, ◌≤◌, ◌<◌, ◌≡◌, ◌≢◌, refl, ◌∙◌, true, List, ◌++◌, none, some, done, fault, arith,
  length, drop, ne→==, load, ◌⊎◌, inl, inr, false, ◌==◌,
}
use service_data_gateway_edg.Defs.{ok}
use service_data_gateway_edg.Modbus.{
  Transport, rtu, tcp, be16-bytes, is_read_fc, is_single_fc, is_multiple_fc,
}
use service_data_gateway_edg.Modbus.Pdu.RoundTrip.{read_pdu, read_resp_pdu, parse_request-read_pdu}
use service_data_gateway_edg.Modbus.Encode.Frames.{exception_pdu, adu, adu_len}
use service_data_gateway_edg.Modbus.Decode.RoundTrip.{decode-adu}
use service_data_gateway_edg.Modbus.Frame.Delimit.{read_fc_cases}
use service_data_gateway_edg.Server.{Server, ReadCb, Callbacks}
use service_data_gateway_edg.Server.Units.{unit_is_active}
use service_data_gateway_edg.Server.Handlers.{handle_read_request, raw_len}
use service_data_gateway_edg.Server.Response.{exc_slave_device_failure}
use service_data_gateway_edg.Server.Responses.{
  responded, response_bytes, read_args, send_pdu-adu, send_exception-adu, handle_read_request-fits,
  handle_read_request-overflow,
}
use service_data_gateway_edg.Server.Process.{pdu_array, req_tid, serve_read, server_handle_frame}

-- The transaction number that a response repeats; an RTU frame has none.
abbrev pub tid_of : Transport → ℕ → ℕ
tid_of rtu tid = 0
tid_of tcp tid = tid

req_tid-adu :
    (t : Transport) (tid unit_id : ℕ) (pdu rest : List ℕ)
    → tid < 65536
    → req_tid t (adu t tid unit_id pdu ++ rest) ≡ done (tid_of t tid)
unfolding req_tid load
req_tid-adu rtu tid unit_id pdu rest h = refl
req_tid-adu tcp tid unit_id pdu rest h = rw (be16-bytes tid h)

-- A well-formed read request from a unit that the server serves.
pub record Asks (s : Server) (tid unit_id fc addr count : ℕ) : Type 0 where
  pub reads : is_read_fc fc ≡ true
  pub tid_16 : tid < 65536
  pub addr_16 : addr < 65536
  pub count_16 : count < 65536
  pub not_broadcast : unit_id ≢ 0
  pub active : unit_is_active s.unit_mask unit_id ≡ done true

-- The request frame in a buffer, with other bytes behind it.
abbrev pub request_adu : Server → ℕ → ℕ → ℕ → ℕ → ℕ → List ℕ → List ℕ
request_adu s tid unit_id fc addr count rest =
    adu s.transport tid unit_id (read_pdu fc addr count) ++ rest

abbrev pub request_len : Server → ℕ
request_len s = adu_len s.transport (read_pdu 0 0 0)

read_writes_nothing :
    (fc : ℕ) → is_read_fc fc ≡ true → (is_single_fc fc ≡ false) × (is_multiple_fc fc ≡ false)
read_writes_nothing fc h = elim (read_fc_cases fc h) [
  | inl e ↦ rw e (refl, refl)
  | inr (inl e) ↦ rw e (refl, refl)
  | inr (inr (inl e)) ↦ rw e (refl, refl)
  | inr (inr (inr e)) ↦ rw e (refl, refl)
]

==_true : (a : ℕ) → a ≡ 0 → (a == 0) ≡ true
==_true a e = rw e refl

-- The PDU that answers a read request.
abbrev pub answer_pdu : ℕ → List ℕ → ℕ → List ℕ
answer_pdu fc regs count = read_resp_pdu fc (response_bytes fc regs count)

module _ {W : Type 0} (cbs : Callbacks W) (s : Server) (tid unit_id fc addr count : ℕ) where
  -- Up to the `switch`, a read request goes through without a reply.
  to_switch :
      (rest : List ℕ) (w : W)
      → Asks s tid unit_id fc addr count
      → server_handle_frame cbs s (request_adu s tid unit_id fc addr count rest) (request_len s) w
        ≡ serve_read cbs cbs.read_cb s
            (tid_of s.transport tid)
            unit_id
            fc
            (record { addr = addr; count = count; payload = none; data_len = 0 })
            w
  unfolding server_handle_frame
  to_switch rest w a = rw (
    req_tid-adu s.transport tid unit_id (read_pdu fc addr count) rest a.tid_16,
    decode-adu s.transport tid unit_id (read_pdu fc addr count) rest pdu_array (omega arith)
        (omega arith) (omega arith),
    parse_request-read_pdu fc addr count (drop 5 pdu_array) a.reads a.addr_16 a.count_16,
    ne→== unit_id 0 a.not_broadcast,
    a.active,
    a.reads,
  )

  -- A well-formed read request (FC 01 to 04) from a unit that is served, in either transport, is
  -- answered where the callback succeeds, where the answer has at most 251 data bytes and where the
  -- response buffer has room: the response buffer then holds the frame with the bytes of the
  -- registers that the callback supplied, under the request's unit and transaction number, and the
  -- server is sending. The other fields stay as they were.
  pub serves_read :
      (cb : ReadCb W) (rest regs : List ℕ) (w w' : W)
      → Asks s tid unit_id fc addr count
      → cbs.read_cb ≡ some cb
      → cb (read_args cb addr count unit_id) w ≡ done (ok, regs, w')
      → length regs ≡ 256
      → raw_len fc count ≤ 251
      → adu_len s.transport (answer_pdu fc regs count) ≤ s.resp_cap
      → adu_len s.transport (answer_pdu fc regs count) ≤ length s.resp_buf
      → server_handle_frame cbs s (request_adu s tid unit_id fc addr count rest) (request_len s) w
        ≡ done (
          responded s
              (adu s.transport (tid_of s.transport tid) unit_id (answer_pdu fc regs count))
              (drop (adu_len s.transport (answer_pdu fc regs count)) s.resp_buf),
          w',
        )
  unfolding serve_read
  serves_read cb rest regs w w' a has called len small fits room =
      let pdu : List ℕ = read_resp_pdu fc (response_bytes fc regs count) in
      let (more, handled) =
        handle_read_request-fits cb fc addr count unit_id w w' regs called len small in
      let two : 2 + length (response_bytes fc regs count) ≡ length pdu = omega arith in
      to_switch rest w a
      ∙ rw (has, handled)
          (rw (
            two,
            ne→== (length pdu) 0 (omega arith),
            send_pdu-adu s (tid_of s.transport tid) unit_id pdu more fits room,
          ))

  -- A well-formed read request from a unit that is served, for which the callback succeeds and
  -- whose answer has between 252 and 255 data bytes (126 or 127 registers), makes the server write
  -- past the end of `resp_pdu`.
  pub serve_read_overflow :
      (cb : ReadCb W) (rest regs : List ℕ) (w w' : W)
      → Asks s tid unit_id fc addr count
      → cbs.read_cb ≡ some cb
      → cb (read_args cb addr count unit_id) w ≡ done (ok, regs, w')
      → length regs ≡ 256
      → 251 < raw_len fc count
      → raw_len fc count < 256
      → server_handle_frame cbs s (request_adu s tid unit_id fc addr count rest) (request_len s) w
        ≡ fault
  unfolding serve_read
  serve_read_overflow cb rest regs w w' a has called len big small =
      to_switch rest w a
      ∙ rw (
        has,
        handle_read_request-overflow cb fc addr count unit_id w w' regs called len big small,
      )

  -- A fault of the callback is one of the server.
  pub serve_read_cb_fault :
      (cb : ReadCb W) (rest : List ℕ) (w : W)
      → Asks s tid unit_id fc addr count
      → cbs.read_cb ≡ some cb
      → cb (read_args cb addr count unit_id) w ≡ fault
      → server_handle_frame cbs s (request_adu s tid unit_id fc addr count rest) (request_len s) w
        ≡ fault
  unfolding serve_read handle_read_request
  serve_read_cb_fault cb rest w a has called = to_switch rest w a ∙ rw (has, called) refl

  -- A server without a read callback, with room in its response buffer, answers a well-formed read
  -- request from a unit that is served with an exception whose code is the low byte of the
  -- request's transaction number (on RTU 0), under transaction number 4, the code of a device
  -- failure.
  pub serve_read_no_callback :
      (rest : List ℕ) (w : W)
      → Asks s tid unit_id fc addr count
      → cbs.read_cb ≡ none
      → adu_len s.transport (exception_pdu fc (tid_of s.transport tid % 256)) ≤ s.resp_cap
      → adu_len s.transport (exception_pdu fc (tid_of s.transport tid % 256)) ≤ length s.resp_buf
      → server_handle_frame cbs s (request_adu s tid unit_id fc addr count rest) (request_len s) w
        ≡ done (
          responded s
              (adu s.transport exc_slave_device_failure unit_id
                (exception_pdu fc (tid_of s.transport tid % 256)))
              (drop
                (adu_len s.transport (exception_pdu fc (tid_of s.transport tid % 256)))
                s.resp_buf),
          w,
        )
  unfolding serve_read
  serve_read_no_callback rest w a has fits room =
      to_switch rest w a
      ∙ rw (
        has,
        send_exception-adu s unit_id fc (tid_of s.transport tid) exc_slave_device_failure fits room,
      )

  -- A frame with a read request (FC 01 to 04) whose unit is 0 or is not served changes nothing in
  -- the server and calls no callback, in either transport.
  pub ignores_read :
      (rest : List ℕ) (w : W)
      → is_read_fc fc ≡ true
      → tid < 65536
      → addr < 65536
      → count < 65536
      → (unit_id ≡ 0) ⊎ ((unit_id ≢ 0) × (unit_is_active s.unit_mask unit_id ≡ done false))
      → server_handle_frame cbs s (request_adu s tid unit_id fc addr count rest) (request_len s) w
        ≡ done (s, w)
  unfolding server_handle_frame
  ignores_read rest w reads tid_16 addr_16 count_16 (inl zero_unit) =
      let (not_single, not_multiple) = read_writes_nothing fc reads in
      rw
        (
          req_tid-adu s.transport tid unit_id (read_pdu fc addr count) rest tid_16,
          decode-adu s.transport tid unit_id (read_pdu fc addr count) rest pdu_array (omega arith)
              (omega arith) (omega arith),
          parse_request-read_pdu fc addr count (drop 5 pdu_array) reads addr_16 count_16,
        )
        (rw (==_true unit_id zero_unit, not_single, not_multiple) refl)
  ignores_read rest w reads tid_16 addr_16 count_16 (inr (not_broadcast, inactive)) =
      rw
        (
          req_tid-adu s.transport tid unit_id (read_pdu fc addr count) rest tid_16,
          decode-adu s.transport tid unit_id (read_pdu fc addr count) rest pdu_array (omega arith)
              (omega arith) (omega arith),
          parse_request-read_pdu fc addr count (drop 5 pdu_array) reads addr_16 count_16,
          ne→== unit_id 0 not_broadcast,
          inactive,
        )
        refl
