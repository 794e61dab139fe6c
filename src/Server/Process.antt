-- ===== src/Server/Process.antt =====
-- src/protocol/egw_modbus_server.c: from received bytes to a response.
pub mod Serve
pub mod Feed
pub mod Commit
pub mod Fragments
use service_data_gateway_edg.Prelude.{
  ℕ, ◌+◌, ◌-◌, ◌%◌, ◌||◌, ◌&&◌, Bool, false, not, ◌++◌, List, Option, none, some, Run, done, ◌>>=◌,
  load, slice, store, replicate, length, ltb, ◌==◌, if◌then◌else◌,
}
use service_data_gateway_edg.Modbus.{
  Transport, rtu, tcp, be16, is_read_fc, is_single_fc, is_multiple_fc, max_pdu, max_frame,
}
use service_data_gateway_edg.Modbus.Pdu.{Request, parse_request}
use service_data_gateway_edg.Modbus.Decode.{Decoded, egw_modbus_decode}
use service_data_gateway_edg.Modbus.Frame.{
  ProtoResult, need_more, frame_error, frame_ready, parse_and_check,
}
use service_data_gateway_edg.Server.{Server, ReadCb, Callbacks}
use service_data_gateway_edg.Server.Units.{unit_is_active, egw_modbus_server_add_unit}
use service_data_gateway_edg.Server.Ring.{buf_used, buf_free, ring_copy, ring_write, contig}
use service_data_gateway_edg.Server.Handlers.{
  handle_read_request, handle_write_request, handle_broadcast_write,
}
use service_data_gateway_edg.Server.Response.{
  send_exception, send_pdu, exc_illegal_function, exc_illegal_data_addr, exc_slave_device_failure,
}

-- `(uint16_t)(frame[0] << 8) | frame[1]`, on TCP.
req_tid : Transport → List ℕ → Run ℕ
req_tid rtu frame = done 0
req_tid tcp frame = do hi ← load frame 0; lo ← load frame 1; done (be16 hi lo)

-- `uint8_t req_pdu[EGW_MODBUS_MAX_PDU]` and `resp_pdu`.
abbrev pub pdu_array : List ℕ
pdu_array = replicate max_pdu 0

module _ {W : Type 0} (cbs : Callbacks W) where
  -- `case 0x01` to `0x04`.
  serve_read : Option (ReadCb W) → Server → ℕ → ℕ → ℕ → Request → W → Run (Server × W)
  unfolding send_exception send_pdu
  serve_read none s tid unit_id fc r w = do
    s ← send_exception s unit_id fc tid exc_slave_device_failure
    done (s, w)
  serve_read (some cb) s tid unit_id fc r w = do
    (n, resp_pdu, w) ← handle_read_request cb fc r.addr r.count unit_id pdu_array w
    s ←
        (if n == 0
          then send_exception s unit_id fc tid exc_slave_device_failure
          else send_pdu s tid unit_id resp_pdu n)
    done (s, w)

  -- `case 0x05`, `0x06`, `0x0F`, `0x10`: the request's PDU is echoed.
  serve_write : Server → ℕ → ℕ → ℕ → Request → Decoded → W → Run (Server × W)
  unfolding send_exception send_pdu
  serve_write s tid unit_id fc r d w = do
    (written, w) ← handle_write_request cbs.write_cb fc r.addr r.count r.payload unit_id w
    if not written
        then (do s ← send_exception s unit_id fc tid exc_slave_device_failure; done (s, w))
        else (do
          echo ← slice d.pdu 0 d.pdu_len
          resp_pdu ← store pdu_array 0 echo
          s ← send_pdu s tid unit_id resp_pdu d.pdu_len
          done (s, w))

  serve_unit : Server → ℕ → ℕ → Request → Decoded → W → Run (Server × W)
  unfolding serve_read serve_write
  serve_unit s tid fc r d w =
      if is_read_fc fc
      then serve_read cbs.read_cb s tid d.unit_id fc r w
      else if is_single_fc fc || is_multiple_fc fc
      then serve_write s tid d.unit_id fc r d w
      else (do s ← send_exception s d.unit_id fc tid exc_illegal_function; done (s, w))

  serve_request : Server → ℕ → ℕ → Request → Decoded → W → Run (Server × W)
  unfolding serve_unit
  serve_request s tid fc r d w =
      if d.unit_id == 0
      then (if is_single_fc fc || is_multiple_fc fc
          then (do
            w ← handle_broadcast_write cbs.write_cb s.unit_mask fc r.addr r.count r.payload w
            done (s, w))
          else done (s, w))
      else (do
        active ← unit_is_active s.unit_mask d.unit_id
        if not active then done (s, w) else serve_unit s tid fc r d w)

  serve_parsed : Server → ℕ → ℕ → Option Request → Decoded → W → Run (Server × W)
  unfolding send_exception serve_request
  serve_parsed s tid fc none d w = do
    s ← send_exception s d.unit_id fc tid exc_illegal_data_addr
    done (s, w)
  serve_parsed s tid fc (some r) d w = serve_request s tid fc r d w

  serve_decoded : Server → ℕ → Option Decoded → W → Run (Server × W)
  unfolding serve_parsed
  serve_decoded s tid none w = done (s, w)
  serve_decoded s tid (some d) w = do
    (fc, r) ← parse_request d.pdu d.pdu_len
    serve_parsed s tid fc r d w

  -- `server_handle_frame`.
  unfoldable pub server_handle_frame : Server → List ℕ → ℕ → W → Run (Server × W)
  unfolding req_tid serve_decoded
  server_handle_frame s frame frame_len w = do
    tid ← req_tid s.transport frame
    d ← egw_modbus_decode s.transport frame frame_len pdu_array
    serve_decoded s tid d w

  after_parse : Server → List ℕ → ProtoResult → W → Run (Server × W)
  unfolding server_handle_frame
  after_parse s tmp need_more w = done (s, w)
  after_parse s tmp frame_error w = done (record s { rd = 0; wr = 0 }, w)
  after_parse s tmp (frame_ready n) w =
      server_handle_frame (record s { rd = (s.rd + n) % s.buf_cap }) tmp n w

  -- `try_process`; `tmp` is an array of `max_frame` bytes.
  unfoldable pub try_process : Server → W → Run (Server × W)
  unfolding after_parse
  try_process s w = if s.sending then done (s, w) else if buf_used s == 0 then done (s, w) else (do
    let copy_sz = if ltb max_frame (buf_used s) then max_frame else buf_used s
    copied ← ring_copy s.buf s.buf_cap s.rd copy_sz
    let tmp = copied ++ replicate (max_frame - copy_sz) 0
    r ← parse_and_check tmp copy_sz
    after_parse s tmp r w)

  -- `egw_modbus_server_feed`.
  unfoldable pub egw_modbus_server_feed : Server → List ℕ → W → Run (Server × W)
  unfolding try_process
  egw_modbus_server_feed s bytes w =
      if length bytes == 0
      then done (s, w)
      else if ltb (buf_free s) (length bytes)
      then done (record s { rd = 0; wr = 0 }, w)
      else (do s ← ring_write s bytes (length bytes); try_process s w)

  -- `egw_modbus_server_commit`, after `n` bytes were written at the reserved place.
  unfoldable pub egw_modbus_server_commit : Server → ℕ → W → Run (Server × W)
  unfolding try_process contig
  egw_modbus_server_commit s n w =
      if n == 0 || s.sending
      then done (s, w)
      else if ltb (contig s) n
      then done (s, w)
      else try_process (record s { wr = (s.wr + n) % s.buf_cap }) w

  -- `egw_modbus_server_response_sent`.
  unfoldable pub egw_modbus_server_response_sent : Server → W → Run (Server × W)
  unfolding try_process
  egw_modbus_server_response_sent s w = try_process (record s { resp_len = 0; sending = false }) w

-- `egw_modbus_server_get_response`.
unfoldable pub egw_modbus_server_get_response : Server → Option (List ℕ × ℕ)
egw_modbus_server_get_response s = if s.resp_len == 0 then none else some (s.resp_buf, s.resp_len)

-- `egw_modbus_server_params_t`, less the callbacks.
pub record ServerParams : Type 0 where
  pub transport : Transport
  pub unit_ids : List ℕ
  pub buf_cap : ℕ
  pub resp_cap : ℕ

abbrev or_default : ℕ → ℕ
or_default cap = if cap == 0 then max_frame else cap

-- `egw_modbus_server_create`, given whether its three allocations succeed. The result of
-- `add_unit` is not looked at.
unfoldable pub egw_modbus_server_create : Bool → Bool → Bool → ServerParams → Run (Option Server)
egw_modbus_server_create calloc_ok buf_ok resp_ok p =
    if not (calloc_ok && (buf_ok && resp_ok)) then done none else (do
      r ←
          egw_modbus_server_add_unit
            (record {
              transport = p.transport;
              buf = replicate (or_default p.buf_cap) 0;
              buf_cap = or_default p.buf_cap;
              rd = 0;
              wr = 0;
              resp_buf = replicate (or_default p.resp_cap) 0;
              resp_cap = or_default p.resp_cap;
              resp_len = 0;
              unit_mask = replicate 32 0;
              sending = false;
            })
            p.unit_ids
      done (some r.1))
