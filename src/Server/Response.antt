-- ===== src/Server/Response.antt =====
-- src/protocol/egw_modbus_server.c: writing responses into the response buffer.
use service_data_gateway_edg.Prelude.{
  ℕ, ◌%◌, true, List, [], Option, none, some, Run, done, ◌>>=◌, ◌==◌, if◌then◌else◌,
}
use service_data_gateway_edg.Modbus.{EncodeParams, from_params, encode_pdu, encode_exception}
use service_data_gateway_edg.Modbus.Encode.{egw_modbus_encode}
use service_data_gateway_edg.Server.{Server}

-- `memset(&enc, 0, sizeof(enc))` with the response buffer.
abbrev pub cleared : Server → EncodeParams
cleared s = record {
  type = from_params;
  tid = 0;
  unit_id = 0;
  funccode = 0;
  addr = 0;
  count = 0;
  payload = none;
  pdu = [];
  pdu_len = 0;
  exc_code = 0;
  buf = some s.resp_buf;
  cap = s.resp_cap;
}

-- After an encode into the response buffer: `resp_len` is written, and `sending` set on success.
unfoldable pub took : Server → Option (List ℕ × ℕ) → Server
took s none = record s { resp_len = 0 }
took s (some (b, n)) =
    if n == 0
    then record s { resp_buf = b; resp_len = 0 }
    else record s { resp_buf = b; resp_len = n; sending = true }

-- The encode at the end of `send_exception` and of `server_handle_frame`.
unfoldable pub respond : Server → EncodeParams → Run Server
unfolding took
respond s enc = do w ← egw_modbus_encode true s.transport enc; done (took s w)

-- The parameters that `send_exception` fills in; `exc` is a `uint8_t` and `tid` a `uint16_t`.
abbrev pub exception_params : Server → ℕ → ℕ → ℕ → ℕ → EncodeParams
exception_params s unit_id fc exc tid = record (cleared s) {
  type = encode_exception;
  tid = tid % 65536;
  unit_id = unit_id;
  funccode = fc;
  exc_code = exc % 256;
}

-- `send_exception(server, unit_id, fc, exc, tid)`, the arguments in the order of the source.
unfoldable pub send_exception : Server → ℕ → ℕ → ℕ → ℕ → Run Server
unfolding respond
send_exception s unit_id fc exc tid = respond s (exception_params s unit_id fc exc tid)

-- The parameters for the response at the end of `server_handle_frame`.
abbrev pub pdu_params : Server → ℕ → ℕ → List ℕ → ℕ → EncodeParams
pdu_params s tid unit_id resp_pdu resp_pdu_len = record (cleared s) {
  type = encode_pdu;
  tid = tid;
  unit_id = unit_id;
  pdu = resp_pdu;
  pdu_len = resp_pdu_len;
}

-- `EGW_ENCODE_PDU` with the response PDU.
unfoldable pub send_pdu : Server → ℕ → ℕ → List ℕ → ℕ → Run Server
unfolding respond
send_pdu s tid unit_id resp_pdu resp_pdu_len =
    respond s (pdu_params s tid unit_id resp_pdu resp_pdu_len)

-- Modbus exception codes.
abbrev pub exc_illegal_function : ℕ
exc_illegal_function = 1

abbrev pub exc_illegal_data_addr : ℕ
exc_illegal_data_addr = 2

abbrev pub exc_slave_device_failure : ℕ
exc_slave_device_failure = 4
