-- ===== src/App/Master.antt =====
-- src/app/egw_modbus_master.c: the master's callback, its request and its callback of the loop.
pub mod Polls
pub mod Completes
use service_data_gateway_edg.Prelude.{
  ℕ, ◌-◌, ◌/◌, ◌%◌, ◌||◌, Bool, true, false, not, List, [], ◌∷◌, Option, none, some, Run, done,
  ◌>>=◌, or_fault, slice, ◌==◌, if◌then◌else◌,
}
use service_data_gateway_edg.Defs.{Err, ok, is_ok, nomem, open_err, write_err}
use service_data_gateway_edg.Modbus.{rtu, from_params, EncodeParams}
use service_data_gateway_edg.Ptable.Rows.{Rs, Bsearch, egw_ptable_rs_row}
use service_data_gateway_edg.Transport.{Handle}
use service_data_gateway_edg.Transport.Io.{
  egw_transport_read, egw_transport_write, egw_transport_close,
}
use service_data_gateway_edg.Transport.Serial.{SerialOs, egw_transport_serial_open}
use service_data_gateway_edg.Server.Process.{
  egw_modbus_server_get_response, egw_modbus_server_response_sent,
}
use service_data_gateway_edg.Client.{Client, Heap, Result, failed, received}
use service_data_gateway_edg.Client.Slots.{
  egw_modbus_client_create, egw_modbus_client_register, egw_modbus_client_request,
  egw_modbus_client_destroy,
}
use service_data_gateway_edg.Client.Receive.{egw_modbus_client_reserve, egw_modbus_client_commit}
use service_data_gateway_edg.Persist.Thread.{Word16, ThreadOs}
use service_data_gateway_edg.App.{phase_done, Ctx}
use service_data_gateway_edg.App.Tables.{Key, MasterRow, SlaveRow}
use service_data_gateway_edg.App.Slave.{line_params, slave_callbacks}

-- `master_done_cb`.
unfoldable pub master_done_cb : {W : Type 0} → Result → Ctx W → Ctx W
master_done_cb (failed unit_id addr) ctx = record ctx { stopped = true }
master_done_cb (received unit_id addr regs) ctx = record ctx { phase = phase_done; stopped = true }

-- The calls of `done_cb` in their order.
unfoldable pub call_back : {W : Type 0} → List Result → Ctx W → Ctx W
unfolding master_done_cb
call_back [] ctx = ctx
call_back (r ∷ rs) ctx = call_back rs (master_done_cb r ctx)

-- `egw_lb_on_timeout`.
unfoldable pub egw_lb_on_timeout : {W : Type 0} → Ctx W → Ctx W
egw_lb_on_timeout ctx = record ctx { stopped = true }

line_opened : {W : Type 0} → Option Handle × W → Err × Option Handle × W
line_opened (none, w) = (open_err, none, w)
line_opened (some h, w) = (ok, some h, w)

-- `egw_lb_master_transport_open`: the error code and `cli_h`.
unfoldable pub egw_lb_master_transport_open :
    {W : Type 0} → SerialOs W → Bool → List ℕ → W → Err × Option Handle × W
unfolding line_opened
egw_lb_master_transport_open sys calloc_ok path w =
    line_opened (egw_transport_serial_open sys calloc_ok (line_params path) w)

-- The parameters of the request for a row; `unit_id` is a `uint8_t`.
abbrev pub request_params : MasterRow → EncodeParams
request_params m0 = record {
  type = from_params;
  tid = 0;
  unit_id = m0.device_id % 256;
  funccode = m0.func_code;
  addr = m0.reg_addr;
  count = m0.reg_count;
  payload = none;
  pdu = [];
  pdu_len = 0;
  exc_code = 0;
  buf = none;
  cap = 0;
}

slot_or : Option ℕ × Client → Err × Option (Client × ℕ)
slot_or (none, c) = (nomem, none)
slot_or (some p, c) = (ok, some (c, p))

init_request :
    Option ℕ → Bool → Option (Rs Key MasterRow) → Option Client → Run (Err × Option (Client × ℕ))
unfolding slot_or
init_request p frame_ok rs none = done (nomem, none)
init_request p frame_ok rs (some c) = do
  m0 ← or_fault (egw_ptable_rs_row rs 0)
  r ← egw_modbus_client_register p frame_ok c (request_params m0)
  done (slot_or r)

-- `egw_lb_master_init`, given whether the client's allocations succeed, the address of the slot and
-- whether the frame is allocated: the error code, and `cli` with `req_slot` where it is `ok`. The
-- first row of no rows is the pointer NULL, which is read through.
unfoldable pub egw_lb_master_init :
    Bool → Bool → Option ℕ → Bool → Option (Rs Key MasterRow) → Run (Err × Option (Client × ℕ))
unfolding init_request
egw_lb_master_init calloc_ok malloc_ok p frame_ok rs =
    init_request p frame_ok rs (egw_modbus_client_create true calloc_ok malloc_ok rtu 0)

module _ {W : Type 0} (m : Word16) (sys : ThreadOs W) (bsearch : Bsearch SlaveRow) where
  -- `egw_lb_master_send`.
  unfoldable pub egw_lb_master_send : Ctx W → Run (Err × Ctx W)
  egw_lb_master_send ctx = do
    (frame, frame_len, c) ← egw_modbus_client_request ctx.cli ctx.req_slot
    bytes ← slice frame 0 frame_len
    let (e, written, w) = egw_transport_write sys.os ctx.cli_h bytes 0 ctx.shared.world
    let sent : Ctx W = record ctx { cli = c; shared = record ctx.shared { world = w } }
    done (if not (is_ok e) || not (written == frame_len) then write_err else ok, sent)

  unfoldable pub second_half : Option (List ℕ × ℕ) → Ctx W → Run (Ctx W)
  second_half none ctx = done ctx
  second_half (some (resp, resp_len)) ctx = do
    bytes ← slice resp (resp_len / 2) (resp_len - resp_len / 2)
    let (e, written, w) = egw_transport_write sys.os ctx.srv_h bytes 0 ctx.shared.world
    (s, shared) ←
        egw_modbus_server_response_sent (slave_callbacks m sys bsearch) ctx.server
          (record ctx.shared { world = w })
    done (record ctx { server = s; shared = shared })

  unfoldable pub master_got : Ctx W → Err × ℕ × List ℕ × W → Run (Ctx W)
  unfolding call_back second_half
  master_got ctx (e, rlen, buf, w) =
      let got : Ctx W = record ctx {
        cli = record ctx.cli { recv_buf = buf };
        shared = record ctx.shared { world = w };
      } in
      if not (is_ok e) || rlen == 0 then done got else (do
        (results, c) ← egw_modbus_client_commit got.cli rlen
        let ctx = call_back results (record got { cli = c })
        if not ctx.seg_pending
            then done ctx
            else second_half (egw_modbus_server_get_response ctx.server)
                (record ctx { seg_pending = false }))

  -- `egw_lb_master_on_poll`, given whether the status is not negative and UV_READABLE is set.
  unfoldable pub egw_lb_master_on_poll : Bool → Ctx W → Run (Ctx W)
  unfolding master_got
  egw_lb_master_on_poll is_readable ctx =
      let (place, avail) = egw_modbus_client_reserve ctx.cli in
      if not is_readable || avail == 0 then done ctx else (do
        r ← egw_transport_read sys.os ctx.cli_h ctx.cli.recv_buf place 0 avail ctx.shared.world
        master_got ctx r)

  -- `egw_lb_master_cleanup`, on the client's slots and handle: what is left of the heap, and the
  -- world. `fuel` is the number of slots that may be freed.
  unfoldable pub egw_lb_master_cleanup : ℕ → Client → Option Handle → W → Run (Heap × W)
  egw_lb_master_cleanup fuel c cli_h w = do
    heap ← egw_modbus_client_destroy fuel c.heap c.slots
    done (heap, egw_transport_close sys.os cli_h w)
