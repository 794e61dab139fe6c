-- ===== src/App/Slave.antt =====
-- src/app/egw_modbus_slave.c: the slave's read callback, its creation and its callback of the loop.
pub mod Overflow
pub mod Polls
pub mod Answers
use service_data_gateway_edg.Prelude.{
  ℕ, zero, suc, ◌+◌, ◌-◌, ◌/◌, ◌%◌, ◌||◌, Bool, true, false, not, List, [], ◌∷◌, ◌++◌, Option, none,
  some, Run, done, ◌>>=◌, or_fault, load, slice, store, length, get_elem?, replicate, ltb, ◌==◌,
  if◌then◌else◌,
}
use service_data_gateway_edg.Defs.{Err, ok, is_ok, nomem, open_err}
use service_data_gateway_edg.Modbus.{rtu}
use service_data_gateway_edg.Ptable.Head.{codes}
use service_data_gateway_edg.Ptable.Rows.{
  Rs, Bsearch, egw_ptable_rs_count, egw_ptable_rs_row, egw_ptable_rs_lookup,
}
use service_data_gateway_edg.Transport.{Handle}
use service_data_gateway_edg.Transport.Io.{
  egw_transport_read, egw_transport_write, egw_transport_close,
}
use service_data_gateway_edg.Transport.Serial.{SerialOs, SerialParams, egw_transport_serial_open}
use service_data_gateway_edg.Server.{Server, ReadArgs, Callbacks}
use service_data_gateway_edg.Server.Ring.{egw_modbus_server_reserve}
use service_data_gateway_edg.Server.Process.{
  egw_modbus_server_commit, egw_modbus_server_get_response, egw_modbus_server_create,
}
use service_data_gateway_edg.Persist.Thread.{
  Word16, ThreadOs, PersistThread, egw_persist_thread_enqueue,
}
use service_data_gateway_edg.App.{Shared, Ctx}
use service_data_gateway_edg.App.Tables.{Key, SlaveRow}

-- The loop over `regs_out` for a row at `reg_addr`, from `i` on.
unfoldable pub simulated : ℕ → ℕ → ℕ → List ℕ
simulated reg_addr i zero = []
simulated reg_addr i (suc n) = (0x000A + reg_addr + i) % 65536 ∷ simulated reg_addr (i + 1) n

-- The loop of `egw_lb_slave_init` over the rows: the units found, at most four, each once. `nrow` is
-- the number of rows left and `i` the next; a row behind the array is a fault.
unfoldable pub mem_unit : ℕ → List ℕ → Bool
mem_unit uid [] = false
mem_unit uid (u ∷ us) = u == uid || mem_unit uid us

unfoldable pub unit_ids_of : {K : Type 0} → Option (Rs K SlaveRow) → ℕ → ℕ → List ℕ → Run (List ℕ)
unfolding mem_unit
unit_ids_of rs zero i units = done units
unit_ids_of rs (suc nrow) i units = if not (ltb (length units) 4) then done units else (do
  s ← or_fault (egw_ptable_rs_row rs i)
  let uid = s.device_id % 256
  unit_ids_of rs nrow (i + 1) (if mem_unit uid units then units else units ++ uid ∷ []))

-- The 9600 8N1 line that both sides open.
abbrev pub line_params : List ℕ → SerialParams
line_params path = record { path = path; baud = 9600; parity = 78; data_bits = 8; stop_bits = 1 }

opened_or : {W : Type 0} → Option Handle × W → Err × Option Handle × W
opened_or (none, w) = (open_err, none, w)
opened_or (some h, w) = (ok, some h, w)

-- `egw_lb_slave_transport_open`: the error code and `srv_h`.
unfoldable pub egw_lb_slave_transport_open :
    {W : Type 0} → SerialOs W → Bool → List ℕ → W → Err × Option Handle × W
unfolding opened_or
egw_lb_slave_transport_open sys calloc_ok path w =
    opened_or (egw_transport_serial_open sys calloc_ok (line_params path) w)

server_or : Option Server → Err × Option Server
server_or none = (nomem, none)
server_or (some s) = (ok, some s)

-- `egw_lb_slave_init`, given whether the three allocations of the server succeed: the error code and
-- `server`.
unfoldable pub egw_lb_slave_init :
    Bool → Bool → Bool → Option (Rs Key SlaveRow) → Run (Err × Option Server)
unfolding unit_ids_of server_or
egw_lb_slave_init calloc_ok buf_ok resp_ok rs = do
  units ← unit_ids_of rs (egw_ptable_rs_count rs) 0 []
  s ← egw_modbus_server_create calloc_ok buf_ok resp_ok (record {
    transport = rtu;
    unit_ids = units ++ replicate (4 - length units) 0;
    buf_cap = 0;
    resp_cap = 0;
  })
  done (server_or s)

module _ {W : Type 0} (m : Word16) (sys : ThreadOs W) (bsearch : Bsearch SlaveRow) where
  enqueue_value : Option PersistThread → SlaveRow → W → W
  enqueue_value none row w = w
  enqueue_value (some pt) row w =
      egw_persist_thread_enqueue m sys pt (codes "northbound") row.device_id row.reg_addr row.value
        w

  read_row : ReadArgs → Rs Key SlaveRow → Option ℕ → Shared W → Run (Err × List ℕ × Shared W)
  unfolding simulated enqueue_value
  read_row p rs none ctx = do
    regs ← store p.regs_out 0 (replicate p.quantity 0)
    done (ok, regs, ctx)
  read_row p rs (some i) ctx = do
    row ← or_fault (get_elem? rs.rows i)
    regs ← store p.regs_out 0 (simulated row.reg_addr 0 p.quantity)
    v ← load regs 0
    let row' : SlaveRow = record row { value = v }
    rows ← store rs.rows i (row' ∷ [])
    done (
      ok,
      regs,
      record ctx {
        slave_rs = some (record rs { rows = rows });
        world = enqueue_value ctx.persist row' ctx.world;
      },
    )

  miss_or : ReadArgs → Option (Rs Key SlaveRow) → Shared W → Run (Err × List ℕ × Shared W)
  unfolding read_row
  miss_or p none ctx = do regs ← store p.regs_out 0 (replicate p.quantity 0); done (ok, regs, ctx)
  miss_or p (some rs) ctx =
      let key : Key = record { unit_id = p.unit_id; reg_addr = p.address } in
      read_row p rs (egw_ptable_rs_lookup bsearch (some rs) key) ctx

  -- `slave_read_cb`. Writing behind the 256 registers of `regs_out` is a fault.
  unfoldable pub slave_read_cb : ReadArgs → Shared W → Run (Err × List ℕ × Shared W)
  unfolding miss_or
  slave_read_cb p ctx = miss_or p ctx.slave_rs ctx

  abbrev pub slave_callbacks : Callbacks (Shared W)
  slave_callbacks = record { read_cb = some slave_read_cb; write_cb = none }

  unfoldable pub slave_reply : Option (List ℕ × ℕ) → Ctx W → Run (Ctx W)
  slave_reply none ctx = done ctx
  slave_reply (some (resp, resp_len)) ctx = do
    bytes ← slice resp 0 (resp_len / 2)
    let (e, n, w) = egw_transport_write sys.os ctx.srv_h bytes 0 ctx.shared.world
    done (record ctx {
      shared = record ctx.shared { world = w };
      srv_polled = false;
      seg_pending = true;
      cli_polled = true;
    })

  unfoldable pub slave_got : Ctx W → Err × ℕ × List ℕ × W → Run (Ctx W)
  unfolding slave_reply
  slave_got ctx (e, rlen, buf, w) =
      if not (is_ok e) || rlen == 0
      then done (record ctx {
        server = record ctx.server { buf = buf };
        shared = record ctx.shared { world = w };
      })
      else (do
        (s, shared) ←
            egw_modbus_server_commit slave_callbacks (record ctx.server { buf = buf }) rlen
              (record ctx.shared { world = w })
        slave_reply (egw_modbus_server_get_response s) (record ctx { server = s; shared = shared }))

  -- `egw_lb_slave_on_poll`, given whether the status is not negative and UV_READABLE is set. How
  -- many bytes are written is not looked at.
  unfoldable pub egw_lb_slave_on_poll : Bool → Ctx W → Run (Ctx W)
  unfolding slave_got
  egw_lb_slave_on_poll is_readable ctx =
      let (place, avail) = egw_modbus_server_reserve ctx.server in
      if not is_readable || avail == 0 then done ctx else (do
        r ← egw_transport_read sys.os ctx.srv_h ctx.server.buf place 0 avail ctx.shared.world
        slave_got ctx r)

  -- `egw_lb_slave_cleanup`, on the server's handle; freeing memory has no other effect.
  unfoldable pub egw_lb_slave_cleanup : Option Handle → W → W
  egw_lb_slave_cleanup srv_h w = egw_transport_close sys.os srv_h w
