-- ===== src/Server/Handlers.antt =====
-- src/protocol/egw_modbus_server.c: what the server does with one decoded request.
use service_data_gateway_edg.Prelude.{
  ℕ, zero, suc, ◌+◌, ◌*◌, ◌/◌, ◌%◌, ◌^◌, ◌||◌, bit_and, bit_or, Bool, true, not, List, [], ◌∷◌, map,
  Option, none, some, Run, done, ◌>>=◌, load, slice, store, replicate, min, ltb, ◌==◌,
  if◌then◌else◌,
}
use service_data_gateway_edg.Defs.{is_ok}
use service_data_gateway_edg.Modbus.{be16, high_byte, low_byte, is_single_fc}
use service_data_gateway_edg.Modbus.Pdu.{build_read_resp_pdu, words}
use service_data_gateway_edg.Server.{ReadArgs, WriteArgs, ReadCb, WriteCb}
use service_data_gateway_edg.Server.Units.{unit_is_active}

-- Local arrays start out as zeros: `uint16_t regs[256]`, `wregs[256]`.
abbrev pub regs_array : List ℕ
regs_array = replicate 256 0

-- Registers as bytes, high byte first.
unfoldable pub be_bytes : List ℕ → List ℕ
be_bytes [] = []
be_bytes (r ∷ rs) = high_byte r ∷ low_byte r ∷ be_bytes rs

-- The bytes `raw[0 .. raw_len)` of a read response. `raw` has 512 bytes, `regs` 256 registers.
unfoldable pub raw_bytes : ℕ → List ℕ → ℕ → Run (List ℕ)
unfolding be_bytes
raw_bytes fc regs count =
    if fc == 0x01 || fc == 0x02
    then (do rs ← slice regs 0 ((count + 7) / 8); done (map (λ r. r % 256) rs))
    else (do rs ← slice regs 0 count; done (be_bytes rs))

unfoldable pub raw_len : ℕ → ℕ → ℕ
raw_len fc count = if fc == 0x01 || fc == 0x02 then (count + 7) / 8 else count * 2

module _ {W : Type 0} where
  -- `handle_read_request`: the PDU length (0 when the callback fails), `resp_pdu`, the new world.
  unfoldable pub handle_read_request : ReadCb W → ℕ → ℕ → ℕ → ℕ → List ℕ → W → Run (ℕ × List ℕ × W)
  unfolding raw_bytes raw_len
  handle_read_request read_cb fc addr count unit_id resp_pdu w = do
    let args : ReadArgs = record {
      address = addr;
      quantity = count;
      regs_out = regs_array;
      unit_id = unit_id;
    }
    (e, regs, w) ← read_cb args w
    if not (is_ok e) then done (0, resp_pdu, w) else (do
      raw ← raw_bytes fc regs count
      (pdu, n) ← build_read_resp_pdu resp_pdu fc raw (raw_len fc count)
      done (n, pdu, w))

-- One round of the coil loop of `handle_write_request`: coil `b` goes to bit `b % 16` of register
-- `b / 16`.
coil_round : ℕ → List ℕ → List ℕ → Run (List ℕ)
coil_round b req_data wregs =
    if ltb (b / 16) 256
    then (do
      byte ← load req_data (b / 8)
      if bit_and byte (2 ^ (b % 8)) == 0
          then done wregs
          else (do r ← load wregs (b / 16); store wregs (b / 16) (bit_or r (2 ^ (b % 16)) ∷ [])))
    else done wregs

unfoldable pub pack_coils : ℕ → ℕ → List ℕ → List ℕ → Run (List ℕ)
unfolding coil_round
pack_coils zero b req_data wregs = done wregs
pack_coils (suc rounds) b req_data wregs = do
  wregs ← coil_round b req_data wregs
  pack_coils rounds (b + 1) req_data wregs

write_single : List ℕ → Run (List ℕ × ℕ)
write_single d = do
  hi ← load d 0
  lo ← load d 1
  wregs ← store regs_array 0 (be16 hi lo ∷ [])
  done (wregs, 1)

write_coils : ℕ → List ℕ → Run (List ℕ × ℕ)
unfolding pack_coils
write_coils count d = do
  let nregs = (count + 15) / 16
  wregs ← store regs_array 0 (replicate (min nregs 256) 0)
  wregs ← pack_coils (min count 2000) 0 d wregs
  done (wregs, nregs)

write_regs : ℕ → List ℕ → Run (List ℕ × ℕ)
write_regs count d = do
  bytes ← slice d 0 (2 * min count 256)
  wregs ← store regs_array 0 (words bytes)
  done (wregs, count)

-- `wregs` and `nregs` of `handle_write_request`.
unfoldable pub unpack_write : ℕ → ℕ → Option (List ℕ) → Run (List ℕ × ℕ)
unfolding write_single write_coils write_regs
unpack_write fc count none = done (regs_array, 0)
unpack_write fc count (some d) =
    if is_single_fc fc
    then write_single d
    else if fc == 0x0F
    then write_coils count d
    else write_regs count d

module _ {W : Type 0} where
  run_write_cb : Option (WriteCb W) → WriteArgs → W → Run (Bool × W)
  run_write_cb none args w = done (true, w)
  run_write_cb (some cb) args w = do (e, w) ← cb args w; done (is_ok e, w)

  -- `handle_write_request`.
  unfoldable pub handle_write_request :
      Option (WriteCb W) → ℕ → ℕ → ℕ → Option (List ℕ) → ℕ → W → Run (Bool × W)
  unfolding unpack_write run_write_cb
  handle_write_request write_cb fc addr count req_data unit_id w = do
    (wregs, nregs) ← unpack_write fc count req_data
    let args : WriteArgs = record {
      address = addr;
      quantity = nregs;
      regs = wregs;
      unit_id = unit_id;
    }
    run_write_cb write_cb args w

  -- The loop of `handle_broadcast_write` from unit `id` on.
  broadcast_from : ℕ → ℕ → Option (WriteCb W) → List ℕ → ℕ → ℕ → ℕ → Option (List ℕ) → W → Run W
  unfolding handle_write_request
  broadcast_from zero id write_cb mask fc addr count req_data w = done w
  broadcast_from (suc rounds) id write_cb mask fc addr count req_data w = do
    active ← unit_is_active mask id
    w ←
        (if active
          then (do r ← handle_write_request write_cb fc addr count req_data id w; done r.1)
          else done w)
    broadcast_from rounds (id + 1) write_cb mask fc addr count req_data w

  -- `handle_broadcast_write`: units 1 to 247.
  unfoldable pub handle_broadcast_write :
      Option (WriteCb W) → List ℕ → ℕ → ℕ → ℕ → Option (List ℕ) → W → Run W
  unfolding broadcast_from
  handle_broadcast_write write_cb mask fc addr count req_data w =
      broadcast_from 247 1 write_cb mask fc addr count req_data w
