-- ===== src/Modbus/Decode.antt =====
-- src/protocol/egw_modbus_core.c: `egw_modbus_decode`.
pub mod RoundTrip
use service_data_gateway_edg.Prelude.{
  ℕ, ◌+◌, ◌-◌, ◌*◌, List, Option, none, some, Run, done, ◌>>=◌, load, slice, store, ltb, ◌==◌, ◌||◌,
  Bool, if◌then◌else◌,
}
use service_data_gateway_edg.Crc.{egw_crc_modbus_table}
use service_data_gateway_edg.Modbus.{Transport, rtu, tcp, be16}

-- What a successful decode writes through its pointers.
pub record Decoded : Type 0 where
  pub unit_id : ℕ
  pub pdu : List ℕ  -- the array `pdu_out`
  pub pdu_len : ℕ

-- `(uint16_t)frame[i] | (uint16_t)frame[i + 1] << 8`.
le16 : List ℕ → ℕ → Run ℕ
le16 frame i = do lo ← load frame i; hi ← load frame (i + 1); done (be16 hi lo)

-- Whether the last two of `len` bytes are the CRC of those before: the test of `modbus_validate`,
-- `resp_validate` and `egw_modbus_decode`.
unfoldable pub crc_matches : List ℕ → ℕ → Run Bool
unfolding le16
crc_matches frame len = do
  body ← slice frame 0 (len - 2)
  recv ← le16 frame (len - 2)
  done (egw_crc_modbus_table body == recv)

copy_pdu : List ℕ → List ℕ → ℕ → ℕ → ℕ → Run (Option Decoded)
copy_pdu frame pdu_out unit_at off pdu_len = do
  unit_id ← load frame unit_at
  bytes ← slice frame off pdu_len
  pdu ← store pdu_out 0 bytes
  done (some (record { unit_id = unit_id; pdu = pdu; pdu_len = pdu_len }))

decode_rtu : List ℕ → ℕ → List ℕ → Run (Option Decoded)
unfolding crc_matches copy_pdu
decode_rtu frame len pdu_out = if ltb len 4 then done none else (do
  valid ← crc_matches frame len
  if valid then copy_pdu frame pdu_out 0 1 (len - 3) else done none)

decode_tcp : List ℕ → ℕ → List ℕ → Run (Option Decoded)
unfolding copy_pdu
decode_tcp frame len pdu_out = if ltb len 8 then done none else (do
  hi ← load frame 4
  lo ← load frame 5
  let mbap_len = be16 hi lo
  if ltb mbap_len 1 || ltb len (mbap_len + 6)
      then done none
      else copy_pdu frame pdu_out 6 7 (mbap_len - 1))

-- `egw_modbus_decode`, with `pdu_out` the caller's array; `none` is EGW_ERR_INVALID_ARG.
unfoldable pub egw_modbus_decode : Transport → List ℕ → ℕ → List ℕ → Run (Option Decoded)
unfolding decode_rtu decode_tcp
egw_modbus_decode rtu frame len pdu_out = decode_rtu frame len pdu_out
egw_modbus_decode tcp frame len pdu_out = decode_tcp frame len pdu_out
