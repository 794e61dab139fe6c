-- ===== src/Modbus/Pdu.antt =====
-- src/protocol/egw_modbus_core.c: building and parsing PDUs.
pub mod RoundTrip
use service_data_gateway_edg.Prelude.{
  ℕ, ◌+◌, ◌/◌, ◌%◌, bit_and, Bool, false, ◌&&◌, ◌||◌, not, List, [], ◌∷◌, Option, none, some, Run,
  done, ◌>>=◌, load, slice, store, ltb, ◌==◌, if◌then◌else◌, drop,
}
use service_data_gateway_edg.Modbus.{be16, has_high_bit, is_read_fc, is_single_fc, is_multiple_fc}

-- `egw_modbus_build_read_resp_pdu`: the array `pdu` afterwards, and the length returned.
unfoldable pub build_read_resp_pdu : List ℕ → ℕ → List ℕ → ℕ → Run (List ℕ × ℕ)
build_read_resp_pdu pdu fc bytes data_len = do
  let byte_count = data_len % 256
  pdu ← store pdu 0 (fc ∷ byte_count ∷ [])
  payload ← slice bytes 0 byte_count
  pdu ← store pdu 2 payload
  done (pdu, 2 + byte_count)

-- The result of `egw_modbus_parse_read_pdu`: the values written to `regs` (its positive result is
-- their number), -1, or -(exc + 100).
pub data ReadOutcome : Type 0 where
  values : List ℕ → ReadOutcome
  malformed : ReadOutcome
  exception : ℕ → ReadOutcome

-- The loop over register bytes, high byte first.
unfoldable pub words : List ℕ → List ℕ
words [] = []
words (hi ∷ []) = []
words (hi ∷ lo ∷ rest) = be16 hi lo ∷ words rest

parse_bits : List ℕ → ℕ → ℕ → ℕ → Run ReadOutcome
parse_bits pdu len byte_count max_regs =
    if ltb len (2 + byte_count)
    then done malformed
    else if ltb max_regs byte_count
    then done malformed
    else (do vs ← slice pdu 2 byte_count; done (values vs))

parse_words : List ℕ → ℕ → ℕ → ℕ → Run ReadOutcome
parse_words pdu len byte_count max_regs =
    if ltb len (2 + byte_count)
    then done malformed
    else if not (byte_count % 2 == 0) || ltb max_regs (byte_count / 2)
    then done malformed
    else (do bs ← slice pdu 2 byte_count; done (values (words bs)))

parse_values : List ℕ → ℕ → ℕ → ℕ → ℕ → Run ReadOutcome
unfolding parse_bits parse_words
parse_values pdu len fc byte_count max_regs =
    if fc == 0x01 || fc == 0x02
    then parse_bits pdu len byte_count max_regs
    else if fc == 0x03 || fc == 0x04
    then parse_words pdu len byte_count max_regs
    else done malformed

-- `egw_modbus_parse_read_pdu`.
unfoldable pub parse_read_pdu : List ℕ → ℕ → ℕ → ℕ → Run ReadOutcome
unfolding has_high_bit parse_values
parse_read_pdu pdu len fc max_regs = do
  head ← load pdu 0
  if has_high_bit head && (bit_and head 0x7F == fc)
      then (do exc ← load pdu 1; done (exception exc))
      else if not (head == fc)
      then done malformed
      else (do n ← load pdu 1; parse_values pdu len fc n max_regs)

-- `egw_modbus_parse_write_pdu`: whether it returns EGW_OK.
unfoldable pub parse_write_pdu : List ℕ → ℕ → ℕ → Run Bool
unfolding has_high_bit
parse_write_pdu pdu len fc = if ltb len 5 then done false else (do
  head ← load pdu 0
  if has_high_bit head && (bit_and head 0x7F == fc) then done false else done (head == fc))

-- What `egw_modbus_parse_request` writes through its pointers on success.
pub record Request : Type 0 where
  pub addr : ℕ
  pub count : ℕ
  pub payload : Option (List ℕ)  -- `*data`, the rest of the PDU's array
  pub data_len : ℕ

request_read : List ℕ → Run (Option Request)
request_read pdu = do
  a ← load pdu 1
  b ← load pdu 2
  c ← load pdu 3
  d ← load pdu 4
  done (some (record { addr = be16 a b; count = be16 c d; payload = none; data_len = 0 }))

request_single : List ℕ → Run (Option Request)
request_single pdu = do
  a ← load pdu 1
  b ← load pdu 2
  done (some (record { addr = be16 a b; count = 1; payload = some (drop 3 pdu); data_len = 2 }))

request_multiple : List ℕ → Run (Option Request)
request_multiple pdu = do
  a ← load pdu 1
  b ← load pdu 2
  c ← load pdu 3
  d ← load pdu 4
  n ← load pdu 5
  done (
      some
        (record { addr = be16 a b; count = be16 c d; payload = some (drop 6 pdu); data_len = n }))

-- `egw_modbus_parse_request`: the function code, which is written in every case, and the rest, or
-- `none` for EGW_ERR_INVALID_ARG.
unfoldable pub parse_request : List ℕ → ℕ → Run (ℕ × Option Request)
unfolding request_read request_single request_multiple
parse_request pdu len = do
  fc ← load pdu 0
  r ←
      (if is_read_fc fc
        then (if ltb len 5 then done none else request_read pdu)
        else if is_single_fc fc
        then (if ltb len 5 then done none else request_single pdu)
        else if is_multiple_fc fc
        then (if ltb len 6 then done none else request_multiple pdu)
        else done none)
  done (fc, r)
