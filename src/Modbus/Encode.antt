-- ===== src/Modbus/Encode.antt =====
-- src/protocol/egw_modbus_core.c: `alloc_buf`, `write_pdu`, `egw_modbus_encode`.
-- A result `done none` is the C function's NULL (with `*out_len = 0`); `done (some (b, n))` is the
-- buffer after the call and `*out_len`. `calloc_ok` says whether `calloc` finds memory.
pub mod Frames
use service_data_gateway_edg.Prelude.{
  ℕ, zero, suc, ◌+◌, ◌-◌, ◌*◌, ◌/◌, ◌%◌, bit_or, Bool, ◌||◌, true, false, List, [], ◌∷◌, Option,
  none, some, Run, done, fault, ◌>>=◌, load, slice, store, ltb, ◌==◌, if◌then◌else◌, replicate,
}
use service_data_gateway_edg.Crc.{egw_crc_modbus_table}
use service_data_gateway_edg.Modbus.{
  Transport, rtu, tcp, EncodeType, from_params, encode_pdu, encode_exception, EncodeParams,
  high_byte, low_byte, is_read_fc, is_single_fc,
}

abbrev pub pdu_off : Transport → ℕ
pdu_off rtu = 1
pdu_off tcp = 7

abbrev pub crc_len : Transport → ℕ
crc_len rtu = 2
crc_len tcp = 0

abbrev Written : Type 0
Written = Run (Option (List ℕ × ℕ))

-- `alloc_buf`.
alloc_buf : Bool → Option (List ℕ) → ℕ → ℕ → Run (Option (List ℕ))
alloc_buf calloc_ok (some b) cap adu_len =
    if ltb cap adu_len then done none else (do b' ← store b 0 (replicate adu_len 0); done (some b'))
alloc_buf true none cap adu_len = done (some (replicate adu_len 0))
alloc_buf false none cap adu_len = done none

fill : Run (Option (List ℕ)) → ℕ → ℕ → Run (List ℕ) → Written
fill fault n off bytes = fault
fill (done none) n off bytes = done none
fill (done (some b)) n off bytes = do bs ← bytes; b' ← store b off bs; done (some (b', n))

-- `params->data ? params->data[i] : 0`.
data_byte : Option (List ℕ) → ℕ → Run ℕ
data_byte none i = done 0
data_byte (some d) i = load d i

-- The bytes that `memcpy(…, params->data, byte_cnt)` reads.
data_bytes : Option (List ℕ) → ℕ → Run (List ℕ)
data_bytes none n = if n == 0 then done [] else fault
data_bytes (some d) n = slice d 0 n

read_bytes : EncodeParams → Run (List ℕ)
read_bytes p =
    done
      (p.funccode ∷ high_byte p.addr ∷ low_byte p.addr ∷ high_byte p.count ∷ low_byte p.count ∷ [])

single_bytes : EncodeParams → Run (List ℕ)
unfolding data_byte
single_bytes p = do
  d0 ← data_byte p.payload 0
  d1 ← data_byte p.payload 1
  done (p.funccode ∷ high_byte p.addr ∷ low_byte p.addr ∷ d0 ∷ d1 ∷ [])

multiple_bytes : EncodeParams → ℕ → Run (List ℕ)
unfolding data_bytes
multiple_bytes p byte_cnt = do
  ds ← data_bytes p.payload byte_cnt
  done (
      p.funccode
      ∷ high_byte p.addr
      ∷ low_byte p.addr
      ∷ high_byte p.count
      ∷ low_byte p.count
      ∷ byte_cnt
      ∷ ds)

-- `byte_cnt`, a `uint8_t`: coils are packed eight to a byte, registers take two bytes each.
abbrev pub byte_cnt_of : EncodeParams → ℕ
byte_cnt_of p = if p.funccode == 0x0F then (p.count + 7) / 8 % 256 else p.count * 2 % 256

module _ (calloc_ok : Bool) (t : Transport) (p : EncodeParams) where
  write_from_params : Written
  unfolding alloc_buf fill read_bytes single_bytes multiple_bytes
  write_from_params =
      if is_read_fc p.funccode
      then fill (alloc_buf calloc_ok p.buf p.cap (pdu_off t + 5 + crc_len t))
          (pdu_off t + 5 + crc_len t) (pdu_off t) (read_bytes p)
      else if is_single_fc p.funccode
      then fill (alloc_buf calloc_ok p.buf p.cap (pdu_off t + 5 + crc_len t))
          (pdu_off t + 5 + crc_len t) (pdu_off t) (single_bytes p)
      else if p.funccode == 0x0F || p.funccode == 0x10
      then fill (alloc_buf calloc_ok p.buf p.cap (pdu_off t + 5 + byte_cnt_of p + crc_len t))
          (pdu_off t + 5 + byte_cnt_of p + crc_len t) (pdu_off t) (multiple_bytes p (byte_cnt_of p))
      else done none

  write_raw_pdu : Written
  unfolding alloc_buf fill
  write_raw_pdu =
      fill (alloc_buf calloc_ok p.buf p.cap (pdu_off t + p.pdu_len + crc_len t))
        (pdu_off t + p.pdu_len + crc_len t) (pdu_off t) (slice p.pdu 0 p.pdu_len)

  write_exception : Written
  unfolding alloc_buf fill
  write_exception =
      fill (alloc_buf calloc_ok p.buf p.cap (pdu_off t + 2 + crc_len t)) (pdu_off t + 2 + crc_len t)
        (pdu_off t) (done (bit_or p.funccode 0x80 % 256 ∷ p.exc_code ∷ []))

  write_of_type : EncodeType → Written
  unfolding write_from_params write_raw_pdu write_exception
  write_of_type from_params = write_from_params
  write_of_type encode_pdu = write_raw_pdu
  write_of_type encode_exception = write_exception

  -- `write_pdu`.
  unfoldable pub write_pdu : Written
  unfolding write_of_type
  write_pdu = write_of_type p.type

-- The header and, on RTU, the CRC that `egw_modbus_encode` adds to a written buffer.
finish : Transport → EncodeParams → List ℕ × ℕ → Written
finish rtu p (b, n) = do
  b ← store b 0 (p.unit_id ∷ [])
  body ← slice b 0 (n - 2)
  let crc = egw_crc_modbus_table body
  b ← store b (n - 2) (crc % 256 ∷ crc / 256 ∷ [])
  done (some (b, n))
finish tcp p (b, n) = do
  let mbap_len = (n - 6) % 65536
  b ← store b 0 (
      high_byte p.tid
      ∷ low_byte p.tid
      ∷ 0
      ∷ 0
      ∷ high_byte mbap_len
      ∷ low_byte mbap_len
      ∷ p.unit_id
      ∷ [])
  done (some (b, n))

finish_written : Transport → EncodeParams → Option (List ℕ × ℕ) → Written
unfolding finish
finish_written t p none = done none
finish_written t p (some (b, n)) = if n == 0 then done none else finish t p (b, n)

-- `egw_modbus_encode`.
unfoldable pub egw_modbus_encode : Bool → Transport → EncodeParams → Written
unfolding write_pdu finish_written
egw_modbus_encode calloc_ok t p = do w ← write_pdu calloc_ok t p; finish_written t p w
