-- ===== src/Modbus.antt =====
-- src/protocol/include/egw_modbus_core.h: constants and the types that both sides share.
-- A byte is a number below 256, a `uint16_t` one below 2 ^ 16; truncating casts are written out.
pub mod Pdu
pub mod Encode
pub mod Decode
pub mod Frame
use service_data_gateway_edg.Prelude.{
  ℕ, ◌+◌, ◌*◌, ◌/◌, ◌%◌, ◌≡◌, ◌<◌, bit_and, bit_or, Bool, ◌||◌, not, List, Option, ◌==◌, arith,
  bit_or_fields,
}

-- `egw_modbus_transport_t`.
pub data Transport : Type 0 where
  rtu tcp : Transport

abbrev pub max_pdu : ℕ
max_pdu = 253

abbrev pub max_frame : ℕ
max_frame = 260

-- `(uint16_t)hi << 8 | lo`, of two bytes.
unfoldable pub be16 : ℕ → ℕ → ℕ
be16 hi lo = bit_or (hi * 256) lo

pub be16-eq : (hi lo : ℕ) → lo < 256 → be16 hi lo ≡ hi * 256 + lo
unfolding be16
be16-eq hi lo h = bit_or_fields 8 hi lo h

-- `(uint8_t)(x >> 8)` and `(uint8_t)(x & 0xFF)`.
abbrev pub high_byte : ℕ → ℕ
high_byte x = x / 256 % 256

abbrev pub low_byte : ℕ → ℕ
low_byte x = x % 256

pub be16-bytes : (x : ℕ) → x < 65536 → be16 (high_byte x) (low_byte x) ≡ x
be16-bytes x h = omega (arith, be16-eq (high_byte x) (low_byte x) (omega arith))

-- `b & 0x80`, as a condition.
unfoldable pub has_high_bit : ℕ → Bool
has_high_bit b = not (bit_and b 0x80 == 0)

-- The function codes that the switches of both sides group together.
abbrev pub is_read_fc : ℕ → Bool
is_read_fc fc = fc == 0x01 || (fc == 0x02 || (fc == 0x03 || fc == 0x04))

abbrev pub is_single_fc : ℕ → Bool
is_single_fc fc = fc == 0x05 || fc == 0x06

abbrev pub is_multiple_fc : ℕ → Bool
is_multiple_fc fc = fc == 0x0F || fc == 0x10

-- `egw_modbus_encode_type_t`.
pub data EncodeType : Type 0 where
  from_params encode_pdu encode_exception : EncodeType

-- `egw_modbus_encode_params_t`. A pointer is `none` for NULL, or the array that starts there.
pub record EncodeParams : Type 0 where
  pub type : EncodeType
  pub tid : ℕ
  pub unit_id : ℕ
  pub funccode : ℕ
  pub addr : ℕ
  pub count : ℕ
  pub payload : Option (List ℕ)
  pub pdu : List ℕ
  pub pdu_len : ℕ
  pub exc_code : ℕ
  pub buf : Option (List ℕ)
  pub cap : ℕ
