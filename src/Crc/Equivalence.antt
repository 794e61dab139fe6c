-- ===== src/Crc/Equivalence.antt =====
-- src/core/egw_crc.c: the table gives the same CRC as the bit loop, and both are 16 bits wide.
use service_data_gateway_edg.Prelude.{
  ℕ, zero, suc, ◌+◌, ◌*◌, ◌/◌, ◌%◌, ◌^◌, ◌<◌, ◌≡◌, refl, ap, ◌∙◌, sym, true, bit_xor, List, [], ◌∷◌,
  All, ◌==◌, ==_iff, arith, passes_below, passes_below_sound, bit_and-one, bit_xor_step,
  bit_xor_assoc, bit_xor_comm, bit_xor_fields, bit_xor-lt, mul-two_pow_suc, ltb, ltb→lt,
}
use service_data_gateway_edg.Crc.{
  table_at, table_round, table_from, egw_crc_modbus_table, calc_bit, calc_bits, calc_from,
  egw_crc_modbus_calc,
}

table_check : passes_below (λ x. table_at x == calc_bits 8 x) 256 ≡ true
unfolding passes_below table_at calc_bits
table_check = refl

table_at-calc_bits : (x : ℕ) → x < 256 → table_at x ≡ calc_bits 8 x
table_at-calc_bits x h = (==_iff _ _).0 (passes_below_sound _ 256 x h table_check)

table_small : passes_below (λ x. ltb (table_at x) 65536) 256 ≡ true
unfolding passes_below table_at
table_small = refl

-- Bits above the one shifted out pass through a round.
calc_bit-shifted : (x y : ℕ) → calc_bit (bit_xor x (2 * y)) ≡ bit_xor (calc_bit x) y
unfolding calc_bit
calc_bit-shifted x y =
    let half : bit_xor x (2 * y) / 2 ≡ bit_xor (x / 2) y =
      (omega (arith, bit_xor_step x (2 * y), ap (λ (t : ℕ). bit_xor (x / 2) t) even)) in
    let low : bit_xor x (2 * y) % 2 ≡ x % 2 = omega (arith, bit_xor_step x (2 * y)) in
    ground (
      arith,
      half,
      low,
      bit_and-one (bit_xor x (2 * y)),
      bit_and-one x,
      bit_xor_assoc (x / 2) y 0xa001,
      bit_xor_assoc (x / 2) 0xa001 y,
      bit_xor_comm y 0xa001,
    )
  where
    even : 2 * y / 2 ≡ y
    even = omega arith

calc_bits-shifted : (k x y : ℕ) → calc_bits k (bit_xor x (y * 2 ^ k)) ≡ bit_xor (calc_bits k x) y
unfolding calc_bits
calc_bits-shifted zero x y = ap (λ (t : ℕ). bit_xor x t) (omega arith)
calc_bits-shifted (suc k) x y =
    rw mul-two_pow_suc (rw calc_bit-shifted (calc_bits-shifted k (calc_bit x) y))

-- With a byte mixed in, the high byte of the register stays.
split_fields :
    (crc b : ℕ) → b < 256 → bit_xor crc b ≡ bit_xor (bit_xor (crc % 256) b) (crc / 256 * 2 ^ 8)
split_fields crc b h =
    let hi : ℕ = crc / 256 * 2 ^ 8 in
    let parts : crc ≡ bit_xor (crc % 256) hi =
      omega (arith, bit_xor_fields 8 (crc / 256) (crc % 256) (omega arith)) in
    ap (λ (t : ℕ). bit_xor t b) parts
    ∙ bit_xor_assoc (crc % 256) hi b
    ∙ ap (λ (t : ℕ). bit_xor (crc % 256) t) (bit_xor_comm hi b)
    ∙ sym (bit_xor_assoc (crc % 256) b hi)

mixed_fields : (crc b : ℕ) → b < 256 → bit_xor crc b ≡ crc / 256 * 256 + bit_xor (crc % 256) b
mixed_fields crc b h =
    split_fields crc b h
    ∙ bit_xor_fields 8 (crc / 256) (bit_xor (crc % 256) b) (bit_xor-lt 8 _ _ (omega arith) h)

-- One byte through the table is eight rounds of the bit loop.
table_round-calc_bits : (crc b : ℕ) → b < 256 → table_round crc b ≡ calc_bits 8 (bit_xor crc b)
unfolding table_round
table_round-calc_bits crc b h =
    let mixed : ℕ = bit_xor (crc % 256) b in
    let small : mixed < 256 = bit_xor-lt 8 (crc % 256) b (omega arith) h in
    let idx : bit_xor crc b % 256 ≡ mixed = omega (arith, mixed_fields crc b h) in
    let looked : table_at (bit_xor crc b % 256) ≡ calc_bits 8 mixed =
      ap table_at idx ∙ table_at-calc_bits mixed small in
    ap (λ (t : ℕ). bit_xor (crc / 256) t) looked
    ∙ bit_xor_comm (crc / 256) (calc_bits 8 mixed)
    ∙ sym (calc_bits-shifted 8 mixed (crc / 256))
    ∙ ap (calc_bits 8) (sym (split_fields crc b h))

table_from-calc_from :
    (bs : List ℕ) (crc : ℕ) → All (λ b. b < 256) bs → table_from crc bs ≡ calc_from crc bs
unfolding table_from calc_from
table_from-calc_from [] crc h = refl
table_from-calc_from (b ∷ bs) crc h =
    ap (λ (t : ℕ). table_from t bs) (table_round-calc_bits crc b h.0)
    ∙ table_from-calc_from bs (calc_bits 8 (bit_xor crc b)) h.1

-- On any string of bytes the table-driven CRC and the bit-by-bit CRC are equal.
pub egw_crc_modbus_table-calc :
    (bs : List ℕ) → All (λ b. b < 256) bs → egw_crc_modbus_table bs ≡ egw_crc_modbus_calc bs
unfolding egw_crc_modbus_table egw_crc_modbus_calc
egw_crc_modbus_table-calc bs h = table_from-calc_from bs 0xffff h

table_at-lt : (x : ℕ) → x < 256 → table_at x < 65536
table_at-lt x h = ltb→lt _ _ (passes_below_sound _ 256 x h table_small)

table_from-lt : (bs : List ℕ) (crc : ℕ) → crc < 65536 → table_from crc bs < 65536
unfolding table_from table_round
table_from-lt [] crc h = h
table_from-lt (b ∷ bs) crc h = table_from-lt bs _ (
    bit_xor-lt 16 (crc / 256) (table_at (bit_xor crc b % 256)) (omega arith)
      (table_at-lt (bit_xor crc b % 256) (omega arith)))

-- The CRC fits the `uint16_t` that the code keeps it in, whatever the numbers in the data.
pub egw_crc_modbus_table-lt : (bs : List ℕ) → egw_crc_modbus_table bs < 65536
unfolding egw_crc_modbus_table
egw_crc_modbus_table-lt bs = table_from-lt bs 0xffff (omega arith)

-- What the frame layer relies on: two bytes hold the CRC, low byte first.
pub crc_bytes :
    (bs : List ℕ)
    → (egw_crc_modbus_table bs / 256 < 256)
      × (egw_crc_modbus_table bs / 256 * 256 + egw_crc_modbus_table bs % 256
          ≡ egw_crc_modbus_table bs)
crc_bytes bs = omega (arith, egw_crc_modbus_table-lt bs)
