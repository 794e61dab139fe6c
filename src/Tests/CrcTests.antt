-- ===== src/Tests/CrcTests.antt =====
-- src/core/egw_crc.c on the request `01 03 00 00 00 02`, whose CRC on the wire is `0xc4 0x0b`.
use service_data_gateway_edg.Prelude.{ℕ, ◌≡◌, refl, List, [], ◌∷◌, arith}
use service_data_gateway_edg.Crc.{egw_crc_modbus_table, egw_crc_modbus_calc}
use service_data_gateway_edg.Crc.Equivalence.{egw_crc_modbus_table-calc}

abbrev request : List ℕ
request = 0x01 ∷ 0x03 ∷ 0x00 ∷ 0x00 ∷ 0x00 ∷ 0x02 ∷ []

crc_of_request : egw_crc_modbus_table request ≡ 0x0bc4
unfolding egw_crc_modbus_table
crc_of_request = refl

egw_crc_modbus_table-calc_example : egw_crc_modbus_table request ≡ egw_crc_modbus_calc request
egw_crc_modbus_table-calc_example = egw_crc_modbus_table-calc request (omega arith)
