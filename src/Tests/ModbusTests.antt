-- ===== src/Tests/ModbusTests.antt =====
-- src/protocol/egw_modbus_core.c and the delimiters of both sides, on a request for two registers.
use service_data_gateway_edg.Prelude.{
  ◌≡◌, refl, inl, [], ◌∷◌, ◌++◌, none, some, done, fault, arith, replicate, true,
}
use service_data_gateway_edg.Modbus.{
  rtu, tcp, EncodeParams, from_params, encode_pdu, encode_exception,
}
use service_data_gateway_edg.Modbus.Pdu.{parse_request, parse_read_pdu, build_read_resp_pdu, values}
use service_data_gateway_edg.Modbus.Pdu.RoundTrip.{
  read_pdu, parse_request-read_pdu, on_the_wire, parse_read_pdu-on_the_wire,
  build_read_resp_pdu-overflow,
}
use service_data_gateway_edg.Modbus.Encode.{egw_modbus_encode}
use service_data_gateway_edg.Modbus.Encode.Frames.{
  rtu_frame, adu, adu_len, exception_pdu, encode-read, encode-exception,
}
use service_data_gateway_edg.Modbus.Encode.Frames.Multiple.{
  write_multiple_pdu, encode-registers_short,
}
use service_data_gateway_edg.Modbus.Decode.{egw_modbus_decode}
use service_data_gateway_edg.Modbus.Decode.RoundTrip.{
  decoded, decode-adu, decode-rtu_frame_overflow,
}

abbrev params : EncodeParams
params = record {
  type = from_params;
  unit_id = 1;
  funccode = 3;
  addr = 16;
  count = 2;
  payload = none;
  tid = 7;
  pdu = read_pdu 3 16 2;
  pdu_len = 5;
  exc_code = 2;
  buf = some (replicate 16 9);
  cap = 16;
}

request_on_the_wire : rtu_frame 1 (read_pdu 3 0 2) ≡ 1 ∷ 3 ∷ 0 ∷ 0 ∷ 0 ∷ 2 ∷ 0xC4 ∷ 0x0B ∷ []
unfolding service_data_gateway_edg.Crc.egw_crc_modbus_table
request_on_the_wire = refl

parse_request-read_pdu_example :
    parse_request (read_pdu 3 16 2) 5
    ≡ done (3, some (record { addr = 16; count = 2; payload = none; data_len = 0 }))
parse_request-read_pdu_example = parse_request-read_pdu 3 16 2 [] refl (omega arith) (omega arith)

parse_read_pdu-on_the_wire_example :
    parse_read_pdu (3 ∷ 4 ∷ 0 ∷ 5 ∷ 1 ∷ 2 ∷ []) 6 3 128 ≡ done (values (5 ∷ 258 ∷ []))
unfolding on_the_wire
parse_read_pdu-on_the_wire_example =
    parse_read_pdu-on_the_wire 3 (5 ∷ 258 ∷ []) [] (inl refl) (omega arith, (omega arith, tt))
      (omega arith)

build_read_resp_pdu-overflow_example : build_read_resp_pdu (replicate 3 9) 3 (1 ∷ 2 ∷ []) 2 ≡ fault
build_read_resp_pdu-overflow_example =
    build_read_resp_pdu-overflow (replicate 3 9) (1 ∷ 2 ∷ []) 3 (omega arith) (omega arith)
      (omega arith)

abbrev params_pdu : EncodeParams
params_pdu = record params { type = encode_pdu }

encode-read_example :
    egw_modbus_encode true rtu params
    ≡ done (some (adu rtu 7 1 (read_pdu 3 16 2) ++ replicate 8 9, 8))
encode-read_example = encode-read true rtu params refl refl (omega arith, omega arith)

abbrev params_exception : EncodeParams
params_exception = record params { type = encode_exception }

encode-exception_example :
    egw_modbus_encode true rtu params_exception
    ≡ done (some (adu rtu 7 1 (exception_pdu 3 2) ++ replicate 11 9, 5))
encode-exception_example =
    encode-exception true rtu params_exception refl (omega arith, omega arith)

decode-adu_example :
    egw_modbus_decode tcp (adu tcp 7 1 (read_pdu 3 16 2) ++ 8 ∷ []) 12 (replicate 253 0)
    ≡ done (some (decoded 1 (read_pdu 3 16 2) (replicate 253 0)))
decode-adu_example =
    decode-adu tcp 7 1 (read_pdu 3 16 2) (8 ∷ []) (replicate 253 0) (omega arith) (omega arith)
      (omega arith)

decode-rtu_frame_overflow_example :
    egw_modbus_decode rtu
      (rtu_frame 1 (3 ∷ replicate 253 0) ++ [])
      (adu_len rtu (3 ∷ replicate 253 0))
      (replicate 253 0)
    ≡ fault
decode-rtu_frame_overflow_example =
    decode-rtu_frame_overflow 1 (3 ∷ replicate 253 0) [] (replicate 253 0) (omega arith)
      (omega arith)

abbrev params_registers : EncodeParams
params_registers = record params { funccode = 0x10; count = 1; payload = some (0x12 ∷ 0x34 ∷ []) }

encode-registers_short_example :
    egw_modbus_encode true rtu params_registers
    ≡ done
        (some (rtu_frame 1 (write_multiple_pdu params_registers (0x12 ∷ [])) ++ replicate 6 9, 10))
encode-registers_short_example =
    encode-registers_short true params_registers (0x12 ∷ []) [] 0x34 refl refl refl refl
      (omega arith, omega arith)
