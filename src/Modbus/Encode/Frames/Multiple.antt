-- ===== src/Modbus/Encode/Frames/Multiple.antt =====
-- src/protocol/egw_modbus_core.c: what `egw_modbus_encode` leaves for a request that writes several
-- registers, for which `write_pdu` reckons with five bytes in front of the data instead of six.
use service_data_gateway_edg.Prelude.{
  ℕ, ◌+◌, ◌≡◌, refl, ap, ◌∙◌, ◌||◌, Bool, true, false, List, [], ◌∷◌, ◌++◌, some, done, ◌>>=◌,
  arith, length, length-append, slice-parts, append_assoc, ne→==, ◌==◌,
}
use service_data_gateway_edg.Modbus.{
  rtu, EncodeParams, high_byte, low_byte, from_params, is_read_fc, is_single_fc,
}
use service_data_gateway_edg.Modbus.Encode.{
  alloc_buf, fill, multiple_bytes, data_bytes, byte_cnt_of, finish_written, write_pdu,
  egw_modbus_encode,
}
use service_data_gateway_edg.Modbus.Encode.Frames.{
  rtu_frame, HasRoom, tail_after, fill-done, finish-rtu,
}

-- The PDU of a request that writes several registers, with its data.
abbrev pub write_multiple_pdu : EncodeParams → List ℕ → List ℕ
write_multiple_pdu p ds =
    p.funccode
    ∷ high_byte p.addr
    ∷ low_byte p.addr
    ∷ high_byte p.count
    ∷ low_byte p.count
    ∷ byte_cnt_of p
    ∷ ds

multiple_bytes-payload :
    (p : EncodeParams) (ds more : List ℕ)
    → p.payload ≡ some (ds ++ more)
    → byte_cnt_of p ≡ length ds
    → multiple_bytes p (byte_cnt_of p) ≡ done (write_multiple_pdu p ds)
unfolding multiple_bytes
multiple_bytes-payload p ds more payload cnt =
    ap (λ r. r >>= (λ l. done (write_multiple_pdu p l)))
      (ap (λ o. data_bytes o (byte_cnt_of p)) payload
        ∙ slice-parts 0 (byte_cnt_of p) [] ds more refl cnt)

-- Encoding the parameters of a request to write several registers (FC 10 hex) for RTU, with at
-- least one data byte as the byte count says, where the buffer has room for eight bytes more than
-- the byte count: the frame ends before the last data byte, in whose place the CRC of the PDU
-- without that byte begins, while the byte count still counts it.
pub encode-registers_short :
    (ok : Bool) (p : EncodeParams) (first more : List ℕ) (last : ℕ)
    → p.type ≡ from_params
    → p.funccode ≡ 0x10
    → p.payload ≡ some ((first ++ last ∷ []) ++ more)
    → byte_cnt_of p ≡ length first + 1
    → HasRoom ok p.buf p.cap (byte_cnt_of p + 8)
    → egw_modbus_encode ok rtu p
      ≡ done (
          some (
            rtu_frame p.unit_id (write_multiple_pdu p first)
                ++ tail_after p.buf (byte_cnt_of p + 8),
            byte_cnt_of p + 8,
          ))
unfolding egw_modbus_encode finish_written
encode-registers_short ok p first more last mode fc payload cnt room =
    ap (λ w. w >>= finish_written rtu p) wrote
    ∙ ap (λ w. w >>= finish_written rtu p)
        (fill-done ok p.buf p.cap 1 n 1 (write_multiple_pdu p (first ++ last ∷ [])) room
          (omega (arith, length-append first (last ∷ []))))
    ∙ rw (ne→== n 0 (omega arith), append_assoc first (last ∷ []) (0 ∷ tail_after p.buf n))
        (finish-rtu p (write_multiple_pdu p first) (tail_after p.buf n) last 0 n (omega arith))
  where
    n : ℕ
    n = byte_cnt_of p + 8

    size : 1 + 5 + byte_cnt_of p + 2 ≡ n
    size = omega arith

    bytes : multiple_bytes p (byte_cnt_of p) ≡ done (write_multiple_pdu p (first ++ last ∷ []))
    bytes =
        multiple_bytes-payload p (first ++ last ∷ []) more payload
          (omega (arith, length-append first (last ∷ [])))

    not_read : is_read_fc p.funccode ≡ false
    not_read = rw fc refl

    not_single : is_single_fc p.funccode ≡ false
    not_single = rw fc refl

    multiple : (p.funccode == 0x0F || p.funccode == 0x10) ≡ true
    multiple = rw fc refl

    wrote :
        write_pdu ok rtu p
        ≡ fill (alloc_buf ok p.buf p.cap n) n 1 (done (write_multiple_pdu p (first ++ last ∷ [])))
    wrote = rw (mode) (rw (not_read, not_single, multiple) (rw (bytes, size) refl))
