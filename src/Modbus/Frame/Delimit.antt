-- ===== src/Modbus/Frame/Delimit.antt =====
-- The frames that one side sends, as the other side delimits them.
use service_data_gateway_edg.Prelude.{
  ℕ, ◌+◌, ◌≤◌, ◌<◌, ◌≡◌, ◌⊎◌, inl, inr, true, false, List, [], ◌∷◌, ◌++◌, done, arith, length, load,
  le→ltb, lt→ltb, ltb, Bool-cases,
}
use service_data_gateway_edg.Modbus.{has_high_bit, is_read_fc}
use service_data_gateway_edg.Modbus.Pdu.RoundTrip.{read_resp_pdu}
use service_data_gateway_edg.Modbus.Encode.Frames.{rtu_frame}
use service_data_gateway_edg.Modbus.Decode.RoundTrip.{crc_matches-rtu_frame}
use service_data_gateway_edg.Modbus.Frame.{
  exactly, need_more, frame_ready, modbus_frame_len, resp_frame_len, check_frame, parse_and_check,
  resp_parse,
}

-- The read function codes are 1, 2, 3 and 4.
pub read_fc_cases : (fc : ℕ) → is_read_fc fc ≡ true → (fc ≡ 1) ⊎ (fc ≡ 2) ⊎ (fc ≡ 3) ⊎ (fc ≡ 4)
read_fc_cases fc h = ground arith

pub read_fc_plain : (fc : ℕ) → is_read_fc fc ≡ true → has_high_bit fc ≡ false
unfolding has_high_bit
read_fc_plain fc h = elim (read_fc_cases fc h) [
  | inl e ↦ rw e
  | inr (inl e) ↦ rw e
  | inr (inr (inl e)) ↦ rw e
  | inr (inr (inr e)) ↦ rw e
]

-- `n` bytes of a longer or equal buffer with a valid CRC behind them are a frame.
check_frame-ready :
    (unit_id : ℕ) (pdu rest : List ℕ) (len n : ℕ)
    → n ≡ length pdu + 3
    → n ≤ len
    → check_frame (rtu_frame unit_id pdu ++ rest) len (exactly n) ≡ done (frame_ready n)
unfolding check_frame
check_frame-ready unit_id pdu rest len n h le =
    rw (le→ltb len n le, crc_matches-rtu_frame unit_id pdu rest n h)

-- When at least eight bytes are there and they begin with the RTU frame of a read request (FC 01 to
-- 04), the server finds a complete frame of eight bytes, whatever follows it.
pub parse_and_check-request :
    (unit_id fc a b c d : ℕ) (rest : List ℕ) (len : ℕ)
    → is_read_fc fc ≡ true
    → 8 ≤ len
    → parse_and_check (rtu_frame unit_id (fc ∷ a ∷ b ∷ c ∷ d ∷ []) ++ rest) len
      ≡ done (frame_ready 8)
unfolding parse_and_check modbus_frame_len load
parse_and_check-request unit_id fc a b c d rest len read le =
    rw (le→ltb len 4 (omega arith), le→ltb len 2 (omega arith), read_fc_plain fc read, read)
      (check_frame-ready unit_id (fc ∷ a ∷ b ∷ c ∷ d ∷ []) rest len 8 (omega arith) le)

-- While fewer than eight bytes are there, of which the second in the array is the function code of
-- a read request (FC 01 to 04), the server waits for more.
pub parse_and_check-wait :
    (unit_id fc : ℕ) (rest : List ℕ) (len : ℕ)
    → is_read_fc fc ≡ true
    → len < 8
    → parse_and_check (unit_id ∷ fc ∷ rest) len ≡ done need_more
unfolding parse_and_check modbus_frame_len load check_frame
parse_and_check-wait unit_id fc rest len read lt = elim (Bool-cases (ltb len 4)) [
  | inl short ↦ rw short
  | inr e ↦ rw (e, le→ltb len 2 (ground arith), read_fc_plain fc read, read, lt→ltb len 8 lt)
]

-- When all bytes of the RTU frame of a read response (FC 01 to 04) are there, the client finds a
-- complete frame of the length that the byte count gives, whatever follows it.
pub resp_parse-response :
    (unit_id fc : ℕ) (bytes rest : List ℕ) (len : ℕ)
    → is_read_fc fc ≡ true
    → length bytes + 5 ≤ len
    → resp_parse (rtu_frame unit_id (read_resp_pdu fc bytes) ++ rest) len
      ≡ done (frame_ready (length bytes + 5))
unfolding resp_parse resp_frame_len load
resp_parse-response unit_id fc bytes rest len read le =
    let n : 3 + length bytes + 2 ≡ length bytes + 5 = omega arith in
    rw
      (
        le→ltb len 4 (omega arith),
        le→ltb len 2 (omega arith),
        read_fc_plain fc read,
        read,
        le→ltb len 3 (omega arith),
        n,
      )
      (check_frame-ready unit_id (read_resp_pdu fc bytes) rest len (length bytes + 5) (omega arith)
        le)

-- While fewer bytes are there than the RTU frame of a read response (FC 01 to 04) has, the client
-- waits for more.
pub resp_parse-wait :
    (unit_id fc n : ℕ) (rest : List ℕ) (len : ℕ)
    → is_read_fc fc ≡ true
    → len < n + 5
    → resp_parse (unit_id ∷ fc ∷ n ∷ rest) len ≡ done need_more
unfolding resp_parse resp_frame_len load check_frame
resp_parse-wait unit_id fc n rest len read lt = elim (Bool-cases (ltb len 4)) [
  | inl short ↦ rw short
  | inr e ↦
      let enough : 4 ≤ len = ground arith in
      rw (
        e,
        le→ltb len 2 (omega arith),
        read_fc_plain fc read,
        read,
        le→ltb len 3 (omega arith),
        lt→ltb len (3 + n + 2) (omega arith),
      )
]
