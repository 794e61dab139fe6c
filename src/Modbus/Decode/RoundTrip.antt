-- ===== src/Modbus/Decode/RoundTrip.antt =====
-- `egw_modbus_decode` on the ADUs that `egw_modbus_encode` builds.
use service_data_gateway_edg.Prelude.{
  ℕ, ◌+◌, ◌-◌, ◌/◌, ◌%◌, ◌≤◌, ◌<◌, ◌≡◌, refl, ap, ◌∙◌, sym, true, List, [], ◌∷◌, ◌++◌, some, done,
  fault, arith, length, take, drop, store, load, append_assoc, store-parts, slice-parts, load-parts,
  length-append, le→ltb, take-append-drop, length-take, ==_refl, store-fault,
}
use service_data_gateway_edg.Crc.{egw_crc_modbus_table}
use service_data_gateway_edg.Modbus.{
  Transport, rtu, tcp, be16, be16-eq, be16-bytes, high_byte, low_byte,
}
use service_data_gateway_edg.Modbus.Encode.Frames.{crc_tail, rtu_frame, tcp_frame, adu, adu_len}
use service_data_gateway_edg.Modbus.Decode.{Decoded, crc_matches, egw_modbus_decode}

-- A buffer with an RTU frame, bracketed for the reads from its end.
frame_parts :
    (unit_id : ℕ) (pdu rest : List ℕ)
    → rtu_frame unit_id pdu ++ rest ≡ (unit_id ∷ pdu) ++ (crc_tail (unit_id ∷ pdu) ++ rest)
frame_parts unit_id pdu rest = ap (λ l. unit_id ∷ l) (append_assoc pdu _ rest)

-- The CRC at the end of an RTU frame is found to match.
pub crc_matches-rtu_frame :
    (unit_id : ℕ) (pdu rest : List ℕ) (len : ℕ)
    → len ≡ length pdu + 3
    → crc_matches (rtu_frame unit_id pdu ++ rest) len ≡ done true
unfolding crc_matches
crc_matches-rtu_frame unit_id pdu rest len h =
    let body : List ℕ = unit_id ∷ pdu in
    let crc : ℕ = egw_crc_modbus_table body in
    let whole : be16 (crc / 256) (crc % 256) ≡ crc =
      omega (arith, be16-eq (crc / 256) (crc % 256) (omega arith)) in
    rw (frame_parts unit_id pdu rest) (
      rw (
        slice-parts 0 (len - 2) [] body (crc_tail body ++ rest) refl (omega arith),
        load-parts (len - 2) body (crc % 256) (crc / 256 ∷ rest) (omega arith),
        last_byte body crc rest len h,
        whole,
        ==_refl crc,
      ))
  where
    last_byte :
        (body : List ℕ) (crc : ℕ) (rest : List ℕ) (len : ℕ)
        → len ≡ length pdu + 3
        → load (unit_id ∷ (pdu ++ (crc % 256 ∷ crc / 256 ∷ rest))) (len - 2 + 1) ≡ done (crc / 256)
    last_byte body crc rest len h =
        rw (sym (append_assoc (unit_id ∷ pdu) (crc % 256 ∷ []) (crc / 256 ∷ rest))) (
          load-parts (len - 2 + 1) ((unit_id ∷ pdu) ++ (crc % 256 ∷ [])) (crc / 256) rest
            (omega (arith, length-append (unit_id ∷ pdu) (crc % 256 ∷ []))))

-- Copying a PDU into an array that is long enough.
store_front :
    (out pdu : List ℕ)
    → length pdu ≤ length out
    → store out 0 pdu ≡ done (pdu ++ drop (length pdu) out)
store_front out pdu h =
    ap (λ l. store l 0 pdu) (sym (take-append-drop (length pdu) out))
    ∙ store-parts 0 [] (take (length pdu) out) (drop (length pdu) out) pdu refl
        (omega (arith, length-take (length pdu) out))

abbrev pub decoded : ℕ → List ℕ → List ℕ → Decoded
decoded unit_id pdu out = record {
  unit_id = unit_id;
  pdu = pdu ++ drop (length pdu) out;
  pdu_len = length pdu;
}

decode-rtu_frame :
    (unit_id : ℕ) (pdu rest out : List ℕ) (len : ℕ)
    → len ≡ length pdu + 3
    → 1 ≤ length pdu
    → length pdu ≤ length out
    → egw_modbus_decode rtu (rtu_frame unit_id pdu ++ rest) len out
      ≡ done (some (decoded unit_id pdu out))
unfolding egw_modbus_decode load
decode-rtu_frame unit_id pdu rest out len h lo hi =
    let n : len - 3 ≡ length pdu = omega arith in
    rw (le→ltb len 4 (omega arith), crc_matches-rtu_frame unit_id pdu rest len h, n)
      (rw (frame_parts unit_id pdu rest) (
        rw (
          slice-parts 1 (length pdu) (unit_id ∷ []) pdu (crc_tail (unit_id ∷ pdu) ++ rest) refl
              refl,
          store_front out pdu hi,
        )))

decode-tcp_frame :
    (tid unit_id : ℕ) (pdu rest out : List ℕ) (len : ℕ)
    → len ≡ length pdu + 7
    → 1 ≤ length pdu
    → length pdu < 65535
    → length pdu ≤ length out
    → egw_modbus_decode tcp (tcp_frame tid unit_id pdu ++ rest) len out
      ≡ done (some (decoded unit_id pdu out))
unfolding egw_modbus_decode load
decode-tcp_frame tid unit_id pdu rest out len h lo small hi =
    let n : ℕ = (length pdu + 1) % 65536 in
    let m : be16 (high_byte n) (low_byte n) ≡ length pdu + 1 =
      omega (arith, be16-bytes n (omega arith)) in
    let k : length pdu + 1 - 1 ≡ length pdu = omega arith in
    rw
      (
        le→ltb len 8 (omega arith),
        m,
        le→ltb (length pdu + 1) 1 (omega arith),
        le→ltb len (length pdu + 1 + 6) (omega arith),
        k,
      )
      (rw (
        slice-parts 7 (length pdu)
            (high_byte tid ∷ low_byte tid ∷ 0 ∷ 0 ∷ high_byte n ∷ low_byte n ∷ unit_id ∷ []) pdu
            rest refl refl,
        store_front out pdu hi,
      ))

-- Decoding a frame gives back its unit and its PDU, in either transport and whatever follows the
-- frame in the buffer, for a PDU of at least one byte that fits the caller's array and the 16 bit
-- length field of TCP.
pub decode-adu :
    (t : Transport) (tid unit_id : ℕ) (pdu rest out : List ℕ)
    → 1 ≤ length pdu
    → length pdu < 65535
    → length pdu ≤ length out
    → egw_modbus_decode t (adu t tid unit_id pdu ++ rest) (adu_len t pdu) out
      ≡ done (some (decoded unit_id pdu out))
decode-adu rtu tid unit_id pdu rest out lo small hi =
    decode-rtu_frame unit_id pdu rest out (adu_len rtu pdu) (omega arith) lo hi
decode-adu tcp tid unit_id pdu rest out lo small hi =
    decode-tcp_frame tid unit_id pdu rest out (adu_len tcp pdu) (omega arith) lo small hi

-- An RTU frame with a valid CRC whose PDU is longer than the caller's array is copied past the end
-- of that array.
pub decode-rtu_frame_overflow :
    (unit_id : ℕ) (pdu rest out : List ℕ)
    → 1 ≤ length pdu
    → length out < length pdu
    → egw_modbus_decode rtu (rtu_frame unit_id pdu ++ rest) (adu_len rtu pdu) out ≡ fault
unfolding egw_modbus_decode load
decode-rtu_frame_overflow unit_id pdu rest out lo hi =
    let n : 1 + length pdu + 2 - 3 ≡ length pdu = omega arith in
    rw
      (
        le→ltb (1 + length pdu + 2) 4 (omega arith),
        crc_matches-rtu_frame unit_id pdu rest (1 + length pdu + 2) (omega arith),
        n,
      )
      (rw (frame_parts unit_id pdu rest) (
        rw (
          slice-parts 1 (length pdu) (unit_id ∷ []) pdu (crc_tail (unit_id ∷ pdu) ++ rest) refl
              refl,
          store-fault out 0 pdu (omega arith),
        )))
