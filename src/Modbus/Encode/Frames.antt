-- ===== src/Modbus/Encode/Frames.antt =====
-- What `egw_modbus_encode` leaves in the buffer: the ADU of the Modbus specification.
pub mod Multiple
use service_data_gateway_edg.Modbus.Pdu.RoundTrip.{read_pdu}
use service_data_gateway_edg.Prelude.{
  ℕ, ◌+◌, ◌-◌, ◌/◌, ◌%◌, ◌≤◌, ◌≡◌, refl, ap, ◌∙◌, sym, Bool, true, false, List, [], ◌∷◌, ◌++◌,
  Option, none, some, done, ◌>>=◌, arith, length, drop, replicate, store, append_assoc, append-nil,
  store-parts, slice-parts, replicate-add, length-replicate, ne→==, bit_or, le→ltb, le→leb,
}
use service_data_gateway_edg.Crc.{egw_crc_modbus_table}
use service_data_gateway_edg.Modbus.{
  Transport, rtu, tcp, EncodeParams, high_byte, low_byte, from_params, encode_pdu, encode_exception,
  is_read_fc,
}
use service_data_gateway_edg.Modbus.Encode.{
  pdu_off, crc_len, alloc_buf, fill, finish, finish_written, write_pdu, egw_modbus_encode,
}

-- The two bytes that close an RTU frame.
abbrev pub crc_tail : List ℕ → List ℕ
crc_tail body = egw_crc_modbus_table body % 256 ∷ egw_crc_modbus_table body / 256 ∷ []

-- An RTU frame: the unit, the PDU and their CRC, low byte first.
abbrev pub rtu_frame : ℕ → List ℕ → List ℕ
rtu_frame unit_id pdu = unit_id ∷ (pdu ++ crc_tail (unit_id ∷ pdu))

-- A TCP frame: the MBAP header and the PDU.
abbrev pub tcp_frame : ℕ → ℕ → List ℕ → List ℕ
tcp_frame tid unit_id pdu =
    let n = (length pdu + 1) % 65536 in
    high_byte tid ∷ low_byte tid ∷ 0 ∷ 0 ∷ high_byte n ∷ low_byte n ∷ unit_id ∷ pdu

abbrev mbap : ℕ → ℕ → ℕ → List ℕ
mbap tid unit_id len =
    let n = (len + 1) % 65536 in
    high_byte tid ∷ low_byte tid ∷ 0 ∷ 0 ∷ high_byte n ∷ low_byte n ∷ unit_id ∷ []

abbrev pub adu : Transport → ℕ → ℕ → List ℕ → List ℕ
adu rtu tid unit_id pdu = rtu_frame unit_id pdu
adu tcp tid unit_id pdu = tcp_frame tid unit_id pdu

-- The PDU of an exception response.
abbrev pub exception_pdu : ℕ → ℕ → List ℕ
exception_pdu fc exc = bit_or fc 0x80 % 256 ∷ exc ∷ []

-- The buffer has room for `n` bytes: the allocation succeeds, or the caller's array is long enough.
abbrev pub HasRoom : Bool → Option (List ℕ) → ℕ → ℕ → Type 0
HasRoom calloc_ok none size n = calloc_ok ≡ true
HasRoom calloc_ok (some b) size n = (n ≤ size) × (n ≤ length b)

-- What stays in the array behind the frame.
abbrev pub tail_after : Option (List ℕ) → ℕ → List ℕ
tail_after none n = []
tail_after (some b) n = drop n b

alloc_buf-HasRoom :
    (ok : Bool) (buf : Option (List ℕ)) (size n : ℕ)
    → HasRoom ok buf size n
    → alloc_buf ok buf size n ≡ done (some (replicate n 0 ++ tail_after buf n))
unfolding alloc_buf store
alloc_buf-HasRoom true none size n h = ap (λ l. done (some l)) (sym (append-nil _))
alloc_buf-HasRoom false none size n h = cc
alloc_buf-HasRoom ok (some b) size n h =
    let z : 0 + n ≡ n = omega arith in
    rw (le→ltb size n h.0, length-replicate {A = ℕ} n 0, z, le→leb n (length b) h.1)

zeros-split :
    (off n c : ℕ) (pdu rest : List ℕ)
    → n ≡ off + length pdu + c
    → replicate n 0 ++ rest
      ≡ replicate off 0 ++ (replicate (length pdu) 0 ++ (replicate c 0 ++ rest))
zeros-split off n c pdu rest h = rw (
  replicate-add {A = ℕ} n off (length pdu + c) 0 (omega arith),
  replicate-add {A = ℕ} (length pdu + c) (length pdu) c 0 refl,
  append_assoc,
  append_assoc,
)

fill-done :
    (ok : Bool) (buf : Option (List ℕ)) (size off n c : ℕ) (pdu : List ℕ)
    → HasRoom ok buf size n
    → n ≡ off + length pdu + c
    → fill (alloc_buf ok buf size n) n off (done pdu)
      ≡ done (some (replicate off 0 ++ (pdu ++ (replicate c 0 ++ tail_after buf n)), n))
unfolding fill
fill-done ok buf size off n c pdu room h = rw (alloc_buf-HasRoom ok buf size n room) (
    rw (
      zeros-split off n c pdu (tail_after buf n) h,
      store-parts off (replicate off 0) (replicate (length pdu) 0)
          (replicate c 0 ++ tail_after buf n) pdu (sym (length-replicate {A = ℕ} off 0))
          (sym (length-replicate {A = ℕ} (length pdu) 0)),
    ))

finish-rtu :
    (p : EncodeParams) (pdu rest : List ℕ) (x y n : ℕ)
    → n ≡ length pdu + 3
    → finish rtu p (0 ∷ (pdu ++ (x ∷ y ∷ rest)), n)
      ≡ done (some (rtu_frame p.unit_id pdu ++ rest, n))
unfolding finish
finish-rtu p pdu rest x y n h =
    let u : ℕ = p.unit_id in
    rw (
      store-parts 0 [] (0 ∷ []) (pdu ++ (x ∷ y ∷ rest)) (u ∷ []) refl refl,
      slice-parts 0 (n - 2) [] (u ∷ pdu) (x ∷ y ∷ rest) refl (omega arith),
      store-parts (n - 2) (u ∷ pdu) (x ∷ y ∷ []) rest (crc_tail (u ∷ pdu)) (omega arith) refl,
      append_assoc,
    )

finish-tcp :
    (p : EncodeParams) (pdu rest : List ℕ) (n : ℕ)
    → n ≡ length pdu + 7
    → finish tcp p (replicate 7 0 ++ (pdu ++ rest), n)
      ≡ done (some (tcp_frame p.tid p.unit_id pdu ++ rest, n))
unfolding finish
finish-tcp p pdu rest n h =
    let len_eq : n - 6 ≡ length pdu + 1 = omega arith in
    rw len_eq (
      rw (
        store-parts 0 [] (replicate 7 0) (pdu ++ rest) (mbap p.tid p.unit_id (length pdu)) refl
          refl))

-- `finish_written` on a buffer that `fill` has written.
finish-adu :
    (t : Transport) (p : EncodeParams) (pdu rest : List ℕ) (n : ℕ)
    → n ≡ pdu_off t + length pdu + crc_len t
    → finish_written t p
        (some (replicate (pdu_off t) 0 ++ (pdu ++ (replicate (crc_len t) 0 ++ rest)), n))
      ≡ done (some (adu t p.tid p.unit_id pdu ++ rest, n))
unfolding finish_written
finish-adu rtu p pdu rest n h =
    rw (ne→== n 0 (omega arith)) (finish-rtu p pdu rest 0 0 n (omega arith))
finish-adu tcp p pdu rest n h = rw (ne→== n 0 (omega arith)) (finish-tcp p pdu rest n (omega arith))

-- The whole of `egw_modbus_encode` for a branch of `write_pdu` that sizes the buffer as its PDU
-- needs.
fill-adu :
    (calloc_ok : Bool) (t : Transport) (p : EncodeParams) (pdu : List ℕ) (n : ℕ)
    → n ≡ pdu_off t + length pdu + crc_len t
    → HasRoom calloc_ok p.buf p.cap n
    → (fill (alloc_buf calloc_ok p.buf p.cap n) n (pdu_off t) (done pdu) >>= finish_written t p)
      ≡ done (some (adu t p.tid p.unit_id pdu ++ tail_after p.buf n, n))
fill-adu ok t p pdu n h room =
    rw (fill-done ok p.buf p.cap (pdu_off t) n (crc_len t) pdu room h)
      (finish-adu t p pdu (tail_after p.buf n) n h)

abbrev pub adu_len : Transport → List ℕ → ℕ
adu_len t pdu = pdu_off t + length pdu + crc_len t

-- Encoding a ready-made PDU (EGW_ENCODE_PDU), where the buffer has room, gives its frame in either
-- transport, with its length, and leaves what is behind it in the array.
pub encode-pdu :
    (ok : Bool) (t : Transport) (p : EncodeParams) (pdu more : List ℕ)
    → p.type ≡ encode_pdu
    → p.pdu ≡ pdu ++ more
    → p.pdu_len ≡ length pdu
    → HasRoom ok p.buf p.cap (adu_len t pdu)
    → egw_modbus_encode ok t p
      ≡ done (some (adu t p.tid p.unit_id pdu ++ tail_after p.buf (adu_len t pdu), adu_len t pdu))
unfolding egw_modbus_encode
encode-pdu ok t p pdu more mode src len room =
    ap (λ w. w >>= finish_written t p) wrote ∙ fill-adu ok t p pdu (adu_len t pdu) refl room
  where
    wrote :
        write_pdu ok t p
        ≡ fill (alloc_buf ok p.buf p.cap (adu_len t pdu)) (adu_len t pdu) (pdu_off t) (done pdu)
    wrote = rw (mode, len, src, slice-parts 0 (length pdu) [] pdu more refl refl)

-- Encoding an exception (EGW_ENCODE_EXCEPTION), where the buffer has room, gives the frame of the
-- function code with its high bit set and the exception code, in either transport, with its length,
-- and leaves what is behind it in the array.
pub encode-exception :
    (ok : Bool) (t : Transport) (p : EncodeParams)
    → p.type ≡ encode_exception
    → HasRoom ok p.buf p.cap (adu_len t (exception_pdu p.funccode p.exc_code))
    → egw_modbus_encode ok t p
      ≡ done (
          some (
            adu t p.tid p.unit_id (exception_pdu p.funccode p.exc_code)
                ++ tail_after p.buf (adu_len t (exception_pdu p.funccode p.exc_code)),
            adu_len t (exception_pdu p.funccode p.exc_code),
          ))
unfolding egw_modbus_encode
encode-exception ok t p mode room =
    ap (λ w. w >>= finish_written t p) wrote ∙ fill-adu ok t p pdu (adu_len t pdu) refl room
  where
    pdu : List ℕ
    pdu = bit_or p.funccode 0x80 % 256 ∷ p.exc_code ∷ []

    wrote :
        write_pdu ok t p
        ≡ fill (alloc_buf ok p.buf p.cap (adu_len t pdu)) (adu_len t pdu) (pdu_off t) (done pdu)
    wrote = rw mode

-- Encoding the parameters of a read request (FC 01 to 04), where the buffer has room, gives the
-- frame of the request's PDU in either transport, with its length, and leaves what is behind it in
-- the array.
pub encode-read :
    (ok : Bool) (t : Transport) (p : EncodeParams)
    → p.type ≡ from_params
    → is_read_fc p.funccode ≡ true
    → HasRoom ok p.buf p.cap (adu_len t (read_pdu p.funccode p.addr p.count))
    → egw_modbus_encode ok t p
      ≡ done (
          some (
            adu t p.tid p.unit_id (read_pdu p.funccode p.addr p.count)
                ++ tail_after p.buf (adu_len t (read_pdu p.funccode p.addr p.count)),
            adu_len t (read_pdu p.funccode p.addr p.count),
          ))
unfolding egw_modbus_encode
encode-read ok t p mode fc room =
    ap (λ w. w >>= finish_written t p) wrote ∙ fill-adu ok t p pdu (adu_len t pdu) refl room
  where
    pdu : List ℕ
    pdu =
        p.funccode ∷ high_byte p.addr ∷ low_byte p.addr ∷ high_byte p.count ∷ low_byte p.count ∷ []

    wrote :
        write_pdu ok t p
        ≡ fill (alloc_buf ok p.buf p.cap (adu_len t pdu)) (adu_len t pdu) (pdu_off t) (done pdu)
    wrote = rw (mode, fc)
