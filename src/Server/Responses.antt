-- ===== src/Server/Responses.antt =====
-- src/protocol/egw_modbus_server.c: the responses to read requests, and the exception responses.
use service_data_gateway_edg.Prelude.{
  ℕ, ◌+◌, ◌*◌, ◌/◌, ◌%◌, ◌≤◌, ◌<◌, ◌≡◌, ◌≢◌, inl, inr, refl, ap, ◌∙◌, sym, true, List, [], ◌∷◌,
  ◌++◌, map, ◌||◌, some, done, fault, arith, length, take, drop, slice, bit_or, ◌==◌, if◌then◌else◌,
  ne→==, Bool-cases, take-append-drop, slice-parts, All, length-map, length-take, length-append,
}
use service_data_gateway_edg.Defs.{ok}
use service_data_gateway_edg.Modbus.{Transport, rtu, tcp, be16-bytes}
use service_data_gateway_edg.Modbus.Pdu.{words}
use service_data_gateway_edg.Modbus.Pdu.RoundTrip.{
  read_resp_pdu, build_read_resp_pdu-fits, build_read_resp_pdu-overflow,
}
use service_data_gateway_edg.Modbus.Encode.Frames.{
  exception_pdu, crc_tail, adu, adu_len, encode-pdu, encode-exception,
}
use service_data_gateway_edg.Server.{Server, ReadArgs, ReadCb}
use service_data_gateway_edg.Server.Handlers.{
  regs_array, be_bytes, raw_bytes, raw_len, handle_read_request,
}
use service_data_gateway_edg.Server.Response.{
  took, send_exception, send_pdu, pdu_params, exception_params,
}
use service_data_gateway_edg.Server.Process.{pdu_array}

-- 16 bit registers that the server turns to big-endian bytes are turned back to the same registers
-- by the client.
pub words-be_bytes : (rs : List ℕ) → All (λ r. r < 65536) rs → words (be_bytes rs) ≡ rs
unfolding words be_bytes
words-be_bytes [] h = refl
words-be_bytes (r ∷ rs) h = rw (be16-bytes r h.0, words-be_bytes rs h.1)

pub length-be_bytes : (rs : List ℕ) → length (be_bytes rs) ≡ length rs * 2
unfolding be_bytes
length-be_bytes [] = refl
length-be_bytes (r ∷ rs) = omega (arith, length-be_bytes rs)

-- A server whose response is `frame`, ready to be sent; `tail` is old data behind it.
abbrev pub responded : Server → List ℕ → List ℕ → Server
responded s frame tail = record s {
  resp_buf = frame ++ tail;
  resp_len = length frame;
  sending = true;
}

took-some :
    (s : Server) (frame tail : List ℕ) (n : ℕ)
    → n ≡ length frame
    → n ≢ 0
    → took s (some (frame ++ tail, n)) ≡ responded s frame tail
unfolding took
took-some s frame tail n e h = rw (ne→== n 0 h, e)

pub length-adu :
    (t : Transport) (tid unit_id : ℕ) (pdu : List ℕ)
    → adu_len t pdu ≡ length (adu t tid unit_id pdu)
length-adu rtu tid unit_id pdu = omega (arith, length-append pdu (crc_tail (unit_id ∷ pdu)))
length-adu tcp tid unit_id pdu = omega arith

-- A PDU put into the response buffer.
pub send_pdu-adu :
    (s : Server) (tid unit_id : ℕ) (pdu more : List ℕ)
    → adu_len s.transport pdu ≤ s.resp_cap
    → adu_len s.transport pdu ≤ length s.resp_buf
    → send_pdu s tid unit_id (pdu ++ more) (length pdu)
      ≡ done (
          responded s (adu s.transport tid unit_id pdu) (drop (adu_len s.transport pdu) s.resp_buf))
unfolding send_pdu
send_pdu-adu s tid unit_id pdu more fits room =
    rw
      (encode-pdu true s.transport (pdu_params s tid unit_id (pdu ++ more) (length pdu)) pdu more
        refl refl refl (fits, room))
      (ap (λ r. done r)
        (took-some s (adu s.transport tid unit_id pdu) (drop (adu_len s.transport pdu) s.resp_buf)
          (adu_len s.transport pdu) (length-adu s.transport tid unit_id pdu) (nonzero s.transport)))
  where
    nonzero : (t : Transport) → adu_len t pdu ≢ 0
    nonzero rtu = omega arith
    nonzero tcp = omega arith

-- The data bytes of a read response: coils are taken from the low bytes of the registers that the
-- callback fills in, eight to a register.
abbrev pub response_bytes : ℕ → List ℕ → ℕ → List ℕ
response_bytes fc regs count =
    if fc == 0x01 || fc == 0x02
    then map (λ r. r % 256) (take ((count + 7) / 8) regs)
    else be_bytes (take count regs)

slice_front : (l : List ℕ) (n : ℕ) → n ≤ length l → slice l 0 n ≡ done (take n l)
slice_front l n h =
    ap (λ r. slice r 0 n) (sym (take-append-drop n l))
    ∙ slice-parts 0 n [] (take n l) (drop n l) refl (omega (arith, length-take n l))

raw_bytes-response :
    (fc : ℕ) (regs : List ℕ) (count : ℕ)
    → raw_len fc count ≤ 256
    → length regs ≡ 256
    → (raw_bytes fc regs count ≡ done (response_bytes fc regs count))
      × (length (response_bytes fc regs count) ≡ raw_len fc count)
unfolding raw_bytes raw_len
raw_bytes-response fc regs count small len = elim (Bool-cases (fc == 0x01 || fc == 0x02)) [
  | inl bits ↦
      let n : ℕ = (count + 7) / 8 in
      let fits : n ≤ 256 = rw bits at small in
      rw bits (
        rw (slice_front regs n (omega (arith, len))) refl,
        omega
            (arith, length-map {0, 0} (take n regs) (λ (r : ℕ). r % 256), length-take n regs, len),
      )
  | inr regs16 ↦
      let fits : count * 2 ≤ 256 = rw regs16 at small in
      rw regs16 (
        rw (slice_front regs count (omega (arith, len))) refl,
        omega (arith, length-be_bytes (take count regs), length-take count regs, len),
      )
]

module _ {W : Type 0} (cb : ReadCb W) where
  abbrev pub read_args : ℕ → ℕ → ℕ → ReadArgs
  read_args addr count unit_id = record {
    address = addr;
    quantity = count;
    regs_out = regs_array;
    unit_id = unit_id;
  }

  pub handle_read_request-fits :
      (fc addr count unit_id : ℕ) (w w' : W) (regs : List ℕ)
      → cb (read_args addr count unit_id) w ≡ done (ok, regs, w')
      → length regs ≡ 256
      → raw_len fc count ≤ 251
      → (rest : List ℕ) × (handle_read_request cb fc addr count unit_id pdu_array w
          ≡ done (
            2 + length (response_bytes fc regs count),
            read_resp_pdu fc (response_bytes fc regs count) ++ rest,
            w',
          ))
  unfolding handle_read_request
  handle_read_request-fits fc addr count unit_id w w' regs called len small =
      let bytes : List ℕ = response_bytes fc regs count in
      let (raw, n) = raw_bytes-response fc regs count (omega arith) len in
      (
        drop (2 + length bytes) pdu_array,
        rw (
          called,
          raw,
          ← n,
          build_read_resp_pdu-fits pdu_array bytes fc (omega (arith, n)) (omega (arith, n)),
        ),
      )

  pub handle_read_request-overflow :
      (fc addr count unit_id : ℕ) (w w' : W) (regs : List ℕ)
      → cb (read_args addr count unit_id) w ≡ done (ok, regs, w')
      → length regs ≡ 256
      → 251 < raw_len fc count
      → raw_len fc count < 256
      → handle_read_request cb fc addr count unit_id pdu_array w ≡ fault
  unfolding handle_read_request
  handle_read_request-overflow fc addr count unit_id w w' regs called len big small =
      let bytes : List ℕ = response_bytes fc regs count in
      let (raw, n) = raw_bytes-response fc regs count (omega arith) len in
      rw (
        called,
        raw,
        ← n,
        build_read_resp_pdu-overflow pdu_array bytes fc (omega (arith, n)) (omega arith)
            (omega (arith, n)),
      )

-- An exception response: two bytes, `fc | 0x80` and `exc`.
pub send_exception-adu :
    (s : Server) (unit_id fc exc tid : ℕ)
    → adu_len s.transport (exception_pdu fc (exc % 256)) ≤ s.resp_cap
    → adu_len s.transport (exception_pdu fc (exc % 256)) ≤ length s.resp_buf
    → send_exception s unit_id fc exc tid
      ≡ done (
          responded s
            (adu s.transport (tid % 65536) unit_id (exception_pdu fc (exc % 256)))
            (drop (adu_len s.transport (exception_pdu fc (exc % 256))) s.resp_buf))
unfolding send_exception
send_exception-adu s unit_id fc exc tid fits room =
    rw (encode-exception true s.transport (exception_params s unit_id fc exc tid) refl (fits, room))
      (ap (λ r. done r)
        (took-some s (adu s.transport (tid % 65536) unit_id pdu)
          (drop (adu_len s.transport pdu) s.resp_buf) (adu_len s.transport pdu)
          (length-adu s.transport (tid % 65536) unit_id pdu) (nonzero s.transport)))
  where
    pdu : List ℕ
    pdu = bit_or fc 0x80 % 256 ∷ exc % 256 ∷ []

    nonzero : (t : Transport) → adu_len t pdu ≢ 0
    nonzero rtu = omega arith
    nonzero tcp = omega arith
