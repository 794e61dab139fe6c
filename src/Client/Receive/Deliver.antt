-- ===== src/Client/Receive/Deliver.antt =====
-- src/protocol/egw_modbus_client.c: a response that the master is waiting for is delivered.
use service_data_gateway_edg.Prelude.{
  ℕ, ◌+◌, ◌-◌, ◌%◌, ◌≤◌, ◌≡◌, refl, ap, ◌∙◌, ◌⊎◌, inl, inr, true, false, List, [], ◌∷◌, ◌++◌, some,
  Run, done, load, store, length, length-append, length-replicate, replicate, drop, ◌==◌, arith,
  ne→==, ==_refl, le→ltb, le→leb, ◌≢◌,
}
use service_data_gateway_edg.Modbus.{max_pdu, Transport, rtu, is_read_fc}
use service_data_gateway_edg.Modbus.Pdu.{words, values, parse_read_pdu}
use service_data_gateway_edg.Modbus.Pdu.RoundTrip.{read_resp_pdu, parse_read_pdu-words}
use service_data_gateway_edg.Modbus.Encode.Frames.{crc_tail, rtu_frame, adu_len}
use service_data_gateway_edg.Modbus.Decode.{Decoded, egw_modbus_decode}
use service_data_gateway_edg.Modbus.Decode.RoundTrip.{decode-adu, decoded}
use service_data_gateway_edg.Modbus.Frame.{frame_ready, resp_parse}
use service_data_gateway_edg.Modbus.Frame.Delimit.{resp_parse-response}
use service_data_gateway_edg.Client.{Slot, Client, Result, received, failed}
use service_data_gateway_edg.Client.Receive.{
  funccode_off, judge, handle_for, client_handle_frame, after_parse, egw_modbus_client_feed,
  is_none,
}

-- An RTU master that has sent the request of slot `p` and has received nothing yet; the request
-- asks for registers (FC 03 or 04).
pub record Waits (c : Client) (p : ℕ) (slot : Slot) (fc : ℕ) : Type 0 where
  pub rtu_master : c.transport ≡ rtu
  pub pending : c.current ≡ some p
  pub live : c.heap p ≡ some slot
  pub nothing_yet : c.recv_len ≡ 0
  pub sized : length c.recv_buf ≡ c.recv_cap
  pub asked : load slot.buf 1 ≡ done fc
  pub registers : (fc ≡ 3) ⊎ (fc ≡ 4)

pub reads_of : (fc : ℕ) → (fc ≡ 3) ⊎ (fc ≡ 4) → is_read_fc fc ≡ true
reads_of fc (inl e) = rw e refl
reads_of fc (inr e) = rw e refl

-- What the master is left with after a frame.
abbrev pub delivered : Client → List ℕ → Client
delivered c frame = record c {
  recv_buf = frame ++ drop (length frame) c.recv_buf;
  recv_len = length frame;
  rx_count = (c.rx_count + 1) % 4294967296;
}

decode_response :
    (c : Client) (unit_id fc : ℕ) (bytes rest : List ℕ)
    → c.transport ≡ rtu
    → length bytes ≤ 251
    → c.recv_buf ≡ rtu_frame unit_id (read_resp_pdu fc bytes) ++ rest
    → c.recv_len ≡ length bytes + 5
    → egw_modbus_decode c.transport c.recv_buf c.recv_len (replicate max_pdu 0)
      ≡ done (some (decoded unit_id (read_resp_pdu fc bytes) (replicate max_pdu 0)))
decode_response c unit_id fc bytes rest t small buffer len =
    let n : length bytes + 5 ≡ adu_len rtu (read_resp_pdu fc bytes) = omega arith in
    rw (t, buffer, len ∙ n)
      (decode-adu rtu 0 unit_id (read_resp_pdu fc bytes) rest (replicate max_pdu 0) (omega arith)
        (omega arith) (omega (arith, length-replicate {A = ℕ} max_pdu 0)))

judge_values :
    (t : Transport) (slot : Slot) (d : Decoded) (fc : ℕ) (regs : List ℕ)
    → (d.unit_id == slot.unit_id) ≡ true
    → load slot.buf (funccode_off t) ≡ done fc
    → parse_read_pdu d.pdu d.pdu_len fc 128 ≡ done (values regs)
    → judge t slot (some d) ≡ done (received slot.unit_id slot.addr regs)
unfolding judge
judge_values t slot d fc regs same asked parsed = rw (same, asked) (rw parsed refl)

pub handle_delivers :
    (c : Client) (p : ℕ) (slot : Slot) (fc : ℕ) (bytes rest : List ℕ)
    → c.transport ≡ rtu
    → c.heap p ≡ some slot
    → load slot.buf 1 ≡ done fc
    → (fc ≡ 3) ⊎ (fc ≡ 4)
    → length bytes ≤ 251
    → length bytes % 2 ≡ 0
    → c.recv_buf ≡ rtu_frame slot.unit_id (read_resp_pdu fc bytes) ++ rest
    → c.recv_len ≡ length bytes + 5
    → handle_for c (some p)
      ≡ done (
        received slot.unit_id slot.addr (words bytes) ∷ [],
        record c { rx_count = (c.rx_count + 1) % 4294967296 },
      )
unfolding handle_for
handle_delivers c p slot fc bytes rest t live asked regs small even buffer len = rw (
  live,
  decode_response c slot.unit_id fc bytes rest t small buffer len,
  judge_values c.transport slot
      (decoded slot.unit_id (read_resp_pdu fc bytes) (replicate max_pdu 0)) fc (words bytes)
      (==_refl slot.unit_id) (rw t asked)
      (parse_read_pdu-words fc bytes (drop (length (read_resp_pdu fc bytes)) (replicate max_pdu 0))
        (length (read_resp_pdu fc bytes)) regs (omega arith) even (omega arith)),
)

store_front :
    (buf : List ℕ) (off : ℕ) (frame : List ℕ)
    → off ≡ 0
    → length frame ≤ length buf
    → store buf off frame ≡ done (frame ++ drop (length frame) buf)
unfolding store
store_front buf off frame e h =
    let n : off + length frame ≡ length frame = omega arith in
    rw (n, le→leb (length frame) (length buf) h, e) refl

-- The buffer after the first bytes that arrive for a request.
abbrev pub filled : Client → List ℕ → Client
filled c frame = record c {
  recv_buf = frame ++ drop (length frame) c.recv_buf;
  recv_len = length frame;
}

feed_frame :
    (c : Client) (p : ℕ) (frame : List ℕ) (out : Run (List Result × Client))
    → 1 ≤ length frame
    → length frame ≤ c.recv_cap
    → c.recv_len ≡ 0
    → length c.recv_buf ≡ c.recv_cap
    → c.current ≡ some p
    → resp_parse (frame ++ drop (length frame) c.recv_buf) (length frame)
      ≡ done (frame_ready (length frame))
    → handle_for (filled c frame) c.current ≡ out
    → egw_modbus_client_feed c frame ≡ out
unfolding egw_modbus_client_feed after_parse client_handle_frame
feed_frame c p frame out some_bytes fits nothing_yet sized pending ready handled =
    let total : c.recv_len + length frame ≡ length frame = omega arith in
    let current : is_none c.current ≡ false = ap is_none pending in
    rw
      (
        ne→== (length frame) 0 (omega arith),
        current,
        le→ltb (c.recv_cap - c.recv_len) (length frame) (omega arith),
        store_front c.recv_buf c.recv_len frame nothing_yet (omega arith),
      )
      (rw (total, ready) handled)

-- An RTU master that waits for registers (FC 03 or 04) and is fed, in one piece that fits its
-- buffer, a response from the slot's unit with a whole number of registers and at most 251 data
-- bytes, calls back exactly once, with the slot's unit and address and the registers of the
-- response.
pub feed_delivers :
    (c : Client) (p : ℕ) (slot : Slot) (fc : ℕ) (bytes : List ℕ)
    → Waits c p slot fc
    → length bytes ≤ 251
    → length bytes % 2 ≡ 0
    → length bytes + 5 ≤ c.recv_cap
    → egw_modbus_client_feed c (rtu_frame slot.unit_id (read_resp_pdu fc bytes))
      ≡ done (
        received slot.unit_id slot.addr (words bytes) ∷ [],
        delivered c (rtu_frame slot.unit_id (read_resp_pdu fc bytes)),
      )
unfolding egw_modbus_client_feed
feed_delivers c p slot fc bytes wait small even room =
    let frame : List ℕ = rtu_frame slot.unit_id (read_resp_pdu fc bytes) in
    let n : length frame ≡ length bytes + 5 =
      omega (arith, length-append bytes (crc_tail (slot.unit_id ∷ read_resp_pdu fc bytes))) in
    feed_frame c p frame _ (omega arith) (omega arith) wait.nothing_yet wait.sized wait.pending
      (rw n (
        resp_parse-response slot.unit_id fc bytes (drop (length frame) c.recv_buf)
          (length bytes + 5) (reads_of fc wait.registers) (omega arith)))
      (ap (handle_for (filled c frame)) wait.pending
        ∙ handle_delivers (filled c frame) p slot fc bytes (drop (length frame) c.recv_buf)
            wait.rtu_master wait.live wait.asked wait.registers small even refl n)

judge_refuses :
    (t : Transport) (slot : Slot) (d : Decoded)
    → (d.unit_id == slot.unit_id) ≡ false
    → judge t slot (some d) ≡ done (failed slot.unit_id slot.addr)
unfolding judge
judge_refuses t slot d other = rw other refl

handle_refuses :
    (c : Client) (p : ℕ) (slot : Slot) (unit_id fc : ℕ) (bytes rest : List ℕ)
    → c.transport ≡ rtu
    → c.heap p ≡ some slot
    → unit_id ≢ slot.unit_id
    → length bytes ≤ 251
    → c.recv_buf ≡ rtu_frame unit_id (read_resp_pdu fc bytes) ++ rest
    → c.recv_len ≡ length bytes + 5
    → handle_for c (some p)
      ≡ done (
        failed slot.unit_id slot.addr ∷ [],
        record c { rx_count = (c.rx_count + 1) % 4294967296 },
      )
unfolding handle_for
handle_refuses c p slot unit_id fc bytes rest t live other small buffer len = rw (
  live,
  decode_response c unit_id fc bytes rest t small buffer len,
  judge_refuses c.transport slot (decoded unit_id (read_resp_pdu fc bytes) (replicate max_pdu 0))
      (ne→== unit_id slot.unit_id other),
)

-- An RTU master that waits for registers (FC 03 or 04) and is fed, in one piece that fits its
-- buffer, a response with at most 251 data bytes from another unit than the slot's, calls back
-- exactly once, with the slot's unit and address and a failure.
pub feed_refuses_unit :
    (c : Client) (p : ℕ) (slot : Slot) (unit_id fc : ℕ) (bytes : List ℕ)
    → Waits c p slot fc
    → unit_id ≢ slot.unit_id
    → length bytes ≤ 251
    → length bytes + 5 ≤ c.recv_cap
    → egw_modbus_client_feed c (rtu_frame unit_id (read_resp_pdu fc bytes))
      ≡ done (
        failed slot.unit_id slot.addr ∷ [],
        delivered c (rtu_frame unit_id (read_resp_pdu fc bytes)),
      )
unfolding egw_modbus_client_feed
feed_refuses_unit c p slot unit_id fc bytes wait other small room =
    let frame : List ℕ = rtu_frame unit_id (read_resp_pdu fc bytes) in
    let n : length frame ≡ length bytes + 5 =
      omega (arith, length-append bytes (crc_tail (unit_id ∷ read_resp_pdu fc bytes))) in
    feed_frame c p frame _ (omega arith) (omega arith) wait.nothing_yet wait.sized wait.pending
      (rw n (
        resp_parse-response unit_id fc bytes (drop (length frame) c.recv_buf) (length bytes + 5)
          (reads_of fc wait.registers) (omega arith)))
      (ap (handle_for (filled c frame)) wait.pending
        ∙ handle_refuses (filled c frame) p slot unit_id fc bytes (drop (length frame) c.recv_buf)
            wait.rtu_master wait.live other small refl n)
