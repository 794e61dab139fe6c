-- ===== src/Client/Receive/Fragments.antt =====
-- src/protocol/egw_modbus_client.c: a response that arrives in pieces, each read in place into what
-- `reserve` hands out and committed.
use service_data_gateway_edg.Prelude.{
  ℕ, ◌-◌, ◌+◌, ◌%◌, ◌≤◌, ◌≡◌, refl, ap, sym, ◌∙◌, true, false, List, [], ◌∷◌, ◌++◌, append_assoc,
  append-nil, some, Run, done, ◌>>=◌, store, store-parts, take-append-drop, drop-drop, length,
  length-append, length-take, length-drop, take, drop, arith, ne→==, le→ltb, All, joined,
}
use service_data_gateway_edg.Modbus.{is_read_fc}
use service_data_gateway_edg.Modbus.Pdu.{words}
use service_data_gateway_edg.Modbus.Pdu.RoundTrip.{read_resp_pdu}
use service_data_gateway_edg.Modbus.Encode.Frames.{crc_tail, rtu_frame}
use service_data_gateway_edg.Modbus.Frame.{need_more, frame_ready, resp_parse}
use service_data_gateway_edg.Modbus.Frame.Delimit.{resp_parse-response, resp_parse-wait}
use service_data_gateway_edg.Client.{Slot, Client, Result, received}
use service_data_gateway_edg.Client.Receive.{
  after_parse, client_handle_frame, handle_for, is_none, egw_modbus_client_reserve,
  egw_modbus_client_commit,
}
use service_data_gateway_edg.Client.Receive.Deliver.{
  Waits, delivered, filled, reads_of, handle_delivers,
}

-- A piece is read in place and committed, as `egw_lb_master_on_poll` does.
unfoldable pub receive : Client → List ℕ → Run (List Result × Client)
receive c bytes = do
  b ← store c.recv_buf (egw_modbus_client_reserve c).0 bytes
  egw_modbus_client_commit (record c { recv_buf = b }) (length bytes)

-- The pieces in turn, with the results of all of them.
unfoldable pub receive_all : Client → List (List ℕ) → Run (List Result × Client)
unfolding receive
receive_all c [] = done ([], c)
receive_all c (bytes ∷ more) = do
  (rs, c) ← receive c bytes
  (rs', c) ← receive_all c more
  done (rs ++ rs', c)

-- The next piece goes behind what is there.
store_next :
    (got buf bytes : List ℕ) (off : ℕ)
    → off ≡ length got
    → length got + length bytes ≤ length buf
    → store (got ++ drop (length got) buf) off bytes
      ≡ done ((got ++ bytes) ++ drop (length (got ++ bytes)) buf)
store_next got buf bytes off at_end room =
    let rest : List ℕ = drop (length got) buf in
    ap (λ l. store (got ++ l) off bytes) (sym (take-append-drop (length bytes) rest))
    ∙ store-parts off got (take (length bytes) rest) (drop (length bytes) rest) bytes at_end
        (omega (arith, length-take (length bytes) rest, length-drop (length got) buf))
    ∙ ap (λ l. done (got ++ (bytes ++ l)))
        (drop-drop (length got) (length bytes) (length (got ++ bytes)) buf
          (length-append got bytes))
    ∙ ap done (sym (append_assoc got bytes (drop (length (got ++ bytes)) buf)))

receive_next :
    (c : Client) (p : ℕ) (got bytes : List ℕ)
    → c.current ≡ some p
    → length c.recv_buf ≡ c.recv_cap
    → 1 ≤ length bytes
    → length got + length bytes ≤ c.recv_cap
    → receive (filled c got) bytes ≡ (
        resp_parse
          ((got ++ bytes) ++ drop (length (got ++ bytes)) c.recv_buf)
          (length (got ++ bytes))
        >>= (λ r. after_parse (filled c (got ++ bytes)) r))
unfolding receive egw_modbus_client_reserve egw_modbus_client_commit
receive_next c p got bytes pending sized some_bytes room =
    let current : is_none c.current ≡ false = ap is_none pending in
    let total : length got + length bytes ≡ length (got ++ bytes) = sym (length-append got bytes) in
    rw current (
      rw
        (
          store_next got c.recv_buf bytes (length got) refl (omega (arith)),
          ne→== (length bytes) 0 (omega arith),
          le→ltb c.recv_cap (length got + length bytes) room,
          total,
        )
        refl)

-- The room that is left.
pub reserve-filled :
    (c : Client) (p : ℕ) (got : List ℕ)
    → c.current ≡ some p
    → (egw_modbus_client_reserve (filled c got)).1 ≡ c.recv_cap - length got
unfolding egw_modbus_client_reserve
reserve-filled c p got pending =
    let current : is_none c.current ≡ false = ap is_none pending in rw current refl

-- The response of a slot's unit.
abbrev pub answer : Slot → ℕ → List ℕ → List ℕ
answer slot fc bytes = rtu_frame slot.unit_id (read_resp_pdu fc bytes)

pub length-answer :
    (slot : Slot) (fc : ℕ) (bytes : List ℕ) → length (answer slot fc bytes) ≡ length bytes + 5
length-answer slot fc bytes =
    omega (arith, length-append bytes (crc_tail (slot.unit_id ∷ read_resp_pdu fc bytes)))

-- A part of a response in front of other bytes, long enough to be looked into.
resp_parse-part :
    (slot : Slot) (fc : ℕ) (bytes got more junk : List ℕ)
    → is_read_fc fc ≡ true
    → got ++ more ≡ answer slot fc bytes
    → 1 ≤ length more
    → resp_parse (got ++ junk) (length got) ≡ done need_more
unfolding resp_parse
resp_parse-part slot fc bytes [] more junk read whole left = refl
resp_parse-part slot fc bytes (a ∷ []) more junk read whole left = refl
resp_parse-part slot fc bytes (a ∷ b ∷ []) more junk read whole left = refl
resp_parse-part slot fc bytes (a ∷ b ∷ n ∷ got) more junk read whole left =
    let head : a ∷ b ∷ n ∷ got ++ more
        ≡ slot.unit_id
          ∷ fc
          ∷ length bytes
          ∷ (bytes ++ crc_tail (slot.unit_id ∷ read_resp_pdu fc bytes)) =
      whole in
    let is_a : a ≡ slot.unit_id = cc in
    let is_b : b ≡ fc = cc in
    let is_n : n ≡ length bytes = cc in
    rw (is_a, is_b, is_n)
      (resp_parse-wait slot.unit_id fc (length bytes) (got ++ junk) (length (a ∷ b ∷ n ∷ got)) read
        (omega (arith, length-answer slot fc bytes, length-append got more, ap length whole)))

module _ (c : Client) (p : ℕ) (slot : Slot) (fc : ℕ) (bytes : List ℕ)
    (wait : Waits c p slot fc) where
  -- A piece that does not end the response.
  pub receive_part :
      (got piece more : List ℕ)
      → (got ++ piece) ++ more ≡ answer slot fc bytes
      → 1 ≤ length piece
      → 1 ≤ length more
      → length bytes + 5 ≤ c.recv_cap
      → receive (filled c got) piece ≡ done ([], filled c (got ++ piece))
  unfolding after_parse
  receive_part got piece more whole some_bytes left room =
      let size : length got + length piece + length more ≡ length bytes + 5 = omega (
        arith,
        length-answer slot fc bytes,
        length-append (got ++ piece) more,
        length-append got piece,
        ap length whole,
      ) in
      receive_next c p got piece wait.pending wait.sized some_bytes (omega arith)
      ∙ ap (λ r. r >>= (λ r. after_parse (filled c (got ++ piece)) r))
          (resp_parse-part slot fc bytes (got ++ piece) more
            (drop (length (got ++ piece)) c.recv_buf) (reads_of fc wait.registers) whole left)

  -- The piece that ends it.
  pub receive_last :
      (got piece : List ℕ)
      → got ++ piece ≡ answer slot fc bytes
      → 1 ≤ length piece
      → length bytes ≤ 251
      → length bytes % 2 ≡ 0
      → length bytes + 5 ≤ c.recv_cap
      → receive (filled c got) piece
        ≡ done
            (received slot.unit_id slot.addr (words bytes) ∷ [], delivered c (answer slot fc bytes))
  unfolding after_parse client_handle_frame
  receive_last got piece whole some_bytes small even room =
      let n : length (answer slot fc bytes) ≡ length bytes + 5 = length-answer slot fc bytes in
      receive_next c p got piece wait.pending wait.sized some_bytes
        (omega (arith, n, length-append got piece, ap length whole))
      ∙ ap
          (λ l.
            resp_parse (l ++ drop (length l) c.recv_buf) (length l)
            >>= (λ r. after_parse (filled c l) r))
          whole
      ∙ ap (λ r. r >>= (λ r. after_parse (filled c (answer slot fc bytes)) r)) (ready n)
      ∙ ap
          (λ (k : ℕ).
            handle_for (record (filled c (answer slot fc bytes)) { recv_len = k }) c.current)
          (sym n)
      ∙ ap (handle_for (filled c (answer slot fc bytes))) wait.pending
      ∙ handle_delivers (filled c (answer slot fc bytes)) p slot fc bytes
          (drop (length (answer slot fc bytes)) c.recv_buf) wait.rtu_master wait.live wait.asked
          wait.registers small even refl n
    where
      ready :
          length (answer slot fc bytes) ≡ length bytes + 5
          → resp_parse
              (answer slot fc bytes ++ drop (length (answer slot fc bytes)) c.recv_buf)
              (length (answer slot fc bytes))
            ≡ done (frame_ready (length bytes + 5))
      ready n =
          resp_parse-response slot.unit_id fc bytes
            (drop (length (answer slot fc bytes)) c.recv_buf) (length (answer slot fc bytes))
            (reads_of fc wait.registers) (omega (arith, n))

  cons_all :
      (c1 c2 c3 : Client) (piece : List ℕ) (more : List (List ℕ)) (rs : List Result)
      → receive c1 piece ≡ done ([], c2)
      → receive_all c2 more ≡ done (rs, c3)
      → receive_all c1 (piece ∷ more) ≡ done (rs, c3)
  unfolding receive_all
  cons_all c1 c2 c3 piece more rs first others = rw first (rw others refl)

  receive_rest :
      (got piece : List ℕ) (more : List (List ℕ))
      → got ++ (piece ++ joined more) ≡ answer slot fc bytes
      → 1 ≤ length piece
      → All (λ l. 1 ≤ length l) more
      → length bytes ≤ 251
      → length bytes % 2 ≡ 0
      → length bytes + 5 ≤ c.recv_cap
      → receive_all (filled c got) (piece ∷ more)
        ≡ done
            (received slot.unit_id slot.addr (words bytes) ∷ [], delivered c (answer slot fc bytes))
  unfolding receive_all
  receive_rest got piece [] whole some_bytes others small even room =
      rw
        (receive_last got piece (ap (λ l. got ++ l) (sym (append-nil piece)) ∙ whole) some_bytes
          small even room)
        refl
  receive_rest got piece (next ∷ more) whole some_bytes others small even room =
      cons_all (filled c got) (filled c (got ++ piece)) _ piece (next ∷ more) _
        (receive_part got piece (next ++ joined more)
          (append_assoc got piece (next ++ joined more) ∙ whole) some_bytes
          (omega (arith, length-append next (joined more), others.0)) room)
        (receive_rest (got ++ piece) next more
          (append_assoc got piece (next ++ joined more) ∙ whole) others.0 others.1 small even room)

-- However the response to a request for registers is cut into non-empty pieces, each read in place
-- into what `reserve` hands out and committed: an RTU master that waits for it, whose buffer it
-- fits, calls back exactly once, after the last piece, with the slot's unit and address and the
-- registers of the response, which has at most 251 data bytes and a whole number of registers.
pub fragments_deliver :
    (c : Client) (p : ℕ) (slot : Slot) (fc : ℕ) (bytes : List ℕ) (pieces : List (List ℕ))
    → Waits c p slot fc
    → joined pieces ≡ rtu_frame slot.unit_id (read_resp_pdu fc bytes)
    → All (λ l. 1 ≤ length l) pieces
    → length bytes ≤ 251
    → length bytes % 2 ≡ 0
    → length bytes + 5 ≤ c.recv_cap
    → receive_all c pieces
      ≡ done (
        received slot.unit_id slot.addr (words bytes) ∷ [],
        delivered c (rtu_frame slot.unit_id (read_resp_pdu fc bytes)),
      )
fragments_deliver c p slot fc bytes [] wait whole some_bytes small even room = absurd (cc)
fragments_deliver c p slot fc bytes (piece ∷ more) wait whole some_bytes small even room =
    ap (λ (k : ℕ). receive_all (record c { recv_len = k }) (piece ∷ more)) wait.nothing_yet
    ∙ receive_rest c p slot fc bytes wait [] piece more whole some_bytes.0 some_bytes.1 small even
        room
