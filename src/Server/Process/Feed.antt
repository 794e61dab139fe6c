-- ===== src/Server/Process/Feed.antt =====
-- src/protocol/egw_modbus_server.c: from the bytes that are fed to the server to the frame that it
-- handles.
use service_data_gateway_edg.Prelude.{
  ℕ, ◌+◌, ◌-◌, ◌%◌, ◌≤◌, ◌≡◌, refl, ap, sym, ◌∙◌, Bool, false, List, [], ◌∷◌, ◌++◌, some, done,
  ◌>>=◌, length, take, drop, replicate, ltb, le→ltb, ne→==, ◌==◌, if◌then◌else◌, arith, take_all,
  drop_all,
}
use service_data_gateway_edg.Defs.{ok}
use service_data_gateway_edg.Modbus.{rtu, high_byte, low_byte}
use service_data_gateway_edg.Modbus.Pdu.RoundTrip.{read_pdu}
use service_data_gateway_edg.Modbus.Encode.Frames.{rtu_frame, adu, adu_len}
use service_data_gateway_edg.Modbus.Frame.{frame_ready, parse_and_check}
use service_data_gateway_edg.Modbus.Frame.Delimit.{parse_and_check-request}
use service_data_gateway_edg.Server.{Server, ReadCb, Callbacks}
use service_data_gateway_edg.Server.Ring.{buf_used, buf_free, ring_copy}
use service_data_gateway_edg.Server.Ring.Queue.{
  IsValid, contents, length-contents, ring_copy-contents, consume-contents,
}
use service_data_gateway_edg.Server.Ring.Append.{Appended, ring_write-contents}
use service_data_gateway_edg.Server.Process.{
  after_parse, server_handle_frame, try_process, egw_modbus_server_feed,
}
use service_data_gateway_edg.Server.Process.Serve.{Asks, tid_of, answer_pdu, serves_read}
use service_data_gateway_edg.Server.Handlers.{raw_len}
use service_data_gateway_edg.Server.Responses.{responded, read_args}

pub if_false : {A : Type 0} (b : Bool) (x y : A) → b ≡ false → (if b then x else y) ≡ y
if_false b x y e = rw e refl

pub nil_of : (l : List ℕ) → length l ≡ 0 → l ≡ []
nil_of [] h = refl
nil_of (x ∷ l) h = absurd (omega arith)

-- The bytes of a frame with the rest of `tmp`.
abbrev pub in_tmp : List ℕ → List ℕ
in_tmp frame = frame ++ replicate (260 - length frame) 0

module _ {W : Type 0} (cbs : Callbacks W) where
  pub try_ready :
      (s : Server) (frame : List ℕ) (w : W)
      → s.sending ≡ false
      → IsValid s
      → contents s ≡ frame
      → 1 ≤ length frame
      → length frame ≤ 260
      → parse_and_check (in_tmp frame) (length frame) ≡ done (frame_ready (length frame))
      → try_process cbs s w
        ≡ server_handle_frame cbs
            (record s { rd = (s.rd + length frame) % s.buf_cap })
            (in_tmp frame)
            (length frame)
            w
  unfolding try_process after_parse
  try_ready s frame w idle v waits some_bytes short ready =
      let used : buf_used s ≡ length frame = sym (length-contents s v) ∙ ap length waits in
      let copied : ring_copy s.buf s.buf_cap s.rd (length frame) ≡ done frame =
        ring_copy-contents s (length frame) v (omega (arith, used))
        ∙ ap done (ap (take (length frame)) waits ∙ take_all (length frame) frame (omega arith)) in
      if_false s.sending _ _ idle
      ∙ rw (used, ne→== (length frame) 0 (omega arith), le→ltb 260 (length frame) short)
          (rw (copied, ready) refl)

  -- The server with a read request just taken from its ring.
  abbrev pub served : Server → Server
  served s = record s { rd = (s.rd + 8) % s.buf_cap }

  -- A read request that waits in the ring.
  pub process_serves_read :
      (s : Server) (unit_id fc addr count : ℕ) (cb : ReadCb W) (regs : List ℕ) (w w' : W)
      → s.transport ≡ rtu
      → s.sending ≡ false
      → IsValid s
      → contents s ≡ rtu_frame unit_id (read_pdu fc addr count)
      → Asks s 0 unit_id fc addr count
      → cbs.read_cb ≡ some cb
      → cb (read_args cb addr count unit_id) w ≡ done (ok, regs, w')
      → length regs ≡ 256
      → raw_len fc count ≤ 251
      → adu_len rtu (answer_pdu fc regs count) ≤ s.resp_cap
      → adu_len rtu (answer_pdu fc regs count) ≤ length s.resp_buf
      → (try_process cbs s w
          ≡ done (
            responded
                (served s)
                (rtu_frame unit_id (answer_pdu fc regs count))
                (drop (adu_len rtu (answer_pdu fc regs count)) s.resp_buf),
            w',
          ))
        × (contents (served s) ≡ [])
        × IsValid (served s)
  process_serves_read s unit_id fc addr count cb regs w w' rt idle v waits asks has called len small
        cap_s buf_s =
      let frame : List ℕ = rtu_frame unit_id (read_pdu fc addr count) in
      let used : buf_used s ≡ 8 = sym (length-contents s v) ∙ ap length waits in
      let ready : parse_and_check (in_tmp frame) 8 ≡ done (frame_ready 8) =
        parse_and_check-request unit_id fc (high_byte addr) (low_byte addr) (high_byte count)
          (low_byte count) (replicate 252 0) 8 asks.reads (omega arith) in
      let (rest, valid) = consume-contents s 8 v (omega (arith, used)) in
      let asks' : Asks (served s) 0 unit_id fc addr count = record {
        reads = asks.reads;
        tid_16 = asks.tid_16;
        addr_16 = asks.addr_16;
        count_16 = asks.count_16;
        not_broadcast = asks.not_broadcast;
        active = asks.active;
      } in
      let fits : adu_len s.transport (answer_pdu fc regs count) ≤ s.resp_cap = rw rt cap_s in
      let room : adu_len s.transport (answer_pdu fc regs count) ≤ length s.resp_buf = rw rt buf_s in
      (
        try_ready s frame w idle v waits (omega arith) (omega arith) ready
            ∙ ap
                (λ t.
                  server_handle_frame cbs (served s)
                    (adu t 0 unit_id (read_pdu fc addr count) ++ replicate 252 0)
                    (adu_len t (read_pdu 0 0 0)) w)
                (sym rt)
            ∙ serves_read cbs (served s) 0 unit_id fc addr count cb (replicate 252 0) regs w w'
                asks' has called len small fits room
            ∙ ap
                (λ t. done (
                  responded (served s) (adu t (tid_of t 0) unit_id (answer_pdu fc regs count))
                      (drop (adu_len t (answer_pdu fc regs count)) s.resp_buf),
                  w',
                ))
                rt,
        rest ∙ ap (drop 8) waits ∙ drop_all 8 frame (omega arith),
        valid,
      )

  feed_appends :
      (s : Server) (frame : List ℕ) (w : W) (a : Appended s frame)
      → 1 ≤ length frame
      → length frame ≤ buf_free s
      → egw_modbus_server_feed cbs s frame w
        ≡ try_process cbs (record s { buf = a.new_buf; wr = a.new_wr }) w
  unfolding egw_modbus_server_feed
  feed_appends s frame w a some_bytes free =
      if_false (length frame == 0) _ _ (ne→== (length frame) 0 (omega arith))
      ∙ if_false (ltb (buf_free s) (length frame)) _ _ (le→ltb (buf_free s) (length frame) free)
      ∙ ap (λ r. r >>= (λ x. try_process cbs x w)) a.returns

  -- An idle RTU server with an empty, valid ring that has room for eight bytes, fed with a read
  -- request (FC 01 to 04) from a unit that it serves, whose callback succeeds and whose answer has
  -- at most 251 data bytes and fits the response buffer, leaves the answer's frame for sending; its
  -- ring is valid and empty again.
  pub feed_serves_read :
      (s : Server) (unit_id fc addr count : ℕ) (cb : ReadCb W) (regs : List ℕ) (w w' : W)
      → s.transport ≡ rtu
      → s.sending ≡ false
      → IsValid s
      → buf_used s ≡ 0
      → 8 ≤ buf_free s
      → Asks s 0 unit_id fc addr count
      → cbs.read_cb ≡ some cb
      → cb (read_args cb addr count unit_id) w ≡ done (ok, regs, w')
      → length regs ≡ 256
      → raw_len fc count ≤ 251
      → adu_len rtu (answer_pdu fc regs count) ≤ s.resp_cap
      → adu_len rtu (answer_pdu fc regs count) ≤ length s.resp_buf
      → (after : Server) × (egw_modbus_server_feed cbs s
            (rtu_frame unit_id (read_pdu fc addr count))
            w
          ≡ done (
            responded after
                (rtu_frame unit_id (answer_pdu fc regs count))
                (drop (adu_len rtu (answer_pdu fc regs count)) s.resp_buf),
            w',
          ))
        × (contents after ≡ [])
        × IsValid after
  feed_serves_read s unit_id fc addr count cb regs w w' rt idle v empty free asks has called len
        small cap_s buf_s =
      let frame : List ℕ = rtu_frame unit_id (read_pdu fc addr count) in
      let a : Appended s frame = ring_write-contents s frame v free in
      let stored : Server = record s { buf = a.new_buf; wr = a.new_wr } in
      let waits : contents stored ≡ frame =
        a.waits ∙ ap (λ l. l ++ frame) (nil_of (contents s) (length-contents s v ∙ empty)) in
      let asks' : Asks stored 0 unit_id fc addr count = record {
        reads = asks.reads;
        tid_16 = asks.tid_16;
        addr_16 = asks.addr_16;
        count_16 = asks.count_16;
        not_broadcast = asks.not_broadcast;
        active = asks.active;
      } in
      let (answers, none_left, valid) =
        process_serves_read stored unit_id fc addr count cb regs w w' rt idle a.valid waits asks'
          has called len small cap_s buf_s in
      (served stored, feed_appends s frame w a (omega arith) free ∙ answers, none_left, valid)
