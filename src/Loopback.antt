-- ===== src/Loopback.antt =====
-- src/protocol/egw_modbus_server.c and egw_modbus_client.c together: a master and a slave on one RTU
-- line, as run_modbus_loopback of src/app/egw_app.c joins them.
use service_data_gateway_edg.Prelude.{
  ℕ, ◌*◌, ◌≤◌, ◌<◌, ◌≡◌, ◌⊎◌, inl, inr, refl, false, ap, ap₂, ◌∙◌, List, [], ◌∷◌, some, Run, done,
  ◌>>=◌, arith, length, take, drop, All, All-take, length-take, take-append_length,
}
use service_data_gateway_edg.Defs.{ok}
use service_data_gateway_edg.Modbus.{rtu}
use service_data_gateway_edg.Modbus.Pdu.{words}
use service_data_gateway_edg.Modbus.Pdu.RoundTrip.{read_pdu}
use service_data_gateway_edg.Modbus.Encode.Frames.{rtu_frame, adu_len}
use service_data_gateway_edg.Server.{Server, ReadCb, Callbacks}
use service_data_gateway_edg.Server.Handlers.{raw_len}
use service_data_gateway_edg.Server.Responses.{
  responded, response_bytes, read_args, words-be_bytes, length-be_bytes,
}
use service_data_gateway_edg.Server.Ring.{buf_used, buf_free}
use service_data_gateway_edg.Server.Ring.Queue.{IsValid}
use service_data_gateway_edg.Server.Process.{egw_modbus_server_feed}
use service_data_gateway_edg.Server.Process.Feed.{feed_serves_read}
use service_data_gateway_edg.Server.Process.Serve.{Asks, answer_pdu}
use service_data_gateway_edg.Client.{Slot, Client, Result, received}
use service_data_gateway_edg.Client.Receive.{egw_modbus_client_feed}
use service_data_gateway_edg.Client.Receive.Deliver.{Waits, delivered, feed_delivers}

words_response :
    (fc count : ℕ) (regs : List ℕ)
    → (fc ≡ 3) ⊎ (fc ≡ 4)
    → All (λ r. r < 65536) regs
    → words (response_bytes fc regs count) ≡ take count regs
words_response fc count regs (inl e) h =
    rw e (words-be_bytes (take count regs) (All-take _ count regs h))
words_response fc count regs (inr e) h =
    rw e (words-be_bytes (take count regs) (All-take _ count regs h))

raw_len_registers : (fc count : ℕ) → (fc ≡ 3) ⊎ (fc ≡ 4) → raw_len fc count ≡ count * 2
unfolding raw_len
raw_len_registers fc count (inl e) = rw e refl
raw_len_registers fc count (inr e) = rw e refl

pub length_response :
    (fc count : ℕ) (regs : List ℕ)
    → (fc ≡ 3) ⊎ (fc ≡ 4)
    → length (response_bytes fc regs count) ≡ length (take count regs) * 2
length_response fc count regs (inl e) = rw e (length-be_bytes (take count regs))
length_response fc count regs (inr e) = rw e (length-be_bytes (take count regs))

-- What the master's callback gets when it is fed the frame that the slave left for sending.
unfoldable pub fed : {W : Type 0} → Client → Run (Server × W) → Run (List Result)
fed c r = do
  (s, w) ← r
  (results, c') ← egw_modbus_client_feed c (take s.resp_len s.resp_buf)
  done results

fed-responded :
    {W : Type 0} (c c' : Client) (s : Server) (frame tail : List ℕ) (w : W) (results : List Result)
    → egw_modbus_client_feed c frame ≡ done (results, c')
    → fed c (done (responded s frame tail, w)) ≡ done results
unfolding fed
fed-responded c c' s frame tail w results h =
    rw (take-append_length (length frame) frame tail refl, h) refl

-- The pending request of a master is the frame that its slot holds.
pub record Requests (slot : Slot) (fc count : ℕ) : Type 0 where
  pub frame : slot.buf ≡ rtu_frame slot.unit_id (read_pdu fc slot.addr count)
  pub frame_len : slot.len ≡ 8

module _ {W : Type 0} (cbs : Callbacks W) (s : Server) (c : Client) where
  -- A request for at most 125 registers (FC 03 or 04), as it stands in the slot that an RTU master
  -- waits for, is fed to an idle RTU slave with an empty, valid ring that serves the slot's unit
  -- and whose read callback succeeds; the response that the slave leaves for sending is fed to the
  -- master. Then the master calls back exactly once, with the unit and the address of the slot and
  -- the first `count` registers that the slave's callback wrote. Both sides have room for 255
  -- bytes, and the ring for 8.
  pub read_loopback :
      (p : ℕ) (slot : Slot) (fc count : ℕ) (cb : ReadCb W) (regs : List ℕ) (w w' : W)
      → s.transport ≡ rtu
      → s.sending ≡ false
      → IsValid s
      → buf_used s ≡ 0
      → 8 ≤ buf_free s
      → 255 ≤ s.resp_cap
      → 255 ≤ length s.resp_buf
      → Requests slot fc count
      → Asks s 0 slot.unit_id fc slot.addr count
      → cbs.read_cb ≡ some cb
      → cb (read_args cb slot.addr count slot.unit_id) w ≡ done (ok, regs, w')
      → length regs ≡ 256
      → All (λ r. r < 65536) regs
      → count ≤ 125
      → Waits c p slot fc
      → 255 ≤ c.recv_cap
      → fed c (egw_modbus_server_feed cbs s (take slot.len slot.buf) w)
        ≡ done (received slot.unit_id slot.addr (take count regs) ∷ [])
  read_loopback p slot fc count cb regs w w' rt idle v empty free cap_s buf_s q asks has called len
        words16 few wait cap_c =
      let bytes : List ℕ = response_bytes fc regs count in
      let answer : List ℕ = answer_pdu fc regs count in
      let fits : length bytes ≡ length (take count regs) * 2 =
        length_response fc count regs wait.registers in
      let size : adu_len rtu answer ≤ 255 = omega (arith, fits, length-take count regs) in
      let (after, served, _, _) =
        feed_serves_read cbs s slot.unit_id fc slot.addr count cb regs w w' rt idle v empty free
          asks has called len (omega (arith, raw_len_registers fc count wait.registers))
          (omega arith) (omega arith) in
      let feeds =
        feed_delivers c p slot fc bytes wait (omega (arith, fits, length-take count regs))
          (omega (arith, fits)) (omega (arith, fits, length-take count regs)) in
      ap₂ (λ b n. fed c (egw_modbus_server_feed cbs s (take n b) w)) q.frame q.frame_len
      ∙ ap (fed c) served
      ∙ fed-responded c (delivered c (rtu_frame slot.unit_id answer)) after
          (rtu_frame slot.unit_id answer) (drop (adu_len rtu answer) s.resp_buf) w'
          (received slot.unit_id slot.addr (take count regs) ∷ [])
          (feeds
            ∙ ap
                (λ ws. done (
                  received slot.unit_id slot.addr ws ∷ [],
                  delivered c (rtu_frame slot.unit_id answer),
                ))
                (words_response fc count regs wait.registers words16))
