-- ===== src/App/Master/Completes.antt =====
-- src/app/egw_modbus_master.c: the master fetches the second half of the response, and completes.
use service_data_gateway_edg.Prelude.{
  ℕ, suc, ◌+◌, ◌-◌, ◌/◌, ◌%◌, ◌≤◌, ◌≡◌, refl, ap, sym, ◌∙◌, true, false, List, [], ◌∷◌, ◌++◌, some,
  done, slice, slice-parts, length, length-take, length-drop, length-append, take, drop,
  take-append-drop, append_assoc, ne→==, ◌==◌, arith, All, joined,
}
use service_data_gateway_edg.Ptable.Rows.{Bsearch}
use service_data_gateway_edg.Transport.{Handle}
use service_data_gateway_edg.Transport.Io.{egw_transport_write}
use service_data_gateway_edg.Server.{Server, Callbacks}
use service_data_gateway_edg.Server.Ring.{buf_used}
use service_data_gateway_edg.Server.Ring.Queue.{IsValid, contents, length-contents}
use service_data_gateway_edg.Server.Responses.{responded}
use service_data_gateway_edg.Server.Process.{
  try_process, egw_modbus_server_get_response, egw_modbus_server_response_sent,
}
use service_data_gateway_edg.Client.{Client, Slot}
use service_data_gateway_edg.Client.Receive.Deliver.{Waits, filled}
use service_data_gateway_edg.Client.Receive.Fragments.{receive, receive_part, answer, length-answer}
use service_data_gateway_edg.Persist.Thread.{Word16, ThreadOs}
use service_data_gateway_edg.App.{Ctx}
use service_data_gateway_edg.App.Tables.{SlaveRow}
use service_data_gateway_edg.App.Slave.{slave_callbacks}
use service_data_gateway_edg.App.Slave.Polls.{Delivers}
use service_data_gateway_edg.App.Master.{second_half}
use service_data_gateway_edg.App.Master.Polls.{
  with_received, then_half, master_polls, Completes, Holds, on_piece, poll_more, received_nothing,
  polls_rest,
}

-- A server whose ring is empty has nothing more to do once its response was sent.
sent_idle :
    {W : Type 0} (cbs : Callbacks W) (s : Server) (w : W)
    → buf_used s ≡ 0
    → egw_modbus_server_response_sent cbs s w ≡ done (record s { resp_len = 0; sending = false }, w)
unfolding egw_modbus_server_response_sent try_process buf_used
sent_idle cbs s w empty = rw (ap (λ (n : ℕ). n == 0) empty) refl

module _ {W : Type 0} (m : Word16) (sys : ThreadOs W) (bsearch : Bsearch SlaveRow) where
  -- The world after the second half of a frame was written.
  abbrev pub other_half_written : Ctx W → List ℕ → W → W
  other_half_written c frame w =
      (egw_transport_write sys.os c.srv_h (drop (length frame / 2) frame) 0 w).2

  send_rest :
      (c : Ctx W) (s : Server) (frame tail : List ℕ)
      → c.seg_pending ≡ true
      → c.server ≡ responded s frame tail
      → buf_used s ≡ 0
      → 1 ≤ length frame
      → then_half m sys bsearch c
        ≡ done (record c {
          server = record (responded s frame tail) { resp_len = 0; sending = false };
          shared = record c.shared { world = other_half_written c frame c.shared.world };
          seg_pending = false;
        })
  unfolding then_half second_half egw_modbus_server_get_response buf_used
  send_rest c s frame tail pending server empty some_bytes =
      let k : ℕ = length frame / 2 in
      let back : slice (frame ++ tail) k (length frame - k) ≡ done (drop k frame) =
        ap (λ l. slice (l ++ tail) k (length frame - k)) (sym (take-append-drop k frame))
        ∙ ap (λ l. slice l k (length frame - k)) (append_assoc (take k frame) (drop k frame) tail)
        ∙ slice-parts k (length frame - k) (take k frame) (drop k frame) tail
            (omega (arith, length-take k frame)) (omega (arith, length-drop k frame)) in
      rw pending (
        ap
          (λ x.
            second_half m sys bsearch (egw_modbus_server_get_response x)
              (record c { seg_pending = false; server = x }))
          server
        ∙ rw (ne→== (length frame) 0 (omega arith)) (
            rw back (
              rw
                (sent_idle (slave_callbacks m sys bsearch) (responded s frame tail)
                  (record c.shared { world = other_half_written c frame c.shared.world }) empty)
                refl)))

  -- A master that waits for a response of which the slave has written the first half.
  pub record HalfWay (c : Ctx W) (p : ℕ) (slot : Slot) (fc : ℕ) (bytes : List ℕ) (h : Handle)
      (fd : ℕ) : Type 0 where
    pub waits : Waits c.cli p slot fc
    pub handle : c.cli_h ≡ some h
    pub open_fd : h.fd ≡ some fd
    pub pending : c.seg_pending ≡ true
    pub slave : Server
    pub tail : List ℕ
    pub response : c.server ≡ responded slave (answer slot fc bytes) tail
    pub empty : contents slave ≡ []
    pub valid : IsValid slave
    pub small : length bytes ≤ 251
    pub even : length bytes % 2 ≡ 0
    pub room : length bytes + 5 ≤ c.cli.recv_cap

  -- Where the master waits for registers and the slave, whose ring is empty, has written the first
  -- half of a response that the master's buffer has room for: if the line delivers the response in
  -- at least two non-empty pieces, one for each `read` with room for it, the first of them before
  -- the second half is written, then after as many calls of `egw_lb_master_on_poll` as there are
  -- pieces the phase is done and the loop is stopped.
  pub loop-Completes :
      (c : Ctx W) (p : ℕ) (slot : Slot) (fc : ℕ) (bytes : List ℕ) (h : Handle) (fd : ℕ)
      (first next : List ℕ) (more : List (List ℕ)) (w1 w' : W)
      → HalfWay c p slot fc bytes h fd
      → first ++ (next ++ joined more) ≡ answer slot fc bytes
      → 1 ≤ length first
      → 1 ≤ length next
      → All (λ l. 1 ≤ length l) more
      → Delivers m sys bsearch fd c.shared.world (first ∷ []) w1
      → Delivers m sys bsearch fd (other_half_written c (answer slot fc bytes) w1) (next ∷ more) w'
      → Completes m sys bsearch (master_polls m sys bsearch (suc (suc (length more))) c)
  loop-Completes c p slot fc bytes h fd first next more w1 w' half whole some_first some_next others
        (w2, reads, same) delivers =
      let frame : List ℕ = answer slot fc bytes in
      let cli : Client = filled c.cli [] in
      let nothing_yet : c.cli ≡ cli =
        ap (λ (k : ℕ). record c.cli { recv_len = k }) half.waits.nothing_yet in
      let holds : Holds m sys bsearch c.cli p slot fc bytes half.waits h fd w' c [] = record {
        handle = half.handle;
        open_fd = half.open_fd;
        part = nothing_yet;
      } in
      let size = length-answer slot fc bytes in
      let next_size = length-append next (joined more) in
      let all_size = length-append first (next ++ joined more) in
      let empty : buf_used half.slave ≡ 0 =
        sym (length-contents half.slave half.valid) ∙ ap length half.empty in
      let got : Ctx W = record c {
        cli = filled c.cli first;
        shared = record c.shared { world = w1 };
      } in
      let sent : Ctx W = record got {
        server = record (responded half.slave frame half.tail) { resp_len = 0; sending = false };
        shared = record c.shared { world = other_half_written c frame w1 };
        seg_pending = false;
      } in
      poll_more m sys bsearch (suc (length more)) c sent
        (on_piece m sys bsearch c.cli p slot fc bytes half.waits h fd w' c [] first w2 holds
            some_first (omega (arith, size, all_size, ap length whole, half.room)) reads
          ∙ ap (λ w. with_received m sys bsearch c first w) same
          ∙ received_nothing m sys bsearch c (filled c.cli first) first w1 (
              ap (λ x. receive x first) nothing_yet
              ∙ receive_part c.cli p slot fc bytes half.waits [] first (next ++ joined more) whole
                  some_first (omega (arith, next_size, some_next)) half.room)
          ∙ send_rest got half.slave frame half.tail half.pending half.response empty
              (omega (arith, size)))
        (polls_rest m sys bsearch c.cli p slot fc bytes half.waits h fd w' sent first next more
          (record { handle = half.handle; open_fd = half.open_fd; part = refl }) refl whole
          some_next others half.small half.even half.room delivers)
