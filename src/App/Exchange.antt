-- ===== src/App/Exchange.antt =====
-- src/app/egw_modbus_slave.c and egw_modbus_master.c together: from the request on the line to the
-- done phase.
use service_data_gateway_edg.Prelude.{
  ℕ, suc, ◌+◌, ◌*◌, ◌/◌, ◌≤◌, ◌<◌, ◌≡◌, refl, ap, ◌∙◌, List, [], ◌∷◌, ◌++◌, some, ◌>>=◌, length,
  length-take, take, arith, All, joined,
}
use service_data_gateway_edg.Ptable.Rows.{Bsearch}
use service_data_gateway_edg.Transport.{Handle}
use service_data_gateway_edg.Transport.Io.{egw_transport_write}
use service_data_gateway_edg.Server.{ReadCb}
use service_data_gateway_edg.Server.Ring.{buf_used}
use service_data_gateway_edg.Server.Ring.Queue.{IsValid}
use service_data_gateway_edg.Server.Responses.{responded, response_bytes}
use service_data_gateway_edg.Server.Process.Fragments.{request}
use service_data_gateway_edg.Client.{Slot}
use service_data_gateway_edg.Client.Receive.Deliver.{Waits}
use service_data_gateway_edg.Client.Receive.Fragments.{answer}
use service_data_gateway_edg.Loopback.{length_response}
use service_data_gateway_edg.Persist.Thread.{Word16, ThreadOs}
use service_data_gateway_edg.App.{Shared, Ctx}
use service_data_gateway_edg.App.Tables.{SlaveRow}
use service_data_gateway_edg.App.Slave.{slave_callbacks}
use service_data_gateway_edg.App.Slave.Polls.{polls, Delivers, half_replied}
use service_data_gateway_edg.App.Slave.Answers.{CanAnswer, Listens, polls_answer}
use service_data_gateway_edg.App.Master.Polls.{master_polls, Completes}
use service_data_gateway_edg.App.Master.Completes.{HalfWay, other_half_written, loop-Completes}

module _ {W : Type 0} (m : Word16) (sys : ThreadOs W) (bsearch : Bsearch SlaveRow) (slot : Slot)
    (fc count : ℕ) (cb : ReadCb (Shared W)) (regs : List ℕ) where
  -- The answer to the slot's request.
  abbrev pub reply_frame : List ℕ
  reply_frame = answer slot fc (response_bytes fc regs count)

  -- The world after the first half of the answer was written.
  abbrev pub half_written : Ctx W → Shared W → W
  half_written c shared =
      (egw_transport_write sys.os c.srv_h (take (length reply_frame / 2) reply_frame) 0
        shared.world).2

  -- The exchange between the slave and the master ends, however the line cuts its bytes: a request
  -- of the master's slot for at most 125 registers (FC 03 or 04) arrives at a slave that can answer
  -- it, whose ring is valid and empty and is not gone round by the request, in non-empty pieces,
  -- one for each `read` with room for it; the answer arrives at the master, whose buffer has room
  -- for 255 bytes, in at least two such pieces, the first before the second half is written. After
  -- as many calls of `egw_lb_slave_on_poll` as the request has pieces, and then as many of
  -- `egw_lb_master_on_poll` as the answer has, the phase is done and the loop is stopped.
  pub exchange-Completes :
      (c : Ctx W) (p : ℕ) (srv cli : Handle) (srv_fd cli_fd : ℕ) (pieces : List (List ℕ))
      (first next : List ℕ) (more : List (List ℕ)) (w' w1 w2 : W) (shared' : Shared W)
      → CanAnswer m sys bsearch slot.unit_id fc slot.addr count cb regs srv_fd w' shared' c
      → Listens m sys bsearch slot.unit_id fc slot.addr count cb regs srv_fd w' shared' c srv
      → IsValid c.server
      → buf_used c.server ≡ 0
      → c.server.rd + 8 < c.server.buf_cap
      → joined pieces ≡ request (slave_callbacks m sys bsearch) slot.unit_id fc slot.addr count
      → All (λ l. 1 ≤ length l) pieces
      → Delivers m sys bsearch srv_fd c.shared.world pieces w'
      → Waits c.cli p slot fc
      → c.cli_h ≡ some cli
      → cli.fd ≡ some cli_fd
      → 255 ≤ c.cli.recv_cap
      → count ≤ 125
      → first ++ (next ++ joined more) ≡ reply_frame
      → 1 ≤ length first
      → 1 ≤ length next
      → All (λ l. 1 ≤ length l) more
      → Delivers m sys bsearch cli_fd (half_written c shared') (first ∷ []) w1
      → Delivers m sys bsearch cli_fd
          (other_half_written m sys bsearch c reply_frame w1)
          (next ∷ more)
          w2
      → Completes m sys bsearch (
          polls m sys bsearch (length pieces) c
          >>= master_polls m sys bsearch (suc (suc (length more))))
  exchange-Completes c p srv cli srv_fd cli_fd pieces first next more w' w1 w2 shared' can listens
        valid empty room whole some_bytes delivers waits cli_handle cli_open cap few parts
        some_first some_next others first_half second_half =
      let bytes : List ℕ = response_bytes fc regs count in
      let size : length bytes ≡ length (take count regs) * 2 =
        length_response fc count regs waits.registers in
      let (after, tail, answered, none_left, valid') =
        polls_answer m sys bsearch slot.unit_id fc slot.addr count cb regs srv_fd w' shared' c srv
          pieces can listens valid empty room whole some_bytes delivers in
      let half : Ctx W =
        half_replied m sys bsearch c (responded after reply_frame tail) shared' reply_frame in
      let half_way : HalfWay m sys bsearch half p slot fc bytes cli cli_fd = record {
        waits = waits;
        handle = cli_handle;
        open_fd = cli_open;
        pending = refl;
        slave = after;
        tail = tail;
        response = refl;
        empty = none_left;
        valid = valid';
        small = omega (arith, size, length-take count regs);
        even = omega (arith, size);
        room = omega (arith, size, length-take count regs);
      } in
      let (last, e, phase, stopped) =
        loop-Completes m sys bsearch half p slot fc bytes cli cli_fd first next more w1 w2 half_way
          parts some_first some_next others first_half second_half in
      (
        last,
        ap (λ r. r >>= master_polls m sys bsearch (suc (suc (length more)))) answered ∙ e,
        phase,
        stopped,
      )
