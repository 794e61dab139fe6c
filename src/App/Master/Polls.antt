-- ===== src/App/Master/Polls.antt =====
-- src/app/egw_modbus_master.c: a response that arrives in pieces, one for each call of
-- `egw_lb_master_on_poll`.
use service_data_gateway_edg.Prelude.{
  ℕ, zero, suc, ◌+◌, ◌-◌, ◌%◌, ◌≤◌, ◌≡◌, refl, ap, sym, ◌∙◌, ◌||◌, true, false, not, List, [], ◌∷◌,
  ◌++◌, some, Run, done, fault, ◌>>=◌, store, length, length-append, append_assoc, append-nil,
  ne→==, ◌==◌, if◌then◌else◌, arith, All, joined,
}
use service_data_gateway_edg.Defs.{ok}
use service_data_gateway_edg.Modbus.Pdu.{words}
use service_data_gateway_edg.Ptable.Rows.{Bsearch}
use service_data_gateway_edg.Transport.{moved, Handle}
use service_data_gateway_edg.Transport.Io.{egw_transport_read}
use service_data_gateway_edg.Transport.Io.Reads.{transport_read-moved}
use service_data_gateway_edg.Server.Process.{egw_modbus_server_get_response}
use service_data_gateway_edg.Server.Process.Feed.{if_false}
use service_data_gateway_edg.Client.{Client, Slot, received}
use service_data_gateway_edg.Client.Receive.{egw_modbus_client_reserve}
use service_data_gateway_edg.Client.Receive.Deliver.{Waits, filled, delivered}
use service_data_gateway_edg.Client.Receive.Fragments.{
  receive, receive_part, receive_last, answer, length-answer, reserve-filled,
}
use service_data_gateway_edg.Persist.Thread.{Word16, ThreadOs}
use service_data_gateway_edg.App.{phase_done, Ctx}
use service_data_gateway_edg.App.Tables.{SlaveRow}
use service_data_gateway_edg.App.Slave.Polls.{Delivers}
use service_data_gateway_edg.App.Master.{
  call_back, master_done_cb, second_half, master_got, egw_lb_master_on_poll,
}

module _ {W : Type 0} (m : Word16) (sys : ThreadOs W) (bsearch : Bsearch SlaveRow) where
  -- What follows the commit.
  unfoldable pub then_half : Ctx W → Run (Ctx W)
  then_half c =
      if not c.seg_pending
      then done c
      else second_half m sys bsearch (egw_modbus_server_get_response c.server)
          (record c { seg_pending = false })

  -- What a call does with the bytes that it reads.
  unfoldable pub with_received : Ctx W → List ℕ → W → Run (Ctx W)
  unfolding then_half
  with_received c piece w = do
    (results, cli) ← receive c.cli piece
    then_half (call_back results (record c { cli = cli; shared = record c.shared { world = w } }))

  got_piece :
      (c : Ctx W) (b : ℕ) (bs : List ℕ) (w : W) (r : Run (List ℕ))
      → store c.cli.recv_buf (egw_modbus_client_reserve c.cli).0 (b ∷ bs) ≡ r
      → ((r >>= (λ buf. done (ok, length (b ∷ bs), buf, w))) >>= master_got m sys bsearch c)
        ≡ with_received c (b ∷ bs) w
  unfolding with_received receive master_got then_half
  got_piece c b bs w (done buf) e = rw (ne→== (length (b ∷ bs)) 0 (omega arith), e) refl
  got_piece c b bs w fault e = rw e refl

  -- A call for which `read` delivers bytes receives them, and sends the second half if it is pending.
  pub master_on_poll-reads :
      (c : Ctx W) (h : Handle) (fd : ℕ) (b : ℕ) (bs : List ℕ) (w : W)
      → c.cli_h ≡ some h
      → h.fd ≡ some fd
      → 1 ≤ (egw_modbus_client_reserve c.cli).1
      → sys.os.read_fd fd (egw_modbus_client_reserve c.cli).1 c.shared.world ≡ (moved (b ∷ bs), w)
      → egw_lb_master_on_poll m sys bsearch true c ≡ with_received c (b ∷ bs) w
  unfolding egw_lb_master_on_poll
  master_on_poll-reads c h fd b bs w handle open_fd room reads =
      let (place, avail) = egw_modbus_client_reserve c.cli in
      if_false (not true || avail == 0) _ _ (ne→== avail 0 (omega arith))
      ∙ ap
          (λ x.
            egw_transport_read sys.os x c.cli.recv_buf place 0 avail c.shared.world
            >>= master_got m sys bsearch c)
          handle
      ∙ ap (λ r. r >>= master_got m sys bsearch c)
          (transport_read-moved sys.os h fd b bs c.cli.recv_buf place 0 avail c.shared.world w
            open_fd room reads)
      ∙ got_piece c b bs w (store c.cli.recv_buf place (b ∷ bs)) refl

  -- `n` calls.
  unfoldable pub master_polls : ℕ → Ctx W → Run (Ctx W)
  master_polls zero c = done c
  master_polls (suc n) c = egw_lb_master_on_poll m sys bsearch true c >>= master_polls n

  -- The master's callback was called with the response: the loop stops, done.
  abbrev pub Completes : Run (Ctx W) → Type 0
  Completes out = (c : Ctx W) × (out ≡ done c) × (c.phase ≡ phase_done) × (c.stopped ≡ true)

  poll_last :
      (c c2 : Ctx W)
      → egw_lb_master_on_poll m sys bsearch true c ≡ done c2
      → c2.phase ≡ phase_done
      → c2.stopped ≡ true
      → Completes (master_polls 1 c)
  unfolding master_polls
  poll_last c c2 e phase stopped = (c2, ap (λ r. r >>= master_polls 0) e, phase, stopped)

  pub poll_more :
      (n : ℕ) (c c2 : Ctx W)
      → egw_lb_master_on_poll m sys bsearch true c ≡ done c2
      → Completes (master_polls n c2)
      → Completes (master_polls (suc n) c)
  unfolding master_polls
  poll_more n c c2 e (c3, e3, phase, stopped) =
      (c3, ap (λ r. r >>= master_polls n) e ∙ e3, phase, stopped)

  pub received_nothing :
      (c : Ctx W) (cli : Client) (piece : List ℕ) (w : W)
      → receive c.cli piece ≡ done ([], cli)
      → with_received c piece w
        ≡ then_half (record c { cli = cli; shared = record c.shared { world = w } })
  unfolding with_received call_back
  received_nothing c cli piece w e =
      ap
        (λ r. r >>= (λ (results, cli).
          then_half
            (call_back results (record c { cli = cli; shared = record c.shared { world = w } }))))
        e

  received_one :
      (c : Ctx W) (cli : Client) (piece : List ℕ) (w : W) (unit_id addr : ℕ) (regs : List ℕ)
      → c.seg_pending ≡ false
      → receive c.cli piece ≡ done (received unit_id addr regs ∷ [], cli)
      → with_received c piece w
        ≡ done (record c {
          cli = cli;
          shared = record c.shared { world = w };
          phase = phase_done;
          stopped = true;
        })
  unfolding with_received call_back master_done_cb then_half
  received_one c cli piece w unit_id addr regs none_pending e =
      ap
        (λ r. r >>= (λ (results, cli).
          then_half
            (call_back results (record c { cli = cli; shared = record c.shared { world = w } }))))
        e
      ∙ rw none_pending refl

  nothing_pending : (c : Ctx W) → c.seg_pending ≡ false → then_half c ≡ done c
  unfolding then_half
  nothing_pending c e = rw e refl

  module _ (cli : Client) (p : ℕ) (slot : Slot) (fc : ℕ) (bytes : List ℕ)
      (wait : Waits cli p slot fc) (h : Handle) (fd : ℕ) (w' : W) where
    -- The master has got a part of the response.
    pub record Holds (c : Ctx W) (got : List ℕ) : Type 0 where
      pub handle : c.cli_h ≡ some h
      pub open_fd : h.fd ≡ some fd
      pub part : c.cli ≡ filled cli got

    pub on_piece :
        (c : Ctx W) (got piece : List ℕ) (w1 : W)
        → Holds c got
        → 1 ≤ length piece
        → length got + length piece ≤ cli.recv_cap
        → ((n : ℕ) → length piece ≤ n → sys.os.read_fd fd n c.shared.world ≡ (moved piece, w1))
        → egw_lb_master_on_poll m sys bsearch true c ≡ with_received c piece w1
    on_piece c got [] w1 holds some_bytes room reads = absurd (omega arith)
    on_piece c got (b ∷ bs) w1 holds some_bytes room reads =
        let avail : (egw_modbus_client_reserve c.cli).1 ≡ cli.recv_cap - length got =
          ap (λ x. (egw_modbus_client_reserve x).1) holds.part
          ∙ reserve-filled cli p got wait.pending in
        master_on_poll-reads c h fd b bs w1 holds.handle holds.open_fd (omega (arith, avail, room))
          (reads (egw_modbus_client_reserve c.cli).1 (omega (arith, avail, room)))

    pub polls_rest :
        (c : Ctx W) (got piece : List ℕ) (more : List (List ℕ))
        → Holds c got
        → c.seg_pending ≡ false
        → got ++ (piece ++ joined more) ≡ answer slot fc bytes
        → 1 ≤ length piece
        → All (λ l. 1 ≤ length l) more
        → length bytes ≤ 251
        → length bytes % 2 ≡ 0
        → length bytes + 5 ≤ cli.recv_cap
        → Delivers m sys bsearch fd c.shared.world (piece ∷ more) w'
        → Completes (master_polls (suc (length more)) c)
    polls_rest c got piece [] holds none_pending whole some_bytes others small even room
          (w1, reads, same) =
        let whole' : got ++ piece ≡ answer slot fc bytes =
          ap (λ l. got ++ l) (sym (append-nil piece)) ∙ whole in
        let size = length-answer slot fc bytes in
        poll_last c _
          (on_piece c got piece w1 holds some_bytes
              (omega (arith, size, length-append got piece, ap length whole')) reads
            ∙ received_one c (delivered cli (answer slot fc bytes)) piece w1 slot.unit_id slot.addr
                (words bytes) none_pending
                (ap (λ x. receive x piece) holds.part
                  ∙ receive_last cli p slot fc bytes wait got piece whole' some_bytes small even
                      room))
          refl refl
    polls_rest c got piece (next ∷ more) holds none_pending whole some_bytes others small even room
          (w1, reads, delivers) =
        let left : (got ++ piece) ++ (next ++ joined more) ≡ answer slot fc bytes =
          append_assoc got piece (next ++ joined more) ∙ whole in
        let next_size = length-append next (joined more) in
        let size = length-answer slot fc bytes in
        let all_size = length-append (got ++ piece) (next ++ joined more) in
        let c2 : Ctx W = record c {
          cli = filled cli (got ++ piece);
          shared = record c.shared { world = w1 };
        } in
        poll_more (suc (length more)) c c2
          (on_piece c got piece w1 holds some_bytes
              (omega (arith, size, all_size, length-append got piece, ap length left)) reads
            ∙ received_nothing c (filled cli (got ++ piece)) piece w1 (
                ap (λ x. receive x piece) holds.part
                ∙ receive_part cli p slot fc bytes wait got piece (next ++ joined more) left
                    some_bytes (omega (arith, next_size, others.0)) room)
            ∙ nothing_pending c2 none_pending)
          (polls_rest c2 (got ++ piece) next more
            (record { handle = holds.handle; open_fd = holds.open_fd; part = refl }) none_pending
            left others.0 others.1 small even room delivers)
