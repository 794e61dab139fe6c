-- ===== src/App/Slave/Answers.antt =====
-- src/app/egw_modbus_slave.c: however a request is cut on the line, the slave answers it.
use service_data_gateway_edg.Prelude.{
  ℕ, suc, ◌+◌, ◌≤◌, ◌<◌, ◌≡◌, refl, ap, sym, ◌∙◌, true, List, [], ◌∷◌, ◌++◌, some, Run, done, ◌>>=◌,
  length, length-append, append_assoc, append-nil, drop, arith, All, joined,
}
use service_data_gateway_edg.Modbus.{rtu}
use service_data_gateway_edg.Modbus.Encode.Frames.{rtu_frame, adu_len}
use service_data_gateway_edg.Ptable.Rows.{Bsearch}
use service_data_gateway_edg.Transport.{moved, Handle}
use service_data_gateway_edg.Server.{Server, ReadCb}
use service_data_gateway_edg.Server.Ring.{buf_used, egw_modbus_server_reserve}
use service_data_gateway_edg.Server.Ring.Queue.{IsValid, contents, length-contents}
use service_data_gateway_edg.Server.Responses.{responded}
use service_data_gateway_edg.Server.Process.{egw_modbus_server_get_response}
use service_data_gateway_edg.Server.Process.Feed.{nil_of}
use service_data_gateway_edg.Server.Process.Serve.{answer_pdu}
use service_data_gateway_edg.Server.Process.Commit.{Committed, commit-Committed}
use service_data_gateway_edg.Server.Process.Fragments.{
  take_in, Straight, Straight-room, take_in_part, take_in_last, Straight-next, Ready, Ready-moved,
  Served, request, size_of, at_end,
}
use service_data_gateway_edg.Persist.Thread.{Word16, ThreadOs}
use service_data_gateway_edg.App.{Shared, Ctx}
use service_data_gateway_edg.App.Tables.{SlaveRow}
use service_data_gateway_edg.App.Slave.{slave_callbacks, slave_reply, egw_lb_slave_on_poll}
use service_data_gateway_edg.App.Slave.Polls.{
  with_piece, on_poll-reads, polls, Delivers, half_replied, reply_half, no_reply,
}

module _ {W : Type 0} (m : Word16) (sys : ThreadOs W) (bsearch : Bsearch SlaveRow)
    (unit_id fc addr count : ℕ) (cb : ReadCb (Shared W)) (regs : List ℕ) (fd : ℕ) (w' : W)
    (shared' : Shared W) where
  -- The frame of the answer.
  abbrev pub answer : List ℕ
  answer = rtu_frame unit_id (answer_pdu fc regs count)

  -- The slave of a context can answer once the line has delivered the request.
  abbrev pub CanAnswer : Ctx W → Type 0
  CanAnswer c =
      Ready (slave_callbacks m sys bsearch) unit_id fc addr count c.server cb regs
        (record c.shared { world = w' }) shared'

  -- The descriptor of a slave with no response yet.
  pub record Listens (c : Ctx W) (h : Handle) : Type 0 where
    pub handle : c.srv_h ≡ some h
    pub open_fd : h.fd ≡ some fd
    pub no_response : c.server.resp_len ≡ 0

  -- What the calls leave: the first half of the answer is written, the other pending.
  abbrev pub Answered : Ctx W → Run (Ctx W) → Type 0
  Answered c out =
      (after : Server) × (tail : List ℕ) × (out
        ≡ done (half_replied m sys bsearch c (responded after answer tail) shared' answer))
      × (contents after ≡ [])
      × IsValid after

  on_piece :
      (c : Ctx W) (h : Handle) (piece : List ℕ) (w w1 : W)
      → Listens c h
      → c.shared.world ≡ w
      → 1 ≤ length piece
      → length piece ≤ (egw_modbus_server_reserve c.server).1
      → ((n : ℕ) → length piece ≤ n → sys.os.read_fd fd n w ≡ (moved piece, w1))
      → egw_lb_slave_on_poll m sys bsearch true c ≡ with_piece m sys bsearch c piece w1
  on_piece c h [] w w1 l e some_bytes room reads = absurd (omega arith)
  on_piece c h (b ∷ bs) w w1 l e some_bytes room reads =
      on_poll-reads m sys bsearch c h fd b bs w1 l.handle l.open_fd
        (omega (arith, room, some_bytes))
        (ap (λ x. sys.os.read_fd fd (egw_modbus_server_reserve c.server).1 x) e
          ∙ reads (egw_modbus_server_reserve c.server).1 room)

  with_last :
      (c : Ctx W) (piece : List ℕ)
      → Served
          (slave_callbacks m sys bsearch)
          unit_id
          fc
          addr
          count
          regs
          shared'
          c.server
          (take_in (slave_callbacks m sys bsearch) c.server piece (record c.shared { world = w' }))
      → Answered c (with_piece m sys bsearch c piece w')
  unfolding with_piece
  with_last c piece (after, e, rest, valid) =
      let tail : List ℕ = drop (adu_len rtu (answer_pdu fc regs count)) c.server.resp_buf in
      (
        after,
        tail,
        ap
              (λ r. r >>= (λ (s, shared).
                slave_reply m sys bsearch (egw_modbus_server_get_response s)
                  (record c { server = s; shared = shared })))
              e
            ∙ reply_half m sys bsearch c after shared' answer tail (omega arith),
        rest,
        valid,
      )

  with_part :
      (c : Ctx W) (piece : List ℕ) (s : Server) (w1 : W)
      → take_in (slave_callbacks m sys bsearch) c.server piece (record c.shared { world = w1 })
        ≡ done (s, record c.shared { world = w1 })
      → s.resp_len ≡ 0
      → with_piece m sys bsearch c piece w1
        ≡ done (record c { server = s; shared = record c.shared { world = w1 } })
  unfolding with_piece
  with_part c piece s w1 e none_yet =
      ap
        (λ r. r >>= (λ (s, shared).
          slave_reply m sys bsearch (egw_modbus_server_get_response s)
            (record c { server = s; shared = shared })))
        e
      ∙ no_reply m sys bsearch c s (record c.shared { world = w1 }) none_yet

  poll_last :
      (c : Ctx W)
      → Answered c (egw_lb_slave_on_poll m sys bsearch true c)
      → Answered c (polls m sys bsearch 1 c)
  unfolding polls
  poll_last c (after, tail, e, rest, valid) =
      (after, tail, ap (λ r. r >>= polls m sys bsearch 0) e, rest, valid)

  poll_more :
      (n : ℕ) (c c2 : Ctx W)
      → egw_lb_slave_on_poll m sys bsearch true c ≡ done c2
      → polls m sys bsearch (suc n) c ≡ polls m sys bsearch n c2
  unfolding polls
  poll_more n c c2 e = ap (λ r. r >>= polls m sys bsearch n) e

  -- The same of an equal run.
  Answered-same : (c : Ctx W) (x y : Run (Ctx W)) → x ≡ y → Answered c y → Answered c x
  Answered-same c x y same (after, tail, e, rest, valid) = (after, tail, same ∙ e, rest, valid)

  answers_rest :
      (c : Ctx W) (h : Handle) (piece : List ℕ) (more : List (List ℕ))
      → CanAnswer c
      → Listens c h
      → IsValid c.server
      → Straight c.server
      → contents c.server ++ (piece ++ joined more)
        ≡ request (slave_callbacks m sys bsearch) unit_id fc addr count
      → 1 ≤ length piece
      → All (λ l. 1 ≤ length l) more
      → Delivers m sys bsearch fd c.shared.world (piece ∷ more) w'
      → Answered c (polls m sys bsearch (suc (length more)) c)
  answers_rest c h piece [] can l v straight whole some_bytes others (w1, reads, same) =
      let s : Server = c.server in
      let whole' : contents s ++ piece
          ≡ request (slave_callbacks m sys bsearch) unit_id fc addr count =
        ap (λ l. contents s ++ l) (sym (append-nil piece)) ∙ whole in
      let room : length piece ≤ (egw_modbus_server_reserve s).1 =
        Straight-room s (length piece) can.idle straight
          (omega (arith, length-append (contents s) piece, ap length whole')) in
      let k =
        commit-Committed (slave_callbacks m sys bsearch) s piece (record c.shared { world = w' })
          can.idle v some_bytes room in
      poll_last c (
        Answered-same c (egw_lb_slave_on_poll m sys bsearch true c)
          (with_piece m sys bsearch c piece w')
          (on_piece c h piece c.shared.world w1 l refl some_bytes room reads
            ∙ ap (with_piece m sys bsearch c piece) same)
          (with_last c piece (
            take_in_last (slave_callbacks m sys bsearch) unit_id fc addr count cb regs
              (record c.shared { world = w' }) shared' s piece k can whole')))
  answers_rest c h piece (next ∷ more) can l v straight whole some_bytes others
        (w1, reads, delivers) =
      let s : Server = c.server in
      let left : (contents s ++ piece) ++ (next ++ joined more)
          ≡ request (slave_callbacks m sys bsearch) unit_id fc addr count =
        append_assoc (contents s) piece (next ++ joined more) ∙ whole in
      let size =
        size_of (slave_callbacks m sys bsearch) unit_id fc addr count (contents s) piece
          (next ++ joined more) left in
      let next_size = length-append next (joined more) in
      let room : length piece ≤ (egw_modbus_server_reserve s).1 =
        Straight-room s (length piece) can.idle straight (omega (arith, size)) in
      let k : Committed (slave_callbacks m sys bsearch) s piece (record c.shared { world = w1 }) =
        commit-Committed (slave_callbacks m sys bsearch) s piece (record c.shared { world = w1 })
          can.idle v some_bytes room in
      let taken : Server = record s { buf = k.new_buf; wr = k.new_wr } in
      let c2 : Ctx W = record c { server = taken; shared = record c.shared { world = w1 } } in
      Answered-same c (polls m sys bsearch (suc (suc (length more))) c)
        (polls m sys bsearch (suc (length more)) c2)
        (poll_more (suc (length more)) c c2 (
          on_piece c h piece c.shared.world w1 l refl some_bytes room reads
          ∙ with_part c piece taken w1
              (take_in_part (slave_callbacks m sys bsearch) unit_id fc addr count s piece
                (next ++ joined more) (record c.shared { world = w1 }) k can.idle can.asks.reads
                left some_bytes (omega (arith, next_size, others.0)))
              l.no_response))
        (answers_rest c2 h next more
          (Ready-moved (slave_callbacks m sys bsearch) unit_id fc addr count cb regs
            (record c.shared { world = w' }) shared' s k.new_buf k.new_wr can)
          (record { handle = l.handle; open_fd = l.open_fd; no_response = l.no_response }) k.valid
          (Straight-next (slave_callbacks m sys bsearch) unit_id fc addr count s piece
            (record c.shared { world = w1 }) k straight (omega (arith, size, next_size, others.0)))
          (ap (λ l. l ++ (next ++ joined more)) k.waits ∙ left) others.0 others.1 delivers)

  -- However the line cuts a read request that the slave can answer into non-empty pieces, one for
  -- each `read` with room for it: after as many calls of `egw_lb_slave_on_poll` as there are pieces
  -- the first half of the answer's frame was given to the line, the second half is pending, the
  -- slave's descriptor is no longer watched and the master's is, and the server's ring is valid and
  -- empty. The ring was valid and empty before, the request does not go round it, and there was no
  -- response yet.
  pub polls_answer :
      (c : Ctx W) (h : Handle) (pieces : List (List ℕ))
      → CanAnswer c
      → Listens c h
      → IsValid c.server
      → buf_used c.server ≡ 0
      → c.server.rd + 8 < c.server.buf_cap
      → joined pieces ≡ request (slave_callbacks m sys bsearch) unit_id fc addr count
      → All (λ l. 1 ≤ length l) pieces
      → Delivers m sys bsearch fd c.shared.world pieces w'
      → Answered c (polls m sys bsearch (length pieces) c)
  polls_answer c h [] can l v empty room whole some_bytes delivers = absurd (cc)
  polls_answer c h (piece ∷ more) can l v empty room whole some_bytes delivers =
      let s : Server = c.server in
      let none_yet : contents s ≡ [] = nil_of (contents s) (length-contents s v ∙ empty) in
      answers_rest c h piece more can l v
        (at_end s v empty ∙ ap (λ l. s.rd + length l) (sym none_yet), room)
        (ap (λ l. l ++ (piece ++ joined more)) none_yet ∙ whole) some_bytes.0 some_bytes.1 delivers
