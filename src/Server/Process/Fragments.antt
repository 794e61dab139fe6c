-- ===== src/Server/Process/Fragments.antt =====
-- src/protocol/egw_modbus_server.c: a request that arrives in pieces, each read in place into what
-- `reserve` hands out and committed.
use native.Mathlib.Nat.{mod-eq_of_lt}
use service_data_gateway_edg.Prelude.{
  ℕ, ◌+◌, ◌-◌, ◌%◌, ◌≤◌, ◌<◌, ◌≡◌, refl, ap, sym, ◌∙◌, true, false, List, [], ◌∷◌, ◌++◌,
  append_assoc, append-nil, some, Run, done, ◌>>=◌, store, length, length-append, take, take_all,
  drop, replicate, le→ltb, ne→==, arith, All, joined,
}
use service_data_gateway_edg.Defs.{ok}
use service_data_gateway_edg.Modbus.{rtu, is_read_fc}
use service_data_gateway_edg.Modbus.Pdu.RoundTrip.{read_pdu}
use service_data_gateway_edg.Modbus.Encode.Frames.{rtu_frame, adu_len}
use service_data_gateway_edg.Modbus.Frame.{need_more, parse_and_check}
use service_data_gateway_edg.Modbus.Frame.Delimit.{parse_and_check-wait}
use service_data_gateway_edg.Server.{Server, ReadCb, Callbacks}
use service_data_gateway_edg.Server.Ring.{
  buf_used, buf_free, contig, ring_copy, egw_modbus_server_reserve,
}
use service_data_gateway_edg.Server.Ring.Queue.{
  IsValid, contents, length-contents, ring_copy-contents,
}
use service_data_gateway_edg.Server.Process.{after_parse, try_process, egw_modbus_server_commit}
use service_data_gateway_edg.Server.Process.Feed.{
  if_false, in_tmp, served, process_serves_read, nil_of,
}
use service_data_gateway_edg.Server.Process.Serve.{Asks, answer_pdu}
use service_data_gateway_edg.Server.Handlers.{raw_len}
use service_data_gateway_edg.Server.Responses.{responded, read_args}
use service_data_gateway_edg.Server.Process.Commit.{Committed, commit-Committed}

-- The bytes of a request's beginning, with the rest of the array.
parse_and_check-part :
    (unit_id fc addr count : ℕ) (got more junk : List ℕ)
    → is_read_fc fc ≡ true
    → got ++ more ≡ rtu_frame unit_id (read_pdu fc addr count)
    → 1 ≤ length more
    → parse_and_check (got ++ junk) (length got) ≡ done need_more
unfolding parse_and_check
parse_and_check-part unit_id fc addr count [] more junk read whole left = refl
parse_and_check-part unit_id fc addr count (a ∷ []) more junk read whole left = refl
parse_and_check-part unit_id fc addr count (a ∷ b ∷ got) more junk read whole left =
    let is_b : b ≡ fc = cc in
    rw is_b (
      parse_and_check-wait a fc (got ++ junk) (length (a ∷ b ∷ got)) read
        (omega (arith, length-append got more, ap length whole)))

module _ {W : Type 0} (cbs : Callbacks W) where
  -- A piece is read in place and committed, as `egw_lb_slave_on_poll` does.
  unfoldable pub take_in : Server → List ℕ → W → Run (Server × W)
  take_in s bytes w = do
    b ← store s.buf (egw_modbus_server_reserve s).0 bytes
    egw_modbus_server_commit cbs (record s { buf = b }) (length bytes) w

  unfoldable pub take_in_all : Server → List (List ℕ) → W → Run (Server × W)
  unfolding take_in
  take_in_all s [] w = done (s, w)
  take_in_all s (bytes ∷ more) w = do (s, w) ← take_in s bytes w; take_in_all s more w

  try_waits :
      (s : Server) (got : List ℕ) (w : W)
      → s.sending ≡ false
      → IsValid s
      → contents s ≡ got
      → 1 ≤ length got
      → length got ≤ 260
      → parse_and_check (in_tmp got) (length got) ≡ done need_more
      → try_process cbs s w ≡ done (s, w)
  unfolding try_process after_parse
  try_waits s got w idle v waits some_bytes short part =
      let used : buf_used s ≡ length got = sym (length-contents s v) ∙ ap length waits in
      let copied : ring_copy s.buf s.buf_cap s.rd (length got) ≡ done got =
        ring_copy-contents s (length got) v (omega (arith, used))
        ∙ ap done (ap (take (length got)) waits ∙ take_all (length got) got (omega arith)) in
      if_false s.sending _ _ idle
      ∙ rw (used, ne→== (length got) 0 (omega arith), le→ltb 260 (length got) short)
          (rw (copied, part) refl)

  take_in-Committed :
      (s : Server) (bytes : List ℕ) (w : W) (k : Committed cbs s bytes w)
      → take_in s bytes w ≡ try_process cbs (record s { buf = k.new_buf; wr = k.new_wr }) w
  unfolding take_in
  take_in-Committed s bytes w k =
      ap (λ r. r >>= (λ b. egw_modbus_server_commit cbs (record s { buf = b }) (length bytes) w))
        k.stores
      ∙ k.commits

-- A ring that the rest of a request fits into without going round.
abbrev pub Straight : Server → Type 0
Straight s = (s.wr ≡ s.rd + length (contents s)) × (s.rd + 8 < s.buf_cap)

pub Straight-room :
    (s : Server) (n : ℕ)
    → s.sending ≡ false
    → Straight s
    → length (contents s) + n ≤ 8
    → n ≤ (egw_modbus_server_reserve s).1
unfolding egw_modbus_server_reserve buf_free buf_used contig
Straight-room s n idle straight room = ground (arith, straight.0, straight.1)

pub at_end : (s : Server) → IsValid s → buf_used s ≡ 0 → s.wr ≡ s.rd + 0
unfolding buf_used
at_end s v empty = ground (arith, v.rd_in, v.wr_in)

module _ {W : Type 0} (cbs : Callbacks W) (unit_id fc addr count : ℕ) where
  -- The request.
  abbrev pub request : List ℕ
  request = rtu_frame unit_id (read_pdu fc addr count)

  pub size_of :
      (got piece more : List ℕ)
      → (got ++ piece) ++ more ≡ request
      → length got + length piece + length more ≡ 8
  size_of got piece more whole =
      omega (arith, length-append (got ++ piece) more, length-append got piece, ap length whole)

  -- A piece that does not end the request.
  pub take_in_part :
      (s : Server) (piece more : List ℕ) (w : W)
      → (k : Committed cbs s piece w) → s.sending ≡ false
      → is_read_fc fc ≡ true
      → (contents s ++ piece) ++ more ≡ request
      → 1 ≤ length piece
      → 1 ≤ length more
      → take_in cbs s piece w ≡ done (record s { buf = k.new_buf; wr = k.new_wr }, w)
  take_in_part s piece more w k idle read whole some_bytes left =
      let size = size_of (contents s) piece more whole in
      let got : List ℕ = contents s ++ piece in
      let n : length got ≡ length (contents s) + length piece = length-append (contents s) piece in
      take_in-Committed cbs s piece w k
      ∙ try_waits cbs (record s { buf = k.new_buf; wr = k.new_wr }) got w idle k.valid k.waits
          (omega (arith, n)) (omega (arith, n, size))
          (parse_and_check-part unit_id fc addr count got more (replicate (260 - length got) 0) read
            whole left)

  pub Straight-next :
      (s : Server) (piece : List ℕ) (w : W) (k : Committed cbs s piece w)
      → Straight s
      → length (contents s) + length piece < 8
      → Straight (record s { buf = k.new_buf; wr = k.new_wr })
  Straight-next s piece w k straight room =
      let n : length (contents (record s { buf = k.new_buf; wr = k.new_wr }))
          ≡ length (contents s) + length piece =
        ap length k.waits ∙ length-append (contents s) piece in
      let inside : (s.wr + length piece) % s.buf_cap ≡ s.wr + length piece =
        mod-eq_of_lt (omega (arith, straight.0, straight.1)) in
      (omega (arith, n, k.moves, inside, straight.0), straight.1)

  -- What the server is after it has taken the request in.
  abbrev pub Served : List ℕ → W → Server → Run (Server × W) → Type 0
  Served regs w' s r =
      (after : Server) × (r
        ≡ done (
          responded after (rtu_frame unit_id (answer_pdu fc regs count))
              (drop (adu_len rtu (answer_pdu fc regs count)) s.resp_buf),
          w',
        ))
      × (contents after ≡ [])
      × IsValid after

  -- What a server needs for its answer.
  pub record Ready (s : Server) (cb : ReadCb W) (regs : List ℕ) (w w' : W) : Type 0 where
    pub rt : s.transport ≡ rtu
    pub idle : s.sending ≡ false
    pub asks : Asks s 0 unit_id fc addr count
    pub has : cbs.read_cb ≡ some cb
    pub called : cb (read_args cb addr count unit_id) w ≡ done (ok, regs, w')
    pub len : length regs ≡ 256
    pub small : raw_len fc count ≤ 251
    pub fits : adu_len rtu (answer_pdu fc regs count) ≤ s.resp_cap
    pub room : adu_len rtu (answer_pdu fc regs count) ≤ length s.resp_buf

  module _ (cb : ReadCb W) (regs : List ℕ) (w w' : W) where
    pub Ready-moved :
        (s : Server) (b : List ℕ) (i : ℕ)
        → Ready s cb regs w w'
        → Ready (record s { buf = b; wr = i }) cb regs w w'
    Ready-moved s b i r = record {
      rt = r.rt;
      idle = r.idle;
      asks = record {
        reads = r.asks.reads;
        tid_16 = r.asks.tid_16;
        addr_16 = r.asks.addr_16;
        count_16 = r.asks.count_16;
        not_broadcast = r.asks.not_broadcast;
        active = r.asks.active;
      };
      has = r.has;
      called = r.called;
      len = r.len;
      small = r.small;
      fits = r.fits;
      room = r.room;
    }

    -- The piece that ends the request.
    pub take_in_last :
        (s : Server) (piece : List ℕ) (k : Committed cbs s piece w)
        → Ready s cb regs w w'
        → contents s ++ piece ≡ request
        → Served regs w' s (take_in cbs s piece w)
    take_in_last s piece k r whole =
        let moved : Server = record s { buf = k.new_buf; wr = k.new_wr } in
        let r' : Ready moved cb regs w w' = Ready-moved s k.new_buf k.new_wr r in
        let (answers, rest, valid) =
          process_serves_read cbs moved unit_id fc addr count cb regs w w' r'.rt r'.idle k.valid
            (k.waits ∙ whole) r'.asks r'.has r'.called r'.len r'.small r'.fits r'.room in
        (served cbs moved, take_in-Committed cbs s piece w k ∙ answers, rest, valid)

    take_in_all-one :
        (s : Server) (piece : List ℕ)
        → Served regs w' s (take_in cbs s piece w)
        → Served regs w' s (take_in_all cbs s (piece ∷ []) w)
    unfolding take_in_all
    take_in_all-one s piece (after, e, rest, valid) =
        (after, ap (λ r. r >>= (λ (s, w). take_in_all cbs s [] w)) e, rest, valid)

    take_in_all-more :
        (s s' : Server) (piece : List ℕ) (more : List (List ℕ))
        → take_in cbs s piece w ≡ done (s', w)
        → s'.resp_buf ≡ s.resp_buf
        → Served regs w' s' (take_in_all cbs s' more w)
        → Served regs w' s (take_in_all cbs s (piece ∷ more) w)
    unfolding take_in_all
    take_in_all-more s s' piece more e same (after, e', rest, valid) = (
      after,
      ap (λ r. r >>= (λ (s, w). take_in_all cbs s more w)) e
          ∙ e'
          ∙ ap
              (λ b. done (
                responded after (rtu_frame unit_id (answer_pdu fc regs count))
                    (drop (adu_len rtu (answer_pdu fc regs count)) b),
                w',
              ))
              same,
      rest,
      valid,
    )

    serve_rest :
        (s : Server) (piece : List ℕ) (more : List (List ℕ))
        → Ready s cb regs w w'
        → IsValid s
        → Straight s
        → contents s ++ (piece ++ joined more) ≡ request
        → 1 ≤ length piece
        → All (λ l. 1 ≤ length l) more
        → Served regs w' s (take_in_all cbs s (piece ∷ more) w)
    serve_rest s piece [] r v straight whole some_bytes others =
        let whole' : contents s ++ piece ≡ request =
          ap (λ l. contents s ++ l) (sym (append-nil piece)) ∙ whole in
        let k : Committed cbs s piece w = commit-Committed cbs s piece w r.idle v some_bytes (
          Straight-room s (length piece) r.idle straight
            (omega (arith, length-append (contents s) piece, ap length whole'))) in
        take_in_all-one s piece (take_in_last s piece k r whole')
    serve_rest s piece (next ∷ more) r v straight whole some_bytes others =
        let left : (contents s ++ piece) ++ (next ++ joined more) ≡ request =
          append_assoc (contents s) piece (next ++ joined more) ∙ whole in
        let size = size_of (contents s) piece (next ++ joined more) left in
        let next_size = length-append next (joined more) in
        let k : Committed cbs s piece w =
          commit-Committed cbs s piece w r.idle v some_bytes
            (Straight-room s (length piece) r.idle straight (omega (arith, size))) in
        let moved : Server = record s { buf = k.new_buf; wr = k.new_wr } in
        take_in_all-more s moved piece (next ∷ more)
          (take_in_part s piece (next ++ joined more) w k r.idle r.asks.reads left some_bytes
            (omega (arith, next_size, others.0)))
          refl
          (serve_rest moved next more (Ready-moved s k.new_buf k.new_wr r) k.valid
            (Straight-next s piece w k straight (omega (arith, size, next_size, others.0)))
            (ap (λ l. l ++ (next ++ joined more)) k.waits ∙ left) others.0 others.1)

    -- However the frame of a read request is cut into non-empty pieces, each read in place into
    -- what `reserve` hands out and committed: a server that can answer it (`Ready`: an idle RTU
    -- server of the unit, with a callback that succeeds and room for the answer), with an empty,
    -- valid ring that the request does not go round, leaves the answer's frame for sending after
    -- the last piece, having called back once; its ring is valid and empty again.
    pub fragments_serve :
        (s : Server) (pieces : List (List ℕ))
        → Ready s cb regs w w'
        → IsValid s
        → buf_used s ≡ 0
        → s.rd + 8 < s.buf_cap
        → joined pieces ≡ request
        → All (λ l. 1 ≤ length l) pieces
        → Served regs w' s (take_in_all cbs s pieces w)
    fragments_serve s [] r v empty room whole some_bytes = absurd (cc)
    fragments_serve s (piece ∷ more) r v empty room whole some_bytes =
        let none_yet : contents s ≡ [] = nil_of (contents s) (length-contents s v ∙ empty) in
        serve_rest s piece more r v
          (at_end s v empty ∙ ap (λ l. s.rd + length l) (sym none_yet), room)
          (ap (λ l. l ++ (piece ++ joined more)) none_yet ∙ whole) some_bytes.0 some_bytes.1
