-- ===== src/App/Slave/Polls.antt =====
-- src/app/egw_modbus_slave.c: a request that arrives in pieces, one for each call of
-- `egw_lb_slave_on_poll`.
use service_data_gateway_edg.Prelude.{
  ℕ, zero, suc, ◌/◌, ◌≤◌, ◌≡◌, refl, ap, sym, ◌∙◌, ◌||◌, true, false, not, List, [], ◌∷◌, ◌++◌,
  some, Run, done, fault, ◌>>=◌, store, slice, slice-parts, length, length-take, take, drop,
  take-append-drop, append_assoc, ne→==, ◌==◌, arith,
}
use service_data_gateway_edg.Defs.{ok}
use service_data_gateway_edg.Ptable.Rows.{Bsearch}
use service_data_gateway_edg.Transport.{moved, Handle}
use service_data_gateway_edg.Transport.Io.{egw_transport_read, egw_transport_write}
use service_data_gateway_edg.Transport.Io.Reads.{transport_read-moved}
use service_data_gateway_edg.Server.{Server}
use service_data_gateway_edg.Server.Ring.{egw_modbus_server_reserve}
use service_data_gateway_edg.Server.Process.{egw_modbus_server_get_response}
use service_data_gateway_edg.Server.Process.Feed.{if_false}
use service_data_gateway_edg.Server.Responses.{responded}
use service_data_gateway_edg.Server.Process.Fragments.{take_in}
use service_data_gateway_edg.Persist.Thread.{Word16, ThreadOs}
use service_data_gateway_edg.App.{Shared, Ctx}
use service_data_gateway_edg.App.Tables.{SlaveRow}
use service_data_gateway_edg.App.Slave.{
  slave_callbacks, slave_reply, slave_got, egw_lb_slave_on_poll,
}

module _ {W : Type 0} (m : Word16) (sys : ThreadOs W) (bsearch : Bsearch SlaveRow) where
  -- What a call does with the bytes that it reads.
  unfoldable pub with_piece : Ctx W → List ℕ → W → Run (Ctx W)
  with_piece c piece w = do
    (s, shared) ←
        take_in (slave_callbacks m sys bsearch) c.server piece (record c.shared { world = w })
    slave_reply m sys bsearch (egw_modbus_server_get_response s)
        (record c { server = s; shared = shared })

  got_piece :
      (c : Ctx W) (b : ℕ) (bs : List ℕ) (w : W) (r : Run (List ℕ))
      → store c.server.buf (egw_modbus_server_reserve c.server).0 (b ∷ bs) ≡ r
      → ((r >>= (λ buf. done (ok, length (b ∷ bs), buf, w))) >>= slave_got m sys bsearch c)
        ≡ with_piece c (b ∷ bs) w
  unfolding with_piece take_in slave_got
  got_piece c b bs w (done buf) e = rw (ne→== (length (b ∷ bs)) 0 (omega arith), e) refl
  got_piece c b bs w fault e = rw e refl

  -- A call for which `read` delivers bytes takes them in, and replies if there is a response then.
  pub on_poll-reads :
      (c : Ctx W) (h : Handle) (fd : ℕ) (b : ℕ) (bs : List ℕ) (w : W)
      → c.srv_h ≡ some h
      → h.fd ≡ some fd
      → 1 ≤ (egw_modbus_server_reserve c.server).1
      → sys.os.read_fd fd (egw_modbus_server_reserve c.server).1 c.shared.world
        ≡ (moved (b ∷ bs), w)
      → egw_lb_slave_on_poll m sys bsearch true c ≡ with_piece c (b ∷ bs) w
  unfolding egw_lb_slave_on_poll
  on_poll-reads c h fd b bs w handle open_fd room reads =
      let (place, avail) = egw_modbus_server_reserve c.server in
      if_false (not true || avail == 0) _ _ (ne→== avail 0 (omega arith))
      ∙ ap
          (λ x.
            egw_transport_read sys.os x c.server.buf place 0 avail c.shared.world
            >>= slave_got m sys bsearch c)
          handle
      ∙ ap (λ r. r >>= slave_got m sys bsearch c)
          (transport_read-moved sys.os h fd b bs c.server.buf place 0 avail c.shared.world w open_fd
            room reads)
      ∙ got_piece c b bs w (store c.server.buf place (b ∷ bs)) refl

  -- `n` calls.
  unfoldable pub polls : ℕ → Ctx W → Run (Ctx W)
  polls zero c = done c
  polls (suc n) c = egw_lb_slave_on_poll m sys bsearch true c >>= polls n

  -- The line delivers the pieces, one for each `read` that has room for it.
  abbrev pub Delivers : ℕ → W → List (List ℕ) → W → Type 0
  Delivers fd w [] w' = w ≡ w'
  Delivers fd w (piece ∷ more) w' =
      (w1 : W) × ((n : ℕ) → length piece ≤ n → sys.os.read_fd fd n w ≡ (moved piece, w1))
      × Delivers fd w1 more w'

  -- The context after the first half of a frame was written, where `shared` is what the read callback
  -- left.
  abbrev pub half_replied : Ctx W → Server → Shared W → List ℕ → Ctx W
  half_replied c s shared frame = record c {
    server = s;
    shared = record shared {
      world = (egw_transport_write sys.os c.srv_h (take (length frame / 2) frame) 0 shared.world).2;
    };
    srv_polled = false;
    seg_pending = true;
    cli_polled = true;
  }

  pub reply_half :
      (c : Ctx W) (s : Server) (shared : Shared W) (frame tail : List ℕ)
      → 1 ≤ length frame
      → slave_reply m sys bsearch
          (egw_modbus_server_get_response (responded s frame tail))
          (record c { server = responded s frame tail; shared = shared })
        ≡ done (half_replied c (responded s frame tail) shared frame)
  unfolding egw_modbus_server_get_response slave_reply
  reply_half c s shared frame tail some_bytes =
      let k : ℕ = length frame / 2 in
      let front : slice (frame ++ tail) 0 k ≡ done (take k frame) =
        ap (λ l. slice (l ++ tail) 0 k) (sym (take-append-drop k frame))
        ∙ ap (λ l. slice l 0 k) (append_assoc (take k frame) (drop k frame) tail)
        ∙ slice-parts 0 k [] (take k frame) (drop k frame ++ tail) refl
            (omega (arith, length-take k frame)) in
      rw (ne→== (length frame) 0 (omega arith)) (rw front refl)

  pub no_reply :
      (c : Ctx W) (s : Server) (shared : Shared W)
      → s.resp_len ≡ 0
      → slave_reply m sys bsearch
          (egw_modbus_server_get_response s)
          (record c { server = s; shared = shared })
        ≡ done (record c { server = s; shared = shared })
  unfolding egw_modbus_server_get_response slave_reply
  no_reply c s shared none_yet = rw none_yet refl
