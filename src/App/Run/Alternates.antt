-- ===== src/App/Run/Alternates.antt =====
-- src/app: what holds of the loop's context between two callbacks.
use mathlib.Core.Path.{subst}
use service_data_gateway_edg.Prelude.{
  ℕ, ◌-◌, ◌/◌, ◌≤◌, ◌≡◌, refl, ap, sym, ◌∙◌, ◌||◌, Bool, true, false, not, Bool-cases, inl, inr,
  List, [], ◌∷◌, Option, none, some, Run, done, fault, ◌>>=◌, slice, ◌==◌, if◌then◌else◌, arith,
}
use service_data_gateway_edg.Defs.{Err, is_ok}
use service_data_gateway_edg.Ptable.Rows.{Bsearch}
use service_data_gateway_edg.Transport.Io.{egw_transport_read, egw_transport_write}
use service_data_gateway_edg.Server.{Server}
use service_data_gateway_edg.Server.Ring.{egw_modbus_server_reserve}
use service_data_gateway_edg.Server.Process.{
  egw_modbus_server_commit, egw_modbus_server_get_response, egw_modbus_server_response_sent,
}
use service_data_gateway_edg.Client.{Result, failed, received}
use service_data_gateway_edg.Client.Receive.{egw_modbus_client_reserve, egw_modbus_client_commit}
use service_data_gateway_edg.Persist.Thread.{Word16, ThreadOs}
use service_data_gateway_edg.App.{server_recv, phase_done, Shared, Ctx}
use service_data_gateway_edg.App.Tables.{SlaveRow}
use service_data_gateway_edg.App.Slave.{
  slave_callbacks, egw_lb_slave_on_poll, slave_got, slave_reply,
}
use service_data_gateway_edg.App.Master.{
  master_done_cb, call_back, egw_lb_on_timeout, egw_lb_master_on_poll, master_got, second_half,
}
use service_data_gateway_edg.App.Run.{Steps, start, slave_polled, master_polled, timed_out}

-- What `run_modbus_loopback` starts the loop with.
pub record Started {W : Type 0} (c : Ctx W) : Type 0 where
  pub receiving : c.phase ≡ server_recv
  pub nothing_pending : c.seg_pending ≡ false
  pub master_waits : c.cli_polled ≡ false
  pub slave_listens : c.srv_polled ≡ true

-- Between two callbacks.
pub record Alternates {W : Type 0} (c : Ctx W) : Type 0 where
  pub done_stops : c.phase ≡ phase_done → c.stopped ≡ true
  pub one_side : c.cli_polled ≡ not c.srv_polled
  pub half_sent : c.seg_pending ≡ true → c.srv_polled ≡ false
  pub half_left : c.seg_pending ≡ true → 1 ≤ c.server.resp_len

-- Every result of code that may fault.
abbrev Ends : {A : Type 0} → (A → Type 0) → Run A → Type 0
Ends P (done a) = P a
Ends P fault = Unit

Ends-bind :
    {A B : Type 0} (P : B → Type 0) (r : Run A) (f : A → Run B)
    → ((a : A) → Ends P (f a))
    → Ends P (r >>= f)
Ends-bind P (done a) f h = h a
Ends-bind P fault f h = tt

Ends-done : {A : Type 0} (P : A → Type 0) (r : Run A) (a : A) → Ends P r → r ≡ done a → P a
Ends-done P r a h e = subst (Ends P) e h

Started-Alternates : {W : Type 0} (c : Ctx W) → Started c → Alternates c
Started-Alternates c s = record {
  done_stops = λ h. absurd (cc (h, s.receiving));
  one_side = s.master_waits ∙ sym (ap not s.slave_listens);
  half_sent = λ h. absurd (cc (h, s.nothing_pending));
  half_left = λ h. absurd (cc (h, s.nothing_pending));
}

response_some :
    (s : Server) (resp : List ℕ) (n : ℕ)
    → egw_modbus_server_get_response s ≡ some (resp, n)
    → 1 ≤ s.resp_len
unfolding egw_modbus_server_get_response
response_some s resp n e = ground arith

module _ {W : Type 0} (m : Word16) (sys : ThreadOs W) (bsearch : Bsearch SlaveRow) where
  slave_reply-Ends :
      (c : Ctx W) (o : Option (List ℕ × ℕ))
      → Alternates c
      → egw_modbus_server_get_response c.server ≡ o
      → Ends Alternates (slave_reply m sys bsearch o c)
  unfolding slave_reply
  slave_reply-Ends c none a e = a
  slave_reply-Ends c (some (resp, n)) a e = Ends-bind Alternates (slice resp 0 (n / 2)) _ (λ bytes.
      record {
        done_stops = a.done_stops;
        one_side = refl;
        half_sent = λ h. refl;
        half_left = λ h. response_some c.server resp n e;
      })

  -- While nothing is pending the server may be replaced.
  with_server-Alternates :
      (c : Ctx W) (s : Server) (shared : Shared W)
      → Alternates c
      → c.seg_pending ≡ false
      → Alternates (record c { server = s; shared = shared })
  with_server-Alternates c s shared a none_pending = record {
    done_stops = a.done_stops;
    one_side = a.one_side;
    half_sent = a.half_sent;
    half_left = λ h. absurd (cc (h, none_pending));
  }

  slave_got-Ends :
      (c : Ctx W) (r : Err × ℕ × List ℕ × W)
      → Alternates c
      → c.seg_pending ≡ false
      → Ends Alternates (slave_got m sys bsearch c r)
  unfolding slave_got
  slave_got-Ends c (e, rlen, buf, w) a none_pending =
      elim (Bool-cases (not (is_ok e) || rlen == 0)) [
        | inl nothing ↦ rw nothing (
            with_server-Alternates c (record c.server { buf = buf }) (record c.shared { world = w })
              a none_pending)
        | inr got ↦ rw got (
            Ends-bind Alternates
              (egw_modbus_server_commit (slave_callbacks m sys bsearch)
                (record c.server { buf = buf }) rlen (record c.shared { world = w }))
              (λ (s, shared).
                slave_reply m sys bsearch (egw_modbus_server_get_response s)
                  (record c { server = s; shared = shared }))
              (λ (s, shared).
                slave_reply-Ends (record c { server = s; shared = shared }) _
                  (with_server-Alternates c s shared a none_pending) refl))
      ]

  slave_on_poll-Ends :
      (is_readable : Bool) (c : Ctx W)
      → Alternates c
      → c.srv_polled ≡ true
      → Ends Alternates (egw_lb_slave_on_poll m sys bsearch is_readable c)
  unfolding egw_lb_slave_on_poll
  slave_on_poll-Ends is_readable c a listens =
      elim (Bool-cases (not is_readable || (egw_modbus_server_reserve c.server).1 == 0)) [
        | inl skip ↦ rw skip a
        | inr go ↦ rw go (
            Ends-bind Alternates
              (egw_transport_read sys.os c.srv_h c.server.buf (egw_modbus_server_reserve c.server).0
                0 (egw_modbus_server_reserve c.server).1 c.shared.world)
              (slave_got m sys bsearch c)
              (λ r. slave_got-Ends c r a (none_pending c.seg_pending a.half_sent)))
      ]
    where
      none_pending : (b : Bool) → (b ≡ true → c.srv_polled ≡ false) → b ≡ false
      none_pending true h = absurd (cc (h refl, listens))
      none_pending false h = refl

  master_done_cb-Alternates :
      (r : Result) (c : Ctx W) → Alternates c → Alternates (master_done_cb r c)
  unfolding master_done_cb
  master_done_cb-Alternates (failed unit_id addr) c a = record {
    done_stops = λ h. refl;
    one_side = a.one_side;
    half_sent = a.half_sent;
    half_left = a.half_left;
  }
  master_done_cb-Alternates (received unit_id addr regs) c a = record {
    done_stops = λ h. refl;
    one_side = a.one_side;
    half_sent = a.half_sent;
    half_left = a.half_left;
  }

  call_back-Alternates : (rs : List Result) (c : Ctx W) → Alternates c → Alternates (call_back rs c)
  unfolding call_back
  call_back-Alternates [] c a = a
  call_back-Alternates (r ∷ rs) c a =
      call_back-Alternates rs (master_done_cb r c) (master_done_cb-Alternates r c a)

  second_half-Ends :
      (o : Option (List ℕ × ℕ)) (c : Ctx W)
      → Alternates c
      → c.seg_pending ≡ false
      → Ends Alternates (second_half m sys bsearch o c)
  unfolding second_half
  second_half-Ends none c a none_pending = a
  second_half-Ends (some (resp, n)) c a none_pending =
      Ends-bind Alternates (slice resp (n / 2) (n - n / 2)) _ (λ bytes.
        Ends-bind Alternates
          (egw_modbus_server_response_sent (slave_callbacks m sys bsearch) c.server
            (record c.shared {
              world = (egw_transport_write sys.os c.srv_h bytes 0 c.shared.world).2;
            }))
          (λ (s, shared). done (record c { server = s; shared = shared }))
          (λ (s, shared). with_server-Alternates c s shared a none_pending))

  not_pending : (c : Ctx W) → Alternates c → Alternates (record c { seg_pending = false })
  not_pending c a = record {
    done_stops = a.done_stops;
    one_side = a.one_side;
    half_sent = λ h. absurd (cc);
    half_left = λ h. absurd (cc);
  }

  then_second-Ends :
      (c : Ctx W)
      → Alternates c
      → Ends Alternates (
          if not c.seg_pending
          then done c
          else second_half m sys bsearch
              (egw_modbus_server_get_response c.server)
              (record c { seg_pending = false }))
  then_second-Ends c a = elim (Bool-cases (not c.seg_pending)) [
    | inl none_pending ↦ rw none_pending a
    | inr pending ↦
        rw pending (second_half-Ends _ (record c { seg_pending = false }) (not_pending c a) refl)
  ]

  master_got-Ends :
      (c : Ctx W) (r : Err × ℕ × List ℕ × W)
      → Alternates c
      → Ends Alternates (master_got m sys bsearch c r)
  unfolding master_got
  master_got-Ends c (e, rlen, buf, w) a =
      let got : Ctx W = record c {
        cli = record c.cli { recv_buf = buf };
        shared = record c.shared { world = w };
      } in
      let a' : Alternates got = record {
        done_stops = a.done_stops;
        one_side = a.one_side;
        half_sent = a.half_sent;
        half_left = a.half_left;
      } in
      elim (Bool-cases (not (is_ok e) || rlen == 0)) [
        | inl nothing ↦ rw nothing a'
        | inr some_bytes ↦ rw some_bytes (
            Ends-bind Alternates (egw_modbus_client_commit got.cli rlen) _ (λ (results, cli).
              then_second-Ends (call_back results (record got { cli = cli })) (
                call_back-Alternates results (record got { cli = cli })
                  (record {
                    done_stops = a.done_stops;
                    one_side = a.one_side;
                    half_sent = a.half_sent;
                    half_left = a.half_left;
                  }))))
      ]

  master_on_poll-Ends :
      (is_readable : Bool) (c : Ctx W)
      → Alternates c
      → Ends Alternates (egw_lb_master_on_poll m sys bsearch is_readable c)
  unfolding egw_lb_master_on_poll
  master_on_poll-Ends is_readable c a =
      elim (Bool-cases (not is_readable || (egw_modbus_client_reserve c.cli).1 == 0)) [
        | inl skip ↦ rw skip a
        | inr go ↦ rw go (
            Ends-bind Alternates
              (egw_transport_read sys.os c.cli_h c.cli.recv_buf (egw_modbus_client_reserve c.cli).0
                0 (egw_modbus_client_reserve c.cli).1 c.shared.world)
              (master_got m sys bsearch c) (λ r. master_got-Ends c r a))
      ]

  on_timeout-Alternates : (c : Ctx W) → Alternates c → Alternates (egw_lb_on_timeout c)
  unfolding egw_lb_on_timeout
  on_timeout-Alternates c a = record {
    done_stops = λ h. refl;
    one_side = a.one_side;
    half_sent = a.half_sent;
    half_left = a.half_left;
  }

  reached : (from c : Ctx W) → Alternates from → Steps m sys bsearch from c → Alternates c
  reached from c a start = a
  reached from c a (slave_polled {c = before} is_readable steps listens e) =
      Ends-done Alternates (egw_lb_slave_on_poll m sys bsearch is_readable before) c
        (slave_on_poll-Ends is_readable before (reached from before a steps) listens) e
  reached from c a (master_polled {c = before} is_readable steps listens e) =
      Ends-done Alternates (egw_lb_master_on_poll m sys bsearch is_readable before) c
        (master_on_poll-Ends is_readable before (reached from before a steps)) e
  reached from c a (timed_out {c = before} steps) =
      on_timeout-Alternates before (reached from before a steps)

  -- After any sequence of callbacks that libuv may make, those included that it still makes behind
  -- a call of `uv_stop`, from a context as `run_modbus_loopback` starts the loop with: the loop is
  -- stopped if the phase is done; exactly one of the two descriptors is watched; and while the
  -- second half of a response is pending, the slave's is not, and the response to take the half
  -- from is still there.
  pub Steps-Alternates : (from c : Ctx W) → Started from → Steps m sys bsearch from c → Alternates c
  Steps-Alternates from c started steps = reached from c (Started-Alternates from started) steps
