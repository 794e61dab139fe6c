-- ===== src/App/Run.antt =====
-- src/app/egw_app.c: loading the tables that the nodes name, and the loop between the two ends of
-- the line. `uv_run` calls the callbacks one at a time, in an order that is not known: any sequence
-- of steps, each of a descriptor that is watched, or the timer. `uv_stop` ends the loop only after the
-- iteration that it is called in, whose other callbacks still run, so a step may also follow it.
pub mod Alternates
use service_data_gateway_edg.Prelude.{
  ℕ, zero, suc, ◌+◌, ◌≡◌, Bool, true, false, List, [], ◌∷◌, Option, none, some, Run, done, ◌>>=◌,
  or_fault, length, ◌==◌, if◌then◌else◌,
}
use service_data_gateway_edg.Defs.{Err, ok}
use service_data_gateway_edg.Ptable.{Text}
use service_data_gateway_edg.Ptable.Head.{
  NodeType, protocol, port, sqlite, Node, Thread, codes, text_eq,
}
use service_data_gateway_edg.Ptable.Manifest.{Manifest, egw_manifest_count, egw_manifest_get}
use service_data_gateway_edg.Ptable.Rows.{Rs, Answers, Bsearch}
use service_data_gateway_edg.Transport.{Handle}
use service_data_gateway_edg.Transport.Serial.{SerialOs}
use service_data_gateway_edg.Server.{Server}
use service_data_gateway_edg.Client.{Client, Heap}
use service_data_gateway_edg.Persist.Thread.{Word16, ThreadOs, PersistThread}
use service_data_gateway_edg.App.{server_recv, Ctx}
use service_data_gateway_edg.App.Tables.{
  Key, MasterRow, SlaveRow, egw_modbus_master_load, egw_modbus_slave_load, egw_route_load,
}
use service_data_gateway_edg.App.Slave.{
  egw_lb_slave_transport_open, egw_lb_slave_init, egw_lb_slave_on_poll, egw_lb_slave_cleanup,
}
use service_data_gateway_edg.App.Master.{
  egw_lb_master_transport_open, egw_lb_master_init, egw_lb_master_send, egw_lb_master_on_poll,
  egw_lb_on_timeout, egw_lb_master_cleanup,
}

-- `master_rs` and `slave_rs` of `egw_app_run`.
pub record Loaded : Type 0 where
  pub master_rs : Option (Rs Key MasterRow)
  pub slave_rs : Option (Rs Key SlaveRow)

-- What the database holds: the manifest that `egw_ptable_discover` makes of a name, and what it
-- answers for each of the three tables, with whether `calloc` succeeds.
pub record Database : Type 0 where
  pub discover : Text → Option Manifest
  pub southbound : Bool × Answers
  pub northbound : Bool × Answers
  pub route : Bool × Answers

module _ (to_float : ℕ → ℕ) (db : Database) where
  -- The body of the loop over a manifest's tables, and the loop from table `i` on.
  load_table : Text → Loaded → Run Loaded
  load_table name l =
      if text_eq name (codes "southbound")
      then (do
        rs ← egw_modbus_master_load to_float db.southbound.0 db.southbound.1
        done (record l { master_rs = rs }))
      else if text_eq name (codes "northbound")
      then (do
        rs ← egw_modbus_slave_load to_float db.northbound.0 db.northbound.1
        done (record l { slave_rs = rs }))
      else if text_eq name (codes "route")
      then (do e ← egw_route_load to_float db.route.0 db.route.1; done l)
      else done l

  load_tables : ℕ → ℕ → Manifest → Loaded → Run Loaded
  unfolding load_table
  load_tables zero i mh l = done l
  load_tables (suc rounds) i mh l = do
    t ← or_fault (egw_manifest_get (some mh) i)
    l ← load_table t.name l
    load_tables rounds (i + 1) mh l

  load_manifest : Option Manifest → Loaded → Run Loaded
  unfolding load_tables
  load_manifest none l = done l
  load_manifest (some mh) l = load_tables (egw_manifest_count (some mh)) 0 mh l

  -- `on_protocol_node`.
  unfoldable pub on_protocol_node : Text → Loaded → Run Loaded
  unfolding load_manifest
  on_protocol_node desc l = if length desc == 0 then done l else load_manifest (db.discover desc) l

  -- The `switch` on a node's type; the other two only log.
  on_node : NodeType → Text → Loaded → Run Loaded
  unfolding on_protocol_node
  on_node protocol desc l = on_protocol_node desc l
  on_node port desc l = done l
  on_node sqlite desc l = done l

  on_nodes : List Node → Loaded → Run Loaded
  unfolding on_node
  on_nodes [] l = done l
  on_nodes (n ∷ ns) l = do l ← on_node n.type n.desc l; on_nodes ns l

  -- The two loops of `egw_app_run` over the head tree.
  unfoldable pub load_threads_of : List Thread → Loaded → Run Loaded
  unfolding on_nodes
  load_threads_of [] l = done l
  load_threads_of (th ∷ ths) l = do l ← on_nodes th.nodes l; load_threads_of ths l

-- What `run_modbus_loopback` has made before `uv_run`: the two handles, and the context if everything
-- succeeded.
pub record Setup (W : Type 0) : Type 0 where
  pub cli_h : Option Handle
  pub srv_h : Option Handle
  pub ctx : Option (Ctx W)
  pub world : W

-- Whether the allocations of the handles, the server and the client succeed, and the slot's address.
pub record Memory : Type 0 where
  pub cli_h_ok : Bool
  pub srv_h_ok : Bool
  pub server_ok : Bool
  pub client_ok : Bool
  pub slot : Option ℕ
  pub frame_ok : Bool

module _ {W : Type 0} (m : Word16) (tty : SerialOs W) (sys : ThreadOs W)
    (bsearch : Bsearch SlaveRow) (mem : Memory) (l : Loaded) (persist : Option PersistThread) where
  -- Both sides are polled from here on: the slave's at once.
  sent_or : Option Handle → Option Handle → Err × Ctx W → Run (Setup W)
  sent_or cli_h srv_h (ok, ctx) =
      done (record { cli_h = cli_h; srv_h = srv_h; ctx = some ctx; world = ctx.shared.world })
  sent_or cli_h srv_h (e, ctx) =
      done (record { cli_h = cli_h; srv_h = srv_h; ctx = none; world = ctx.shared.world })

  with_client :
      Option Handle → Option Handle → W → Server → Err × Option (Client × ℕ) → Run (Setup W)
  unfolding sent_or
  with_client cli_h srv_h w s (e, none) =
      done (record { cli_h = cli_h; srv_h = srv_h; ctx = none; world = w })
  with_client cli_h srv_h w s (e, some (c, p)) = do
    r ← egw_lb_master_send m sys bsearch (record {
      cli_h = cli_h;
      srv_h = srv_h;
      server = s;
      cli = c;
      req_slot = p;
      phase = server_recv;
      seg_pending = false;
      cli_polled = false;
      srv_polled = true;
      stopped = false;
      shared = record { slave_rs = l.slave_rs; persist = persist; world = w };
    })
    sent_or cli_h srv_h r

  with_server : Option Handle → Option Handle → W → Err × Option Server → Run (Setup W)
  unfolding with_client
  with_server cli_h srv_h w (e, none) =
      done (record { cli_h = cli_h; srv_h = srv_h; ctx = none; world = w })
  with_server cli_h srv_h w (e, some s) = do
    r ← egw_lb_master_init mem.client_ok mem.client_ok mem.slot mem.frame_ok l.master_rs
    with_client cli_h srv_h w s r

  with_slave_line : Option Handle → Err × Option Handle × W → Run (Setup W)
  unfolding with_server
  with_slave_line cli_h (ok, srv_h, w) = do
    r ← egw_lb_slave_init mem.server_ok mem.server_ok mem.server_ok l.slave_rs
    with_server cli_h srv_h w r
  with_slave_line cli_h (e, srv_h, w) =
      done (record { cli_h = cli_h; srv_h = srv_h; ctx = none; world = w })

  with_master_line : Err × Option Handle × W → Run (Setup W)
  unfolding with_slave_line
  with_master_line (ok, cli_h, w) =
      with_slave_line cli_h (egw_lb_slave_transport_open tty mem.srv_h_ok (codes "/tmp/ttyV1") w)
  with_master_line (e, cli_h, w) =
      done (record { cli_h = cli_h; srv_h = none; ctx = none; world = w })

  -- `run_modbus_loopback` up to `uv_run`, where the loop is initialised.
  unfoldable pub start_loopback : W → Run (Setup W)
  unfolding with_master_line
  start_loopback w =
      with_master_line (egw_lb_master_transport_open tty mem.cli_h_ok (codes "/tmp/ttyV0") w)

-- The cleanup at the end of `run_modbus_loopback`, of a context that ran.
unfoldable pub end_loopback :
    {W : Type 0} → Word16 → ThreadOs W → Bsearch SlaveRow → ℕ → Ctx W → Run (Heap × W)
end_loopback m sys bsearch fuel ctx = do
  (heap, w) ← egw_lb_master_cleanup m sys bsearch fuel ctx.cli ctx.cli_h ctx.shared.world
  done (heap, egw_lb_slave_cleanup m sys bsearch ctx.srv_h w)

-- The steps of `uv_run` from a context on. Whether `uv_stop` was called is not asked: the callbacks
-- of the same iteration run after it.
pub data Steps {W : Type 0} (m : Word16) (sys : ThreadOs W) (bsearch : Bsearch SlaveRow)
    (from : Ctx W) : Ctx W → Type 0 where
  start : Steps m sys bsearch from from
  slave_polled :
      {c c' : Ctx W} (is_readable : Bool)
      → Steps m sys bsearch from c
      → c.srv_polled ≡ true
      → egw_lb_slave_on_poll m sys bsearch is_readable c ≡ done c'
      → Steps m sys bsearch from c'
  master_polled :
      {c c' : Ctx W} (is_readable : Bool)
      → Steps m sys bsearch from c
      → c.cli_polled ≡ true
      → egw_lb_master_on_poll m sys bsearch is_readable c ≡ done c'
      → Steps m sys bsearch from c'
  timed_out :
      {c : Ctx W} → Steps m sys bsearch from c → Steps m sys bsearch from (egw_lb_on_timeout c)
