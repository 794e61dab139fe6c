-- ===== src/Persist/Thread.antt =====
-- src/app/egw_persist_thread.c: the pipe between the loop and the thread that writes to the database.
pub mod Items
pub mod Flush
pub mod Stop
use service_data_gateway_edg.Prelude.{
  ℕ, zero, suc, ◌+◌, ◌-◌, ◌*◌, ◌/◌, ◌%◌, ◌&&◌, Bool, true, false, not, List, [], ◌∷◌, ◌++◌, Option,
  none, some, Run, done, fault, ◌>>=◌, length, take, drop, replicate, ltb, ◌==◌, if◌then◌else◌,
}
use service_data_gateway_edg.Ptable.{Text, clip}
use service_data_gateway_edg.Ptable.Head.{codes}
use service_data_gateway_edg.Transport.{Sys, moved, again, failed, Os}
use service_data_gateway_edg.Persist.{
  Db, egw_persist_open, egw_persist_begin, egw_persist_put, egw_persist_commit,
  egw_persist_full_dump, egw_persist_close,
}

-- How the machine keeps a `uint16_t` in two bytes.
pub record Word16 : Type 0 where
  pub bytes : ℕ → List ℕ
  pub value : List ℕ → ℕ

-- `struct egw_persist_thread`, less `persist`, which only the thread itself has, and `running`, which
-- two threads share.
pub record PersistThread : Type 0 where
  pub read_end : ℕ
  pub write_end : ℕ
  pub interval_ms : ℕ
  pub db_path : Text

-- `egw_persist_item_t`.
pub record Item : Type 0 where
  pub table : Text
  pub device_id : ℕ
  pub reg_addr : ℕ
  pub value : ℕ

abbrev pub item_size : ℕ
item_size = 32

-- The code writes and reads the struct as it lies in memory. Its 32 bytes are laid out by its
-- declaration: 16 for `table`, in which `memset` has left zeros behind the name, two for each word, and
-- the ten of `_pad`; every offset is aligned, so the compiler puts nothing between them.
unfoldable pub item_bytes : Word16 → Item → List ℕ
item_bytes m i =
    i.table
    ++ (replicate (16 - length i.table) 0
        ++ (m.bytes i.device_id ++ (m.bytes i.reg_addr ++ (m.bytes i.value ++ replicate 10 0))))

-- The C string that starts in front of the first 0.
unfoldable pub c_string : List ℕ → Text
c_string [] = []
c_string (b ∷ bs) = if b == 0 then [] else b ∷ c_string bs

-- The members of the struct that lies in these 32 bytes; `table` is handed on as a C string.
unfoldable pub item_of : Word16 → List ℕ → Item
unfolding c_string
item_of m bs = record {
  table = c_string (take 16 bs);
  device_id = m.value (take 2 (drop 16 bs));
  reg_addr = m.value (take 2 (drop 18 bs));
  value = m.value (take 2 (drop 20 bs));
}

-- What `poll` returns: -1, 0, or a positive number with or without POLLIN.
pub data Polled : Type 0 where
  poll_failed timed_out readable other_event : Polled

-- The other calls that the thread makes; `running` reads the flag.
pub record ThreadOs (W : Type 0) : Type 0 where
  pub os : Os W
  pub db : Db W
  pub poll : ℕ → ℕ → W → Polled × W
  pub running : W → Bool
  pub stop_running : W → W

module _ {W : Type 0} (m : Word16) (sys : ThreadOs W) where
  -- `egw_persist_thread_enqueue`; what `write` returns is not looked at.
  unfoldable pub egw_persist_thread_enqueue : PersistThread → Text → ℕ → ℕ → ℕ → W → W
  unfolding item_bytes
  egw_persist_thread_enqueue pt table device_id reg_addr value w =
      if not (sys.running w)
      then w
      else (sys.os.write_fd pt.write_end
          (item_bytes m (record {
            table = clip 15 table;
            device_id = device_id;
            reg_addr = reg_addr;
            value = value;
          }))
          w).1

  -- The loop over the items of one `read`.
  unfoldable pub put_items : ℕ → List ℕ → W → W
  unfolding item_of
  put_items zero buf w = w
  put_items (suc count) buf w =
      let i = item_of m (take item_size buf) in
      put_items count (drop item_size buf)
        (egw_persist_put sys.db i.table i.device_id i.reg_addr i.value w)

  -- One round of a reading loop, and whether the loop goes on.
  drain_round : Sys (List ℕ) × W → Bool × W
  unfolding put_items
  drain_round (moved [], w) = (false, w)
  drain_round (moved (b ∷ bs), w) = (true, put_items (length (b ∷ bs) / item_size) (b ∷ bs) w)
  drain_round (again, w) = (false, w)
  drain_round (failed, w) = (false, w)

  -- A reading loop: 64 items at a time until `read` gives nothing. `fault` is running out of fuel.
  unfoldable pub drain : ℕ → PersistThread → W → Run W
  unfolding drain_round
  drain zero pt w = fault
  drain (suc fuel) pt w =
      let (more, w') = drain_round (sys.os.read_fd pt.read_end (64 * item_size) w) in
      elim more [ true ↦ drain fuel pt w' | false ↦ done w' ]

  -- What the main loop does behind `poll`, and whether it goes on.
  thread_round : ℕ → PersistThread → Polled × W → Run (Bool × W)
  unfolding drain
  thread_round fuel pt (poll_failed, w) = done (false, w)
  thread_round fuel pt (timed_out, w) =
      done (true, egw_persist_commit sys.db (egw_persist_begin sys.db w))
  thread_round fuel pt (other_event, w) =
      done (true, egw_persist_commit sys.db (egw_persist_begin sys.db w))
  thread_round fuel pt (readable, w) = do
    w ← drain fuel pt (egw_persist_begin sys.db w)
    done (true, egw_persist_commit sys.db w)

  -- The main loop, of at most `rounds` rounds.
  unfoldable pub thread_loop : ℕ → ℕ → PersistThread → W → Run W
  unfolding thread_round
  thread_loop zero fuel pt w = fault
  thread_loop (suc rounds) fuel pt w = elim (sys.running w) [
    | false ↦ done w
    | true ↦
        thread_round fuel pt (sys.poll pt.read_end pt.interval_ms w)
        >>= (λ r. elim r.0 [ true ↦ thread_loop rounds fuel pt r.1 | false ↦ done r.1 ])
  ]

  -- The last flush, behind the main loop.
  unfoldable pub last_flush : ℕ → PersistThread → W → Run W
  unfolding drain
  last_flush fuel pt w = do
    w ← drain fuel pt (egw_persist_begin sys.db w)
    done (egw_persist_close sys.db (egw_persist_commit sys.db w))

  -- `egw_persist_thread_fn`.
  unfoldable pub egw_persist_thread_fn : Bool → ℕ → ℕ → PersistThread → W → Run W
  unfolding thread_loop last_flush
  egw_persist_thread_fn calloc_ok rounds fuel pt w =
      let opened = egw_persist_open sys.db calloc_ok pt.db_path w in
      if not opened.0 then done opened.1 else (do
        let w = egw_persist_begin sys.db opened.1
        let w = egw_persist_full_dump sys.db (codes "southbound") w
        let w = egw_persist_full_dump sys.db (codes "northbound") w
        w ← thread_loop rounds fuel pt (egw_persist_commit sys.db w)
        last_flush fuel pt w)

  -- `egw_persist_thread_request_stop` and `egw_persist_thread_destroy`, which closes the writing end
  -- a second time.
  unfoldable pub egw_persist_thread_request_stop : PersistThread → W → W
  egw_persist_thread_request_stop pt w = sys.os.close_fd pt.write_end (sys.stop_running w)

  unfoldable pub egw_persist_thread_destroy : PersistThread → W → W
  egw_persist_thread_destroy pt w = sys.os.close_fd pt.write_end (sys.os.close_fd pt.read_end w)

-- `egw_persist_thread_create`, of what `pipe` returns.
unfoldable pub egw_persist_thread_create : Bool → Option (ℕ × ℕ) → Text → ℕ → Option PersistThread
egw_persist_thread_create calloc_ok none db_path interval_ms = none
egw_persist_thread_create calloc_ok (some (r, w)) db_path interval_ms =
    if not calloc_ok
    then none
    else some (record {
      read_end = r;
      write_end = w;
      interval_ms = interval_ms;
      db_path = clip 255 db_path;
    })
