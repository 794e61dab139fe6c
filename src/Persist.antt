-- ===== src/Persist.antt =====
-- src/ptable/egw_persist.c and src/app/egw_persist_thread.c: run-time values on their way to the
-- database. SQLite is the parameter `Db`; what the statements do is not looked into.
pub mod Thread
use service_data_gateway_edg.Prelude.{
  ℕ, ◌+◌, ◌-◌, ◌%◌, ◌&&◌, Bool, true, false, not, List, [], ◌∷◌, ◌++◌, Option, none, some, length,
  take, drop, replicate, ◌==◌, if◌then◌else◌,
}
use service_data_gateway_edg.Ptable.{Text, clip}

-- The calls of SQLite: opening, `sqlite3_exec` of the pragma, of the table's creation, of BEGIN and
-- of COMMIT, whether the two statements prepare, stepping them with their values bound, closing.
pub record Db (W : Type 0) : Type 0 where
  pub sqlite_open : Text → W → Bool × W
  pub exec_wal : W → W
  pub exec_create : W → Bool × W
  pub exec_begin : W → W
  pub exec_commit : W → W
  pub put_prepares : W → Bool
  pub step_put : Text → ℕ → ℕ → ℕ → W → W
  pub dump_prepares : Text → W → Bool
  pub step_dump : Text → W → W
  pub close : W → W

module _ {W : Type 0} (db : Db W) where
  -- `egw_persist_open`: whether there is a handle.
  unfoldable pub egw_persist_open : Bool → Text → W → Bool × W
  egw_persist_open calloc_ok db_path w =
      if not calloc_ok
      then (false, w)
      else let opened = db.sqlite_open db_path w in
        if not opened.0
        then (false, opened.1)
        else let created = db.exec_create (db.exec_wal opened.1) in
          if created.0 then (true, created.1) else (false, db.close created.1)

  -- `egw_persist_begin`, `egw_persist_commit` and `egw_persist_close`.
  unfoldable pub egw_persist_begin : W → W
  egw_persist_begin w = db.exec_begin w

  unfoldable pub egw_persist_commit : W → W
  egw_persist_commit w = db.exec_commit w

  unfoldable pub egw_persist_close : W → W
  egw_persist_close w = db.close w

  -- `egw_persist_put`.
  unfoldable pub egw_persist_put : Text → ℕ → ℕ → ℕ → W → W
  egw_persist_put table device_id reg_addr value w =
      if db.put_prepares w then db.step_put table device_id reg_addr value w else w

  -- `egw_persist_full_dump`.
  unfoldable pub egw_persist_full_dump : Text → W → W
  egw_persist_full_dump table w = if db.dump_prepares table w then db.step_dump table w else w
