-- ===== src/Persist/Thread/Stop.antt =====
-- src/app/egw_persist_thread.c: from enqueueing to the database, through the stop and the last flush.

use service_data_gateway_edg.Prelude.{
  ℕ, ◌+◌, ◌≤◌, ◌<◌, ◌≡◌, ◌≢◌, true, List, [], ◌∷◌, ◌++◌, length, All,
}
use service_data_gateway_edg.Ptable.{clip}
use service_data_gateway_edg.Persist.Thread.{
  Word16, PersistThread, Item, ThreadOs, egw_persist_thread_enqueue,
}
use service_data_gateway_edg.Persist.Thread.Items.{IsWord16}
use service_data_gateway_edg.Persist.Thread.Flush.{Pipe}

-- The pipe takes what is written to its writing end while it has room (65536 bytes on Linux), and
-- only reading takes bytes out; only stepping the insertion changes what the database holds.
pub record Keeps {W : Type 0} (sys : ThreadOs W) (r write_end : ℕ) (pipe : Pipe sys r)
    : Type 0 where
  pub wrote :
      (bytes : List ℕ) (w : W)
      → length (pipe.queue w) + length bytes ≤ 65536
      → pipe.queue (sys.os.write_fd write_end bytes w).1 ≡ pipe.queue w ++ bytes
  pub wrote_log :
      (bytes : List ℕ) (w : W) → pipe.log (sys.os.write_fd write_end bytes w).1 ≡ pipe.log w
  pub wrote_running :
      (bytes : List ℕ) (w : W)
      → sys.running w ≡ true
      → sys.running (sys.os.write_fd write_end bytes w).1 ≡ true
  pub stopped_queue :
      (w : W) → pipe.queue (sys.os.close_fd write_end (sys.stop_running w)) ≡ pipe.queue w
  pub stopped_log : (w : W) → pipe.log (sys.os.close_fd write_end (sys.stop_running w)) ≡ pipe.log w
  pub begun_queue : (w : W) → pipe.queue (sys.db.exec_begin w) ≡ pipe.queue w
  pub begun_log : (w : W) → pipe.log (sys.db.exec_begin w) ≡ pipe.log w
  pub ended_queue : (w : W) → pipe.queue (sys.db.close (sys.db.exec_commit w)) ≡ pipe.queue w
  pub ended_log : (w : W) → pipe.log (sys.db.close (sys.db.exec_commit w)) ≡ pipe.log w

-- The arguments of a call of `egw_persist_thread_enqueue`: a C string and three 16 bit words.
pub record IsCall (i : Item) : Type 0 where
  pub text : All (λ b. b ≢ 0) i.table
  pub device_16 : i.device_id < 65536
  pub addr_16 : i.reg_addr < 65536
  pub value_16 : i.value < 65536

-- The name is cut to 15 bytes.
abbrev pub as_sent : Item → Item
as_sent i = record i { table = clip 15 i.table }

module _ {W : Type 0} (m : Word16) (law : IsWord16 m) (sys : ThreadOs W) where
  -- One call after the other.
  unfoldable pub enqueue_all : PersistThread → List Item → W → W
  enqueue_all pt [] w = w
  enqueue_all pt (i ∷ items) w =
      enqueue_all pt items
        (egw_persist_thread_enqueue m sys pt i.table i.device_id i.reg_addr i.value w)

  module _ (r : ℕ) (pipe : Pipe sys r) (pt : PersistThread)
      (keeps : Keeps sys r pt.write_end pipe) where
    record Holds (w : W) (queue : List ℕ) (log : List Item) : Type 0 where
      queued : pipe.queue w ≡ queue
      logged : pipe.log w ≡ log
