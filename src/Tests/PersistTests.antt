-- ===== src/Tests/PersistTests.antt =====
-- src/app/egw_persist_thread.c: a world that is the bytes of the pipe and the rows of the database.
use service_data_gateway_edg.Prelude.{
  ℕ, ◌+◌, ◌*◌, ◌/◌, ◌%◌, refl, ap, true, false, List, [], ◌∷◌, ◌++◌, arith, length, take, drop,
}
use service_data_gateway_edg.Ptable.Head.{codes}
use service_data_gateway_edg.Transport.{moved}
use service_data_gateway_edg.Persist.Thread.{
  Word16, PersistThread, Item, ThreadOs, timed_out, drain,
}
use service_data_gateway_edg.Persist.Thread.Items.{IsWord16, IsItem}
use service_data_gateway_edg.Persist.Thread.Flush.{Pipe, Flushed, bytes_of, drain_delivers}

abbrev be_value : List ℕ → ℕ
be_value [] = 0
be_value (a ∷ []) = 0
be_value (a ∷ b ∷ l) = a * 256 + b

abbrev pub big_endian : Word16
big_endian = record { bytes = λ x. x / 256 ∷ x % 256 ∷ []; value = be_value }

big_endian-IsWord16 : IsWord16 big_endian
big_endian-IsWord16 = record { two = λ x. refl; back = λ x h. omega arith }

abbrev item : Item
item = record { table = codes "northbound"; device_id = 1; reg_addr = 16; value = 26 }

item-IsItem : IsItem item
item-IsItem = record {
  text = (
    omega arith,
    (
      omega arith,
      (
        omega arith,
        (
          omega arith,
          (
            omega arith,
            (omega arith, (omega arith, (omega arith, (omega arith, (omega arith, tt))))),
          ),
        ),
      ),
    ),
  );
  short = omega arith;
  device_16 = omega arith;
  addr_16 = omega arith;
  value_16 = omega arith;
}

abbrev pub World : Type 0
World = List ℕ × List Item

abbrev pub sys : ThreadOs World
sys = record {
  os = record {
    read_fd = λ fd n w. (moved (take 2048 w.0), (drop 2048 w.0, w.1));
    write_fd = λ fd bytes w. (moved (length bytes), (w.0 ++ bytes, w.1));
    close_fd = λ fd w. w;
  };
  db = record {
    sqlite_open = λ path w. (true, w);
    exec_wal = λ w. w;
    exec_create = λ w. (true, w);
    exec_begin = λ w. w;
    exec_commit = λ w. w;
    put_prepares = λ w. true;
    step_put = λ t d a v w.
        (w.0, w.1 ++ record { table = t; device_id = d; reg_addr = a; value = v } ∷ []);
    dump_prepares = λ t w. false;
    step_dump = λ t w. w;
    close = λ w. w;
  };
  poll = λ fd ms w. (timed_out, w);
  running = λ w. false;
  stop_running = λ w. w;
}

abbrev sys_pipe : Pipe sys 3
sys_pipe = record {
  queue = λ w. w.0;
  log = λ w. w.1;
  read_ended = λ w e. (
    (drop 2048 w.0, w.1),
    ap (λ q. (moved (take 2048 q), (drop 2048 w.0, w.1))) e,
    ap (drop 2048) e,
    refl,
  );
  read_some = λ w h. ((drop 2048 w.0, w.1), refl, refl, refl);
  prepares = λ w. refl;
  put_log = λ t d a v w. refl;
  put_queue = λ t d a v w. refl;
}

abbrev thread : PersistThread
thread = record { read_end = 3; write_end = 4; interval_ms = 5000; db_path = [] }

drain_delivers_example :
    Flushed big_endian big_endian-IsWord16 sys 3 sys_pipe
      (bytes_of big_endian (item ∷ item ∷ []), [])
      (item ∷ item ∷ [])
      (drain big_endian sys 3 thread (bytes_of big_endian (item ∷ item ∷ []), []))
drain_delivers_example =
    drain_delivers big_endian big_endian-IsWord16 sys 3 sys_pipe thread (item ∷ item ∷ [])
      (bytes_of big_endian (item ∷ item ∷ []), []) refl (item-IsItem, (item-IsItem, tt)) refl

-- The same while the flag is set.
abbrev running_sys : ThreadOs World
running_sys = record sys { running = λ w. true }

abbrev running_pipe : Pipe running_sys 3
running_pipe = record {
  queue = λ w. w.0;
  log = λ w. w.1;
  read_ended = sys_pipe.read_ended;
  read_some = sys_pipe.read_some;
  prepares = λ w. refl;
  put_log = λ t d a v w. refl;
  put_queue = λ t d a v w. refl;
}

abbrev calls : List Item
calls = record item { table = 112 ∷ 117 ∷ 109 ∷ 112 ∷ [] } ∷ record item { table = [] } ∷ []
