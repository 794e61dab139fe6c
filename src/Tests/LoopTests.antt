-- ===== src/Tests/LoopTests.antt =====
-- src/app: the loop between the two sides, and a request that is too large.
use service_data_gateway_edg.Prelude.{
  ℕ, ◌≡◌, refl, true, false, List, [], ◌∷◌, none, some, done, fault, arith, length, drop, replicate,
  ap, ◌∙◌, take,
}
use service_data_gateway_edg.Server.Process.{server_handle_frame}
use service_data_gateway_edg.Server.Process.Serve.{request_adu}
use service_data_gateway_edg.Transport.Io.Reads.{transport_write-moved}
use service_data_gateway_edg.Server.Responses.{responded}
use service_data_gateway_edg.Server.Ring.Queue.{contents, length-contents}
use service_data_gateway_edg.Server.Process.Feed.{nil_of}
use service_data_gateway_edg.Client.Receive.Fragments.{answer}
use service_data_gateway_edg.App.Master.Polls.{master_polls, Completes}
use service_data_gateway_edg.App.Master.Completes.{HalfWay, other_half_written, loop-Completes}
use service_data_gateway_edg.Tests.ServerTests.{slot, master-Waits}
use service_data_gateway_edg.App.{server_recv, Shared, Ctx}
use service_data_gateway_edg.App.Slave.{slave_callbacks, slave_read_cb, egw_lb_slave_on_poll}
use service_data_gateway_edg.App.Slave.Overflow.{request_overflow, slave_read_cb_no_rows}
use service_data_gateway_edg.App.Slave.Polls.{polls}
use service_data_gateway_edg.App.Slave.Answers.{CanAnswer, Answered, polls_answer}
use service_data_gateway_edg.Server.Responses.{read_args}
use service_data_gateway_edg.Modbus.Encode.Frames.{rtu_frame}
use service_data_gateway_edg.Modbus.Pdu.RoundTrip.{read_pdu}
use service_data_gateway_edg.Transport.{Sys, moved, again, serial, Handle}
use service_data_gateway_edg.Persist.Thread.{ThreadOs, poll_failed}
use service_data_gateway_edg.App.Master.{egw_lb_on_timeout}
use service_data_gateway_edg.App.Run.{start, slave_polled, timed_out}
use service_data_gateway_edg.App.Run.Alternates.{Started, Alternates, Steps-Alternates}
use service_data_gateway_edg.Tests.ServerTests.{
  slave, master, asks, raw_len_2, slave-IsValid, slave_empty,
}
use service_data_gateway_edg.Tests.AppTests.{from_front}
use service_data_gateway_edg.Tests.PersistTests.{World, big_endian, sys}

abbrev shared : Shared World
shared = record { slave_rs = none; persist = none; world = ([], []) }

request_overflow_example :
    server_handle_frame
      (slave_callbacks big_endian sys from_front)
      slave
      (request_adu slave 0 1 3 16 300 [])
      8
      shared
    ≡ fault
request_overflow_example =
    request_overflow big_endian sys from_front slave 0 1 3 16 300 [] shared (asks 300 (omega arith))
      (omega arith)

abbrev started : Ctx World
started = record {
  cli_h = none;
  srv_h = none;
  server = slave;
  cli = master;
  req_slot = 64;
  phase = server_recv;
  seg_pending = false;
  cli_polled = false;
  srv_polled = true;
  stopped = false;
  shared = shared;
}

started-Started : Started started
started-Started = record {
  receiving = refl;
  nothing_pending = refl;
  master_waits = refl;
  slave_listens = refl;
}

nothing_read : egw_lb_slave_on_poll big_endian sys from_front false started ≡ done started
unfolding egw_lb_slave_on_poll
nothing_read = refl

Steps-Alternates_example : Alternates (egw_lb_on_timeout started)
Steps-Alternates_example =
    Steps-Alternates big_endian sys from_front started (egw_lb_on_timeout started) started-Started
      (timed_out (slave_polled false start refl nothing_read))

-- A line is the pieces that it delivers.
abbrev pub Pieces : Type 0
Pieces = List (List ℕ)

abbrev pub next_piece : Pieces → Sys (List ℕ) × Pieces
next_piece [] = (again, [])
next_piece (p ∷ ps) = (moved p, ps)

abbrev pub line : ThreadOs Pieces
line = record {
  os = record {
    read_fd = λ fd n w. next_piece w;
    write_fd = λ fd bytes w. (moved (length bytes), w);
    close_fd = λ fd w. w;
  };
  db = record {
    sqlite_open = λ path w. (true, w);
    exec_wal = λ w. w;
    exec_create = λ w. (true, w);
    exec_begin = λ w. w;
    exec_commit = λ w. w;
    put_prepares = λ w. true;
    step_put = λ t d a v w. w;
    dump_prepares = λ t w. false;
    step_dump = λ t w. w;
    close = λ w. w;
  };
  poll = λ fd ms w. (poll_failed, w);
  running = λ w. false;
  stop_running = λ w. w;
}

abbrev pub srv_handle : Handle
srv_handle = record { fd = some 5; driver = serial }

abbrev pub frame : List ℕ
frame = rtu_frame 1 (read_pdu 3 16 2)

abbrev pub pieces : Pieces
pieces = (1 ∷ 3 ∷ []) ∷ drop 2 frame ∷ []

abbrev pub no_rows : Pieces → Shared Pieces
no_rows w = record { slave_rs = none; persist = none; world = w }

abbrev pub listening : Ctx Pieces
listening = record {
  cli_h = none;
  srv_h = some srv_handle;
  server = slave;
  cli = master;
  req_slot = 64;
  phase = server_recv;
  seg_pending = false;
  cli_polled = false;
  srv_polled = true;
  stopped = false;
  shared = no_rows pieces;
}

abbrev pub zeros : List ℕ
zeros = replicate 256 0

can_answer :
    CanAnswer big_endian line from_front 1 3 16 2
      (slave_read_cb big_endian line from_front)
      zeros
      5
      []
      (no_rows [])
      listening
unfolding service_data_gateway_edg.Server.Handlers.be_bytes
can_answer = record {
  rt = refl;
  idle = refl;
  asks = asks 2 (omega arith);
  has = refl;
  called =
      slave_read_cb_no_rows big_endian line from_front
        (read_args (slave_read_cb big_endian line from_front) 16 2 1) (no_rows []) refl
        (omega arith);
  len = refl;
  small = omega (arith, raw_len_2);
  fits = omega arith;
  room = omega arith;
}

polls_answer_example :
    Answered big_endian line from_front 1 3 16 2
      (slave_read_cb big_endian line from_front)
      zeros
      5
      []
      (no_rows [])
      listening
      (polls big_endian line from_front 2 listening)
polls_answer_example =
    polls_answer big_endian line from_front 1 3 16 2 (slave_read_cb big_endian line from_front)
      zeros 5 [] (no_rows []) listening srv_handle pieces can_answer
      (record { handle = refl; open_fd = refl; no_response = refl }) slave-IsValid slave_empty
      (omega arith) refl (omega arith, (omega arith, tt))
      (drop 2 frame ∷ [], λ n h. refl, ([], λ n h. refl, refl))

abbrev data_bytes : List ℕ
data_bytes = 0 ∷ 10 ∷ 0 ∷ 20 ∷ []

abbrev reply : List ℕ
reply = answer slot 3 data_bytes

abbrev pub cli_handle : Handle
cli_handle = record { fd = some 6; driver = serial }

abbrev half_way : Ctx Pieces
half_way = record listening {
  cli_h = some cli_handle;
  server = responded slave reply [];
  seg_pending = true;
  cli_polled = true;
  srv_polled = false;
  shared = no_rows (take 4 reply ∷ drop 4 reply ∷ []);
}

half_way-HalfWay : HalfWay big_endian line from_front half_way 64 slot 3 data_bytes cli_handle 6
half_way-HalfWay = record {
  waits = master-Waits;
  handle = refl;
  open_fd = refl;
  pending = refl;
  slave = slave;
  tail = [];
  response = refl;
  empty = nil_of (contents slave) (length-contents slave slave-IsValid ∙ slave_empty);
  valid = slave-IsValid;
  small = omega arith;
  even = refl;
  room = omega arith;
}

half_written :
    other_half_written big_endian line from_front half_way reply (drop 4 reply ∷ [])
    ≡ drop 4 reply ∷ []
half_written =
    ap (λ r. r.2)
      (transport_write-moved line.os srv_handle 5 (drop 4 reply) 0 5 (drop 4 reply ∷ [])
        (drop 4 reply ∷ []) refl (omega arith) refl)

loop-Completes_example :
    Completes big_endian line from_front (master_polls big_endian line from_front 2 half_way)
loop-Completes_example =
    loop-Completes big_endian line from_front half_way 64 slot 3 data_bytes cli_handle 6
      (take 4 reply) (drop 4 reply) [] (drop 4 reply ∷ []) [] half_way-HalfWay refl (omega arith)
      (omega arith) tt (drop 4 reply ∷ [], λ n h. refl, refl)
      ([], λ n h. ap next_piece half_written, refl)
