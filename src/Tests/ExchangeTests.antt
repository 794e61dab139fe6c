-- ===== src/Tests/ExchangeTests.antt =====
-- src/app: a request in two pieces and its answer in two pieces.
use service_data_gateway_edg.Prelude.{
  ℕ, ◌≡◌, refl, ap, List, [], ◌∷◌, some, ◌>>=◌, arith, drop, take,
}
use service_data_gateway_edg.Transport.Io.Reads.{transport_write-moved}
use service_data_gateway_edg.Server.Responses.{read_args}
use service_data_gateway_edg.Client.Receive.Fragments.{answer}
use service_data_gateway_edg.App.{Ctx}
use service_data_gateway_edg.App.Slave.{slave_read_cb}
use service_data_gateway_edg.App.Slave.Overflow.{slave_read_cb_no_rows}
use service_data_gateway_edg.App.Slave.Polls.{polls}
use service_data_gateway_edg.App.Slave.Answers.{CanAnswer}
use service_data_gateway_edg.App.Master.Polls.{master_polls, Completes}
use service_data_gateway_edg.App.Master.Completes.{other_half_written}
use service_data_gateway_edg.App.Exchange.{reply_frame, half_written, exchange-Completes}
use service_data_gateway_edg.Tests.ServerTests.{
  slot, asks, raw_len_2, slave-IsValid, slave_empty, master-Waits,
}
use service_data_gateway_edg.Tests.AppTests.{from_front}
use service_data_gateway_edg.Tests.PersistTests.{big_endian}
use service_data_gateway_edg.Tests.LoopTests.{
  Pieces, next_piece, line, srv_handle, cli_handle, frame, pieces, no_rows, listening, zeros,
}

abbrev zero_reply : List ℕ
zero_reply = answer slot 3 (0 ∷ 0 ∷ 0 ∷ 0 ∷ [])

abbrev reply_pieces : Pieces
reply_pieces = take 4 zero_reply ∷ drop 4 zero_reply ∷ []

abbrev both : Ctx Pieces
both = record listening {
  cli_h = some cli_handle;
  shared = no_rows ((1 ∷ 3 ∷ []) ∷ drop 2 frame ∷ reply_pieces);
}

both-CanAnswer :
    CanAnswer big_endian line from_front 1 3 16 2
      (slave_read_cb big_endian line from_front)
      zeros
      5
      reply_pieces
      (no_rows reply_pieces)
      both
unfolding service_data_gateway_edg.Server.Handlers.be_bytes
both-CanAnswer = record {
  rt = refl;
  idle = refl;
  asks = asks 2 (omega arith);
  has = refl;
  called =
      slave_read_cb_no_rows big_endian line from_front
        (read_args (slave_read_cb big_endian line from_front) 16 2 1) (no_rows reply_pieces) refl
        (omega arith);
  len = refl;
  small = omega (arith, raw_len_2);
  fits = omega arith;
  room = omega arith;
}

first_written :
    half_written big_endian line from_front slot 3 2
      (slave_read_cb big_endian line from_front)
      zeros
      both
      (no_rows reply_pieces)
    ≡ reply_pieces
unfolding service_data_gateway_edg.Server.Handlers.be_bytes
first_written =
    ap (λ r. r.2)
      (transport_write-moved line.os srv_handle 5 (take 4 zero_reply) 0 4 reply_pieces reply_pieces
        refl (omega arith) refl)

second_written :
    other_half_written big_endian line from_front both
      (reply_frame big_endian line from_front slot 3 2
        (slave_read_cb big_endian line from_front)
        zeros)
      (drop 4 zero_reply ∷ [])
    ≡ drop 4 zero_reply ∷ []
unfolding service_data_gateway_edg.Server.Handlers.be_bytes
second_written =
    ap (λ r. r.2)
      (transport_write-moved line.os srv_handle 5 (drop 4 zero_reply) 0 5 (drop 4 zero_reply ∷ [])
        (drop 4 zero_reply ∷ []) refl (omega arith) refl)

exchange-Completes_example :
    Completes big_endian line from_front
      (polls big_endian line from_front 2 both >>= master_polls big_endian line from_front 2)
unfolding service_data_gateway_edg.Server.Handlers.be_bytes
exchange-Completes_example =
    exchange-Completes big_endian line from_front slot 3 2
      (slave_read_cb big_endian line from_front) zeros both 64 srv_handle cli_handle 5 6 pieces
      (take 4 zero_reply) (drop 4 zero_reply) [] reply_pieces (drop 4 zero_reply ∷ []) []
      (no_rows reply_pieces) both-CanAnswer
      (record { handle = refl; open_fd = refl; no_response = refl }) slave-IsValid slave_empty
      (omega arith) refl (omega arith, (omega arith, tt))
      (drop 2 frame ∷ reply_pieces, λ n h. refl, (reply_pieces, λ n h. refl, refl)) master-Waits
      refl refl (omega arith) (omega arith) refl (omega arith) (omega arith) tt
      (drop 4 zero_reply ∷ [], λ n h. ap next_piece first_written, refl)
      ([], λ n h. ap next_piece second_written, refl)
