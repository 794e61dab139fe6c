-- ===== src/Tests/FragmentTests.antt =====
-- src/protocol: frames that arrive in pieces.
use service_data_gateway_edg.Prelude.{ℕ, ◌≡◌, refl, List, [], ◌∷◌, done, arith, drop}
use service_data_gateway_edg.Modbus.Pdu.{words}
use service_data_gateway_edg.Modbus.Pdu.RoundTrip.{read_pdu, read_resp_pdu}
use service_data_gateway_edg.Modbus.Encode.Frames.{rtu_frame}
use service_data_gateway_edg.Server.Handlers.{be_bytes}
use service_data_gateway_edg.Server.Process.Fragments.{Ready, Served, take_in_all, fragments_serve}
use service_data_gateway_edg.Client.{received}
use service_data_gateway_edg.Client.Receive.Deliver.{delivered}
use service_data_gateway_edg.Client.Receive.Fragments.{receive_all, fragments_deliver}
use service_data_gateway_edg.Tests.ServerTests.{
  slave, registers, read_registers, cbs, asks, raw_len_2, slave-IsValid, slave_empty, slot, master,
  master-Waits,
}

abbrev response : List ℕ
response = rtu_frame 1 (read_resp_pdu 3 (0 ∷ 10 ∷ 0 ∷ 20 ∷ []))

fragments_deliver_example :
    receive_all master ((1 ∷ []) ∷ (3 ∷ 4 ∷ []) ∷ drop 3 response ∷ [])
    ≡ done (received 1 16 (words (0 ∷ 10 ∷ 0 ∷ 20 ∷ [])) ∷ [], delivered master response)
fragments_deliver_example =
    fragments_deliver master 64 slot 3 (0 ∷ 10 ∷ 0 ∷ 20 ∷ [])
      ((1 ∷ []) ∷ (3 ∷ 4 ∷ []) ∷ drop 3 response ∷ []) master-Waits refl
      (omega arith, (omega arith, (omega arith, tt))) (omega arith) refl (omega arith)

abbrev request : List ℕ
request = rtu_frame 1 (read_pdu 3 16 2)

slave-Ready : Ready cbs 1 3 16 2 slave read_registers registers 0 1
unfolding be_bytes
slave-Ready = record {
  rt = refl;
  idle = refl;
  asks = asks 2 (omega arith);
  has = refl;
  called = refl;
  len = refl;
  small = omega (arith, raw_len_2);
  fits = omega arith;
  room = omega arith;
}

fragments_serve_example :
    Served cbs 1 3 16 2 registers 1 slave
      (take_in_all cbs slave ((1 ∷ 3 ∷ []) ∷ drop 2 request ∷ []) 0)
fragments_serve_example =
    fragments_serve cbs 1 3 16 2 read_registers registers 0 1 slave
      ((1 ∷ 3 ∷ []) ∷ drop 2 request ∷ []) slave-Ready slave-IsValid slave_empty (omega arith) refl
      (omega arith, (omega arith, tt))
