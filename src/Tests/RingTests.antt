-- ===== src/Tests/RingTests.antt =====
-- src/protocol/egw_modbus_server.c: a ring of eight bytes, in which three wait across the end.
use service_data_gateway_edg.Prelude.{false, ◌≡◌, refl, [], ◌∷◌, ◌≤◌, done, take, arith}
use service_data_gateway_edg.Modbus.{rtu}
use service_data_gateway_edg.Server.{Server}
use service_data_gateway_edg.Server.Ring.{buf_used, buf_free, ring_copy}
use service_data_gateway_edg.Server.Ring.Queue.{IsValid, contents, ring_copy-contents}
use service_data_gateway_edg.Server.Ring.Append.{Appended, ring_write-contents}

abbrev ring : Server
ring = record {
  transport = rtu;
  buf = 7 ∷ 0 ∷ 0 ∷ 0 ∷ 0 ∷ 0 ∷ 5 ∷ 6 ∷ [];
  buf_cap = 8;
  rd = 6;
  wr = 1;
  resp_buf = [];
  resp_cap = 0;
  resp_len = 0;
  unit_mask = [];
  sending = false;
}

ring-IsValid : IsValid ring
ring-IsValid = record { sized = refl; rd_in = omega arith; wr_in = omega arith }

waiting : contents ring ≡ 5 ∷ 6 ∷ 7 ∷ []
unfolding contents buf_used
waiting = refl

three_used : 2 ≤ buf_used ring
unfolding buf_used
three_used = omega arith

four_free : 4 ≤ buf_free ring
unfolding buf_free
four_free = omega arith

ring_write-contents_example : Appended ring (1 ∷ 2 ∷ 3 ∷ 4 ∷ [])
ring_write-contents_example = ring_write-contents ring (1 ∷ 2 ∷ 3 ∷ 4 ∷ []) ring-IsValid four_free

ring_copy-contents_example : ring_copy ring.buf 8 6 2 ≡ done (take 2 (contents ring))
ring_copy-contents_example = ring_copy-contents ring 2 ring-IsValid three_used
