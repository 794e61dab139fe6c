-- ===== src/Modbus/Frame.antt =====
-- Frame delimiting: `modbus_frame_len` and `parse_and_check` of src/protocol/egw_modbus_server.c,
-- `resp_frame_len` and `resp_parse` of src/protocol/egw_modbus_client.c.
pub mod Delimit
use service_data_gateway_edg.Prelude.{
  ℕ, ◌+◌, ◌||◌, List, Run, done, ◌>>=◌, load, ltb, if◌then◌else◌,
}
use service_data_gateway_edg.Modbus.{has_high_bit, is_read_fc, is_single_fc, is_multiple_fc}
use service_data_gateway_edg.Modbus.Decode.{crc_matches}

-- The `int` that the two length functions return: -1, -2, or a length.
pub data FrameLen : Type 0 where
  incomplete unknown : FrameLen
  exactly : ℕ → FrameLen

-- `egw_proto_result_t`, with `*frame_len` where it is written.
pub data ProtoResult : Type 0 where
  need_more frame_error : ProtoResult
  frame_ready : ℕ → ProtoResult

-- `modbus_frame_len`, for requests.
unfoldable pub modbus_frame_len : List ℕ → ℕ → Run FrameLen
unfolding has_high_bit
modbus_frame_len buf len = if ltb len 2 then done incomplete else (do
  func ← load buf 1
  if has_high_bit func
      then done (exactly 5)
      else if is_read_fc func || is_single_fc func
      then done (exactly 8)
      else if is_multiple_fc func
      then (if ltb len 7 then done incomplete else (do n ← load buf 6; done (exactly (9 + n))))
      else done unknown)

-- `resp_frame_len`, for responses.
unfoldable pub resp_frame_len : List ℕ → ℕ → Run FrameLen
unfolding has_high_bit
resp_frame_len buf len = if ltb len 2 then done incomplete else (do
  func ← load buf 1
  if has_high_bit func
      then done (exactly 5)
      else if is_read_fc func
      then (if ltb len 3 then done incomplete else (do n ← load buf 2; done (exactly (3 + n + 2))))
      else if is_single_fc func || is_multiple_fc func
      then done (exactly 8)
      else done unknown)

-- The rest of `parse_and_check` and `resp_parse`, which differ in the length function only.
unfoldable pub check_frame : List ℕ → ℕ → FrameLen → Run ProtoResult
check_frame buf len incomplete = done need_more
check_frame buf len unknown = done frame_error
check_frame buf len (exactly n) =
    if ltb len n
    then done need_more
    else (do valid ← crc_matches buf n; if valid then done (frame_ready n) else done frame_error)

-- `parse_and_check`.
unfoldable pub parse_and_check : List ℕ → ℕ → Run ProtoResult
unfolding check_frame
parse_and_check buf len =
    if ltb len 4 then done need_more else (do n ← modbus_frame_len buf len; check_frame buf len n)

-- `resp_parse`.
unfoldable pub resp_parse : List ℕ → ℕ → Run ProtoResult
unfolding check_frame
resp_parse buf len =
    if ltb len 4 then done need_more else (do n ← resp_frame_len buf len; check_frame buf len n)
