-- ===== src/Server/Ring.antt =====
-- src/protocol/egw_modbus_server.c: the receive ring.
pub mod Queue
pub mod Store
pub mod Append
use service_data_gateway_edg.Prelude.{
  ℕ, ◌+◌, ◌-◌, ◌%◌, ◌++◌, List, Run, done, ◌>>=◌, slice, store, ltb, leb, ◌==◌, if◌then◌else◌,
}
use service_data_gateway_edg.Server.{Server}

-- `buf_used`. The subtractions do not wrap where `rd` and `wr` are below `buf_cap`.
unfoldable pub buf_used : Server → ℕ
buf_used s = if leb s.rd s.wr then s.wr - s.rd else s.buf_cap - s.rd + s.wr

-- `buf_free`, one slot short of the capacity.
unfoldable pub buf_free : Server → ℕ
unfolding buf_used
buf_free s = s.buf_cap - buf_used s - 1

-- `ring_copy`: the `len` bytes from `rd` on, going round at `cap`.
unfoldable pub ring_copy : List ℕ → ℕ → ℕ → ℕ → Run (List ℕ)
ring_copy buf cap rd len = if leb len (cap - rd) then slice buf rd len else (do
  front ← slice buf rd (cap - rd)
  back ← slice buf 0 (len - (cap - rd))
  done (front ++ back))

-- The copy into the ring of `egw_modbus_server_feed`, with the new `wr`.
unfoldable pub ring_write : Server → List ℕ → ℕ → Run Server
ring_write s bytes len =
    if leb len (s.buf_cap - s.wr)
    then (do
      src ← slice bytes 0 len
      b ← store s.buf s.wr src
      done (record s { buf = b; wr = (s.wr + len) % s.buf_cap }))
    else (do
      front ← slice bytes 0 (s.buf_cap - s.wr)
      back ← slice bytes (s.buf_cap - s.wr) (len - (s.buf_cap - s.wr))
      b ← store s.buf s.wr front
      b ← store b 0 back
      done (record s { buf = b; wr = (s.wr + len) % s.buf_cap }))

-- The contiguous space that `reserve` and `commit` reckon with.
unfoldable pub contig : Server → ℕ
contig s = if ltb s.wr s.rd then s.rd - s.wr - 1 else s.buf_cap - s.wr

-- `egw_modbus_server_reserve`: the offset into `buf` that is handed out, if any, and the space.
unfoldable pub egw_modbus_server_reserve : Server → ℕ × ℕ
unfolding buf_free contig
egw_modbus_server_reserve s =
    if s.sending
    then (0, 0)
    else if buf_free s == 0
    then (0, 0)
    else (s.wr, if ltb (contig s) (buf_free s) then contig s else buf_free s)
