-- ===== src/Transport/Io.antt =====
-- src/transport: reading, writing and closing, of both drivers and through a handle.
pub mod Reads
use service_data_gateway_edg.Prelude.{
  ℕ, List, [], ◌∷◌, Option, none, some, Run, done, ◌>>=◌, store, length, ◌==◌, if◌then◌else◌,
}
use service_data_gateway_edg.Defs.{Err, ok, invalid_arg, read_err, write_err}
use service_data_gateway_edg.Transport.{
  Sys, moved, again, failed, Os, Driver, serial, tcp_socket, Handle,
}

-- `*out_len` with the buffer that the bytes go to.
abbrev pub Got : Type 0 → Type 0
Got W = Run (Err × ℕ × List ℕ × W)

module _ {W : Type 0} (os : Os W) where
  -- The result of `read`, for the place `buf + off`.
  read_result : List ℕ → ℕ → ℕ → Sys (List ℕ) × W → Got W
  read_result buf off out_len (moved [], w) = done (read_err, out_len, buf, w)
  read_result buf off out_len (moved (b ∷ bs), w) = do
    buf ← store buf off (b ∷ bs)
    done (ok, length (b ∷ bs), buf, w)
  read_result buf off out_len (again, w) = done (ok, 0, buf, w)
  read_result buf off out_len (failed, w) = done (read_err, out_len, buf, w)

  -- On the descriptor -1 `read` fails.
  read_at : Option ℕ → List ℕ → ℕ → ℕ → ℕ → W → Got W
  unfolding read_result
  read_at none buf off out_len cap w = done (read_err, out_len, buf, w)
  read_at (some fd) buf off out_len cap w = read_result buf off out_len (os.read_fd fd cap w)

  -- `read_serial` and `read_tcp`, for the place `buf + off` with room for `cap` bytes.
  unfoldable pub read_serial : Handle → List ℕ → ℕ → ℕ → ℕ → W → Got W
  unfolding read_at
  read_serial h buf off out_len cap w =
      if cap == 0 then done (invalid_arg, out_len, buf, w) else read_at h.fd buf off out_len cap w

  unfoldable pub read_tcp : Handle → List ℕ → ℕ → ℕ → ℕ → W → Got W
  unfolding read_at
  read_tcp h buf off out_len cap w =
      if cap == 0 then done (invalid_arg, out_len, buf, w) else read_at h.fd buf off out_len cap w

  read_by : Driver → Handle → List ℕ → ℕ → ℕ → ℕ → W → Got W
  unfolding read_serial read_tcp
  read_by serial = read_serial
  read_by tcp_socket = read_tcp

  -- `egw_transport_read`.
  unfoldable pub egw_transport_read : Option Handle → List ℕ → ℕ → ℕ → ℕ → W → Got W
  unfolding read_by
  egw_transport_read none buf off out_len cap w = done (invalid_arg, out_len, buf, w)
  egw_transport_read (some h) buf off out_len cap w = read_by h.driver h buf off out_len cap w

  -- The result of `write`, with `*out_written`.
  write_result : ℕ → Sys ℕ × W → Err × ℕ × W
  write_result out_written (moved n, w) = (ok, n, w)
  write_result out_written (again, w) = (ok, 0, w)
  write_result out_written (failed, w) = (write_err, out_written, w)

  write_at : Option ℕ → List ℕ → ℕ → W → Err × ℕ × W
  unfolding write_result
  write_at none bytes out_written w = (write_err, out_written, w)
  write_at (some fd) bytes out_written w = write_result out_written (os.write_fd fd bytes w)

  -- `write_serial` and `write_tcp`, of the bytes `data[0 .. len)`.
  unfoldable pub write_serial : Handle → List ℕ → ℕ → W → Err × ℕ × W
  unfolding write_at
  write_serial h bytes out_written w =
      if length bytes == 0 then (invalid_arg, out_written, w) else write_at h.fd bytes out_written w

  unfoldable pub write_tcp : Handle → List ℕ → ℕ → W → Err × ℕ × W
  unfolding write_at
  write_tcp h bytes out_written w =
      if length bytes == 0 then (invalid_arg, out_written, w) else write_at h.fd bytes out_written w

  write_by : Driver → Handle → List ℕ → ℕ → W → Err × ℕ × W
  unfolding write_serial write_tcp
  write_by serial = write_serial
  write_by tcp_socket = write_tcp

  -- `egw_transport_write`.
  unfoldable pub egw_transport_write : Option Handle → List ℕ → ℕ → W → Err × ℕ × W
  unfolding write_by
  egw_transport_write none bytes out_written w = (invalid_arg, out_written, w)
  egw_transport_write (some h) bytes out_written w = write_by h.driver h bytes out_written w

  close_at : Option ℕ → W → W
  close_at none w = w
  close_at (some fd) w = os.close_fd fd w

  -- `close_serial` and `close_tcp`, which are the same: the handle has the descriptor -1 then.
  unfoldable pub close_handle : Handle → W → Handle × W
  unfolding close_at
  close_handle h w = (record h { fd = none }, close_at h.fd w)

  -- `egw_transport_close`; the handle is freed.
  unfoldable pub egw_transport_close : Option Handle → W → W
  unfolding close_handle
  egw_transport_close none w = w
  egw_transport_close (some h) w = (close_handle h w).1

-- `egw_transport_get_fd`; `none` is -1.
unfoldable pub egw_transport_get_fd : Option Handle → Option ℕ
egw_transport_get_fd none = none
egw_transport_get_fd (some h) = h.fd
