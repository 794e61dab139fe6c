-- ===== src/Transport/Io/Reads.antt =====
-- src/transport: what a read and a write through a handle are.
use service_data_gateway_edg.Prelude.{
  ℕ, ◌≤◌, ◌≡◌, ap, ◌∙◌, List, ◌∷◌, some, done, ◌>>=◌, store, length, ne→==, arith, Option,
}
use service_data_gateway_edg.Defs.{ok}
use service_data_gateway_edg.Transport.{Os, moved, Driver, serial, tcp_socket, Handle}
use service_data_gateway_edg.Transport.Io.{
  egw_transport_read, read_by, read_serial, read_tcp, read_at, read_result, egw_transport_write,
  write_by, write_serial, write_tcp, write_at, write_result,
}

module _ {W : Type 0} (os : Os W) where
  read_at-moved :
      (h : Handle) (fd b : ℕ) (bs buf : List ℕ) (off out_len cap : ℕ) (w w' : W)
      → h.fd ≡ some fd
      → os.read_fd fd cap w ≡ (moved (b ∷ bs), w')
      → read_at os h.fd buf off out_len cap w
        ≡ (store buf off (b ∷ bs) >>= (λ buf. done (ok, length (b ∷ bs), buf, w')))
  unfolding read_at read_result
  read_at-moved h fd b bs buf off out_len cap w w' open_fd reads =
      ap (λ o. read_at os o buf off out_len cap w) open_fd
      ∙ ap (read_result os buf off out_len) reads

  read_by-moved :
      (d : Driver) (h : Handle) (fd b : ℕ) (bs buf : List ℕ) (off out_len cap : ℕ) (w w' : W)
      → h.fd ≡ some fd
      → 1 ≤ cap
      → os.read_fd fd cap w ≡ (moved (b ∷ bs), w')
      → read_by os d h buf off out_len cap w
        ≡ (store buf off (b ∷ bs) >>= (λ buf. done (ok, length (b ∷ bs), buf, w')))
  unfolding read_by read_serial read_tcp
  read_by-moved serial h fd b bs buf off out_len cap w w' open_fd room reads =
      rw (ne→== cap 0 (omega arith))
        (read_at-moved h fd b bs buf off out_len cap w w' open_fd reads)
  read_by-moved tcp_socket h fd b bs buf off out_len cap w w' open_fd room reads =
      rw (ne→== cap 0 (omega arith))
        (read_at-moved h fd b bs buf off out_len cap w w' open_fd reads)

  -- Bytes that `read` delivers are stored at the place, with their number, by either driver.
  pub transport_read-moved :
      (h : Handle) (fd b : ℕ) (bs buf : List ℕ) (off out_len cap : ℕ) (w w' : W)
      → h.fd ≡ some fd
      → 1 ≤ cap
      → os.read_fd fd cap w ≡ (moved (b ∷ bs), w')
      → egw_transport_read os (some h) buf off out_len cap w
        ≡ (store buf off (b ∷ bs) >>= (λ buf. done (ok, length (b ∷ bs), buf, w')))
  unfolding egw_transport_read
  transport_read-moved h = read_by-moved h.driver h

  write_at-moved :
      (o : Option ℕ) (fd : ℕ) (bytes : List ℕ) (out_written n : ℕ) (w w' : W)
      → o ≡ some fd
      → os.write_fd fd bytes w ≡ (moved n, w')
      → write_at os o bytes out_written w ≡ (ok, n, w')
  unfolding write_at write_result
  write_at-moved o fd bytes out_written n w w' open_fd writes =
      ap (λ o. write_at os o bytes out_written w) open_fd ∙ ap (write_result os out_written) writes

  write_by-moved :
      (d : Driver) (h : Handle) (fd : ℕ) (bytes : List ℕ) (out_written n : ℕ) (w w' : W)
      → h.fd ≡ some fd
      → 1 ≤ length bytes
      → os.write_fd fd bytes w ≡ (moved n, w')
      → write_by os d h bytes out_written w ≡ (ok, n, w')
  unfolding write_by write_serial write_tcp
  write_by-moved serial h fd bytes out_written n w w' open_fd some_bytes writes =
      rw (ne→== (length bytes) 0 (omega arith))
        (write_at-moved h.fd fd bytes out_written n w w' open_fd writes)
  write_by-moved tcp_socket h fd bytes out_written n w w' open_fd some_bytes writes =
      rw (ne→== (length bytes) 0 (omega arith))
        (write_at-moved h.fd fd bytes out_written n w w' open_fd writes)

  -- Bytes that `write` takes are counted, by either driver.
  pub transport_write-moved :
      (h : Handle) (fd : ℕ) (bytes : List ℕ) (out_written n : ℕ) (w w' : W)
      → h.fd ≡ some fd
      → 1 ≤ length bytes
      → os.write_fd fd bytes w ≡ (moved n, w')
      → egw_transport_write os (some h) bytes out_written w ≡ (ok, n, w')
  unfolding egw_transport_write
  transport_write-moved h = write_by-moved h.driver h
