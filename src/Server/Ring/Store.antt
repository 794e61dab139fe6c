-- ===== src/Server/Ring/Store.antt =====
-- src/protocol/egw_modbus_server.c: where the copy into the receive ring writes.

use service_data_gateway_edg.Prelude.{
  ℕ, ◌+◌, ◌-◌, ◌%◌, ◌≤◌, ◌<◌, ◌≡◌, refl, ap, sym, ◌∙◌, List, [], ◌++◌, done, slice, store,
  slice-parts, store-parts, length, length-append, append_assoc, append-nil, le→leb, lt→leb, arith,
}
use service_data_gateway_edg.Server.{Server}
use service_data_gateway_edg.Server.Ring.{ring_write}

-- Bytes that fit in front of the end of the array.
pub write_one :
    (s : Server) (a o t bytes : List ℕ)
    → s.buf ≡ a ++ (o ++ t)
    → s.wr ≡ length a
    → length bytes ≡ length o
    → length bytes ≤ s.buf_cap - s.wr
    → ring_write s bytes (length bytes)
      ≡ done (record s { buf = a ++ (bytes ++ t); wr = (s.wr + length bytes) % s.buf_cap })
unfolding ring_write
write_one s a o t bytes parts at_a same room = rw (le→leb (length bytes) (s.buf_cap - s.wr) room) (
    rw
      (slice-all bytes, ap (λ b. store b s.wr bytes) parts ∙ store-parts s.wr a o t bytes at_a same)
      refl)
  where
    slice-all : (l : List ℕ) → slice l 0 (length l) ≡ done l
    slice-all l =
        ap (λ b. slice b 0 (length l)) (sym (append-nil l))
        ∙ slice-parts 0 (length l) [] l [] refl refl

store_end :
    (buf : List ℕ) (off : ℕ) (a o t f : List ℕ)
    → buf ≡ a ++ (o ++ t)
    → off ≡ length a + length o
    → length f ≡ length t
    → store buf off f ≡ done (a ++ (o ++ f))
store_end buf off a o t f parts at_o same =
    ap (λ b. store b off f)
      (parts ∙ sym (append_assoc a o t) ∙ ap (λ l. (a ++ o) ++ l) (sym (append-nil t)))
    ∙ store-parts off (a ++ o) t [] f (omega (arith, length-append a o)) same
    ∙ ap done (ap (λ l. (a ++ o) ++ l) (append-nil f) ∙ append_assoc a o f)

-- Two parts of the bytes: `f` up to the end of the array, `k` from its start.
pub write_two :
    (s : Server) (a o t f k : List ℕ)
    → s.buf ≡ a ++ (o ++ t)
    → s.wr ≡ length a + length o
    → s.buf_cap ≡ length a + (length o + length t)
    → length f ≡ length t
    → length k ≡ length a
    → 0 < length k
    → ring_write s (f ++ k) (length (f ++ k))
      ≡ done (record s { buf = k ++ (o ++ f); wr = (s.wr + length (f ++ k)) % s.buf_cap })
unfolding ring_write
write_two s a o t f k parts at_o whole same_f same_k more =
    let room : length (f ++ k) ≡ length f + length k = length-append f k in
    let n : s.buf_cap - s.wr ≡ length f = omega arith in
    let front : slice (f ++ k) 0 (length f) ≡ done f = slice-parts 0 (length f) [] f k refl refl in
    let back : slice (f ++ k) (length f) (length (f ++ k) - length f) ≡ done k =
      ap (λ l. slice (f ++ l) (length f) (length (f ++ k) - length f)) (sym (append-nil k))
      ∙ slice-parts (length f) (length (f ++ k) - length f) f k [] refl (omega arith) in
    let first : store s.buf s.wr f ≡ done (a ++ (o ++ f)) =
      store_end s.buf s.wr a o t f parts at_o same_f in
    rw (lt→leb (length (f ++ k)) (s.buf_cap - s.wr) (omega arith), n, front, back)
      (rw first (rw (store-parts 0 [] a (o ++ f) k refl same_k) refl))
