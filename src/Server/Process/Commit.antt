-- ===== src/Server/Process/Commit.antt =====
-- src/protocol/egw_modbus_server.c: bytes that are read in place, into what `reserve` hands out, and
-- committed.
use service_data_gateway_edg.Prelude.{
  ℕ, ◌+◌, ◌-◌, ◌%◌, ◌≤◌, ◌≡◌, refl, ap, sym, ◌∙◌, ◌||◌, Bool, false, List, [], ◌++◌, Run, done,
  fault, ◌>>=◌, slice, store, slice-parts, length, ltb, le→ltb, le→leb, ne→==, ◌==◌, arith,
  append-nil,
}
use service_data_gateway_edg.Server.{Server, Callbacks}
use service_data_gateway_edg.Server.Ring.{buf_free, ring_write, contig, egw_modbus_server_reserve}
use service_data_gateway_edg.Server.Ring.Queue.{IsValid, contents}
use service_data_gateway_edg.Server.Ring.Append.{Appended, ring_write-contents}
use service_data_gateway_edg.Server.Process.{try_process, egw_modbus_server_commit}
use service_data_gateway_edg.Server.Process.Feed.{if_false}

-- What the ring is after `bytes` were read into the place that `reserve` hands out and committed.
pub record Committed {W : Type 0} (cbs : Callbacks W) (s : Server) (bytes : List ℕ) (w : W)
    : Type 0 where
  pub new_buf : List ℕ
  pub new_wr : ℕ
  pub stores : store s.buf (egw_modbus_server_reserve s).0 bytes ≡ done new_buf
  pub commits :
      egw_modbus_server_commit cbs (record s { buf = new_buf }) (length bytes) w
      ≡ try_process cbs (record s { buf = new_buf; wr = new_wr }) w
  pub waits : contents (record s { buf = new_buf; wr = new_wr }) ≡ contents s ++ bytes
  pub valid : IsValid (record s { buf = new_buf; wr = new_wr })
  pub moves : new_wr ≡ (s.wr + length bytes) % s.buf_cap

done-buf :
    (s : Server) (r : Run (List ℕ)) (b : List ℕ) (wr wr' : ℕ)
    → (r >>= (λ x. done (record s { buf = x; wr = wr }))) ≡ done (record s { buf = b; wr = wr' })
    → (r ≡ done b) × (wr ≡ wr')
done-buf s (done x) b wr wr' e = (cc, cc)
done-buf s fault b wr wr' e = (cc, cc)

reserved :
    (s : Server)
    → s.sending ≡ false
    → 1 ≤ (egw_modbus_server_reserve s).1
    → ((egw_modbus_server_reserve s).0 ≡ s.wr)
      × ((egw_modbus_server_reserve s).1 ≤ contig s)
      × ((egw_modbus_server_reserve s).1 ≤ buf_free s)
unfolding egw_modbus_server_reserve
reserved s idle some_room = ground arith

ring_write-one :
    (s : Server) (bytes : List ℕ)
    → length bytes ≤ s.buf_cap - s.wr
    → ring_write s bytes (length bytes) ≡ (
        store s.buf s.wr bytes
        >>= (λ b. done (record s { buf = b; wr = (s.wr + length bytes) % s.buf_cap })))
unfolding ring_write
ring_write-one s bytes room = rw (le→leb (length bytes) (s.buf_cap - s.wr) room) (
    rw
      (ap (λ l. slice l 0 (length bytes)) (sym (append-nil bytes))
        ∙ slice-parts 0 (length bytes) [] bytes [] refl refl)
      refl)

contig-inside : (s : Server) (n : ℕ) → IsValid s → n ≤ contig s → n ≤ s.buf_cap - s.wr
unfolding contig
contig-inside s n v h = ground (arith, v.rd_in, v.wr_in)

busy : (n : ℕ) (b : Bool) → 1 ≤ n → b ≡ false → (n == 0 || b) ≡ false
busy n b h e = rw (ne→== n 0 (omega arith), e) refl

pub commit-Committed :
    {W : Type 0} (cbs : Callbacks W) (s : Server) (bytes : List ℕ) (w : W)
    → s.sending ≡ false
    → IsValid s
    → 1 ≤ length bytes
    → length bytes ≤ (egw_modbus_server_reserve s).1
    → Committed cbs s bytes w
unfolding egw_modbus_server_commit contig
commit-Committed cbs s bytes w idle v some_bytes room =
    let (place, in_contig, in_free) = reserved s idle (omega arith) in
    let inside : length bytes ≤ s.buf_cap - s.wr = contig-inside s (length bytes) v (omega arith) in
    let a : Appended s bytes = ring_write-contents s bytes v (omega arith) in
    let (stored, at_wr) =
      done-buf s (store s.buf s.wr bytes) a.new_buf ((s.wr + length bytes) % s.buf_cap) a.new_wr
        (sym (ring_write-one s bytes inside) ∙ a.returns) in
    record {
      new_buf = a.new_buf;
      new_wr = a.new_wr;
      stores = ap (λ i. store s.buf i bytes) place ∙ stored;
      commits =
          if_false (length bytes == 0 || s.sending) _ _
            (busy (length bytes) s.sending some_bytes idle)
          ∙ if_false (ltb (contig s) (length bytes)) _ _
              (le→ltb (contig s) (length bytes) (omega arith))
          ∙ ap (λ (i : ℕ). try_process cbs (record s { buf = a.new_buf; wr = i }) w) at_wr;
      waits = a.waits;
      valid = a.valid;
      moves = sym at_wr;
    }
