-- ===== src/Server/Ring/Append.antt =====
-- src/protocol/egw_modbus_server.c: the copy into the receive ring puts the bytes behind those that
-- wait.

use mathlib.Core.Path.{subst}
use service_data_gateway_edg.Prelude.{
  ℕ, ◌+◌, ◌-◌, ◌%◌, ◌≤◌, ◌<◌, ◌≡◌, ap, sym, ◌∙◌, ◌⊎◌, inl, inr, Bool-cases, true, false, List, ◌++◌,
  done, split-Parts, take, drop, length, length-take, length-drop, length-append, take-append-drop,
  take-append_length, drop-append_length, append_assoc, leb, le→leb, lt→leb, leb→le, leb→lt, arith,
}
use service_data_gateway_edg.Server.{Server}
use service_data_gateway_edg.Server.Ring.{buf_used, buf_free, ring_write}
use service_data_gateway_edg.Server.Ring.Store.{write_one, write_two}
use service_data_gateway_edg.Server.Ring.Queue.{IsValid, contents, turn}

-- The bytes that wait, where two copies of the ring are known in parts.
window :
    (s : Server) (p w q : List ℕ)
    → s.buf ++ s.buf ≡ p ++ (w ++ q)
    → s.rd ≡ length p
    → buf_used s ≡ length w
    → contents s ≡ w
unfolding contents
window s p w q twice at_p long =
    ap (λ l. take (buf_used s) (drop s.rd l)) twice
    ∙ ap (take (buf_used s)) (drop-append_length s.rd p (w ++ q) at_p)
    ∙ take-append_length (buf_used s) w q long

-- The copy of bytes into the ring ends well, changes nothing but the array and the writing position
-- and keeps the ring valid, and the bytes then wait behind those that waited before.
pub record Appended (s : Server) (bytes : List ℕ) : Type 0 where
  pub new_buf : List ℕ
  pub new_wr : ℕ
  pub returns : ring_write s bytes (length bytes) ≡ done (record s { buf = new_buf; wr = new_wr })
  pub waits : contents (record s { buf = new_buf; wr = new_wr }) ≡ contents s ++ bytes
  pub valid : IsValid (record s { buf = new_buf; wr = new_wr })

length_parts :
    (a b c d : List ℕ)
    → length (a ++ (b ++ (c ++ d))) ≡ length a + (length b + (length c + length d))
length_parts a b c d =
    omega (arith, length-append a (b ++ (c ++ d)), length-append b (c ++ d), length-append c d)

used_written :
    (s : Server) (buf' : List ℕ) (n wr' : ℕ)
    → IsValid s
    → n ≤ buf_free s
    → ((s.wr + n < s.buf_cap) × (wr' ≡ s.wr + n))
      ⊎ ((s.buf_cap ≤ s.wr + n) × (wr' ≡ s.wr + n - s.buf_cap))
    → (buf_used (record s { buf = buf'; wr = wr' }) ≡ buf_used s + n) × (wr' < s.buf_cap)
unfolding buf_used buf_free
used_written s buf' n wr' v free (inl c) = ground (arith, v.rd_in, v.wr_in)
used_written s buf' n wr' v free (inr c) = ground (arith, v.rd_in, v.wr_in)

free_small : (s : Server) → IsValid s → buf_free s < s.buf_cap
unfolding buf_free
free_small s v = omega (arith, v.rd_in)

written :
    (s : Server) (bytes buf' p w q : List ℕ)
    → IsValid s
    → length bytes ≤ buf_free s
    → ring_write s bytes (length bytes)
      ≡ done (record s { buf = buf'; wr = (s.wr + length bytes) % s.buf_cap })
    → length buf' ≡ length s.buf
    → buf' ++ buf' ≡ p ++ ((w ++ bytes) ++ q)
    → s.rd ≡ length p
    → buf_used s ≡ length w
    → contents s ≡ w
    → Appended s bytes
written s bytes buf' p w q v free returns same twice at_p long waits =
    let (used, wr_in) =
      used_written s buf' (length bytes) ((s.wr + length bytes) % s.buf_cap) v free
        (turn s.buf_cap (s.wr + length bytes) (omega (arith, v.wr_in, free_small s v))) in
    record {
      new_buf = buf';
      new_wr = (s.wr + length bytes) % s.buf_cap;
      returns = returns;
      waits =
          window (record s { buf = buf'; wr = (s.wr + length bytes) % s.buf_cap }) p (w ++ bytes) q
            twice at_p (omega (arith, used, length-append w bytes))
          ∙ ap (λ l. l ++ bytes) (sym waits);
      valid = record { sized = same ∙ v.sized; rd_in = v.rd_in; wr_in = wr_in };
    }

-- The free bytes that are needed follow the waiting ones.
append_inside :
    (s : Server) (a m o t bytes : List ℕ)
    → IsValid s
    → s.buf ≡ a ++ (m ++ (o ++ t))
    → s.rd ≡ length a
    → s.wr ≡ length a + length m
    → length bytes ≡ length o
    → length bytes ≤ buf_free s
    → Appended s bytes
unfolding buf_used
append_inside s a m o t bytes v parts at_rd at_wr same free =
    let whole : s.buf_cap ≡ length a + (length m + (length o + length t)) =
      omega (arith, v.sized, ap length parts, length_parts a m o t) in
    let used : buf_used s ≡ length m = ground (arith, at_rd, at_wr) in
    written s bytes (a ++ (m ++ (bytes ++ t))) a m (t ++ (a ++ (m ++ (bytes ++ t)))) v free
      (write_one s (a ++ m) o t bytes (parts ∙ sym (append_assoc a m (o ++ t)))
          (omega (arith, length-append a m)) same (omega arith)
        ∙ ap (λ l. done (record s { buf = l; wr = (s.wr + length bytes) % s.buf_cap }))
            (append_assoc a m (bytes ++ t)))
      (omega (arith, ap length parts, length_parts a m o t, length_parts a m bytes t))
      (simp append_assoc) at_rd used
      (window s a m ((o ++ t) ++ (a ++ (m ++ (o ++ t))))
        (ap (λ b. b ++ b) parts ∙ simp append_assoc) at_rd used)

-- They follow the waiting ones, which go round the end of the array.
append_between :
    (s : Server) (a o g m bytes : List ℕ)
    → IsValid s
    → s.buf ≡ a ++ (o ++ (g ++ m))
    → s.wr ≡ length a
    → s.rd ≡ length a + (length o + length g)
    → s.wr < s.rd
    → length bytes ≡ length o
    → length bytes ≤ buf_free s
    → Appended s bytes
unfolding buf_used
append_between s a o g m bytes v parts at_wr at_rd behind same free =
    let whole : s.buf_cap ≡ length a + (length o + (length g + length m)) =
      omega (arith, v.sized, ap length parts, length_parts a o g m) in
    let used : buf_used s ≡ length (m ++ a) =
      ground (arith, at_rd, at_wr, behind, whole, length-append m a) in
    written s bytes (a ++ (bytes ++ (g ++ m))) (a ++ (bytes ++ g)) (m ++ a) (g ++ m) v free
      (write_one s a o (g ++ m) bytes parts at_wr same (omega arith))
      (omega (arith, ap length parts, length_parts a o g m, length_parts a bytes g m))
      (simp append_assoc) (omega (arith, length-append a (bytes ++ g), length-append bytes g)) used
      (window s (a ++ (o ++ g)) (m ++ a) (o ++ (g ++ m))
        (ap (λ b. b ++ b) parts ∙ simp append_assoc)
        (omega (arith, length-append a (o ++ g), length-append o g)) used)

-- They go round the end of the array themselves.
append_around :
    (s : Server) (a o m t f k : List ℕ)
    → IsValid s
    → s.buf ≡ a ++ (o ++ (m ++ t))
    → s.rd ≡ length a + length o
    → s.wr ≡ length a + (length o + length m)
    → length f ≡ length t
    → length k ≡ length a
    → 0 < length k
    → length (f ++ k) ≤ buf_free s
    → Appended s (f ++ k)
unfolding buf_used
append_around s a o m t f k v parts at_rd at_wr same_f same_k more free =
    let whole : s.buf_cap ≡ length a + (length o + (length m + length t)) =
      omega (arith, v.sized, ap length parts, length_parts a o m t) in
    let used : buf_used s ≡ length m = ground (arith, at_rd, at_wr) in
    let om : length (o ++ m) ≡ length o + length m = length-append o m in
    written s (f ++ k) (k ++ ((o ++ m) ++ f)) (k ++ o) m (o ++ (m ++ f)) v free
      (write_two s a (o ++ m) t f k (parts ∙ ap (λ l. a ++ l) (sym (append_assoc o m t)))
        (omega (arith, om)) (omega (arith, om)) same_f same_k more)
      (omega (
        arith,
        ap length parts,
        length_parts a o m t,
        om,
        length-append k ((o ++ m) ++ f),
        length-append (o ++ m) f,
      ))
      (simp append_assoc) (omega (arith, length-append k o)) used
      (window s (a ++ o) m (t ++ (a ++ (o ++ (m ++ t))))
        (ap (λ b. b ++ b) parts ∙ simp append_assoc) (omega (arith, length-append a o)) used)

append_over :
    (s : Server) (f k : List ℕ)
    → IsValid s
    → s.rd ≤ s.wr
    → length f ≡ s.buf_cap - s.wr
    → 0 < length k
    → length (f ++ k) ≤ buf_free s
    → Appended s (f ++ k)
unfolding buf_used buf_free
append_over s f k v order at_end more free =
    let le : leb s.rd s.wr ≡ true = le→leb s.rd s.wr order in
    let short : length f + length k + (s.wr - s.rd) < s.buf_cap =
      ground (arith, le, v.wr_in, length-append f k) in
    let p =
      split-Parts s.buf (length k) (s.rd - length k) (s.wr - s.rd)
        (omega (arith, v.sized, v.wr_in)) in
    append_around s p.a p.b p.c p.d f k v p.whole (omega (arith, p.at_a, p.at_b, v.wr_in))
      (omega (arith, p.at_a, p.at_b, p.at_c, v.wr_in)) (omega (arith, p.at_d, v.sized, v.wr_in))
      (sym p.at_a) more free

append_forward :
    (s : Server) (bytes : List ℕ)
    → IsValid s
    → s.rd ≤ s.wr
    → length bytes ≤ buf_free s
    → Appended s bytes
append_forward s bytes v order free = elim (Bool-cases (leb (length bytes) (s.buf_cap - s.wr))) [
  | inl fits ↦
      let room : length bytes ≤ s.buf_cap - s.wr = leb→le (length bytes) (s.buf_cap - s.wr) fits in
      let p =
        split-Parts s.buf s.rd (s.wr - s.rd) (length bytes) (omega (arith, v.sized, v.wr_in)) in
      append_inside s p.a p.b p.c p.d bytes v p.whole (sym p.at_a) (omega (arith, p.at_a, p.at_b))
        (sym p.at_c) free
  | inr over ↦
      let past : s.buf_cap - s.wr < length bytes = leb→lt (length bytes) (s.buf_cap - s.wr) over in
      let n : ℕ = s.buf_cap - s.wr in
      let both : take n bytes ++ drop n bytes ≡ bytes = take-append-drop n bytes in
      subst (Appended s) both (
        append_over s (take n bytes) (drop n bytes) v order (omega (arith, length-take n bytes))
          (omega (arith, length-drop n bytes))
          (subst (λ (l : List ℕ). length l ≤ buf_free s) (sym both) free))
]

append_backward :
    (s : Server) (bytes : List ℕ)
    → IsValid s
    → s.wr < s.rd
    → length bytes ≤ buf_free s
    → Appended s bytes
unfolding buf_used buf_free
append_backward s bytes v order free =
    let gt : leb s.rd s.wr ≡ false = lt→leb s.rd s.wr order in
    let short : s.wr + length bytes < s.rd = ground (arith, gt, v.rd_in) in
    let p =
      split-Parts s.buf s.wr (length bytes) (s.rd - (s.wr + length bytes))
        (omega (arith, v.sized, v.rd_in)) in
    append_between s p.a p.b p.c p.d bytes v p.whole (sym p.at_a)
      (omega (arith, p.at_a, p.at_b, p.at_c)) order (sym p.at_b) free

-- In a valid ring, copying at most as many bytes as are free ends well, leaves the reading position
-- alone and keeps the ring valid, and the bytes then wait behind those that waited before, also
-- where they go round the end of the array.
pub ring_write-contents :
    (s : Server) (bytes : List ℕ) → IsValid s → length bytes ≤ buf_free s → Appended s bytes
ring_write-contents s bytes v free = elim (Bool-cases (leb s.rd s.wr)) [
  | inl forward ↦ append_forward s bytes v (leb→le s.rd s.wr forward) free
  | inr backward ↦ append_backward s bytes v (leb→lt s.rd s.wr backward) free
]
