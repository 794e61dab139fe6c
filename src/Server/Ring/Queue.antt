-- ===== src/Server/Ring/Queue.antt =====
-- src/protocol/egw_modbus_server.c: the receive ring holds a queue of bytes.
use native.Mathlib.Nat.{mod-eq_of_lt, mod-eq-sub-mod}
use service_data_gateway_edg.Prelude.{
  ℕ, ◌+◌, ◌-◌, ◌%◌, ◌≤◌, ◌<◌, ◌≡◌, refl, ap, ap₂, sym, ◌∙◌, inl, inr, Bool-cases, List, ◌++◌, done,
  slice, take, drop, length, length-take, length-drop, length-append, take-append, take-append_add,
  take-take, drop-append, drop-append_add, drop-take, drop-drop, ltb, ltb→lt, ltb→le, ◌⊎◌, leb,
  le→leb, arith, leb→le, leb→lt, take_all,
}
use service_data_gateway_edg.Server.{Server}
use service_data_gateway_edg.Server.Ring.{buf_used, ring_copy}

-- The two positions lie in the ring, and the ring is as large as `buf_cap` says.
pub record IsValid (s : Server) : Type 0 where
  pub sized : length s.buf ≡ s.buf_cap
  pub rd_in : s.rd < s.buf_cap
  pub wr_in : s.wr < s.buf_cap

-- The bytes that wait in the ring, first to last: reading goes round at the end of the array, so they
-- stand in one piece in two copies of it.
unfoldable pub contents : Server → List ℕ
contents s = take (buf_used s) (drop s.rd (s.buf ++ s.buf))

used_small : (s : Server) → IsValid s → buf_used s < s.buf_cap
unfolding buf_used
used_small s v = ground (arith, v.rd_in, v.wr_in)

slice_at :
    (l : List ℕ) (off n : ℕ) → off + n ≤ length l → slice l off n ≡ done (take n (drop off l))
unfolding slice
slice_at l off n h = rw (le→leb (off + n) (length l) h) refl

drop_twice : (buf : List ℕ) (rd : ℕ) → rd ≤ length buf → drop rd (buf ++ buf) ≡ drop rd buf ++ buf
drop_twice buf rd h = drop-append rd buf buf h

copy_once :
    (buf : List ℕ) (rd n : ℕ)
    → rd + n ≤ length buf
    → take n (drop rd (buf ++ buf)) ≡ take n (drop rd buf)
copy_once buf rd n h =
    rw (drop_twice buf rd (omega arith))
      (take-append n (drop rd buf) buf (omega (arith, length-drop rd buf)))

copy_round :
    (buf : List ℕ) (rd n k : ℕ)
    → rd ≤ length buf
    → n + rd ≡ length buf + k
    → take n (drop rd (buf ++ buf)) ≡ drop rd buf ++ take k buf
copy_round buf rd n k h e =
    rw (drop_twice buf rd h)
      (take-append_add n k (drop rd buf) buf (omega (arith, length-drop rd buf)))

-- In a valid ring, copying out at most as many bytes as wait stays inside the array and gives the
-- first of the waiting bytes.
pub ring_copy-contents :
    (s : Server) (n : ℕ)
    → IsValid s
    → n ≤ buf_used s
    → ring_copy s.buf s.buf_cap s.rd n ≡ done (take n (contents s))
unfolding ring_copy contents
ring_copy-contents s n v fits = elim (Bool-cases (leb n (s.buf_cap - s.rd))) [
  | inl one ↦
      let inside : n ≤ s.buf_cap - s.rd = leb→le n (s.buf_cap - s.rd) one in
      rw (one, slice_at s.buf s.rd n (omega (arith, v.sized, v.rd_in)))
        (ap done (
          sym (copy_once s.buf s.rd n (omega (arith, v.sized, v.rd_in)))
          ∙ sym (take-take n (buf_used s) (drop s.rd (s.buf ++ s.buf)) fits)))
  | inr two ↦
      let past : s.buf_cap - s.rd < n = leb→lt n (s.buf_cap - s.rd) two in
      let k : ℕ = n - (s.buf_cap - s.rd) in
      let used : buf_used s < s.buf_cap = used_small s v in
      rw (two, slice_at s.buf s.rd (s.buf_cap - s.rd) (omega (arith, v.sized, v.rd_in)))
        (rw (slice_at s.buf 0 k (omega (arith, v.sized, v.rd_in))) (
          ap done (
            ap (λ l. l ++ take k s.buf)
              (take_all (s.buf_cap - s.rd) (drop s.rd s.buf)
                (omega (arith, length-drop s.rd s.buf, v.sized)))
            ∙ sym (
                copy_round s.buf s.rd n k (omega (arith, v.sized, v.rd_in))
                  (omega (arith, v.sized, v.rd_in)))
            ∙ sym (take-take n (buf_used s) (drop s.rd (s.buf ++ s.buf)) fits))))
]

-- `% buf_cap` brings a position that has run past the end back to the front.
pub turn :
    (size e : ℕ)
    → e < size + size
    → ((e < size) × (e % size ≡ e)) ⊎ ((size ≤ e) × (e % size ≡ e - size))
turn size e h = elim (Bool-cases (ltb e size)) [
  | inl below ↦ let lt : e < size = ltb→lt e size below in inl (lt, mod-eq_of_lt lt)
  | inr above ↦
      let ge : size ≤ e = ltb→le e size above in
      let lt : e - size < size = omega arith in inr (ge, mod-eq-sub-mod ge ∙ mod-eq_of_lt lt)
]

wrap_drop :
    (buf : List ℕ) (e k n : ℕ)
    → e ≡ length buf + k
    → k + n ≤ length buf
    → take n (drop k (buf ++ buf)) ≡ take n (drop e (buf ++ buf))
wrap_drop buf e k n h fits =
    copy_once buf k n fits ∙ sym (ap (take n) (drop-append_add e k buf buf h))

used_after :
    (s : Server) (n rd' : ℕ)
    → IsValid s
    → n ≤ buf_used s
    → ((s.rd + n < s.buf_cap) × (rd' ≡ s.rd + n))
      ⊎ ((s.buf_cap ≤ s.rd + n) × (rd' ≡ s.rd + n - s.buf_cap))
    → buf_used (record s { rd = rd' }) ≡ buf_used s - n
unfolding buf_used
used_after s n rd' v fits (inl c) = ground (arith, v.rd_in, v.wr_in)
used_after s n rd' v fits (inr c) = ground (arith, v.rd_in, v.wr_in)

-- In a valid ring, moving the reading position on by at most as many bytes as wait, round the end
-- of the array, drops these from the waiting bytes and keeps the ring valid.
pub consume-contents :
    (s : Server) (n : ℕ)
    → IsValid s
    → n ≤ buf_used s
    → (contents (record s { rd = (s.rd + n) % s.buf_cap }) ≡ drop n (contents s))
      × IsValid (record s { rd = (s.rd + n) % s.buf_cap })
unfolding contents
consume-contents s n v fits =
    let used : buf_used s < s.buf_cap = used_small s v in
    let doubled : List ℕ = s.buf ++ s.buf in
    let rest : drop n (take (buf_used s) (drop s.rd doubled))
        ≡ take (buf_used s - n) (drop (s.rd + n) doubled) =
      drop-take n (buf_used s - n) (buf_used s) (drop s.rd doubled) (omega arith)
      ∙ ap (take (buf_used s - n)) (drop-drop s.rd n (s.rd + n) doubled refl) in
    elim (turn s.buf_cap (s.rd + n) (omega (arith, v.rd_in))) [
      | inl (below, e) ↦ (
        ap₂ (λ k i. take k (drop i doubled)) (used_after s n _ v fits (inl (below, e))) e
            ∙ sym rest,
        record { sized = v.sized; rd_in = omega arith; wr_in = v.wr_in },
      )
      | inr (above, e) ↦ (
        ap₂ (λ k i. take k (drop i doubled)) (used_after s n _ v fits (inr (above, e))) e
            ∙ wrap_drop s.buf (s.rd + n) (s.rd + n - s.buf_cap) (buf_used s - n)
                (omega (arith, v.sized)) (omega (arith, v.sized, v.rd_in))
            ∙ sym rest,
        record { sized = v.sized; rd_in = omega (arith, v.rd_in); wr_in = v.wr_in },
      )
    ]

pub length-contents : (s : Server) → IsValid s → length (contents s) ≡ buf_used s
unfolding contents
length-contents s v = omega (
  arith,
  length-take (buf_used s) (drop s.rd (s.buf ++ s.buf)),
  length-drop s.rd (s.buf ++ s.buf),
  length-append s.buf s.buf,
  used_small s v,
  v.sized,
  v.rd_in,
)
