-- ===== src/App/Tables/Order.antt =====
-- src/app/egw_modbus_slave.c, egw_modbus_master.c and egw_route.c: the comparison functions order
-- their rows, so that looking a row up finds it.
use service_data_gateway_edg.Prelude.{
  ℕ, ◌+◌, ◌*◌, ◌%◌, ◌≤◌, ◌<◌, ◌≡◌, ap, ◌∙◌, ap₂, ◌⊎◌, inl, inr, zero, suc, ◌^◌, bit_or,
  bit_or_fields, List, [], ◌∷◌, Option, none, some, All, get_elem?, arith,
}
use mathlib.Core.Option.{some-injective}
use mathlib.Core.Path.{subst}
use service_data_gateway_edg.Ptable.Rows.{Bsearch, Rs, egw_ptable_rs_lookup}
use service_data_gateway_edg.Ptable.Rows.Lookup.{
  three_way, IsBsearch, Sorted, Answer, lookup-Answer,
}
use service_data_gateway_edg.App.Tables.{
  Key, SlaveRow, RouteKey, RouteEntry, packed, slave_lkp_cmp, route_lkp_cmp,
}

pub packed-eq : (a b : ℕ) → a < 65536 → b < 65536 → packed a b ≡ a * 65536 + b
unfolding packed
packed-eq a b ha hb =
    let small : a * 65536 % 4294967296 ≡ a * 65536 = omega (arith) in
    ap (λ (x : ℕ). bit_or x b) small ∙ bit_or_fields 16 a b hb

-- Two packed pairs are equal only if the pairs are.
pub packed_injective :
    (a b c d : ℕ)
    → a < 65536
    → b < 65536
    → c < 65536
    → d < 65536
    → packed a b ≡ packed c d
    → (a ≡ c) × (b ≡ d)
packed_injective a b c d ha hb hc hd e = (
  omega (arith, packed-eq a b ha hb, packed-eq c d hc hd),
  omega (arith, packed-eq a b ha hb, packed-eq c d hc hd),
)

-- The fields are `uint16_t`.
abbrev pub Words : SlaveRow → Type 0
Words r = (r.device_id < 65536) × (r.reg_addr < 65536)

abbrev pub slave_code : SlaveRow → ℕ
slave_code r = packed r.device_id r.reg_addr

abbrev pub key_code : Key → ℕ
key_code k = packed k.unit_id k.reg_addr

-- `ORDER BY device_id, reg_addr`.
abbrev pub Before : SlaveRow → SlaveRow → Type 0
Before r r' =
    (r.device_id < r'.device_id) ⊎ ((r.device_id ≡ r'.device_id) × (r.reg_addr ≤ r'.reg_addr))

abbrev pub Ordered : List SlaveRow → Type 0
Ordered [] = Unit
Ordered (r ∷ l) = All (Before r) l × Ordered l

-- What looking up a unit's register gives: a row of the unit and the register, or there is none.
abbrev pub Found : List SlaveRow → Key → Option ℕ → Type 0
Found rows k (some i) =
    (r : SlaveRow) × (get_elem? rows i ≡ some r)
    × (r.device_id ≡ k.unit_id)
    × (r.reg_addr ≡ k.reg_addr)
Found rows k none =
    (i : ℕ) (r : SlaveRow)
    → get_elem? rows i ≡ some r
    → r.device_id ≡ k.unit_id
    → r.reg_addr ≡ k.reg_addr
    → ⊥

Before-packed : (r r' : SlaveRow) → Words r → Words r' → Before r r' → slave_code r ≤ slave_code r'
Before-packed r r' (a, b) (c, d) (inl lt) =
    omega (arith, packed-eq r.device_id r.reg_addr a b, packed-eq r'.device_id r'.reg_addr c d)
Before-packed r r' (a, b) (c, d) (inr (same, le)) =
    omega (arith, packed-eq r.device_id r.reg_addr a b, packed-eq r'.device_id r'.reg_addr c d)

above :
    (r : SlaveRow) (l : List SlaveRow)
    → Words r
    → All Words l
    → All (Before r) l
    → All (λ r'. slave_code r ≤ slave_code r') l
above r [] words all before = tt
above r (r' ∷ l) words all before =
    (Before-packed r r' words all.0 before.0, above r l words all.1 before.1)

Ordered-Sorted : (l : List SlaveRow) → All Words l → Ordered l → Sorted slave_code l
Ordered-Sorted [] all ordered = tt
Ordered-Sorted (r ∷ l) all ordered =
    (above r l all.0 all.1 ordered.0, Ordered-Sorted l all.1 ordered.1)

All-get_elem :
    (P : SlaveRow → Type 0) (l : List SlaveRow) (i : ℕ) (r : SlaveRow)
    → All P l
    → get_elem? l i ≡ some r
    → P r
All-get_elem P [] i r all e = absurd (cc)
All-get_elem P (x ∷ l) zero r all e = subst P (some-injective x r e) all.0
All-get_elem P (x ∷ l) (suc i) r all e = All-get_elem P l i r all.1 e

Answer-Found :
    (rows : List SlaveRow) (k : Key) (o : Option ℕ)
    → All Words rows
    → k.unit_id < 65536
    → k.reg_addr < 65536
    → Answer key_code slave_code rows k o
    → Found rows k o
Answer-Found rows k (some i) all unit_16 addr_16 (r, at_i, same) =
    let (d16, a16) = All-get_elem Words rows i r all at_i in
    let (d, a) =
      packed_injective r.device_id r.reg_addr k.unit_id k.reg_addr d16 a16 unit_16 addr_16 same in
    (r, at_i, d, a)
Answer-Found rows k none all unit_16 addr_16 none_has =
    λ i r at_i d a. All-get_elem _ rows i r none_has at_i (ap₂ packed d a)

-- In rows with 16 bit fields that are ordered by device and register, as the schema asks of SQLite,
-- a lookup with a `bsearch` as the C standard describes it and `slave_lkp_cmp` gives the index of a
-- row with the key's unit and register, or there is no such row.
pub slave_lookup-Found :
    (bsearch : Bsearch SlaveRow) (rs : Rs Key SlaveRow) (k : Key)
    → IsBsearch bsearch
    → rs.lkp_cmp ≡ some slave_lkp_cmp
    → All Words rs.rows
    → Ordered rs.rows
    → k.unit_id < 65536
    → k.reg_addr < 65536
    → Found rs.rows k (egw_ptable_rs_lookup bsearch (some rs) k)
slave_lookup-Found bsearch rs k law compares all ordered unit_16 addr_16 =
    Answer-Found rs.rows k (egw_ptable_rs_lookup bsearch (some rs) k) all unit_16 addr_16 (
      lookup-Answer key_code slave_code bsearch rs k law compares
        (Ordered-Sorted rs.rows all ordered))

-- With 32 bit signal numbers, comparing a route's key with an entry is comparing the two numbers
-- that the device and the signal make together, the device above.
pub route_lkp_cmp-order :
    (k : RouteKey) (r : RouteEntry)
    → k.sig_id < 2 ^ 32
    → r.sig_id < 2 ^ 32
    → route_lkp_cmp k r
      ≡ three_way (k.device_id * 2 ^ 32 + k.sig_id) (r.device_id * 2 ^ 32 + r.sig_id)
unfolding route_lkp_cmp three_way
route_lkp_cmp-order k r a b = ground arith
