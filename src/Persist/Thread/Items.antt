-- ===== src/Persist/Thread/Items.antt =====
-- src/app/egw_persist_thread.c: the bytes of an item, by the layout of the struct.
use service_data_gateway_edg.Prelude.{
  ℕ, suc, ◌-◌, ◌≤◌, ◌<◌, ◌≡◌, ◌≢◌, refl, ap, sym, ◌∙◌, List, [], ◌∷◌, ◌++◌, append_assoc, length,
  length-append, length-replicate, take, drop, take-append_length, drop-append_length, replicate,
  ne→==, arith, All,
}
use service_data_gateway_edg.Ptable.{Text}
use service_data_gateway_edg.Persist.Thread.{Word16, Item, item_bytes, c_string, item_of}

-- The machine keeps a `uint16_t` in two bytes and gives it back.
pub record IsWord16 (m : Word16) : Type 0 where
  pub two : (x : ℕ) → length (m.bytes x) ≡ 2
  pub back : (x : ℕ) → x < 65536 → m.value (m.bytes x) ≡ x

-- An item as `enqueue` makes it of a C string and three words.
pub record IsItem (i : Item) : Type 0 where
  pub text : All (λ b. b ≢ 0) i.table
  pub short : length i.table ≤ 15
  pub device_16 : i.device_id < 65536
  pub addr_16 : i.reg_addr < 65536
  pub value_16 : i.value < 65536

c_string-zeros : (t : Text) (n : ℕ) → All (λ b. b ≢ 0) t → c_string (t ++ replicate (suc n) 0) ≡ t
unfolding c_string
c_string-zeros [] n h = refl
c_string-zeros (b ∷ t) n h = rw (ne→== b 0 h.0) (ap (λ l. b ∷ l) (c_string-zeros t n h.1))

module _ (m : Word16) (law : IsWord16 m) where
  pub length-item_bytes : (i : Item) → IsItem i → length (item_bytes m i) ≡ 32
  unfolding item_bytes
  length-item_bytes i v = omega (
    arith,
    length-append i.table (
        replicate (16 - length i.table) 0
        ++ (m.bytes i.device_id ++ (m.bytes i.reg_addr ++ (m.bytes i.value ++ replicate 10 0)))),
    length-append (replicate (16 - length i.table) 0)
        (m.bytes i.device_id ++ (m.bytes i.reg_addr ++ (m.bytes i.value ++ replicate 10 0))),
    length-append (m.bytes i.device_id) (m.bytes i.reg_addr ++ (m.bytes i.value ++ replicate 10 0)),
    length-append (m.bytes i.reg_addr) (m.bytes i.value ++ replicate 10 0),
    length-append (m.bytes i.value) (replicate {A = ℕ} 10 0),
    length-replicate {A = ℕ} (16 - length i.table) 0,
    law.two i.device_id,
    law.two i.reg_addr,
    law.two i.value,
    v.short,
  )

  -- A word behind some bytes and in front of others.
  word_at :
      (off : ℕ) (a : List ℕ) (x : ℕ) (c : List ℕ)
      → off ≡ length a
      → x < 65536
      → m.value (take 2 (drop off (a ++ (m.bytes x ++ c)))) ≡ x
  word_at off a x c at_end small =
      ap (λ l. m.value (take 2 l)) (drop-append_length off a (m.bytes x ++ c) at_end)
      ∙ ap m.value (take-append_length 2 (m.bytes x) c (sym (law.two x)))
      ∙ law.back x small

  name_of : (i : Item) → IsItem i → c_string (take 16 (item_bytes m i)) ≡ i.table
  unfolding item_bytes
  name_of i v =
      let n : ℕ = 15 - length i.table in
      let pad : 16 - length i.table ≡ suc n = omega (arith, v.short) in
      let rest : List ℕ =
        m.bytes i.device_id ++ (m.bytes i.reg_addr ++ (m.bytes i.value ++ replicate 10 0)) in
      ap c_string (
        ap (take 16) (sym (append_assoc i.table (replicate (16 - length i.table) 0) rest))
        ∙ take-append_length 16 (i.table ++ replicate (16 - length i.table) 0) rest (
            omega (
              arith,
              v.short,
              length-append i.table (replicate {A = ℕ} (16 - length i.table) 0),
              length-replicate {A = ℕ} (16 - length i.table) 0,
            ))
        ∙ ap (λ (k : ℕ). i.table ++ replicate k 0) pad)
      ∙ c_string-zeros i.table n v.text

  -- The text and its padding have 16 bytes.
  length-padded : (i : Item) → IsItem i → length (i.table ++ replicate (16 - length i.table) 0) ≡ 16
  length-padded i v = omega (
    arith,
    v.short,
    length-append i.table (replicate {A = ℕ} (16 - length i.table) 0),
    length-replicate {A = ℕ} (16 - length i.table) 0,
  )

  device_of : (i : Item) → IsItem i → (item_of m (item_bytes m i)).device_id ≡ i.device_id
  unfolding item_of item_bytes
  device_of i v =
      let t : List ℕ = i.table ++ replicate (16 - length i.table) 0 in
      let rest : List ℕ = m.bytes i.reg_addr ++ (m.bytes i.value ++ replicate 10 0) in
      ap (λ l. m.value (take 2 (drop 16 l)))
        (sym
          (append_assoc i.table (replicate (16 - length i.table) 0) (m.bytes i.device_id ++ rest)))
      ∙ word_at 16 t i.device_id rest (sym (length-padded i v)) v.device_16

  addr_of : (i : Item) → IsItem i → (item_of m (item_bytes m i)).reg_addr ≡ i.reg_addr
  unfolding item_of item_bytes
  addr_of i v =
      let t : List ℕ = i.table ++ replicate (16 - length i.table) 0 in
      let rest : List ℕ = m.bytes i.value ++ replicate 10 0 in
      ap (λ l. m.value (take 2 (drop 18 l)))
        (sym (
            append_assoc i.table (replicate (16 - length i.table) 0)
              (m.bytes i.device_id ++ (m.bytes i.reg_addr ++ rest)))
          ∙ sym (append_assoc t (m.bytes i.device_id) (m.bytes i.reg_addr ++ rest)))
      ∙ word_at 18 (t ++ m.bytes i.device_id) i.reg_addr rest
          (omega
            (arith, length-append t (m.bytes i.device_id), length-padded i v, law.two i.device_id))
          v.addr_16

  value_of : (i : Item) → IsItem i → (item_of m (item_bytes m i)).value ≡ i.value
  unfolding item_of item_bytes
  value_of i v =
      let t : List ℕ = i.table ++ replicate (16 - length i.table) 0 in
      let td : List ℕ = t ++ m.bytes i.device_id in
      let rest : List ℕ = replicate 10 0 in
      ap (λ l. m.value (take 2 (drop 20 l)))
        (sym (
            append_assoc i.table (replicate (16 - length i.table) 0)
              (m.bytes i.device_id ++ (m.bytes i.reg_addr ++ (m.bytes i.value ++ rest))))
          ∙ sym (
              append_assoc t (m.bytes i.device_id)
                (m.bytes i.reg_addr ++ (m.bytes i.value ++ rest)))
          ∙ sym (append_assoc td (m.bytes i.reg_addr) (m.bytes i.value ++ rest)))
      ∙ word_at 20 (td ++ m.bytes i.reg_addr) i.value rest
          (omega (
            arith,
            length-append td (m.bytes i.reg_addr),
            length-append t (m.bytes i.device_id),
            length-padded i v,
            law.two i.device_id,
            law.two i.reg_addr,
          ))
          v.value_16

  same_item :
      (i j : Item)
      → i.table ≡ j.table
      → i.device_id ≡ j.device_id
      → i.reg_addr ≡ j.reg_addr
      → i.value ≡ j.value
      → i ≡ j
  same_item i j a b c d = λ k. record { table = a k; device_id = b k; reg_addr = c k; value = d k }

  pub item_of-item_bytes : (i : Item) → IsItem i → item_of m (item_bytes m i) ≡ i
  unfolding item_of
  item_of-item_bytes i v =
      same_item (item_of m (item_bytes m i)) i (name_of i v) (device_of i v) (addr_of i v)
        (value_of i v)
