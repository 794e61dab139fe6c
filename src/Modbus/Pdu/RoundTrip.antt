-- ===== src/Modbus/Pdu/RoundTrip.antt =====
-- The PDUs that one side builds, as the other side parses them.
use service_data_gateway_edg.Prelude.{
  ℕ, suc, ◌+◌, ◌*◌, ◌/◌, ◌%◌, ◌≤◌, ◌<◌, ◌≡◌, ◌⊎◌, inl, inr, refl, ap, ap₂, ◌∙◌, sym, true, List, [],
  ◌∷◌, ◌++◌, none, some, done, fault, arith, length, take, drop, slice, store, load, store-parts,
  slice-parts, le→ltb, All, take-append-drop, length-take, append-nil, store-fault,
}
use service_data_gateway_edg.Modbus.{be16-bytes, be16-eq, high_byte, low_byte, is_read_fc}
use service_data_gateway_edg.Modbus.Pdu.{
  build_read_resp_pdu, values, words, parse_read_pdu, parse_request,
}

-- The PDU of a read request.
abbrev pub read_pdu : ℕ → ℕ → ℕ → List ℕ
read_pdu fc addr count = fc ∷ high_byte addr ∷ low_byte addr ∷ high_byte count ∷ low_byte count ∷ []

-- The PDU of a read response.
abbrev pub read_resp_pdu : ℕ → List ℕ → List ℕ
read_resp_pdu fc bytes = fc ∷ length bytes ∷ bytes

-- The server parses the PDU of a read request (FC 01 to 04) to the function code, the 16 bit
-- address and the 16 bit count that the client put there, whatever follows the PDU in the array.
pub parse_request-read_pdu :
    (fc addr count : ℕ) (more : List ℕ)
    → is_read_fc fc ≡ true
    → addr < 65536
    → count < 65536
    → parse_request (read_pdu fc addr count ++ more) 5
      ≡ done (fc, some (record { addr = addr; count = count; payload = none; data_len = 0 }))
unfolding parse_request load
parse_request-read_pdu fc addr count more read ha hc =
    rw (read, be16-bytes addr ha, be16-bytes count hc)

-- The front of an array: `k` leading bytes, then `n` more.
front_split :
    (out : List ℕ) (n : ℕ)
    → 2 + n ≤ length out
    → (a b : ℕ) × (rest : List ℕ) × (out ≡ a ∷ b ∷ rest) × (n ≤ length rest)
front_split [] n h = absurd (omega arith)
front_split (a ∷ []) n h = absurd (omega arith)
front_split (a ∷ b ∷ rest) n h = (a, b, rest, refl, omega arith)

-- A read response with fewer than 256 data bytes that fits the array is the function code, the byte
-- count and the data bytes; the array behind it is left as it was.
pub build_read_resp_pdu-fits :
    (out bytes : List ℕ) (fc : ℕ)
    → length bytes < 256
    → 2 + length bytes ≤ length out
    → build_read_resp_pdu out fc bytes (length bytes)
      ≡ done (read_resp_pdu fc bytes ++ drop (2 + length bytes) out, 2 + length bytes)
unfolding build_read_resp_pdu
build_read_resp_pdu-fits out bytes fc small fits =
    let n : ℕ = length bytes in
    let (a, b, rest, e, room) = front_split out n fits in
    let m : n % 256 ≡ n = omega arith in
    let first : store out 0 (fc ∷ n ∷ []) ≡ done (fc ∷ n ∷ rest) =
      ap (λ l. store l 0 (fc ∷ n ∷ [])) e
      ∙ store-parts 0 [] (a ∷ b ∷ []) rest (fc ∷ n ∷ []) refl refl in
    let read : slice bytes 0 n ≡ done bytes =
      ap (λ l. slice l 0 n) (sym (append-nil bytes)) ∙ slice-parts 0 n [] bytes [] refl refl in
    let second : store (fc ∷ n ∷ rest) 2 bytes ≡ done (fc ∷ n ∷ (bytes ++ drop n rest)) =
      ap (λ l. store (fc ∷ n ∷ l) 2 bytes) (sym (take-append-drop n rest))
      ∙ store-parts 2 (fc ∷ n ∷ []) (take n rest) (drop n rest) bytes refl
          (omega (arith, length-take n rest)) in
    let two : 2 + n ≡ suc (suc n) = omega arith in
    let tail : drop (2 + n) out ≡ drop n rest =
      ap (λ l. drop (2 + n) l) e ∙ ap (λ k. drop k (a ∷ b ∷ rest)) two in
    rw (m, first, read, second, tail)

-- One with more bytes than the array has room for is written past its end, if the byte count
-- does not wrap.
pub build_read_resp_pdu-overflow :
    (out bytes : List ℕ) (fc : ℕ)
    → length bytes < 256
    → 2 ≤ length out
    → length out < 2 + length bytes
    → build_read_resp_pdu out fc bytes (length bytes) ≡ fault
unfolding build_read_resp_pdu
build_read_resp_pdu-overflow out bytes fc small room over =
    let n : ℕ = length bytes in
    let (a, b, rest, e, _) = front_split out 0 (omega arith) in
    let m : n % 256 ≡ n = omega arith in
    let first : store out 0 (fc ∷ n ∷ []) ≡ done (fc ∷ n ∷ rest) =
      ap (λ l. store l 0 (fc ∷ n ∷ [])) e
      ∙ store-parts 0 [] (a ∷ b ∷ []) rest (fc ∷ n ∷ []) refl refl in
    let read : slice bytes 0 n ≡ done bytes =
      ap (λ l. slice l 0 n) (sym (append-nil bytes)) ∙ slice-parts 0 n [] bytes [] refl refl in
    rw (m, first, read, store-fault (fc ∷ n ∷ rest) 2 bytes (omega (arith, ap length e)))

-- The words of the data bytes, where the number of these is even.
pub parse_read_pdu-words :
    (fc : ℕ) (bytes more : List ℕ) (len : ℕ)
    → (fc ≡ 3) ⊎ (fc ≡ 4)
    → length bytes < 256
    → length bytes % 2 ≡ 0
    → len ≡ 2 + length bytes
    → parse_read_pdu (read_resp_pdu fc bytes ++ more) len fc 128 ≡ done (values (words bytes))
unfolding parse_read_pdu load
parse_read_pdu-words fc bytes more len (inl e) small even h =
    let n : ℕ = length bytes in
    rw (e, h)
      (rw (
        le→ltb (2 + n) (2 + n) (omega arith),
        even,
        le→ltb 128 (n / 2) (omega arith),
        slice-parts 2 n (3 ∷ n ∷ []) bytes more refl refl,
      ))
parse_read_pdu-words fc bytes more len (inr e) small even h =
    let n : ℕ = length bytes in
    rw (e, h)
      (rw (
        le→ltb (2 + n) (2 + n) (omega arith),
        even,
        le→ltb 128 (n / 2) (omega arith),
        slice-parts 2 n (4 ∷ n ∷ []) bytes more refl refl,
      ))

-- Registers on the wire: of each the high byte, then the low byte.
unfoldable pub on_the_wire : List ℕ → List ℕ
on_the_wire [] = []
on_the_wire (r ∷ rs) = r / 256 ∷ r % 256 ∷ on_the_wire rs

length-on_the_wire : (rs : List ℕ) → length (on_the_wire rs) ≡ length rs * 2
unfolding on_the_wire
length-on_the_wire [] = refl
length-on_the_wire (r ∷ rs) = omega (arith, length-on_the_wire rs)

words-on_the_wire : (rs : List ℕ) → All (λ r. r < 65536) rs → words (on_the_wire rs) ≡ rs
unfolding words on_the_wire
words-on_the_wire [] h = refl
words-on_the_wire (r ∷ rs) h =
    ap₂ (λ x l. x ∷ l) (omega (arith, be16-eq (r / 256) (r % 256) (omega arith)))
      (words-on_the_wire rs h.1)

-- From a response to FC 03 or 04 whose data bytes are those of fewer than 128 registers of 16 bits,
-- of each the high byte and then the low byte, the client reads exactly these registers, in order,
-- whatever follows the PDU in the array.
pub parse_read_pdu-on_the_wire :
    (fc : ℕ) (rs more : List ℕ)
    → (fc ≡ 3) ⊎ (fc ≡ 4)
    → All (λ r. r < 65536) rs
    → length rs < 128
    → parse_read_pdu (read_resp_pdu fc (on_the_wire rs) ++ more) (2 + 2 * length rs) fc 128
      ≡ done (values rs)
parse_read_pdu-on_the_wire fc rs more e small few =
    let n : length (on_the_wire rs) ≡ length rs * 2 = length-on_the_wire rs in
    parse_read_pdu-words fc (on_the_wire rs) more (2 + 2 * length rs) e (omega (arith, n))
      (omega (arith, n)) (omega (arith, n))
    ∙ ap (λ l. done (values l)) (words-on_the_wire rs small)

-- From a response to FC 01 or 02 with at most 128 data bytes the client reads these bytes, in
-- order.
pub parse_read_pdu-bytes :
    (fc : ℕ) (bytes more : List ℕ) (len : ℕ)
    → (fc ≡ 1) ⊎ (fc ≡ 2)
    → length bytes ≤ 128
    → len ≡ 2 + length bytes
    → parse_read_pdu (read_resp_pdu fc bytes ++ more) len fc 128 ≡ done (values bytes)
unfolding parse_read_pdu load
parse_read_pdu-bytes fc bytes more len (inl e) small h =
    let n : ℕ = length bytes in
    rw (e, h)
      (rw (
        le→ltb (2 + n) (2 + n) (omega arith),
        le→ltb 128 n small,
        slice-parts 2 n (1 ∷ n ∷ []) bytes more refl refl,
      ))
parse_read_pdu-bytes fc bytes more len (inr e) small h =
    let n : ℕ = length bytes in
    rw (e, h)
      (rw (
        le→ltb (2 + n) (2 + n) (omega arith),
        le→ltb 128 n small,
        slice-parts 2 n (2 ∷ n ∷ []) bytes more refl refl,
      ))
