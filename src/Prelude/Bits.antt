-- ===== src/Prelude/Bits.antt =====
-- Laws of the bit operations on native numbers, from the digit recursion that they stand for.
use Prim.Native.Nat.{
  ℕ, zero, suc, ◌+◌, ◌*◌, ◌/◌, ◌%◌, ◌^◌, ◌≤◌, ◌<◌, min, max, bit_and, bit_or, bit_xor, digits,
  bit_and-bitwise, bit_or-bitwise, bit_xor-bitwise, bitwise, differ,
}
use mathlib.Core.Path.{◌≡◌, refl, ap, sym, ◌∙◌}
use mathlib.Core.Bool.{Bool, true, ◌&&◌}
use native.Mathlib.Omega.{arith}
use native.Mathlib.Nat.{pow-suc}
use service_data_gateway_edg.Prelude.Tests.{◌==◌}

-- A test passes on every number below a bound.
unfoldable pub passes_below : (ℕ → Bool) → ℕ → Bool
passes_below test zero = true
passes_below test (suc bound) = passes_below test bound && test bound

pub passes_below_sound :
    (test : ℕ → Bool) (bound i : ℕ) → i < bound → passes_below test bound ≡ true → test i ≡ true
unfolding passes_below
passes_below_sound test (suc bound) i small all = ground (arith, passes_below_sound test bound i)
passes_below_sound test zero i small all = absurd (omega arith)

-- The operations on bits are recursions on the digits of the first argument; `with_zero` is what
-- they give for 0 and `digit` combines two digits.
module _ (with_zero : ℕ → ℕ) (digit : ℕ → ℕ → ℕ) where
  zero_digits : (k y : ℕ) → digits with_zero digit k 0 y ≡ with_zero y
  zero_digits zero y = refl
  zero_digits (suc k) y = refl

  same_digits :
      (k l x y : ℕ) → x ≤ k → x ≤ l → digits with_zero digit k x y ≡ digits with_zero digit l x y
  same_digits k l zero y small_k small_l = zero_digits k y ∙ sym (zero_digits l y)
  same_digits (suc k) (suc l) (suc x) y small_k small_l =
      ap (λ (d : ℕ). d * 2 + digit (suc x % 2) (y % 2))
        (same_digits k l (suc x / 2) (y / 2) (omega arith) (omega arith))
  same_digits zero l (suc x) y small_k small_l = absurd (omega arith)
  same_digits (suc k) zero (suc x) y small_k small_l = absurd (omega arith)

  lowest_digit :
      (op : ℕ → ℕ → ℕ)
      → ((x y : ℕ) → op x y ≡ bitwise with_zero digit x y)
      → ((y : ℕ) → with_zero y ≡ with_zero (y / 2) * 2 + digit 0 (y % 2))
      → (x y : ℕ) → op x y ≡ op (x / 2) (y / 2) * 2 + digit (x % 2) (y % 2)
  lowest_digit op is zeros zero y = omega (arith, is 0 y, is 0 (y / 2), zeros y)
  lowest_digit op is zeros (suc x) y =
      let half : ℕ = suc x / 2 in
      omega (
        arith,
        is (suc x) y,
        is half (y / 2),
        same_digits x half half (y / 2) (omega arith) (omega arith),
      )

differ-add : (x y : ℕ) → x < 2 → y < 2 → differ x y ≡ (x + y) % 2
differ-add zero zero h k = refl
differ-add zero (suc zero) h k = refl
differ-add (suc zero) zero h k = refl
differ-add (suc zero) (suc zero) h k = refl
differ-add (suc (suc x)) y h k = absurd (omega arith)
differ-add zero (suc (suc y)) h k = absurd (omega arith)
differ-add (suc zero) (suc (suc y)) h k = absurd (omega arith)

pub zero-bit_xor : (b : ℕ) → bit_xor 0 b ≡ b
zero-bit_xor b = bit_xor-bitwise 0 b

pub zero-bit_or : (b : ℕ) → bit_or 0 b ≡ b
zero-bit_or b = bit_or-bitwise 0 b

-- The lowest digit of an exclusive or.
pub bit_xor_step : (a b : ℕ) → bit_xor a b ≡ bit_xor (a / 2) (b / 2) * 2 + (a + b) % 2
bit_xor_step a b = omega (
  arith,
  lowest_digit (λ y. y) differ bit_xor bit_xor-bitwise
      (λ y. omega (arith, differ-add 0 (y % 2) (omega arith) (omega arith))) a b,
  differ-add (a % 2) (b % 2) (omega arith) (omega arith),
)

pub bit_or_step : (a b : ℕ) → bit_or a b ≡ bit_or (a / 2) (b / 2) * 2 + max (a % 2) (b % 2)
bit_or_step = lowest_digit (λ y. y) max bit_or bit_or-bitwise (λ y. omega arith)

bit_xor_comm_below : (n a b : ℕ) → a ≤ n → b ≤ n → bit_xor a b ≡ bit_xor b a
bit_xor_comm_below zero zero zero h k = refl
bit_xor_comm_below zero (suc a) b h k = absurd (omega arith)
bit_xor_comm_below zero zero (suc b) h k = absurd (omega arith)
bit_xor_comm_below (suc n) a b h k = omega (
  arith,
  bit_xor_step a b,
  bit_xor_step b a,
  bit_xor_comm_below n (a / 2) (b / 2) (omega arith) (omega arith),
)

pub bit_xor_comm : (a b : ℕ) → bit_xor a b ≡ bit_xor b a
bit_xor_comm a b = bit_xor_comm_below (a + b) a b (omega arith) (omega arith)

pub bit_xor-zero : (a : ℕ) → bit_xor a 0 ≡ a
bit_xor-zero a = omega (arith, bit_xor_comm a 0, zero-bit_xor a)

bit_xor_assoc_below : (n a b c : ℕ) → a ≤ n → bit_xor (bit_xor a b) c ≡ bit_xor a (bit_xor b c)
bit_xor_assoc_below n zero b c h = rw (zero-bit_xor b, zero-bit_xor (bit_xor b c)) refl
bit_xor_assoc_below zero (suc a) b c h = absurd (omega arith)
bit_xor_assoc_below (suc n) (suc a) b c h =
    let ab : bit_xor (suc a) b / 2 ≡ bit_xor (suc a / 2) (b / 2) =
      omega (arith, bit_xor_step (suc a) b) in
    let bc : bit_xor b c / 2 ≡ bit_xor (b / 2) (c / 2) = omega (arith, bit_xor_step b c) in
    let left : bit_xor (bit_xor (suc a) b / 2) (c / 2)
        ≡ bit_xor (bit_xor (suc a / 2) (b / 2)) (c / 2) =
      rw ab refl in
    let right : bit_xor (suc a / 2) (bit_xor b c / 2)
        ≡ bit_xor (suc a / 2) (bit_xor (b / 2) (c / 2)) =
      rw bc refl in
    omega (
      arith,
      left,
      right,
      bit_xor_step (bit_xor (suc a) b) c,
      bit_xor_step (suc a) (bit_xor b c),
      bit_xor_step (suc a) b,
      bit_xor_step b c,
      bit_xor_assoc_below n (suc a / 2) (b / 2) (c / 2) (omega arith),
    )

pub bit_xor_assoc : (a b c : ℕ) → bit_xor (bit_xor a b) c ≡ bit_xor a (bit_xor b c)
bit_xor_assoc a b c = bit_xor_assoc_below a a b c (omega arith)

pub mul-two_pow_suc : (q k : ℕ) → q * 2 ^ suc k ≡ 2 * (q * 2 ^ k)
mul-two_pow_suc q k = omega (arith, ap (λ (t : ℕ). q * t) (pow-suc 2 k))

-- Fields of disjoint bits add up.
pub bit_xor_fields : (k q r : ℕ) → r < 2 ^ k → bit_xor r (q * 2 ^ k) ≡ q * 2 ^ k + r
bit_xor_fields zero q r h =
    let r0 : r ≡ 0 = omega arith in rw r0 (omega (arith, zero-bit_xor (q * 2 ^ 0)))
bit_xor_fields (suc k) q r h = ground (
  arith,
  bit_xor_step r (q * 2 ^ suc k),
  mul-two_pow_suc q k,
  pow-suc 2 k,
  bit_xor_fields k q (r / 2) (omega (arith, pow-suc 2 k)),
)

bit_or_comm_below : (n a b : ℕ) → a ≤ n → b ≤ n → bit_or a b ≡ bit_or b a
bit_or_comm_below zero zero zero h k = refl
bit_or_comm_below zero (suc a) b h k = absurd (omega arith)
bit_or_comm_below zero zero (suc b) h k = absurd (omega arith)
bit_or_comm_below (suc n) a b h k = omega (
  arith,
  bit_or_step a b,
  bit_or_step b a,
  bit_or_comm_below n (a / 2) (b / 2) (omega arith) (omega arith),
)

pub bit_or_fields : (k q r : ℕ) → r < 2 ^ k → bit_or (q * 2 ^ k) r ≡ q * 2 ^ k + r
bit_or_fields zero q r h =
    let r0 : r ≡ 0 = omega arith in
    rw r0 (
      omega (
        arith,
        bit_or_comm_below (q * 1) (q * 1) 0 (omega arith) (omega arith),
        zero-bit_or (q * 1),
      ))
bit_or_fields (suc k) q r h = ground (
  arith,
  bit_or_step (q * 2 ^ suc k) r,
  mul-two_pow_suc q k,
  pow-suc 2 k,
  bit_or_fields k q (r / 2) (omega (arith, pow-suc 2 k)),
)

pub bit_xor-lt : (k a b : ℕ) → a < 2 ^ k → b < 2 ^ k → bit_xor a b < 2 ^ k
bit_xor-lt zero a b h j =
    let a0 : a ≡ 0 = omega arith in let b0 : b ≡ 0 = omega arith in rw (a0, b0) (omega arith)
bit_xor-lt (suc k) a b h j = omega (
  arith,
  bit_xor_step a b,
  pow-suc 2 k,
  bit_xor-lt k (a / 2) (b / 2) (omega (arith, pow-suc 2 k)) (omega (arith, pow-suc 2 k)),
)

bit_and_step : (a b : ℕ) → bit_and a b ≡ bit_and (a / 2) (b / 2) * 2 + min (a % 2) (b % 2)
bit_and_step = lowest_digit (λ y. 0) min bit_and bit_and-bitwise (λ y. omega arith)

bit_and-zero_below : (n a : ℕ) → a ≤ n → bit_and a 0 ≡ 0
bit_and-zero_below n zero h = refl
bit_and-zero_below zero (suc a) h = absurd (omega arith)
bit_and-zero_below (suc n) (suc a) h =
    omega (arith, bit_and_step (suc a) 0, bit_and-zero_below n (suc a / 2) (omega arith))

pub bit_and-one : (a : ℕ) → bit_and a 1 ≡ a % 2
bit_and-one a = omega (arith, bit_and_step a 1, bit_and-zero_below (a / 2) (a / 2) (omega arith))

-- The sign bit of a byte, and the rest.
high_bit_table :
    passes_below
      (λ x.
        (bit_and x 0x80 == (x / 128 * 128))
        && (bit_and x 0x7F == x % 128)
        && (bit_or x 0x80 == x % 128 + 128))
      256
    ≡ true
unfolding passes_below
high_bit_table = refl

pub high_bit :
    (x : ℕ)
    → x < 256
    → (bit_and x 0x80 ≡ x / 128 * 128)
      × (bit_and x 0x7F ≡ x % 128)
      × (bit_or x 0x80 ≡ x % 128 + 128)
high_bit x h = ground (arith, passes_below_sound _ 256 x h high_bit_table)
