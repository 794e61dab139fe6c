-- ===== src/Prelude/Memory.antt =====
-- C code that may touch memory outside an object. `fault` is that undefined behaviour; everything
-- else is `done`. An array is the list of its elements, so its length is its real extent.
use Prim.Native.Nat.{ℕ, ◌+◌, ◌<◌}
use mathlib.Core.Path.{◌≡◌}
use mathlib.Core.Option.{Option, none, some}
use mathlib.Core.List.{List, ◌∷◌, ◌++◌}
use native.Mathlib.Omega.{arith}
use service_data_gateway_edg.Prelude.Tests.{leb, if◌then◌else◌, le→leb, lt→leb}
use service_data_gateway_edg.Prelude.Lists.{
  length, get_elem?, take, drop, length-append, take-append_length, drop-append_length,
  get_elem?-append_length, drop-append_add,
}

pub data Run {ℓ} (A : Type ℓ) : Type ℓ where
  done : A → Run A
  fault : Run A

infixl 5 ◌>>=◌
abbrev pub ◌>>=◌ {ℓ κ} : {A : Type ℓ} {B : Type κ} → Run A → (A → Run B) → Run B
done a >>= f = f a
fault >>= f = fault

module _ {ℓ} {A : Type ℓ} where
  abbrev pub or_fault : Option A → Run A
  or_fault none = fault
  or_fault (some a) = done a

  -- `buf[i]`, read.
  unfoldable pub load : List A → ℕ → Run A
  load buf i = or_fault (get_elem? buf i)

  -- The `n` elements from `buf + off`, as `memcpy` or a loop reads them.
  unfoldable pub slice : List A → ℕ → ℕ → Run (List A)
  slice buf off n = if leb (off + n) (length buf) then done (take n (drop off buf)) else fault

  -- `memcpy(buf + off, xs, length xs)`, or that many assignments in a row.
  unfoldable pub store : List A → ℕ → List A → Run (List A)
  store buf off xs =
      if leb (off + length xs) (length buf)
      then done (take off buf ++ (xs ++ drop (off + length xs) buf))
      else fault

module _ {ℓ} {A : Type ℓ} where
  -- Accesses at the seam of a buffer in parts.
  pub store-parts :
      (off : ℕ) (a b c xs : List A)
      → off ≡ length a
      → length xs ≡ length b
      → store (a ++ (b ++ c)) off xs ≡ done (a ++ (xs ++ c))
  unfolding store
  store-parts off a b c xs h k = rw (
    le→leb (off + length xs) (length (a ++ (b ++ c)))
        (omega (arith, length-append a (b ++ c), length-append b c)),
    take-append_length off a (b ++ c) h,
    drop-append_add (off + length xs) (length xs) a (b ++ c) (omega arith),
    drop-append_length (length xs) b c k,
  )

  pub slice-parts :
      (off n : ℕ) (a b c : List A)
      → off ≡ length a
      → n ≡ length b
      → slice (a ++ (b ++ c)) off n ≡ done b
  unfolding slice
  slice-parts off n a b c h k = rw (
    le→leb (off + n) (length (a ++ (b ++ c)))
        (omega (arith, length-append a (b ++ c), length-append b c)),
    drop-append_length off a (b ++ c) h,
    take-append_length n b c k,
  )

  pub load-parts :
      (i : ℕ) (a : List A) (x : A) (c : List A) → i ≡ length a → load (a ++ x ∷ c) i ≡ done x
  unfolding load
  load-parts i a x c h = rw (get_elem?-append_length i a c x h)

  -- Accesses past the end are faults.
  pub store-fault :
      (buf : List A) (off : ℕ) (xs : List A)
      → length buf < off + length xs
      → store buf off xs ≡ fault
  unfolding store
  store-fault buf off xs h = rw (lt→leb (off + length xs) (length buf) h)

  pub slice-fault : (buf : List A) (off n : ℕ) → length buf < off + n → slice buf off n ≡ fault
  unfolding slice
  slice-fault buf off n h = rw (lt→leb (off + n) (length buf) h)
