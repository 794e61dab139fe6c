-- ===== src/Prelude/Slices.antt =====
-- More on `take` and `drop`: parts of parts, of appended lists, and a list in four parts.
use Prim.Native.Nat.{ℕ, zero, suc, ◌+◌, ◌≤◌}
use mathlib.Core.Path.{◌≡◌, refl, ap, sym, ◌∙◌}
use mathlib.Core.List.{List, [], ◌∷◌, ◌++◌}
use native.Mathlib.Omega.{arith}
use service_data_gateway_edg.Prelude.Lists.{
  length, take, drop, length-take, length-drop, take-append-drop,
}

module _ {ℓ} {A : Type ℓ} where
  pub drop-append : (n : ℕ) (xs ys : List A) → n ≤ length xs → drop n (xs ++ ys) ≡ drop n xs ++ ys
  drop-append zero xs ys h = refl
  drop-append (suc n) [] ys h = absurd (omega arith)
  drop-append (suc n) (x ∷ xs) ys h = drop-append n xs ys (omega arith)

  pub take-append_add :
      (n k : ℕ) (xs ys : List A) → n ≡ length xs + k → take n (xs ++ ys) ≡ xs ++ take k ys
  take-append_add n k [] ys h = let same : n ≡ k = omega arith in ap (λ (i : ℕ). take i ys) same
  take-append_add zero k (x ∷ xs) ys h = absurd (omega arith)
  take-append_add (suc n) k (x ∷ xs) ys h =
      ap (λ l. x ∷ l) (take-append_add n k xs ys (omega arith))

  pub take-take : (n m : ℕ) (xs : List A) → n ≤ m → take n (take m xs) ≡ take n xs
  take-take zero m xs h = refl
  take-take (suc n) zero xs h = absurd (omega arith)
  take-take (suc n) (suc m) [] h = refl
  take-take (suc n) (suc m) (x ∷ xs) h = ap (λ l. x ∷ l) (take-take n m xs (omega arith))

  take_nil : (n : ℕ) → take {A = A} n [] ≡ []
  take_nil zero = refl
  take_nil (suc n) = refl

  drop_nil : (n : ℕ) → drop {A = A} n [] ≡ []
  drop_nil zero = refl
  drop_nil (suc n) = refl

  pub drop-take : (n k m : ℕ) (xs : List A) → m ≡ n + k → drop n (take m xs) ≡ take k (drop n xs)
  drop-take zero k m xs h = let same : m ≡ k = omega arith in ap (λ (i : ℕ). take i xs) same
  drop-take (suc n) k zero xs h = absurd (omega arith)
  drop-take (suc n) k (suc m) [] h = sym (take_nil k)
  drop-take (suc n) k (suc m) (x ∷ xs) h = drop-take n k m xs (omega arith)

  pub drop-drop : (n k m : ℕ) (xs : List A) → m ≡ n + k → drop k (drop n xs) ≡ drop m xs
  drop-drop zero k m xs h = let same : k ≡ m = omega arith in ap (λ (i : ℕ). drop i xs) same
  drop-drop (suc n) k zero xs h = absurd (omega arith)
  drop-drop (suc n) k (suc m) [] h = drop_nil k
  drop-drop (suc n) k (suc m) (x ∷ xs) h = drop-drop n k m xs (omega arith)

-- Pieces in their order.
abbrev pub joined {ℓ} : {A : Type ℓ} → List (List A) → List A
joined [] = []
joined (l ∷ ls) = l ++ joined ls

-- A list in four parts, the first three of given lengths.
pub record Parts (l : List ℕ) (i j k : ℕ) : Type 0 where
  pub a : List ℕ
  pub b : List ℕ
  pub c : List ℕ
  pub d : List ℕ
  pub whole : l ≡ a ++ (b ++ (c ++ d))
  pub at_a : length a ≡ i
  pub at_b : length b ≡ j
  pub at_c : length c ≡ k
  pub at_d : length d + (i + (j + k)) ≡ length l

pub split-Parts : (l : List ℕ) (i j k : ℕ) → i + (j + k) ≤ length l → Parts l i j k
split-Parts l i j k h = record {
  a = take i l;
  b = take j (drop i l);
  c = take k (drop j (drop i l));
  d = drop k (drop j (drop i l));
  whole = sym (
      ap (λ r. take i l ++ (take j (drop i l) ++ r)) (take-append-drop k (drop j (drop i l)))
      ∙ ap (λ r. take i l ++ r) (take-append-drop j (drop i l))
      ∙ take-append-drop i l);
  at_a = omega (arith, length-take i l);
  at_b = omega (arith, length-take j (drop i l), length-drop i l);
  at_c =
      omega (arith, length-take k (drop j (drop i l)), length-drop j (drop i l), length-drop i l);
  at_d =
      omega (arith, length-drop k (drop j (drop i l)), length-drop j (drop i l), length-drop i l);
}
