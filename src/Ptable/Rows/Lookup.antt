-- ===== src/Ptable/Rows/Lookup.antt =====
-- src/ptable/egw_ptable.c: looking a row up in a sorted row set.
use service_data_gateway_edg.Prelude.{
  ℕ, ◌≤◌, ◌≡◌, ◌≢◌, ap, sym, ◌∙◌, List, [], ◌∷◌, Option, none, some, All, get_elem?, ltb,
  if◌then◌else◌, arith,
}
use service_data_gateway_edg.Ptable.Rows.{
  Sign, negative, equal, positive, Bsearch, Rs, egw_ptable_rs_lookup, rs_search,
}

-- `(va > vb) - (va < vb)`.
unfoldable pub three_way : ℕ → ℕ → Sign
three_way va vb = if ltb vb va then positive else if ltb va vb then negative else equal

abbrev pub place : Sign → ℕ
place positive = 0
place equal = 1
place negative = 2

-- First the elements that the key is greater than, then those it is equal to, then the rest: what
-- `bsearch` asks of an array.
abbrev pub Parted : {R : Type 0} → (R → Sign) → List R → Type 0
Parted f [] = Unit
Parted f (r ∷ l) = All (λ r'. place (f r) ≤ place (f r')) l × Parted f l

-- What the C standard says of `bsearch`: what it finds is equal to the key, and on such an array it
-- finds an equal element if there is one.
pub record IsBsearch {R : Type 0} (bsearch : Bsearch R) : Type 0 where
  pub hit :
      (f : R → Sign) (l : List R) (i : ℕ)
      → bsearch f l ≡ some i
      → (r : R) × (get_elem? l i ≡ some r) × (f r ≡ equal)
  pub miss :
      (f : R → Sign) (l : List R) → Parted f l → bsearch f l ≡ none → All (λ r. f r ≢ equal) l

-- Rows in the order of their keys.
abbrev pub Sorted : {R : Type 0} → (R → ℕ) → List R → Type 0
Sorted key [] = Unit
Sorted key (r ∷ l) = All (λ r'. key r ≤ key r') l × Sorted key l

three_way-equal : (a b : ℕ) → three_way a b ≡ equal → b ≡ a
unfolding three_way
three_way-equal a b h = ground arith

three_way_refl : (a : ℕ) → three_way a a ≡ equal
unfolding three_way
three_way_refl a = ground arith

three_way_mono : (k a b : ℕ) → a ≤ b → place (three_way k a) ≤ place (three_way k b)
unfolding three_way
three_way_mono k a b h = ground arith

All-map : {R : Type 0} (P Q : R → Type 0) (l : List R) → ((r : R) → P r → Q r) → All P l → All Q l
All-map P Q [] f h = tt
All-map P Q (x ∷ l) f h = (f x h.0, All-map P Q l f h.1)

module _ {K R : Type 0} (code : K → ℕ) (key : R → ℕ) where
  Sorted-Parted : (k : K) (l : List R) → Sorted key l → Parted (λ r. three_way (code k) (key r)) l
  Sorted-Parted k [] h = tt
  Sorted-Parted k (r ∷ l) h = (
    All-map _ _ l (λ r' le. three_way_mono (code k) (key r) (key r') le) h.0,
    Sorted-Parted k l h.1,
  )

  -- What a lookup says: the index of a row with the key, or that there is none.
  abbrev pub Answer : List R → K → Option ℕ → Type 0
  Answer rows k (some i) = (r : R) × (get_elem? rows i ≡ some r) × (key r ≡ code k)
  Answer rows k none = All (λ r. key r ≢ code k) rows

  Answer-of :
      (bsearch : Bsearch R) (rows : List R) (k : K) (o : Option ℕ)
      → IsBsearch bsearch
      → Sorted key rows
      → bsearch (λ r. three_way (code k) (key r)) rows ≡ o
      → Answer rows k o
  Answer-of bsearch rows k (some i) law sorted e =
      let (r, at_i, same) = law.hit (λ r. three_way (code k) (key r)) rows i e in
      (r, at_i, three_way-equal (code k) (key r) same)
  Answer-of bsearch rows k none law sorted e =
      All-map _ _ rows
        (λ r differs h. differs (ap (three_way (code k)) h ∙ three_way_refl (code k)))
        (law.miss (λ r. three_way (code k) (key r)) rows (Sorted-Parted k rows sorted) e)

  -- A set of rows in the order of their keys, whose comparison function compares keys.
  pub lookup-Answer :
      (bsearch : Bsearch R) (rs : Rs K R) (k : K)
      → IsBsearch bsearch
      → rs.lkp_cmp ≡ some (λ k r. three_way (code k) (key r))
      → Sorted key rs.rows
      → Answer rs.rows k (egw_ptable_rs_lookup bsearch (some rs) k)
  unfolding egw_ptable_rs_lookup
  lookup-Answer bsearch rs k law compares sorted =
      Answer-of bsearch rs.rows k _ law sorted
        (sym (ap (λ c. rs_search bsearch c rs.rows k) compares))
