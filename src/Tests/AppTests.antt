-- ===== src/Tests/AppTests.antt =====
-- src/app: a slave with two registers, and a search of an array from its front.
use service_data_gateway_edg.Prelude.{
  ℕ, zero, suc, ◌≡◌, ◌≢◌, refl, inr, List, [], ◌∷◌, Option, none, some, arith, All, get_elem?,
}
use service_data_gateway_edg.Ptable.Rows.{
  Sign, negative, equal, positive, Bsearch, Rs, egw_ptable_rs_lookup,
}
use service_data_gateway_edg.Ptable.Rows.Lookup.{IsBsearch}
use service_data_gateway_edg.App.Tables.{Key, SlaveRow, slave_lkp_cmp}
use service_data_gateway_edg.App.Tables.Order.{Found, slave_lookup-Found}

next_index : Option ℕ → Option ℕ
next_index none = none
next_index (some i) = some (suc i)

pick : Sign → Option ℕ → Option ℕ
unfolding next_index
pick equal o = some 0
pick negative o = next_index o
pick positive o = next_index o

pub from_front : {R : Type 0} → Bsearch R
unfolding pick
from_front f [] = none
from_front f (r ∷ l) = pick (f r) (from_front f l)

module _ {R : Type 0} (f : R → Sign) where
  Hits : List R → ℕ → Type 0
  Hits l i = (r : R) × (get_elem? l i ≡ some r) × (f r ≡ equal)

  next_index-Hits :
      (r : R) (l : List R) (o : Option ℕ) (i : ℕ)
      → ((j : ℕ) → o ≡ some j → Hits l j)
      → next_index o ≡ some i
      → Hits (r ∷ l) i
  unfolding next_index Hits
  next_index-Hits r l none i h e = absurd (cc)
  next_index-Hits r l (some j) zero h e = absurd (cc)
  next_index-Hits r l (some j) (suc i) h e = h i cc

  pick-Hits :
      (r : R) (l : List R) (s : Sign) (o : Option ℕ) (i : ℕ)
      → f r ≡ s
      → ((j : ℕ) → o ≡ some j → Hits l j)
      → pick s o ≡ some i
      → Hits (r ∷ l) i
  unfolding pick Hits
  pick-Hits r l equal o zero fr h e = (r, refl, fr)
  pick-Hits r l equal o (suc i) fr h e = absurd (cc)
  pick-Hits r l negative o i fr h e = next_index-Hits r l o i h e
  pick-Hits r l positive o i fr h e = next_index-Hits r l o i h e

  from_front-hit : (l : List R) (i : ℕ) → from_front f l ≡ some i → Hits l i
  unfolding from_front
  from_front-hit [] i e = absurd (cc)
  from_front-hit (r ∷ l) i e =
      pick-Hits r l (f r) (from_front f l) i refl (λ j e'. from_front-hit l j e') e

  next_index-none : (o : Option ℕ) → next_index o ≡ none → o ≡ none
  unfolding next_index
  next_index-none none e = refl
  next_index-none (some i) e = absurd (cc)

  pick-none : (s : Sign) (o : Option ℕ) → pick s o ≡ none → (s ≢ equal) × (o ≡ none)
  unfolding pick
  pick-none equal o e = absurd (cc)
  pick-none negative o e = (λ h. absurd (cc), next_index-none o e)
  pick-none positive o e = (λ h. absurd (cc), next_index-none o e)

  from_front-miss : (l : List R) → from_front f l ≡ none → All (λ r. f r ≢ equal) l
  unfolding from_front
  from_front-miss [] e = tt
  from_front-miss (r ∷ l) e =
      let (differs, rest) = pick-none (f r) (from_front f l) e in (differs, from_front-miss l rest)

from_front-IsBsearch : {R : Type 0} → IsBsearch (from_front {R = R})
unfolding Hits
from_front-IsBsearch = record {
  hit = λ f l i e. from_front-hit f l i e;
  miss = λ f l parted e. from_front-miss f l e;
}

abbrev register_at : ℕ → SlaveRow
register_at addr = record {
  device_id = 1;
  sig_id = 0;
  func_code = 3;
  reg_addr = addr;
  ctype = 3;
  flags = 0;
  scale = 0;
  offset = 0;
  deadband = 0;
  value = 0;
}

abbrev slave_rows : Rs Key SlaveRow
slave_rows = record {
  count = 2;
  lkp_cmp = some slave_lkp_cmp;
  rows = register_at 16 ∷ register_at 20 ∷ [];
}

slave_lookup-Found_example :
    Found slave_rows.rows
      (record { unit_id = 1; reg_addr = 20 })
      (egw_ptable_rs_lookup from_front (some slave_rows) (record { unit_id = 1; reg_addr = 20 }))
slave_lookup-Found_example =
    slave_lookup-Found from_front slave_rows (record { unit_id = 1; reg_addr = 20 })
      from_front-IsBsearch refl ((omega arith, omega arith), ((omega arith, omega arith), tt))
      ((inr (refl, omega arith), tt), (tt, tt)) (omega arith) (omega arith)
