-- ===== src/Ptable/Manifest/Discover.antt =====
-- src/ptable/egw_ptable.c: what `egw_ptable_discover` makes of the rows that the manifest query delivers.
use service_data_gateway_edg.Prelude.{
  ◌+◌, ◌^◌, ◌≤◌, ◌≡◌, refl, ap, ◌∙◌, Bool, true, false, List, [], ◌∷◌, Option, none, some, done,
  ◌>>=◌, if◌then◌else◌, arith, length,
}
use service_data_gateway_edg.Ptable.{Text}
use service_data_gateway_edg.Ptable.Manifest.{
  Manifest, fresh, Row, valid_cb, collect, egw_ptable_discover,
}
use service_data_gateway_edg.Ptable.Manifest.Entries.{IsValid, valid_cb-Grown}

-- A result that is a valid manifest, if it is one.
pub IsValidIfAny : Option Manifest → Type 0
IsValidIfAny none = Unit
IsValidIfAny (some mh) = IsValid mh

fresh-IsValid : IsValid fresh
fresh-IsValid = record { counted = refl; within = omega arith }

collect_row :
    (junk : Text) (mh mh' : Manifest) (b : Bool) (row : Row) (rows : List (Bool × Row))
    → valid_cb b junk mh row ≡ done mh'
    → collect junk mh ((b, row) ∷ rows) ≡ collect junk mh' rows
unfolding collect
collect_row junk mh mh' b row rows e = ap (λ r. r >>= (λ mh. collect junk mh rows)) e

collect-IsValid :
    (junk : Text) (rows : List (Bool × Row)) (mh : Manifest)
    → IsValid mh
    → mh.count + length rows ≤ 2 ^ 31
    → (mh' : Manifest) × (collect junk mh rows ≡ done mh') × IsValid mh'
unfolding collect
collect-IsValid junk [] mh v few = (mh, refl, v)
collect-IsValid junk ((b, row) ∷ rows) mh v few =
    let (next, e, g) = valid_cb-Grown b junk mh row v (omega arith) in
    let (end, ends, valid) = collect-IsValid junk rows next g.valid (omega (arith, g.one_more)) in
    (end, collect_row junk mh next b row rows e ∙ ends, valid)

-- Where the query delivers at most 2 ^ 31 rows, and whatever `calloc`, `realloc` and the query
-- itself give, discovering never writes outside the array of tables; a manifest that it gives
-- counts exactly the tables that its array holds, and the array is large enough for them.
pub discover-IsValid :
    (junk : Text) (calloc_ok exec_ok : Bool) (rows : List (Bool × Row))
    → length rows ≤ 2 ^ 31
    → (o : Option Manifest) × (egw_ptable_discover junk calloc_ok exec_ok rows ≡ done o)
      × IsValidIfAny o
unfolding egw_ptable_discover IsValidIfAny
discover-IsValid junk false exec_ok rows few = (none, refl, tt)
discover-IsValid junk true exec_ok rows few =
    let (mh, e, v) = collect-IsValid junk rows fresh fresh-IsValid (omega arith) in
    (
      if exec_ok then some mh else none,
      ap (λ r. r >>= (λ mh. done (if exec_ok then some mh else none))) e,
      valid exec_ok mh v,
    )
  where
    valid : (b : Bool) (mh : Manifest) → IsValid mh → IsValidIfAny (if b then some mh else none)
    valid true mh v = v
    valid false mh v = tt
