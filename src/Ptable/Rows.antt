-- ===== src/Ptable/Rows.antt =====
-- src/ptable/egw_ptable.c: `egw_ptable_register` and the row sets that it makes. A row is a structure
-- `R`; a field's offset is the assignment to the member that stands there, and every schema of the
-- program gives each field the type of its member.
pub mod Fill
pub mod Lookup
use service_data_gateway_edg.Prelude.{
  ℕ, zero, suc, ◌+◌, ◌%◌, ◌^◌, Bool, true, false, not, ◌&&◌, ◌||◌, List, [], ◌∷◌, Option, none,
  some, Run, done, ◌>>=◌, load, store, length, take, replicate, get_elem?, ltb, leb, ◌==◌,
  if◌then◌else◌,
}
use service_data_gateway_edg.Ptable.{Text, clip}
use service_data_gateway_edg.Ptable.Head.{text_eq}

-- `enum egw_ctype`; `other` is a value that the enumeration does not name.
pub data CType : Type 0 where
  bool i16 u16 i32 u32 i64 u64 f32 f64 str other : CType

-- A column of a result row: its name, and what `sqlite3_column_int64` and `sqlite3_column_double`
-- make of its value, as bit patterns.
pub record Column : Type 0 where
  pub name : Text
  pub int64 : ℕ
  pub double : ℕ

-- `egw_field_t`.
pub record Field (R : Type 0) : Type 0 where
  pub name : Option Text
  pub ctype : CType
  pub assign : ℕ → R → R

-- The sign of a comparison function's result.
pub data Sign : Type 0 where
  negative equal positive : Sign

-- `egw_schema_t`, with the tokens that `strtok_r` makes of the first 127 bytes of `order_by`, and
-- what `calloc` makes of a row.
pub record Schema (K R : Type 0) : Type 0 where
  pub fields : List (Field R)
  pub zeroed : R
  pub order_by : List Text
  pub lkp : Option (K → R → Sign)

-- `struct egw_ptable_rs`.
pub record Rs (K R : Type 0) : Type 0 where
  pub count : ℕ
  pub lkp_cmp : Option (K → R → Sign)
  pub rows : List R

module _ (to_float : ℕ → ℕ) where
  -- The value that `read_column` stores, if it stores one; `to_float` is the cast of a double to a
  -- float.
  unfoldable pub stored : CType → Column → Option ℕ
  stored f32 c = some (to_float c.double)
  stored f64 c = some c.double
  stored bool c = some (c.int64 % 256)
  stored u16 c = some (c.int64 % 65536)
  stored u32 c = some (c.int64 % 4294967296)
  stored u64 c = some c.int64
  stored i16 c = some (c.int64 % 65536)
  stored i32 c = some (c.int64 % 4294967296)
  stored i64 c = some c.int64
  stored str c = none
  stored other c = none

  assign_some : {R : Type 0} → Field R → R → Option ℕ → R
  assign_some f r none = r
  assign_some f r (some v) = f.assign v r

  -- `read_column`.
  unfoldable pub read_column : {R : Type 0} → R → Field R → Column → R
  unfolding stored assign_some
  read_column r f c = assign_some f r (stored f.ctype c)

  -- The inner loop: the fields with their columns, where they have one.
  unfoldable pub read_fields :
      {R : Type 0} → R → List (Field R) → List (Option ℕ) → List Column → Run R
  unfolding read_column
  read_fields r [] idx cols = done r
  read_fields r (f ∷ fs) [] cols = done r
  read_fields r (f ∷ fs) (none ∷ idx) cols = read_fields r fs idx cols
  read_fields r (f ∷ fs) (some i ∷ idx) cols = do
    c ← load cols i
    read_fields (read_column r f c) fs idx cols

  -- The loop over the result rows from the `n`-th row of the array on.
  unfoldable pub read_rows :
      {R : Type 0}
      → R
      → List (Field R)
      → List (Option ℕ)
      → List R
      → ℕ
      → List (List Column)
      → Run (List R)
  unfolding read_fields
  read_rows zeroed fs idx rows n [] = done rows
  read_rows zeroed fs idx rows n (cols ∷ more) = do
    r ← read_fields zeroed fs idx cols
    rows ← store rows n (r ∷ [])
    read_rows zeroed fs idx rows (n + 1) more

-- The inner loop of `resolve_cols`, from column `c` on.
unfoldable pub find_col : Text → List Column → ℕ → Option ℕ
unfolding text_eq
find_col name [] c = none
find_col name (col ∷ cols) c = if text_eq name col.name then some c else find_col name cols (c + 1)

resolve_found : Option ℕ → ℕ → List (Option ℕ) → ℕ × List (Option ℕ)
resolve_found none missing idx = (missing + 1, none ∷ idx)
resolve_found (some c) missing idx = (missing, some c ∷ idx)

resolve_one : Option Text → List Column → ℕ → List (Option ℕ) → ℕ × List (Option ℕ)
unfolding find_col resolve_found
resolve_one none cols missing idx = (missing, none ∷ idx)
resolve_one (some name) cols missing idx = resolve_found (find_col name cols 0) missing idx

-- `resolve_cols`: how many named fields have no column, and `col_idx`. The comparison of the column's
-- type with the field's only logs.
unfoldable pub resolve_cols : {R : Type 0} → List (Field R) → List Column → ℕ × List (Option ℕ)
unfolding resolve_one
resolve_cols [] cols = (0, [])
resolve_cols (f ∷ fs) cols =
    let rest = resolve_cols fs cols in resolve_one f.name cols rest.0 rest.1

is_named : Option Text → Text → Bool
unfolding text_eq
is_named none token = false
is_named (some name) token = text_eq name token

-- The inner loop of `validate_order_by`.
unfoldable pub has_field : {R : Type 0} → List (Field R) → Text → Bool
unfolding is_named
has_field [] token = false
has_field (f ∷ fs) token = is_named f.name token || has_field fs token

-- `validate_order_by`, over the tokens.
unfoldable pub validate_order_by : {R : Type 0} → List (Field R) → List Text → Bool
unfolding has_field
validate_order_by fs [] = true
validate_order_by fs (token ∷ tokens) = has_field fs token && validate_order_by fs tokens

-- What SQLite answers: whether the two statements prepare, the count that the first delivers, if it
-- does, and the rows of the second.
pub record Answers : Type 0 where
  pub count_prepares : Bool
  pub counted : Option ℕ
  pub rows_prepare : Bool
  pub result : List (List Column)

-- `(uint32_t)sqlite3_column_int(stmt, 0)`, or 0.
count_of : Option ℕ → ℕ
count_of none = 0
count_of (some n) = n % 4294967296

module _ (to_float : ℕ → ℕ) {K R : Type 0} (schema : Schema K R) where
  fill_rows : ℕ → List (List Column) → ℕ × List (Option ℕ) → Run (Option (Rs K R))
  unfolding read_rows
  fill_rows count result (zero, idx) = do
    rows ←
        read_rows to_float schema.zeroed schema.fields idx (replicate count schema.zeroed) 0 result
    done (some (record { count = count; lkp_cmp = schema.lkp; rows = rows }))
  fill_rows count result (suc missing, idx) = done none

  with_result : ℕ → List (List Column) → Run (Option (Rs K R))
  unfolding fill_rows resolve_cols
  with_result count [] =
      done (
        some (record { count = count; lkp_cmp = schema.lkp; rows = replicate count schema.zeroed }))
  with_result count (cols ∷ more) = fill_rows count (cols ∷ more) (resolve_cols schema.fields cols)

  -- `egw_ptable_register`. Where the rows do not fit the array they are written past its end; every
  -- schema of the program has a named field, so that something is written for each row.
  unfoldable pub egw_ptable_register : Bool → Answers → Run (Option (Rs K R))
  unfolding validate_order_by count_of with_result
  egw_ptable_register calloc_ok a =
      if length schema.fields == 0
      then done none
      else if not (validate_order_by schema.fields schema.order_by)
      then done none
      else if not (a.count_prepares && (calloc_ok && a.rows_prepare))
      then done none
      else with_result (count_of a.counted) a.result

-- `egw_ptable_rs_count`; `none` is NULL.
unfoldable pub egw_ptable_rs_count : {K R : Type 0} → Option (Rs K R) → ℕ
egw_ptable_rs_count none = 0
egw_ptable_rs_count (some rs) = rs.count

-- `egw_ptable_rs_row`: the row that the pointer points to.
unfoldable pub egw_ptable_rs_row : {K R : Type 0} → Option (Rs K R) → ℕ → Option R
egw_ptable_rs_row none i = none
egw_ptable_rs_row (some rs) i = if leb rs.count i then none else get_elem? rs.rows i

-- `bsearch` of the C library on an array, with the comparison of the key: the index it finds.
abbrev pub Bsearch : Type 0 → Type 0
Bsearch R = (R → Sign) → List R → Option ℕ

rs_search : {K R : Type 0} → Bsearch R → Option (K → R → Sign) → List R → K → Option ℕ
rs_search bsearch none rows key = none
rs_search bsearch (some cmp) rows key = bsearch (cmp key) rows

-- `egw_ptable_rs_lookup`.
unfoldable pub egw_ptable_rs_lookup : {K R : Type 0} → Bsearch R → Option (Rs K R) → K → Option ℕ
unfolding rs_search
egw_ptable_rs_lookup bsearch none key = none
egw_ptable_rs_lookup bsearch (some rs) key = rs_search bsearch rs.lkp_cmp rs.rows key
