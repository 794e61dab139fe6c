-- ===== src/Ptable/Manifest.antt =====
-- src/ptable/egw_ptable.c: the list of business tables that `egw_ptable_discover` collects.
pub mod Entries
pub mod Discover
use service_data_gateway_edg.Prelude.{
  ℕ, ◌+◌, ◌*◌, ◌%◌, ◌^◌, Bool, not, List, [], ◌∷◌, ◌++◌, Option, none, some, Run, done, fault,
  ◌>>=◌, ltb, leb, ◌==◌, if◌then◌else◌, get_elem?,
}
use service_data_gateway_edg.Ptable.{Text, clip}

-- `egw_ptable_tbl_t`.
pub record Tbl : Type 0 where
  pub name : Text
  pub protocol : Text

-- `struct egw_manifest`: `tables` holds the first `count` entries of an array of `cap`. Both numbers
-- are a `uint32_t`.
pub record Manifest : Type 0 where
  pub tables : List Tbl
  pub count : ℕ
  pub cap : ℕ

-- The result of `calloc`.
abbrev pub fresh : Manifest
fresh = record { tables = []; count = 0; cap = 0 }

-- A row of the manifest query: the number of columns and the two values.
pub record Row : Type 0 where
  pub ncol : ℕ
  pub key : Option Text
  pub value : Option Text

-- The protocol of an entry is left as `realloc` returned it, `junk`, when the column is NULL.
unfoldable pub protocol_of : Text → Option Text → Text
protocol_of junk none = junk
protocol_of junk (some v) = clip 31 v

-- Writing the entry `count`, which the array must have, and counting it.
unfoldable pub append_table : Text → Manifest → Text → Option Text → Run Manifest
unfolding protocol_of
append_table junk mh name value =
    if leb mh.cap mh.count
    then fault
    else done (record mh {
      tables = mh.tables ++ record { name = clip 31 name; protocol = protocol_of junk value } ∷ [];
      count = (mh.count + 1) % 2 ^ 32;
    })

unfoldable pub add_named : Bool → Text → Manifest → Text → Option Text → Run Manifest
unfolding append_table
add_named realloc_ok junk mh name value =
    if leb mh.cap mh.count
    then (if realloc_ok
        then append_table junk
            (record mh { cap = if mh.cap == 0 then 4 else (mh.cap * 2) % 2 ^ 32 }) name value
        else done mh)
    else append_table junk mh name value

unfoldable pub add_keyed : Bool → Text → Manifest → Option Text → Option Text → Run Manifest
unfolding add_named
add_keyed realloc_ok junk mh none value = done mh
add_keyed realloc_ok junk mh (some name) value = add_named realloc_ok junk mh name value

-- `valid_cb`; it always returns 0, so the query goes on.
unfoldable pub valid_cb : Bool → Text → Manifest → Row → Run Manifest
unfolding add_keyed
valid_cb realloc_ok junk mh row =
    if ltb row.ncol 2 then done mh else add_keyed realloc_ok junk mh row.key row.value

-- The rows of the query in turn, each with what `realloc` does for it.
unfoldable pub collect : Text → Manifest → List (Bool × Row) → Run Manifest
unfolding valid_cb
collect junk mh [] = done mh
collect junk mh ((realloc_ok, row) ∷ rows) = do
  mh ← valid_cb realloc_ok junk mh row
  collect junk mh rows

-- `egw_ptable_discover`, where the first query is reached; the other two only log.
unfoldable pub egw_ptable_discover : Text → Bool → Bool → List (Bool × Row) → Run (Option Manifest)
unfolding collect
egw_ptable_discover junk calloc_ok exec_ok rows =
    if not calloc_ok
    then done none
    else (do mh ← collect junk fresh rows; done (if exec_ok then some mh else none))

-- `egw_manifest_count` and `egw_manifest_get`.
unfoldable pub egw_manifest_count : Option Manifest → ℕ
egw_manifest_count none = 0
egw_manifest_count (some mh) = mh.count

unfoldable pub egw_manifest_get : Option Manifest → ℕ → Option Tbl
egw_manifest_get none index = none
egw_manifest_get (some mh) index = if leb mh.count index then none else get_elem? mh.tables index
