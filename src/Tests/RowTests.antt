-- ===== src/Tests/RowTests.antt =====
-- src/ptable/egw_ptable.c: a table with one column of two rows.
use service_data_gateway_edg.Prelude.{
  ℕ, ◌≡◌, refl, true, List, [], ◌∷◌, Option, none, some, done, fault, arith, ◌==◌,
}
use service_data_gateway_edg.Ptable.Head.{codes, text_eq}
use service_data_gateway_edg.Ptable.Rows.{
  u16, Column, Schema, Answers, resolve_cols, validate_order_by, read_fields, egw_ptable_register,
  find_col, has_field, read_column, stored,
}
use service_data_gateway_edg.Ptable.Rows.Fill.{Registers, register_loads, register_overflow}

abbrev value_schema : Schema ℕ ℕ
value_schema = record {
  fields = record { name = some (codes "value"); ctype = u16; assign = λ v r. v } ∷ [];
  zeroed = 0;
  order_by = codes "value" ∷ [];
  lkp = none;
}

abbrev cell : ℕ → List Column
cell v = record { name = codes "value"; int64 = v; double = 0 } ∷ []

abbrev two_rows : Answers
two_rows = record {
  count_prepares = true;
  counted = some 2;
  rows_prepare = true;
  result = cell 7 ∷ cell 65544 ∷ [];
}

two_rows-Registers : Registers (λ d. d) value_schema two_rows (cell 7) 2 (some 0 ∷ [])
unfolding validate_order_by resolve_cols has_field find_col text_eq
two_rows-Registers = record {
  some_fields = omega arith;
  ordered = refl;
  counts = refl;
  counted = refl;
  small = omega arith;
  prepares = refl;
  resolved = refl;
}

-- One row more than the count says.
abbrev one_counted : Answers
one_counted = record two_rows { counted = some 1 }

one_counted-Registers : Registers (λ d. d) value_schema one_counted (cell 7) 1 (some 0 ∷ [])
one_counted-Registers = record {
  some_fields = two_rows-Registers.some_fields;
  ordered = two_rows-Registers.ordered;
  counts = refl;
  counted = refl;
  small = omega arith;
  prepares = refl;
  resolved = two_rows-Registers.resolved;
}

reads :
    (v w : ℕ)
    → stored (λ d. d) u16 (record { name = []; int64 = v; double = 0 }) ≡ some w
    → read_fields (λ d. d) 0 value_schema.fields (some 0 ∷ []) (cell v) ≡ done w
unfolding read_fields read_column stored service_data_gateway_edg.Prelude.load
reads v w e = cc

register_loads_example :
    egw_ptable_register (λ d. d) value_schema true two_rows
    ≡ done (some (record { count = 2; lkp_cmp = none; rows = 7 ∷ 8 ∷ [] }))
unfolding stored
register_loads_example =
    register_loads (λ d. d) value_schema two_rows (cell 7) (cell 65544 ∷ []) (some 0 ∷ [])
      (7 ∷ 8 ∷ []) two_rows-Registers refl (reads 7 7 refl, (reads 65544 8 refl, tt))

register_overflow_example : egw_ptable_register (λ d. d) value_schema true one_counted ≡ fault
unfolding stored
register_overflow_example =
    register_overflow (λ d. d) value_schema one_counted (cell 7) [] (cell 65544) [] (some 0 ∷ [])
      (7 ∷ []) 8 one_counted-Registers refl (reads 7 7 refl, tt) (reads 65544 8 refl)
