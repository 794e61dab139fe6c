-- ===== src/Ptable.antt =====
-- src/ptable/egw_ptable.c, src/ptable/include/egw_ptable.h. SQLite is not part of the repository:
-- what its statements deliver is an argument, a list of rows.
pub mod Head
pub mod Manifest
pub mod Rows
use service_data_gateway_edg.Prelude.{ℕ, List, Option, none, some, take}

-- Text is the list of its bytes, without the closing 0. `snprintf(dst, size, "%s", …)` and the
-- `strncpy` calls keep the first `size - 1` bytes.
abbrev pub Text : Type 0
Text = List ℕ

abbrev pub clip : ℕ → Text → Text
clip n t = take n t
