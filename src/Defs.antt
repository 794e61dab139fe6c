-- ===== src/Defs.antt =====
-- src/core/include/egw_defs.h, egw_err.inc, egw_ctype.inc and src/core/egw_err.c.
use Prim.Native.String.{String}
use service_data_gateway_edg.Prelude.{ℕ, List, [], ◌∷◌, Bool, true, false, ◌==◌, if◌then◌else◌}

-- `enum egw_err`.
pub data Err : Type 0 where
  ok notfound parse invalid_arg nomem open_err close_err write_err read_err busy timeout : Err
  loop_run : Err

-- The codes are 0 and negative: the number is the code's absolute value.
unfoldable pub magnitude : Err → ℕ
magnitude ok = 0
magnitude notfound = 1
magnitude parse = 2
magnitude invalid_arg = 3
magnitude nomem = 4
magnitude open_err = 10
magnitude close_err = 11
magnitude write_err = 12
magnitude read_err = 13
magnitude busy = 14
magnitude timeout = 15
magnitude loop_run = 20

abbrev pub is_ok : Err → Bool
is_ok ok = true
is_ok _ = false

-- `egw_err_t` is an `int32_t`: minus `magnitude`, or a positive number.
pub data ErrCode : Type 0 where
  minus : ℕ → ErrCode
  plus : ℕ → ErrCode

-- The `case` labels of `egw_err_str`, in the order of egw_err.inc.
err_cases : List (Err × String)
err_cases =
    (ok, "EGW_OK (0): success")
    ∷ (notfound, "EGW_ERR_NOTFOUND (-1): resource not found")
    ∷ (parse, "EGW_ERR_PARSE (-2): parse failure")
    ∷ (invalid_arg, "EGW_ERR_INVALID_ARG (-3): invalid argument")
    ∷ (nomem, "EGW_ERR_NOMEM (-4): out of memory")
    ∷ (open_err, "EGW_ERR_OPEN (-10): open failed")
    ∷ (close_err, "EGW_ERR_CLOSE (-11): close failed")
    ∷ (write_err, "EGW_ERR_WRITE (-12): write failed")
    ∷ (read_err, "EGW_ERR_READ (-13): read failed")
    ∷ (busy, "EGW_ERR_BUSY (-14): resource busy")
    ∷ (timeout, "EGW_ERR_TIMEOUT (-15): operation timed out")
    ∷ (loop_run, "EGW_ERR_LOOP_RUN (-20): event loop run failed")
    ∷ []

switch : List (Err × String) → ℕ → String
unfolding magnitude
switch [] n = "EGW_UNKNOWN"
switch ((e, text) ∷ rest) n = if magnitude e == n then text else switch rest n

-- `egw_err_str`.
pub egw_err_str : ErrCode → String
unfolding switch err_cases
egw_err_str (minus n) = switch err_cases n
egw_err_str (plus n) = "EGW_UNKNOWN"
