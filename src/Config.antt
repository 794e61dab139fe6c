-- ===== src/Config.antt =====
-- src/core/config.c: the configuration handle. cJSON is not part of the repository: the parsed tree
-- and the library's functions on it are the parameter `Json`, and what the operating system answers
-- is an argument of `egw_conf_load`.
pub mod Queries
use Prim.Native.String.{String}
use service_data_gateway_edg.Prelude.{
  ℕ, Bool, true, false, not, ◌&&◌, ◌||◌, List, Option, none, some, Run, done, ◌>>=◌, ◌==◌,
  if◌then◌else◌,
}
use service_data_gateway_edg.Defs.{Err, ok, notfound, parse, invalid_arg}

-- The part of cJSON and cJSON_Utils that the file calls. An `int32_t` is its bit pattern, and what a
-- `double` is belongs to the platform: its type is `Double`.
pub record Json : Type 1 where
  pub Node : Type 0
  pub Double : Type 0
  pub json_parse : List ℕ → Option Node
  pub get_pointer : Node → String → Option Node
  pub is_object : Node → Bool
  pub is_string : Node → Bool
  pub is_number : Node → Bool
  pub is_bool : Node → Bool
  pub is_array : Node → Bool
  pub string_value : Node → String
  pub number_value : Node → Double
  pub is_true : Node → Bool
  pub array_size : Node → ℕ

module _ (j : Json) where
  open j use {
    Node, Double, json_parse, get_pointer, is_object, is_string, is_number, is_bool, is_array,
    string_value, number_value, is_true, array_size,
  }

  -- `struct egw_conf`.
  pub record Conf : Type 0 where
    pub root : Node
    pub cur : Node

  -- From the parsed document on.
  conf_of : Bool → Option Node → Err × Option Conf
  conf_of conf_ok none = (parse, none)
  conf_of conf_ok (some root) =
      if not (is_object root)
      then (parse, none)
      else if not conf_ok
      then (invalid_arg, none)
      else (ok, some (record { root = root; cur = root }))

  conf_read : Bool → Option (List ℕ) → Err × Option Conf
  unfolding conf_of
  conf_read conf_ok none = (parse, none)
  conf_read conf_ok (some bytes) = conf_of conf_ok (json_parse bytes)

  conf_sized : Bool → Bool → Option (List ℕ) → Option ℕ → Err × Option Conf
  unfolding conf_read
  conf_sized buf_ok conf_ok bytes none = (parse, none)
  conf_sized buf_ok conf_ok bytes (some size) =
      if size == 0
      then (parse, none)
      else if not buf_ok
      then (invalid_arg, none)
      else conf_read conf_ok bytes

  -- `egw_conf_load`: whether `open` succeeds, the size that `fstat` reports, whether the two
  -- allocations succeed, and the bytes that `read` delivers, if it does.
  unfoldable pub egw_conf_load : Bool → Option ℕ → Bool → Bool → Option (List ℕ) → Err × Option Conf
  unfolding conf_sized
  egw_conf_load opened size buf_ok conf_ok bytes =
      if not opened then (notfound, none) else conf_sized buf_ok conf_ok bytes size

  enter_at : Conf → Option Node → Err × Conf
  enter_at c none = (notfound, c)
  enter_at c (some item) = (ok, record c { cur = item })

  -- `egw_conf_enter`: the path starts from the root.
  unfoldable pub egw_conf_enter : Conf → String → Err × Conf
  unfolding enter_at
  egw_conf_enter c key_path = enter_at c (get_pointer c.root key_path)

  -- What the query for a truth value and the array length share: a node of the wanted type, or the
  -- default.
  query : {A : Type 0} → (Node → Bool) → (Node → A) → A → Option Node → Err × A
  query fits value def none = (notfound, def)
  query fits value def (some item) = if not (fits item) then (notfound, def) else (ok, value item)

  int_at : (Double → Run ℕ) → ℕ → Option Node → Run (Err × ℕ)
  int_at to_int32 def none = done (notfound, def)
  int_at to_int32 def (some item) =
      if not (is_number item)
      then done (notfound, def)
      else (do n ← to_int32 (number_value item); done (ok, n))

  -- `egw_conf_get_int`. `to_int32` is the cast of a `double` to `int32_t`: it truncates a number that
  -- an `int32_t` holds, and C leaves it undefined for any other, so it is `fault` there.
  unfoldable pub egw_conf_get_int : (Double → Run ℕ) → Conf → String → ℕ → Run (Err × ℕ)
  unfolding int_at
  egw_conf_get_int to_int32 c key_path def = int_at to_int32 def (get_pointer c.cur key_path)

  -- `egw_conf_get_bool`.
  unfoldable pub egw_conf_get_bool : Conf → String → Bool → Err × Bool
  unfolding query
  egw_conf_get_bool c key_path def = query is_bool is_true def (get_pointer c.cur key_path)

  -- `egw_conf_array_length`.
  unfoldable pub egw_conf_array_length : Conf → String → ℕ → Err × ℕ
  unfolding query
  egw_conf_array_length c key_path def = query is_array array_size def (get_pointer c.cur key_path)

  string_at : Bool → Option String → Option Node → Err × Option String
  string_at strdup_ok def none = (notfound, if strdup_ok then def else none)
  string_at strdup_ok def (some item) =
      if not (is_string item)
      then (notfound, if strdup_ok then def else none)
      else if strdup_ok
      then (ok, some (string_value item))
      else (invalid_arg, none)

  -- `egw_conf_get_string`; `strdup_ok` says whether `strdup` finds memory.
  unfoldable pub egw_conf_get_string : Bool → Conf → String → Option String → Err × Option String
  unfolding string_at
  egw_conf_get_string strdup_ok c key_path def =
      string_at strdup_ok def (get_pointer c.cur key_path)
