-- ===== src/Tests/StoreTests.antt =====
-- src/ptable/egw_ptable.c and src/core/config.c: a head tree of one thread, a manifest of one table
-- and a configuration of two numbers.
use Prim.Native.String.{String}
use service_data_gateway_edg.Prelude.{
  ℕ, ◌^◌, ◌≡◌, refl, List, [], ◌∷◌, ◌++◌, Option, none, some, Bool, true, false, Run, done, fault,
  ltb, if◌then◌else◌, arith,
}
use service_data_gateway_edg.Defs.{ok}
use service_data_gateway_edg.Ptable.Head.{
  Thread, Head, NodeRow, protocol, codes, ThreadRow, parse_node_row, egw_ptable_head_load,
}
use service_data_gateway_edg.Ptable.Head.Loads.{Loaded, head_load-Loaded, head_load_refuses}
use service_data_gateway_edg.Ptable.Manifest.{Row, Manifest, egw_ptable_discover}
use service_data_gateway_edg.Ptable.Manifest.Discover.{IsValidIfAny, discover-IsValid}
use service_data_gateway_edg.Config.{Json, Conf, egw_conf_load, egw_conf_get_int}

abbrev thread_row : ThreadRow
thread_row = record {
  id = 4;
  desc = some (codes "bus 1");
  calloc_ok = true;
  prepares = true;
  nodes = (true, some (codes "protocol"), none) ∷ [];
}

abbrev thread : Thread
thread = record {
  thread_id = 4;
  desc = codes "bus 1";
  nodes = record { type = protocol; desc = [] } ∷ [];
}

abbrev head : Head
head = record { version = 2; desc = []; threads = thread ∷ [] }

head_loads : egw_ptable_head_load true true true none (some 2) (thread_row ∷ []) ≡ some head
unfolding egw_ptable_head_load
head_loads = refl

head_load-Loaded_example : Loaded (thread_row ∷ []) (thread ∷ [])
head_load-Loaded_example =
    head_load-Loaded true true true none (some 2) (thread_row ∷ []) head head_loads

abbrev bad_node : NodeRow
bad_node = (true, some (codes "com"), none)

bad_node_unknown : parse_node_row bad_node ≡ none
unfolding parse_node_row
bad_node_unknown = refl

abbrev bad_row : ThreadRow
bad_row = record thread_row { nodes = thread_row.nodes ++ bad_node ∷ [] }

head_load_refuses_example :
    egw_ptable_head_load true true true none (some 2) (thread_row ∷ bad_row ∷ []) ≡ none
head_load_refuses_example =
    head_load_refuses true true true none (some 2) (thread_row ∷ []) [] bad_row thread_row.nodes []
      bad_node refl bad_node_unknown

abbrev table_row : Row
table_row = record { ncol = 2; key = some (codes "meter"); value = some (codes "modbus") }

abbrev manifest : Manifest
manifest = record {
  tables = record { name = codes "meter"; protocol = codes "modbus" } ∷ [];
  count = 1;
  cap = 4;
}

abbrev nameless_row : Row
nameless_row = record table_row { key = none }

abbrev rows : List (Bool × Row)
rows = (true, table_row) ∷ (true, nameless_row) ∷ []

manifest_found : egw_ptable_discover [] true true rows ≡ done (some manifest)
unfolding egw_ptable_discover
manifest_found = refl

discover-IsValid_example :
    (o : Option Manifest) × (egw_ptable_discover [] true true ((false, table_row) ∷ rows) ≡ done o)
    × IsValidIfAny o
discover-IsValid_example = discover-IsValid [] true true ((false, table_row) ∷ rows) (omega arith)

-- A tree that holds the number 7 at every path but the empty one.
data Tree : Type 0 where
  object : Tree
  number : ℕ → Tree

is_object_of : Tree → Bool
is_object_of object = true
is_object_of (number n) = false

is_number_of : Tree → Bool
is_number_of object = false
is_number_of (number n) = true

int_of : Tree → ℕ
int_of object = 0
int_of (number n) = n

pointer_of : Tree → String → Option Tree
pointer_of t String.[] = some t
pointer_of object (String.◌∷◌ c s) = some (number 7)
pointer_of (number n) (String.◌∷◌ c s) = none

abbrev json : Json
json = record {
  Node = Tree;
  json_parse = λ bytes. some object;
  get_pointer = pointer_of;
  is_object = is_object_of;
  is_string = λ t. false;
  is_number = is_number_of;
  is_bool = λ t. false;
  is_array = λ t. false;
  string_value = λ t. "";
  Double = ℕ;
  number_value = int_of;
  is_true = λ t. false;
  array_size = λ t. 0;
}

abbrev conf : Conf json
conf = record { root = object; cur = number 3 }

abbrev conf_loaded : Conf json
conf_loaded = record { root = object; cur = object }

conf_loads :
    (egw_conf_load json true (some 2) true true (some (123 ∷ 125 ∷ []))).1 ≡ some conf_loaded
unfolding egw_conf_load is_object_of
conf_loads = refl

-- The cast of a number that an `int32_t` holds.
to_int32 : ℕ → Run ℕ
to_int32 n = if ltb n (2 ^ 31) then done n else fault

port_found : egw_conf_get_int json to_int32 conf_loaded "/port" 5 ≡ done (ok, 7)
unfolding egw_conf_get_int is_number_of int_of pointer_of to_int32
port_found = refl
