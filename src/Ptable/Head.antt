-- ===== src/Ptable/Head.antt =====
-- src/ptable/egw_ptable.c: the head tree.
use Prim.Native.String.{String}
use Prim.Native.Char.{code}
pub mod Loads
use service_data_gateway_edg.Prelude.{
  ℕ, ◌≡◌, ◌≢◌, refl, ap, ◌∙◌, sym, ◌&&◌, Bool, true, false, List, [], ◌∷◌, map, Option, none, some,
  ◌==◌, if◌then◌else◌, arith, All,
}
use service_data_gateway_edg.Ptable.{Text, clip}

-- `egw_node_type_t`.
pub data NodeType : Type 0 where
  protocol port sqlite : NodeType

-- `egw_node_t`, less `next`.
pub record Node : Type 0 where
  pub type : NodeType
  pub desc : Text

-- `egw_thread_t`, less `next`.
pub record Thread : Type 0 where
  pub thread_id : ℕ
  pub desc : Text
  pub nodes : List Node

-- `egw_head_t`.
pub record Head : Type 0 where
  pub version : ℕ
  pub desc : Text
  pub threads : List Thread

abbrev pub codes : String → Text
codes String.[] = []
codes (String.◌∷◌ c s) = code c ∷ codes s

-- `strcmp(a, b) == 0`.
unfoldable pub text_eq : Text → Text → Bool
text_eq [] [] = true
text_eq [] (y ∷ ys) = false
text_eq (x ∷ xs) [] = false
text_eq (x ∷ xs) (y ∷ ys) = (x == y) && text_eq xs ys

-- `node_type_map`.
abbrev node_type_map : List (Text × NodeType)
node_type_map = (codes "protocol", protocol) ∷ (codes "port", port) ∷ (codes "sqlite", sqlite) ∷ []

lookup_type : List (Text × NodeType) → Text → Option NodeType
unfolding text_eq
lookup_type [] name = none
lookup_type ((n, t) ∷ rest) name = if text_eq n name then some t else lookup_type rest name

-- `name_to_type`; `none` is the 0 of an unknown name.
unfoldable pub name_to_type : Text → Option NodeType
unfolding lookup_type
name_to_type name = lookup_type node_type_map name

desc_or_empty : Option Text → Text
desc_or_empty none = []
desc_or_empty (some d) = clip 127 d

node_of : Bool → Option Text → Option NodeType → Option Node
unfolding desc_or_empty
node_of calloc_ok desc none = none
node_of calloc_ok desc (some t) =
    if calloc_ok then some (record { type = t; desc = desc_or_empty desc }) else none

-- A row of `SQL_NODE_LIST`: whether `calloc` succeeds for it, and the columns `type` and `desc`.
abbrev pub NodeRow : Type 0
NodeRow = Bool × Option Text × Option Text

-- `parse_node_row`.
unfoldable pub parse_node_row : NodeRow → Option Node
unfolding name_to_type node_of
parse_node_row (calloc_ok, none, desc) = none
parse_node_row (calloc_ok, some name, desc) = node_of calloc_ok desc (name_to_type name)

push_node : Option Node → Option (List Node) → Option (List Node)
push_node none rest = none
push_node (some n) none = none
push_node (some n) (some ns) = some (n ∷ ns)

-- The loop of `load_thread_nodes`: one bad row gives up the whole list.
unfoldable pub load_thread_nodes : List NodeRow → Option (List Node)
unfolding parse_node_row push_node
load_thread_nodes [] = some []
load_thread_nodes (row ∷ rows) = push_node (parse_node_row row) (load_thread_nodes rows)

-- A row of `SQL_THREAD_LIST`: whether `calloc` succeeds for it, whether `SQL_NODE_LIST` prepares, and
-- the rows that this gives.
pub record ThreadRow : Type 0 where
  pub id : ℕ
  pub desc : Option Text
  pub calloc_ok : Bool
  pub prepares : Bool
  pub nodes : List NodeRow

-- `load_thread_nodes` from its first statement on, if it is called.
unfoldable pub thread_nodes : ThreadRow → Option (List Node)
unfolding load_thread_nodes
thread_nodes row = if row.calloc_ok && row.prepares then load_thread_nodes row.nodes else none

-- The list that `load_thread_nodes` returns is NULL for an empty list as well.
push_thread : ThreadRow → Option (List Node) → Option (List Thread) → Option (List Thread)
unfolding desc_or_empty
push_thread row none rest = none
push_thread row (some []) rest = none
push_thread row (some (n ∷ ns)) none = none
push_thread row (some (n ∷ ns)) (some ts) =
    some (record { thread_id = row.id; desc = desc_or_empty row.desc; nodes = n ∷ ns } ∷ ts)

-- The loop over the threads in `egw_ptable_head_load`.
unfoldable pub load_threads : List ThreadRow → Option (List Thread)
unfolding push_thread thread_nodes
load_threads [] = some []
load_threads (row ∷ rows) = push_thread row (thread_nodes row) (load_threads rows)

head_of : Option Text → Option ℕ → Option (List Thread) → Option Head
unfolding desc_or_empty
head_of desc version none = none
head_of desc version (some ts) =
    some (record { version = version_or_zero version; desc = desc_or_empty desc; threads = ts })
  where
    version_or_zero : Option ℕ → ℕ
    version_or_zero none = 0
    version_or_zero (some v) = v

-- `egw_ptable_head_load`: whether the database opens, the root's statement prepares and `calloc`
-- succeeds for the tree; the root's `desc`, the version, and the threads. Where the root has no row or
-- no `desc`, or the version has none or does not prepare, these are `none`; where the thread statement
-- does not prepare the list is empty.
unfoldable pub egw_ptable_head_load :
    Bool → Bool → Bool → Option Text → Option ℕ → List ThreadRow → Option Head
unfolding head_of load_threads
egw_ptable_head_load opened prepared calloc_ok desc version rows =
    if opened && (prepared && calloc_ok) then head_of desc version (load_threads rows) else none

-- `egw_ptable_open`: whether the handle opens, given the version that the database holds (0 when
-- there is no such row) and the one that the head tree has.
unfoldable pub egw_ptable_open : Bool → Bool → ℕ → ℕ → Bool
egw_ptable_open opened prepared db_ver head_version =
    opened && (prepared && (db_ver == head_version))
