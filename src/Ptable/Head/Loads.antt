-- ===== src/Ptable/Head/Loads.antt =====
-- src/ptable/egw_ptable.c: which head trees load, and what the loaded tree holds.
use mathlib.Core.Option.{some-injective}
use mathlib.Core.Path.{subst}
use service_data_gateway_edg.Prelude.{
  ℕ, suc, ◌<◌, ◌≡◌, refl, ap, ◌∙◌, sym, List, [], ◌∷◌, ◌++◌, Option, none, some, arith, length,
  Bool, true, false, ◌&&◌, if◌then◌else◌,
}
use service_data_gateway_edg.Ptable.{Text}
use service_data_gateway_edg.Ptable.Head.{
  Node, Thread, Head, NodeRow, ThreadRow, parse_node_row, load_thread_nodes, thread_nodes,
  load_threads, egw_ptable_head_load, push_node, push_thread, head_of,
}

push_node-length :
    (o : Option Node) (rest : Option (List Node)) (k : ℕ) (ns : List Node)
    → ((ms : List Node) → rest ≡ some ms → length ms ≡ k)
    → push_node o rest ≡ some ns
    → length ns ≡ suc k
unfolding push_node
push_node-length none rest k ns ih h = cc
push_node-length (some n) none k ns ih h = cc
push_node-length (some n) (some ms) k ns ih h =
    ap length (sym (some-injective (n ∷ ms) ns h)) ∙ ap suc (ih ms refl)

load_thread_nodes-length :
    (rows : List NodeRow) (ns : List Node)
    → load_thread_nodes rows ≡ some ns
    → length ns ≡ length rows
unfolding load_thread_nodes
load_thread_nodes-length [] ns h = ap length (sym (some-injective [] ns h))
load_thread_nodes-length (row ∷ rows) ns h =
    push_node-length (parse_node_row row) (load_thread_nodes rows) (length rows) ns
      (load_thread_nodes-length rows) h

thread_nodes-length :
    (row : ThreadRow) (ns : List Node) → thread_nodes row ≡ some ns → length ns ≡ length row.nodes
unfolding thread_nodes
thread_nodes-length row ns h = go (row.calloc_ok && row.prepares) h
  where
    go :
        (called : Bool)
        → (if called then load_thread_nodes row.nodes else none) ≡ some ns
        → length ns ≡ length row.nodes
    go true h = load_thread_nodes-length row.nodes ns h
    go false h = cc

push_node-none : (o : Option Node) → push_node o none ≡ none
unfolding push_node
push_node-none none = refl
push_node-none (some n) = refl

load_thread_nodes_bad :
    (before after : List NodeRow) (bad : NodeRow)
    → parse_node_row bad ≡ none
    → load_thread_nodes (before ++ bad ∷ after) ≡ none
unfolding load_thread_nodes push_node
load_thread_nodes_bad [] after bad h = ap (λ o. push_node o (load_thread_nodes after)) h
load_thread_nodes_bad (row ∷ before) after bad h =
    ap (push_node (parse_node_row row)) (load_thread_nodes_bad before after bad h)
    ∙ push_node-none (parse_node_row row)

-- One thread for each row of the thread statement, in its order, with its id and as many nodes as it
-- has node rows; each thread has at least one node.
unfoldable pub Loaded : List ThreadRow → List Thread → Type 0
Loaded [] [] = Unit
Loaded [] (t ∷ ts) = ⊥
Loaded (r ∷ rs) [] = ⊥
Loaded (r ∷ rs) (t ∷ ts) =
    (t.thread_id ≡ r.id) × (length t.nodes ≡ length r.nodes) × (0 < length t.nodes) × Loaded rs ts

push_thread-Loaded :
    (row : ThreadRow) (rows : List ThreadRow) (ns : Option (List Node))
    (rest : Option (List Thread)) (ts : List Thread)
    → ((ms : List Node) → ns ≡ some ms → length ms ≡ length row.nodes)
    → ((us : List Thread) → rest ≡ some us → Loaded rows us)
    → push_thread row ns rest ≡ some ts
    → Loaded (row ∷ rows) ts
unfolding push_thread Loaded
push_thread-Loaded row rows none rest ts hn hr h = cc
push_thread-Loaded row rows (some []) rest ts hn hr h = cc
push_thread-Loaded row rows (some (n ∷ ns)) none ts hn hr h = cc
push_thread-Loaded row rows (some (n ∷ ns)) (some us) ts hn hr h =
    subst (Loaded (row ∷ rows)) (some-injective _ ts h)
      (refl, hn (n ∷ ns) refl, omega arith, hr us refl)

load_threads-Loaded :
    (rows : List ThreadRow) (ts : List Thread) → load_threads rows ≡ some ts → Loaded rows ts
unfolding load_threads Loaded
load_threads-Loaded [] ts h = subst (Loaded []) (some-injective [] ts h) tt
load_threads-Loaded (row ∷ rows) ts h =
    push_thread-Loaded row rows (thread_nodes row) (load_threads rows) ts (thread_nodes-length row)
      (load_threads-Loaded rows) h

head_of-Loaded :
    (desc : Option Text) (version : Option ℕ) (rows : List ThreadRow) (o : Option (List Thread))
    (h : Head)
    → ((ts : List Thread) → o ≡ some ts → Loaded rows ts)
    → head_of desc version o ≡ some h
    → Loaded rows h.threads
unfolding head_of
head_of-Loaded desc version rows none h ih e = cc
head_of-Loaded desc version rows (some ts) h ih e =
    subst (λ w. Loaded rows w.threads) (some-injective _ h e) (ih ts refl)

-- A head tree that loads has one thread for each row of the thread statement, in its order and with
-- its id; each thread has as many nodes as the database lists for it, and at least one.
pub head_load-Loaded :
    (opened prepared calloc_ok : Bool) (desc : Option Text) (version : Option ℕ)
    (rows : List ThreadRow) (h : Head)
    → egw_ptable_head_load opened prepared calloc_ok desc version rows ≡ some h
    → Loaded rows h.threads
unfolding egw_ptable_head_load
head_load-Loaded opened prepared calloc_ok desc version rows h e =
    go (opened && (prepared && calloc_ok)) e
  where
    go :
        (ready : Bool)
        → (if ready then head_of desc version (load_threads rows) else none) ≡ some h
        → Loaded rows h.threads
    go true e = head_of-Loaded desc version rows (load_threads rows) h (load_threads-Loaded rows) e
    go false e = cc

push_thread-none : (row : ThreadRow) (ns : Option (List Node)) → push_thread row ns none ≡ none
unfolding push_thread
push_thread-none row none = refl
push_thread-none row (some []) = refl
push_thread-none row (some (n ∷ ns)) = refl

load_threads_bad :
    (before after : List ThreadRow) (row : ThreadRow)
    → thread_nodes row ≡ none
    → load_threads (before ++ row ∷ after) ≡ none
unfolding load_threads push_thread
load_threads_bad [] after row h = ap (λ o. push_thread row o (load_threads after)) h
load_threads_bad (r ∷ before) after row h =
    ap (push_thread r (thread_nodes r)) (load_threads_bad before after row h)
    ∙ push_thread-none r (thread_nodes r)

none_either_way {ℓ} :
    {A : Type ℓ} (b : Bool) (o : Option A) → o ≡ none → (if b then o else none) ≡ none
none_either_way true o h = h
none_either_way false o h = refl

thread_nodes_bad : (row : ThreadRow) → load_thread_nodes row.nodes ≡ none → thread_nodes row ≡ none
unfolding thread_nodes
thread_nodes_bad row h =
    none_either_way (row.calloc_ok && row.prepares) (load_thread_nodes row.nodes) h

-- One node row that `parse_node_row` refuses, in any thread and at any place, makes the whole load
-- fail.
pub head_load_refuses :
    (opened prepared calloc_ok : Bool) (desc : Option Text) (version : Option ℕ)
    (before after : List ThreadRow) (row : ThreadRow) (good rest : List NodeRow) (bad : NodeRow)
    → row.nodes ≡ good ++ bad ∷ rest
    → parse_node_row bad ≡ none
    → egw_ptable_head_load opened prepared calloc_ok desc version (before ++ row ∷ after) ≡ none
unfolding egw_ptable_head_load head_of
head_load_refuses opened prepared calloc_ok desc version before after row good rest bad split
      unknown =
    let nodes : load_thread_nodes row.nodes ≡ none =
      ap load_thread_nodes split ∙ load_thread_nodes_bad good rest bad unknown in
    none_either_way (opened && (prepared && calloc_ok))
      (head_of desc version (load_threads (before ++ row ∷ after)))
      (ap (head_of desc version) (load_threads_bad before after row (thread_nodes_bad row nodes)))
