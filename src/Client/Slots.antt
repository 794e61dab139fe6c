-- ===== src/Client/Slots.antt =====
-- src/protocol/egw_modbus_client.c: creating the client, and the ring of request slots.
use service_data_gateway_edg.Prelude.{
  ℕ, zero, suc, ◌+◌, ◌%◌, ◌&&◌, Bool, not, List, [], ◌∷◌, Option, none, some, Run, done, fault,
  ◌>>=◌, store, replicate, ◌==◌, if◌then◌else◌,
}
use service_data_gateway_edg.Modbus.{
  Transport, rtu, tcp, EncodeParams, high_byte, low_byte, max_frame,
}
use service_data_gateway_edg.Modbus.Encode.{egw_modbus_encode}
use service_data_gateway_edg.Client.{Slot, Heap, Client, at, put, release}

-- `egw_modbus_client_create`, given whether its two allocations succeed and whether the parameters
-- have a `done_cb`.
unfoldable pub egw_modbus_client_create : Bool → Bool → Bool → Transport → ℕ → Option Client
egw_modbus_client_create has_done_cb calloc_ok malloc_ok t recv_cap =
    let cap = if recv_cap == 0 then max_frame else recv_cap in
    if not (has_done_cb && (calloc_ok && malloc_ok))
    then none
    else some (record {
      transport = t;
      heap = λ p. none;
      slots = none;
      current = none;
      next_tid = 0;
      tx_count = 0;
      rx_count = 0;
      recv_buf = replicate cap 0;
      recv_cap = cap;
      recv_len = 0;
    })

-- Linking a new slot `p`, already on the heap, in front of the entry, which is the ring's end.
link : Heap → Option ℕ → ℕ → Slot → Run (Heap × Option ℕ)
link heap none p s = done (put heap p (record s { next = p; prev = p }), some p)
link heap (some entry) p s = do
  e ← at heap entry
  let heap = put heap p (record s { next = entry; prev = e.prev })
  last ← at heap e.prev
  let heap = put heap e.prev (record last { next = p })
  e ← at heap entry
  done (put heap entry (record e { prev = p }), some entry)

register_encoded : Client → ℕ → EncodeParams → Option (List ℕ × ℕ) → Run (Option ℕ × Client)
unfolding link
register_encoded c p params none = done (none, c)
register_encoded c p params (some (b, n)) = if n == 0 then done (none, c) else (do
  let s : Slot = record {
    next = p;
    prev = p;
    buf = b;
    len = n;
    unit_id = params.unit_id;
    addr = params.addr;
  }
  (heap, entry) ← link c.heap c.slots p s
  done (some p, record c { heap = heap; slots = entry }))

-- `egw_modbus_client_register`; `p` is the address that `malloc` returns for the slot, if it does.
unfoldable pub egw_modbus_client_register :
    Option ℕ → Bool → Client → EncodeParams → Run (Option ℕ × Client)
unfolding register_encoded
egw_modbus_client_register none calloc_ok c params = done (none, c)
egw_modbus_client_register (some p) calloc_ok c params = do
  w ← egw_modbus_encode calloc_ok c.transport params
  register_encoded c p params w

-- Taking slot `p` out of the ring.
unlink : Heap → ℕ → ℕ → Run (Heap × Option ℕ)
unlink heap entry p = do
  s ← at heap p
  if s.next == p then done (heap, none) else (do
    after ← at heap s.next
    let heap = put heap s.next (record after { prev = s.prev })
    before ← at heap s.prev
    let heap = put heap s.prev (record before { next = s.next })
    done (heap, some (if entry == p then s.next else entry)))

abbrev cleared_if : Option ℕ → ℕ → Option ℕ
cleared_if none p = none
cleared_if (some q) p = if q == p then none else some q

remove_from : Client → Option ℕ → ℕ → Run Client
unfolding unlink
remove_from c none p = done c
remove_from c (some entry) p = do
  (heap, entry) ← unlink c.heap entry p
  done (record c { heap = release heap p; slots = entry; current = cleared_if c.current p })

-- `egw_modbus_client_remove`.
unfoldable pub egw_modbus_client_remove : Client → ℕ → Run Client
unfolding remove_from
egw_modbus_client_remove c p = remove_from c c.slots p

-- The `do … while (node != start)` of `egw_modbus_client_destroy`; `fault` also when `fuel` runs
-- out, which a ring of at most `fuel` slots does not let happen.
free_from : ℕ → Heap → ℕ → ℕ → Run Heap
free_from zero heap start node = fault
free_from (suc fuel) heap start node = do
  s ← at heap node
  let heap = release heap node
  let rest = free_from fuel heap start s.next
  if s.next == start then done heap else rest

-- `egw_modbus_client_destroy`: the heap that is left.
unfoldable pub egw_modbus_client_destroy : ℕ → Heap → Option ℕ → Run Heap
unfolding free_from
egw_modbus_client_destroy fuel heap none = done heap
egw_modbus_client_destroy fuel heap (some start) = free_from fuel heap start start

-- The transaction number that a TCP request carries.
stamp : Transport → ℕ → List ℕ → Run (List ℕ)
stamp rtu tid b = done b
stamp tcp tid b = store b 0 (high_byte tid ∷ low_byte tid ∷ [])

-- `egw_modbus_client_request`: the frame to send and its length.
unfoldable pub egw_modbus_client_request : Client → ℕ → Run (List ℕ × ℕ × Client)
unfolding stamp
egw_modbus_client_request c p = do
  s ← at c.heap p
  b ← stamp c.transport c.next_tid s.buf
  let sent : Slot = record s { buf = b }
  done (
    b,
    s.len,
    record c {
      heap = put c.heap p sent;
      current = some p;
      recv_len = 0;
      next_tid = (c.next_tid + 1) % 65536;
      tx_count = (c.tx_count + 1) % 4294967296;
    },
  )
