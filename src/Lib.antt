-- ===== src/Lib.antt =====
-- A model of the Aclass edge gateway (service-data-gateway-edge), a Modbus gateway for Linux in C:
-- a slave and a master that share one frame layer, an event bus, a state machine, a configuration
-- reader, the loader of the point tables, the transport and the persistence thread, and the application
-- that joins them.
--
-- The parts and their files (paths from the root of the repository):
--   Crc         src/core/egw_crc.c: the table-driven and the bit-by-bit Modbus CRC. The frame layer
--               uses the first.
--   Modbus      src/protocol/egw_modbus_core.c and its header. Pdu: build_read_resp_pdu,
--               parse_read_pdu, parse_write_pdu, parse_request. Encode: egw_modbus_encode with
--               write_pdu. Decode: egw_modbus_decode. Frame: how the server (parse_and_check) and
--               the client (resp_parse) find the end of a frame in what has arrived.
--   Server      src/protocol/egw_modbus_server.c. The record Server is struct egw_modbus_server.
--               Units: the bitmap of unit addresses. Ring: the receive ring and reserve, with
--               its bytes as a queue (Queue, Store, Append). Handlers: the read,
--               write and broadcast handlers. Response: send_exception and send_pdu. Process: server_handle_frame, try_process, feed, commit, response_sent, create.
--   Client      src/protocol/egw_modbus_client.c. The record Client is struct egw_modbus_client.
--               Slots: the ring of request slots, register, remove, destroy, request. Receive:
--               feed, reserve, commit and the calls of done_cb.
--   Loopback    the server and the client together, as run_modbus_loopback joins them.
--   Bus         src/core/egw_bus.c: the table of subscriptions, subscribe, unsubscribe, publish.
--   Fsm         src/core/egw_fsm.c: init and dispatch.
--   Config      src/core/config.c: load, enter and the queries.
--   Ptable      src/ptable/egw_ptable.c. Head: egw_ptable_open and the head tree. Manifest:
--               egw_ptable_discover with its callback, count and get (Entries, Discover). Rows: egw_ptable_register and
--               the row sets.
--   Transport   src/transport: handles on descriptors. Serial and Tcp: opening; Io: reading, writing
--               and closing.
--   Persist     src/ptable/egw_persist.c. Thread: src/app/egw_persist_thread.c.
--   App         src/app. Tables: the rows of the three tables, from egw_modbus_master.c,
--               egw_modbus_slave.c and egw_route.c. Slave and Master: the two sides of the line.
--               Run: egw_app.c, with the event loop as a relation between contexts. Exchange: both
--               sides together, from a request on the line on.
--   Defs        src/core/egw_err.c and src/core/include/egw_err.inc: the error codes.
--   Prelude     what the modules share: arrays and tests on native numbers, bit operations, and Run,
--               the result of C code that may touch memory outside an object.
--   Tests       runs on small inputs, and the theorems at inputs that meet their hypotheses.
--
-- How the code is modelled. A byte is a number below 256 and a uint16_t one below 2 ^ 16; casts that
-- truncate are written out as `%`. An array is the list of its elements, so its length is its real
-- extent; every access goes through load, slice and store, which give `fault` outside of it. A
-- function that changes an object takes its record and returns it. A callback is an argument, with
-- the state behind its user pointer as the type W or V; it cannot reach the server or the client that
-- calls it, while the callbacks of the bus get the bus and may change it. Whether an allocation
-- succeeds is an argument. A local array starts with zeros where C leaves it uninitialised. The
-- slots of the client lie on a heap, a function from addresses. The struct that goes through the pipe
-- of the persistence thread is its bytes as the declaration lays them out; how two bytes hold a
-- uint16_t is the parameter Word16.
--
-- Fuel. egw_modbus_client_destroy takes the number of slots that it may free; the other loops run
-- over a list (the reading loops of the persistence thread excepted, which take the number of their
-- rounds and give `fault` when it runs out; one more round than the pipe has items is enough for the
-- last of them), over at most four units, eight bits or 128 subscriptions, which bounds them in the
-- code as well. publish_from runs at most 128 rounds, the size of the table that it walks.
--
-- Not in the repository: cJSON, of which Config takes the functions that it calls as the parameter
-- Json; SQLite, whose rows are arguments in Ptable and whose statements are the parameter Db in
-- Persist; the system calls, which are the parameters Os, SerialOs, TcpOs and ThreadOs; bsearch of the
-- C library; and libuv, which only says which callback is called next. Not modelled: NULL handles,
-- which every function refuses at its start; logging; freeing whole objects, but for the client's
-- slots; in egw_app_run, opening and closing the database and starting and joining the thread.
pub mod Prelude
pub mod Defs
pub mod Crc
pub mod Modbus
pub mod Server
pub mod Client
pub mod Transport
pub mod Loopback
pub mod App
pub mod Bus
pub mod Fsm
pub mod Config
pub mod Ptable
pub mod Persist
pub mod Tests
