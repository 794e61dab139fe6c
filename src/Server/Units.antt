-- ===== src/Server/Units.antt =====
-- src/protocol/egw_modbus_server.c: the bitmap of unit addresses.
use service_data_gateway_edg.Prelude.{
  ℕ, zero, suc, ◌/◌, ◌%◌, ◌^◌, bit_and, bit_or, Bool, not, ◌||◌, List, [], ◌∷◌, Run, done, ◌>>=◌,
  load, store, drop, ltb, ◌==◌, if◌then◌else◌,
}
use service_data_gateway_edg.Defs.{Err, ok, invalid_arg}
use service_data_gateway_edg.Server.{Server}

-- `unit_is_active`: `(unit_mask[id / 8] >> (id % 8)) & 1`.
unfoldable pub unit_is_active : List ℕ → ℕ → Run Bool
unit_is_active mask id = do
  byte ← load mask (id / 8)
  done (not (bit_and (byte / 2 ^ (id % 8)) 1 == 0))

-- `unit_mask[uid / 8] |= (uint8_t)(1u << (uid % 8))`.
unfoldable pub set_unit : List ℕ → ℕ → Run (List ℕ)
set_unit mask uid = do
  byte ← load mask (uid / 8)
  store mask (uid / 8) (bit_or byte (2 ^ (uid % 8) % 256) ∷ [])

-- The loop of `egw_modbus_server_add_unit` over at most `rounds` entries, from `ids`. Units that
-- precede a refused one stay added.
add_units : ℕ → List ℕ → List ℕ → Run (Err × List ℕ)
unfolding set_unit
add_units zero ids mask = done (ok, mask)
add_units (suc rounds) ids mask = do
  uid ← load ids 0
  if uid == 0
      then done (ok, mask)
      else if ltb uid 1 || ltb 247 uid
      then done (invalid_arg, mask)
      else (do mask ← set_unit mask uid; add_units rounds (drop 1 ids) mask)

-- `egw_modbus_server_add_unit`.
unfoldable pub egw_modbus_server_add_unit : Server → List ℕ → Run (Err × Server)
unfolding add_units
egw_modbus_server_add_unit s unit_ids = do
  r ← add_units 4 unit_ids s.unit_mask
  done (r.0, record s { unit_mask = r.1 })
