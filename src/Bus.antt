-- ===== src/Bus.antt =====
-- src/core/egw_bus.c: the publish/subscribe bus. A callback is known by its address, which the
-- code compares; what calling it does is the parameter `call`, which sees the bus as well, since a
-- callback may subscribe and unsubscribe.
pub mod Subscribe
pub mod Publish
use service_data_gateway_edg.Prelude.{
  ℕ, zero, suc, ◌+◌, ◌-◌, ◌&&◌, Bool, List, [], ◌∷◌, Option, none, some, Run, done, fault, ◌>>=◌,
  load, store, replicate, ltb, leb, ◌==◌, if◌then◌else◌,
}
use service_data_gateway_edg.Defs.{Err, ok, invalid_arg, busy, notfound}

abbrev pub max_subs : ℕ
max_subs = 128

-- `sub_t`.
pub record Sub : Type 0 where
  pub device_id : ℕ
  pub sig_id : ℕ
  pub cb : ℕ
  pub user : ℕ  -- the `data` pointer

-- `struct egw_bus`: the array `subs` and `count`.
pub record Bus : Type 0 where
  pub subs : List Sub
  pub count : ℕ

abbrev blank : Sub
blank = record { device_id = 0; sig_id = 0; cb = 0; user = 0 }

-- `egw_bus_create`, when `calloc` succeeds.
unfoldable pub egw_bus_create : Bool → Option Bus
egw_bus_create calloc_ok =
    if calloc_ok then some (record { subs = replicate max_subs blank; count = 0 }) else none

-- `egw_bus_subscribe`; a NULL callback is address 0.
unfoldable pub egw_bus_subscribe : Bus → ℕ → ℕ → ℕ → ℕ → Run (Err × Bus)
egw_bus_subscribe bus device_id sig_id cb user =
    if cb == 0
    then done (invalid_arg, bus)
    else if leb max_subs bus.count
    then done (busy, bus)
    else (do
      subs ←
          store bus.subs bus.count
            (record { device_id = device_id; sig_id = sig_id; cb = cb; user = user } ∷ [])
      done (ok, record { subs = subs; count = bus.count + 1 }))

abbrev pub is_for : ℕ → ℕ → Sub → Bool
is_for device_id sig_id s = s.device_id == device_id && s.sig_id == sig_id

abbrev pub is_sub : ℕ → ℕ → ℕ → Sub → Bool
is_sub device_id sig_id cb s = is_for device_id sig_id s && s.cb == cb

-- The loop of `egw_bus_unsubscribe`, `rounds` before the end: the last entry takes the place of
-- the one found.
unsubscribe_from : ℕ → ℕ → Bus → ℕ → ℕ → ℕ → Run (Err × Bus)
unsubscribe_from zero i bus device_id sig_id cb = done (notfound, bus)
unsubscribe_from (suc rounds) i bus device_id sig_id cb = do
  s ← load bus.subs i
  let rest = unsubscribe_from rounds (i + 1) bus device_id sig_id cb
  if is_sub device_id sig_id cb s
      then (do
        last ← load bus.subs (bus.count - 1)
        subs ← store bus.subs i (last ∷ [])
        done (ok, record { subs = subs; count = bus.count - 1 }))
      else rest

-- `egw_bus_unsubscribe`.
unfoldable pub egw_bus_unsubscribe : Bus → ℕ → ℕ → ℕ → Run (Err × Bus)
unfolding unsubscribe_from
egw_bus_unsubscribe bus device_id sig_id cb =
    if cb == 0
    then done (invalid_arg, bus)
    else unsubscribe_from bus.count 0 bus device_id sig_id cb

-- What one call of a callback does: `cb(device_id, sig_id, value, data)`.
abbrev pub Call : Type 0 → Type 0 → Type 0
Call V W = ℕ → ℕ → ℕ → V → ℕ → Bus × W → Run (Bus × W)

module _ {V W : Type 0} (call : Call V W) where
  -- The loop of `egw_bus_publish` from `i` on; `bus->count` is read again in every round. Running
  -- out of `fuel` is a fault, which `max_subs` rounds rule out.
  publish_from : ℕ → ℕ → ℕ → ℕ → V → Bus × W → Run (Bus × W)
  publish_from zero i device_id sig_id value (bus, w) =
      if ltb i bus.count then fault else done (bus, w)
  publish_from (suc fuel) i device_id sig_id value (bus, w) =
      if ltb i bus.count
      then (do
        s ← load bus.subs i
        next ←
            (if is_for device_id sig_id s
              then call s.cb device_id sig_id value s.user (bus, w)
              else done (bus, w))
        publish_from fuel (i + 1) device_id sig_id value next)
      else done (bus, w)

  -- `egw_bus_publish`.
  unfoldable pub egw_bus_publish : Bus → ℕ → ℕ → V → W → Run (Bus × W)
  unfolding publish_from
  egw_bus_publish bus device_id sig_id value w =
      publish_from max_subs 0 device_id sig_id value (bus, w)
