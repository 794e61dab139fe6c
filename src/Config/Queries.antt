-- ===== src/Config/Queries.antt =====
-- src/core/config.c: where a loaded handle stands.

use service_data_gateway_edg.Prelude.{ℕ, Bool, true, List, Option, some, ◌≡◌, arith}
use service_data_gateway_edg.Defs.{ok}
use service_data_gateway_edg.Config.{Json, Conf, egw_conf_load}

module _ (j : Json) where
  -- Where loading gives a handle, it reports EGW_OK, the handle stands at the document's root, and
  -- that is an object.
  pub load_root :
      (opened buf_ok conf_ok : Bool) (size : Option ℕ) (bytes : Option (List ℕ)) (c : Conf j)
      → (egw_conf_load j opened size buf_ok conf_ok bytes).1 ≡ some c
      → ((egw_conf_load j opened size buf_ok conf_ok bytes).0 ≡ ok)
        × (c.cur ≡ c.root)
        × (j.is_object c.root ≡ true)
  unfolding egw_conf_load
  load_root opened buf_ok conf_ok size bytes c h = ground arith
