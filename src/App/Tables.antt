-- ===== src/App/Tables.antt =====
-- src/app/egw_modbus_master.c, egw_modbus_slave.c and egw_route.c: the rows of the three tables, how
-- they are loaded and how they are looked up.
pub mod Order
use service_data_gateway_edg.Prelude.{
  ℕ, ◌+◌, ◌*◌, ◌%◌, bit_or, Bool, List, [], ◌∷◌, Option, none, some, Run, done, ◌>>=◌, ltb, ◌==◌,
  not, if◌then◌else◌,
}
use service_data_gateway_edg.Defs.{Err, ok, nomem}
use service_data_gateway_edg.Ptable.{Text}
use service_data_gateway_edg.Ptable.Head.{codes}
use service_data_gateway_edg.Ptable.Rows.{
  CType, bool, u16, u32, f32, Field, Sign, negative, equal, positive, Schema, Rs, Answers,
  egw_ptable_register,
}
use service_data_gateway_edg.Ptable.Rows.Lookup.{three_way}

-- `egw_modbus_master_t`.
pub record MasterRow : Type 0 where
  pub device_id : ℕ
  pub sig_id : ℕ
  pub func_code : ℕ
  pub reg_addr : ℕ
  pub reg_count : ℕ
  pub ctype : ℕ
  pub poll_interval_ms : ℕ
  pub flags : ℕ
  pub scale : ℕ
  pub offset : ℕ
  pub deadband : ℕ
  pub value : ℕ

-- `egw_modbus_slave_t`.
pub record SlaveRow : Type 0 where
  pub device_id : ℕ
  pub sig_id : ℕ
  pub func_code : ℕ
  pub reg_addr : ℕ
  pub ctype : ℕ
  pub flags : ℕ
  pub scale : ℕ
  pub offset : ℕ
  pub deadband : ℕ
  pub value : ℕ

-- `egw_route_entry_t`.
pub record RouteEntry : Type 0 where
  pub device_id : ℕ
  pub sig_id : ℕ
  pub ctype : ℕ

-- `egw_modbus_master_key_t` and `egw_modbus_slave_key_t`.
pub record Key : Type 0 where
  pub unit_id : ℕ
  pub reg_addr : ℕ

-- `egw_route_key_t`.
pub record RouteKey : Type 0 where
  pub device_id : ℕ
  pub sig_id : ℕ

-- `((uint32_t)a << 16) | b`.
unfoldable pub packed : ℕ → ℕ → ℕ
packed a b = bit_or (a * 65536 % 4294967296) b

-- `master_lkp_cmp` and `slave_lkp_cmp`.
abbrev pub master_lkp_cmp : Key → MasterRow → Sign
master_lkp_cmp k r = three_way (packed k.unit_id k.reg_addr) (packed r.device_id r.reg_addr)

abbrev pub slave_lkp_cmp : Key → SlaveRow → Sign
slave_lkp_cmp k r = three_way (packed k.unit_id k.reg_addr) (packed r.device_id r.reg_addr)

-- `route_lkp_cmp`.
unfoldable pub route_lkp_cmp : RouteKey → RouteEntry → Sign
unfolding three_way
route_lkp_cmp k r =
    if not (k.device_id == r.device_id)
    then three_way k.device_id r.device_id
    else three_way k.sig_id r.sig_id

-- `s_master_fields`.
abbrev pub s_master_fields : List (Field MasterRow)
s_master_fields =
    record {
      name = some (codes "device_id");
      ctype = u16;
      assign = λ v r. record r { device_id = v };
    }
    ∷ record { name = some (codes "sig_id"); ctype = u32; assign = λ v r. record r { sig_id = v } }
    ∷ record {
      name = some (codes "func_code");
      ctype = bool;
      assign = λ v r. record r { func_code = v };
    }
    ∷ record {
      name = some (codes "reg_addr");
      ctype = u16;
      assign = λ v r. record r { reg_addr = v };
    }
    ∷ record {
      name = some (codes "reg_count");
      ctype = u16;
      assign = λ v r. record r { reg_count = v };
    }
    ∷ record { name = some (codes "ctype"); ctype = bool; assign = λ v r. record r { ctype = v } }
    ∷ record {
      name = some (codes "poll_interval_ms");
      ctype = u32;
      assign = λ v r. record r { poll_interval_ms = v };
    }
    ∷ record { name = some (codes "flags"); ctype = bool; assign = λ v r. record r { flags = v } }
    ∷ record { name = some (codes "scale"); ctype = f32; assign = λ v r. record r { scale = v } }
    ∷ record { name = some (codes "offset"); ctype = f32; assign = λ v r. record r { offset = v } }
    ∷ record {
      name = some (codes "deadband");
      ctype = f32;
      assign = λ v r. record r { deadband = v };
    }
    ∷ record { name = none; ctype = u16; assign = λ v r. record r { value = v } }
    ∷ []

-- `s_slave_fields`.
abbrev pub s_slave_fields : List (Field SlaveRow)
s_slave_fields =
    record {
      name = some (codes "device_id");
      ctype = u16;
      assign = λ v r. record r { device_id = v };
    }
    ∷ record { name = some (codes "sig_id"); ctype = u32; assign = λ v r. record r { sig_id = v } }
    ∷ record {
      name = some (codes "func_code");
      ctype = bool;
      assign = λ v r. record r { func_code = v };
    }
    ∷ record {
      name = some (codes "reg_addr");
      ctype = u16;
      assign = λ v r. record r { reg_addr = v };
    }
    ∷ record { name = some (codes "ctype"); ctype = bool; assign = λ v r. record r { ctype = v } }
    ∷ record { name = some (codes "flags"); ctype = bool; assign = λ v r. record r { flags = v } }
    ∷ record { name = some (codes "scale"); ctype = f32; assign = λ v r. record r { scale = v } }
    ∷ record { name = some (codes "offset"); ctype = f32; assign = λ v r. record r { offset = v } }
    ∷ record {
      name = some (codes "deadband");
      ctype = f32;
      assign = λ v r. record r { deadband = v };
    }
    ∷ record { name = none; ctype = u16; assign = λ v r. record r { value = v } }
    ∷ []

-- `s_route_fields`.
abbrev pub s_route_fields : List (Field RouteEntry)
s_route_fields =
    record {
      name = some (codes "device_id");
      ctype = u16;
      assign = λ v r. record r { device_id = v };
    }
    ∷ record { name = some (codes "sig_id"); ctype = u32; assign = λ v r. record r { sig_id = v } }
    ∷ record { name = some (codes "ctype"); ctype = bool; assign = λ v r. record r { ctype = v } }
    ∷ []

abbrev pub master_schema : Schema Key MasterRow
master_schema = record {
  fields = s_master_fields;
  zeroed = record {
    device_id = 0;
    sig_id = 0;
    func_code = 0;
    reg_addr = 0;
    reg_count = 0;
    ctype = 0;
    poll_interval_ms = 0;
    flags = 0;
    scale = 0;
    offset = 0;
    deadband = 0;
    value = 0;
  };
  order_by = codes "device_id" ∷ codes "reg_addr" ∷ [];
  lkp = some master_lkp_cmp;
}

abbrev pub slave_schema : Schema Key SlaveRow
slave_schema = record {
  fields = s_slave_fields;
  zeroed = record {
    device_id = 0;
    sig_id = 0;
    func_code = 0;
    reg_addr = 0;
    ctype = 0;
    flags = 0;
    scale = 0;
    offset = 0;
    deadband = 0;
    value = 0;
  };
  order_by = codes "device_id" ∷ codes "reg_addr" ∷ [];
  lkp = some slave_lkp_cmp;
}

abbrev pub route_schema : Schema RouteKey RouteEntry
route_schema = record {
  fields = s_route_fields;
  zeroed = record { device_id = 0; sig_id = 0; ctype = 0 };
  order_by = codes "device_id" ∷ codes "sig_id" ∷ [];
  lkp = some route_lkp_cmp;
}

route_loaded : Option (Rs RouteKey RouteEntry) → Err
route_loaded none = nomem
route_loaded (some rs) = ok

module _ (to_float : ℕ → ℕ) (calloc_ok : Bool) (a : Answers) where
  -- `egw_modbus_master_load`, `egw_modbus_slave_load`, and `egw_route_load`, which frees its rows.
  unfoldable pub egw_modbus_master_load : Run (Option (Rs Key MasterRow))
  egw_modbus_master_load = egw_ptable_register to_float master_schema calloc_ok a

  unfoldable pub egw_modbus_slave_load : Run (Option (Rs Key SlaveRow))
  egw_modbus_slave_load = egw_ptable_register to_float slave_schema calloc_ok a

  unfoldable pub egw_route_load : Run Err
  unfolding route_loaded
  egw_route_load = do
    rs ← egw_ptable_register to_float route_schema calloc_ok a
    done (route_loaded rs)
