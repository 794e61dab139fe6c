-- ===== src/App/Slave/Overflow.antt =====
-- src/app/egw_modbus_slave.c: the read callback writes as many registers as the request asks for.
use service_data_gateway_edg.Prelude.{
  ℕ, zero, suc, ◌+◌, ◌<◌, ◌≡◌, refl, ◌⊎◌, inl, inr, List, Option, none, some, fault, store,
  store-fault, length, length-replicate, drop, ◌++◌, ◌≤◌, le→leb, replicate, get_elem?, arith, done,
  ap, ◌∙◌,
}
use service_data_gateway_edg.Defs.{ok}
use service_data_gateway_edg.Ptable.Rows.{Rs, Bsearch}
use service_data_gateway_edg.Server.{Server, ReadArgs}
use service_data_gateway_edg.Server.Responses.{read_args}
use service_data_gateway_edg.Server.Process.{server_handle_frame}
use service_data_gateway_edg.Server.Process.Serve.{
  Asks, request_adu, request_len, serve_read_cb_fault,
}
use service_data_gateway_edg.Persist.Thread.{Word16, ThreadOs}
use service_data_gateway_edg.App.{Shared}
use service_data_gateway_edg.App.Tables.{Key, SlaveRow}
use service_data_gateway_edg.App.Slave.{
  simulated, read_row, miss_or, slave_read_cb, slave_callbacks,
}

length-simulated : (reg_addr i n : ℕ) → length (simulated reg_addr i n) ≡ n
unfolding simulated
length-simulated reg_addr i zero = refl
length-simulated reg_addr i (suc n) = omega (arith, length-simulated reg_addr (i + 1) n)

option_cases : {A : Type 0} → (o : Option A) → (o ≡ none) ⊎ ((a : A) × (o ≡ some a))
option_cases none = inl refl
option_cases (some a) = inr (a, refl)

module _ {W : Type 0} (m : Word16) (sys : ThreadOs W) (bsearch : Bsearch SlaveRow) where
  zeros_over :
      (p : ReadArgs)
      → length p.regs_out < p.quantity
      → store p.regs_out 0 (replicate p.quantity 0) ≡ fault
  zeros_over p h =
      store-fault p.regs_out 0 (replicate p.quantity 0)
        (omega (arith, length-replicate {A = ℕ} p.quantity 0))

  row_over :
      (p : ReadArgs) (addr : ℕ)
      → length p.regs_out < p.quantity
      → store p.regs_out 0 (simulated addr 0 p.quantity) ≡ fault
  row_over p addr h =
      store-fault p.regs_out 0 (simulated addr 0 p.quantity)
        (omega (arith, length-simulated addr 0 p.quantity))

  read_row_over :
      (p : ReadArgs) (rs : Rs Key SlaveRow) (o : Option ℕ) (ctx : Shared W)
      → length p.regs_out < p.quantity
      → read_row m sys bsearch p rs o ctx ≡ fault
  unfolding read_row
  read_row_over p rs none ctx h = rw (zeros_over p h) refl
  read_row_over p rs (some i) ctx h = elim (option_cases (get_elem? rs.rows i)) [
    | inl e ↦ rw e refl
    | inr (r, e) ↦ rw (e, row_over p r.reg_addr h) refl
  ]

  miss_or_over :
      (p : ReadArgs) (o : Option (Rs Key SlaveRow)) (ctx : Shared W)
      → length p.regs_out < p.quantity
      → miss_or m sys bsearch p o ctx ≡ fault
  unfolding miss_or
  miss_or_over p none ctx h = rw (zeros_over p h) refl
  miss_or_over p (some rs) ctx h = read_row_over p rs _ ctx h

  cb_over :
      (p : ReadArgs) (ctx : Shared W)
      → length p.regs_out < p.quantity
      → slave_read_cb m sys bsearch p ctx ≡ fault
  unfolding slave_read_cb
  cb_over p ctx h = miss_or_over p ctx.slave_rs ctx h

  -- A well-formed read request for more than 256 coils or registers, from a unit that is served,
  -- makes the application's slave write past the end of the server's array `regs`, whether or not
  -- there is a row for the address.
  pub request_overflow :
      (s : Server) (tid unit_id fc addr count : ℕ) (rest : List ℕ) (ctx : Shared W)
      → Asks s tid unit_id fc addr count
      → 256 < count
      → server_handle_frame
          (slave_callbacks m sys bsearch)
          s
          (request_adu s tid unit_id fc addr count rest)
          (request_len s)
          ctx
        ≡ fault
  request_overflow s tid unit_id fc addr count rest ctx asks many =
      serve_read_cb_fault (slave_callbacks m sys bsearch) s tid unit_id fc addr count
        (slave_read_cb m sys bsearch) rest ctx asks refl
        (cb_over (read_args {W = Shared W} (slave_read_cb m sys bsearch) addr count unit_id) ctx
          many)

  miss_or-none :
      (p : ReadArgs) (ctx : Shared W)
      → p.quantity ≤ length p.regs_out
      → miss_or m sys bsearch p none ctx
        ≡ done (ok, replicate p.quantity 0 ++ drop p.quantity p.regs_out, ctx)
  unfolding miss_or store
  miss_or-none p ctx h =
      let n : 0 + length {A = ℕ} (replicate p.quantity 0) ≡ p.quantity =
        omega (arith, length-replicate {A = ℕ} p.quantity 0) in
      rw (n, le→leb p.quantity (length p.regs_out) h) refl

  -- Without a row set the callback gives zeros.
  pub slave_read_cb_no_rows :
      (p : ReadArgs) (ctx : Shared W)
      → ctx.slave_rs ≡ none
      → p.quantity ≤ length p.regs_out
      → slave_read_cb m sys bsearch p ctx
        ≡ done (ok, replicate p.quantity 0 ++ drop p.quantity p.regs_out, ctx)
  unfolding slave_read_cb
  slave_read_cb_no_rows p ctx no_rows h =
      ap (λ o. miss_or m sys bsearch p o ctx) no_rows ∙ miss_or-none p ctx h
