-- ===== src/Fsm/Transitions.antt =====
-- src/core/egw_fsm.c: which calls a dispatch makes, in which order, and where the machine ends.
use service_data_gateway_edg.Prelude.{
  ℕ, ◌≡◌, ◌≢◌, refl, inl, inr, ◌&&◌, Bool, not, List, [], ◌∷◌, ◌++◌, ◌==◌, if◌then◌else◌, arith,
  append_assoc, Bool-cases, ne→==,
}
use service_data_gateway_edg.Fsm.{entry_sig, exit_sig, ret_tran, Fsm, StateFn, egw_fsm_dispatch}

-- One call of a state function: the function, the signal, and the `current` state it was made in.
pub record Entry : Type 0 where
  pub state : ℕ
  pub sig : ℕ
  pub during : ℕ

abbrev pub Logged : Type 0 → Type 0
Logged W = List Entry × W

module _ {W : Type 0} (call : ℕ → StateFn W) where
  -- The state functions, each call noted at the end of a log.
  abbrev pub logged : ℕ → StateFn (Logged W)
  logged f sig m =
      let r = call f sig (record { current = m.current; temp = m.temp; ctx = m.ctx.1 }) in
      (
        record {
          current = r.0.current;
          temp = r.0.temp;
          ctx = (m.ctx.0 ++ (record { state = f; sig = sig; during = m.current } ∷ []), r.0.ctx);
        },
        r.1,
      )

  -- State functions leave `current` to the engine.
  abbrev pub KeepsCurrent : Type 0
  KeepsCurrent = (f sig : ℕ) (m : Fsm W) → (call f sig m).0.current ≡ m.current

  -- A transition is taken: the state function asks for one, to another state than its own.
  abbrev pub takes : Fsm W → ℕ → Bool
  takes m sig =
      let r = call m.current sig m in
      (r.1 == ret_tran) && (not (r.0.temp == 0) && not (r.0.temp == m.current))

  -- After a dispatch, where state functions do not set the current state themselves, the current
  -- state is the one that the state function asked for if there was a current state and it took a
  -- transition to another state, else the one before.
  pub dispatch_current :
      (m : Fsm W) (sig : ℕ)
      → KeepsCurrent
      → (egw_fsm_dispatch call m sig).current
        ≡ (if not (m.current == 0) && takes m sig then (call m.current sig m).0.temp else m.current)
  unfolding egw_fsm_dispatch
  dispatch_current m sig keep =
      let r = call m.current sig m in
      let left = (call m.current exit_sig r.0).0 in
      ground
        (arith, keep m.current sig m, keep r.0.temp entry_sig (record left { current = r.0.temp }))

  -- The calls that a dispatch makes, in order, with the state that is current during each, where
  -- state functions do not set the current state themselves and a state is current: the signal goes
  -- to the current state; if that takes a transition to another state then the exit signal goes to
  -- the old state and the entry signal to the new one, which is current by then; nothing else is
  -- called.
  pub dispatch_log :
      (m : Fsm (Logged W)) (sig : ℕ)
      → KeepsCurrent
      → m.current ≢ 0
      → let inner : Fsm W = record { current = m.current; temp = m.temp; ctx = m.ctx.1 } in
        let target = (call m.current sig inner).0.temp in
        (egw_fsm_dispatch logged m sig).ctx.0
        ≡ m.ctx.0
          ++ (record { state = m.current; sig = sig; during = m.current }
              ∷ (if takes inner sig
                  then record { state = m.current; sig = exit_sig; during = m.current }
                    ∷ record { state = target; sig = entry_sig; during = target }
                    ∷ []
                  else []))
  unfolding egw_fsm_dispatch
  dispatch_log m sig keep live =
      let inner : Fsm W = record { current = m.current; temp = m.temp; ctx = m.ctx.1 } in
      let r = call m.current sig inner in
      let same : r.0.current ≡ m.current = keep m.current sig inner in
      elim (Bool-cases (r.1 == ret_tran)) [
        | inr e ↦ rw (ne→== m.current 0 live, e) refl
        | inl e ↦ elim (Bool-cases (r.0.temp == 0)) [
          | inl z ↦ rw (ne→== m.current 0 live, e, z) refl
          | inr z ↦ elim (Bool-cases (r.0.temp == m.current)) [
            | inl t ↦ rw (ne→== m.current 0 live, e, z, t) refl
            | inr t ↦ rw (ne→== m.current 0 live, e, z, t, same) (simp append_assoc)
          ]
        ]
      ]
