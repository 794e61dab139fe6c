-- ===== src/Fsm.antt =====
-- src/core/include/egw_fsm.h and src/core/egw_fsm.c: the state machine engine. A state function is
-- known by its address (0 for NULL); what calling it does is the parameter `call`.
pub mod Transitions
use service_data_gateway_edg.Prelude.{ℕ, ◌&&◌, ◌||◌, Bool, not, ◌==◌, if◌then◌else◌}

-- `EGW_ENTRY_SIG`, `EGW_EXIT_SIG` and the other reserved signals.
abbrev pub entry_sig : ℕ
entry_sig = 1

abbrev pub exit_sig : ℕ
exit_sig = 2

-- `EGW_RET_TRAN`.
abbrev pub ret_tran : ℕ
ret_tran = 3

-- `struct egw_fsm`, inside the object that the state functions get.
pub record Fsm (W : Type 0) : Type 0 where
  pub current : ℕ
  pub temp : ℕ
  pub ctx : W

-- `egw_state_fn`: a call with a signal gives the object afterwards and the `egw_state_t`.
abbrev pub StateFn : Type 0 → Type 0
StateFn W = ℕ → Fsm W → Fsm W × ℕ

module _ {W : Type 0} (call : ℕ → StateFn W) where
  -- `egw_fsm_init`.
  unfoldable pub egw_fsm_init : Fsm W → ℕ → Fsm W
  egw_fsm_init fsm initial =
      if initial == 0 then fsm else (call initial entry_sig (record fsm { current = initial })).0

  -- The transition in `egw_fsm_dispatch`, `target` having been read from `temp`.
  transition : Fsm W → ℕ → ℕ → Fsm W
  transition fsm source target =
      let left = (call source exit_sig fsm).0 in
      let entered = (call target entry_sig (record left { current = target })).0 in
      if not (target == 0) && not (target == source) then entered else fsm

  -- `egw_fsm_dispatch`.
  unfoldable pub egw_fsm_dispatch : Fsm W → ℕ → Fsm W
  unfolding transition
  egw_fsm_dispatch fsm sig =
      if fsm.current == 0
      then fsm
      else let (after, ret) = call fsm.current sig fsm in
        if ret == ret_tran then transition after fsm.current after.temp else after
