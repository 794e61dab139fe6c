-- ===== src/Tests/FsmTests.antt =====
-- src/core/egw_fsm.c with two states, 10 and 20: signal 4 asks state 10 to go to state 20.
use service_data_gateway_edg.Prelude.{ℕ, ◌≡◌, List, [], ◌∷◌, ◌&&◌, ◌==◌, if◌then◌else◌, arith}
use service_data_gateway_edg.Fsm.{Fsm, StateFn, entry_sig, exit_sig, ret_tran, egw_fsm_dispatch}
use service_data_gateway_edg.Fsm.Transitions.{Entry, logged, dispatch_log}

abbrev toggle : ℕ → StateFn (Unit {0})
toggle f sig m = if f == 10 && sig == 4 then (record m { temp = 20 }, ret_tran) else (m, 2)

keeps : (f sig : ℕ) (m : Fsm (Unit {0})) → (toggle f sig m).0.current ≡ m.current
keeps f sig m = ground arith

abbrev start : Fsm (Unit {0})
start = record { current = 10; temp = 0; ctx = tt }

abbrev start_logged : Fsm (List Entry × Unit {0})
start_logged = record { current = 10; temp = 0; ctx = ([], tt) }

dispatch_log_example :
    (egw_fsm_dispatch (logged toggle) start_logged 4).ctx.0
    ≡ record { state = 10; sig = 4; during = 10 }
      ∷ record { state = 10; sig = exit_sig; during = 10 }
      ∷ record { state = 20; sig = entry_sig; during = 20 }
      ∷ []
dispatch_log_example = dispatch_log toggle start_logged 4 keeps (omega arith)
