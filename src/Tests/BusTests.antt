-- ===== src/Tests/BusTests.antt =====
-- src/core/egw_bus.c on a table with three subscriptions, one of them in the way of another.
use service_data_gateway_edg.Prelude.{ℕ, ◌≡◌, refl, List, [], ◌∷◌, ◌++◌, arith, replicate, done}
use mathlib.Core.List.{Perm}
use service_data_gateway_edg.Defs.{ok, notfound}
use service_data_gateway_edg.Bus.{Bus, Call, egw_bus_unsubscribe, egw_bus_publish}
use service_data_gateway_edg.Bus.Subscribe.{
  IsValid, contents, sub, unsubscribe_missing, unsubscribe_removes,
}
use service_data_gateway_edg.Bus.Publish.{publish_ends, publish_delivers}

abbrev three : Bus
three = record {
  subs = sub 1 7 100 0 ∷ sub 2 7 100 1 ∷ sub 1 7 200 2 ∷ replicate 125 (sub 0 0 0 0);
  count = 3;
}

three-IsValid : IsValid three
three-IsValid = record { array = refl; within = omega arith }

unsubscribe_missing_example : egw_bus_unsubscribe three 2 7 200 ≡ done (notfound, three)
unsubscribe_missing_example =
    unsubscribe_missing 2 7 200 three three-IsValid (omega arith) (refl, (refl, (refl, tt)))

unsubscribe_removes_example :
    (bus' : Bus) × (egw_bus_unsubscribe three 2 7 100 ≡ done (ok, bus'))
    × Perm (contents three) (sub 2 7 100 1 ∷ contents bus')
    × IsValid bus'
unsubscribe_removes_example =
    unsubscribe_removes 2 7 100 three (sub 1 7 100 0 ∷ []) (sub 1 7 200 2 ∷ []) (sub 2 7 100 1)
      three-IsValid (omega arith) refl (refl, tt) refl

-- Callbacks that note the `data` pointer of their subscription.
abbrev note_call : Call ℕ (List ℕ)
note_call cb device_id sig_id value user (bus, w) = done (bus, w ++ user ∷ [])

publish_ends_example :
    (bus' : Bus) × (w' : List ℕ) × (egw_bus_publish note_call three 1 7 42 [] ≡ done (bus', w'))
    × IsValid bus'
publish_ends_example =
    publish_ends note_call 1 7 42 three [] (λ cb user bus w v. (bus, w ++ user ∷ [], refl, v))
      three-IsValid

publish_delivers_example : egw_bus_publish note_call three 1 7 42 [] ≡ done (three, 0 ∷ 2 ∷ [])
publish_delivers_example =
    publish_delivers note_call 1 7 42 (λ cb user w. w ++ user ∷ []) three [] (λ cb user bus w. refl)
      three-IsValid
