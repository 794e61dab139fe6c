-- ===== src/Bus/Publish.antt =====
-- src/core/egw_bus.c: `egw_bus_publish` ends whatever the callbacks do to the table, and calls
-- exactly the matching subscriptions, in their order, when they leave it alone.

use service_data_gateway_edg.Prelude.{
  ℕ, zero, suc, ◌+◌, ◌≤◌, ◌≡◌, refl, sym, ap, ◌∙◌, inl, inr, Bool-cases, List, [], ◌∷◌, ◌++◌, Run,
  done, load, arith, length, drop, get_elem?_lt, append_assoc, length-append, load-parts, ltb,
  ltb→lt, lt→ltb, le→ltb, if◌then◌else◌,
}
use service_data_gateway_edg.Bus.{max_subs, Sub, Bus, Call, is_for, publish_from, egw_bus_publish}
use service_data_gateway_edg.Bus.Subscribe.{IsValid, contents, length-contents, split_subs}

module _ {V W : Type 0} (call : Call V W) (device_id sig_id : ℕ) (value : V) where
  -- A callback returns, and leaves a valid table.
  abbrev pub Returns : Type 0
  Returns =
      (cb user : ℕ) (bus : Bus) (w : W)
      → IsValid bus
      → (bus' : Bus) × (w' : W) × (call cb device_id sig_id value user (bus, w) ≡ done (bus', w'))
        × IsValid bus'

  abbrev Ends : Run (Bus × W) → Type 0
  Ends r = (bus' : Bus) × (w' : W) × (r ≡ done (bus', w')) × IsValid bus'

  publish_from-Ends :
      (fuel i : ℕ) (bus : Bus) (w : W)
      → Returns
      → IsValid bus
      → max_subs ≤ i + fuel
      → Ends (publish_from call fuel i device_id sig_id value (bus, w))
  unfolding publish_from load
  publish_from-Ends zero i bus w total v enough =
      (bus, w, rw (le→ltb i bus.count (omega (arith, v.within))), v)
  publish_from-Ends (suc fuel) i bus w total v enough = elim (Bool-cases (ltb i bus.count)) [
    | inr stop ↦ (bus, w, rw stop, v)
    | inl more ↦
        let (s, got) =
          get_elem?_lt bus.subs i (omega (arith, v.array, v.within, ltb→lt i bus.count more)) in
        elim (Bool-cases (is_for device_id sig_id s)) [
          | inr miss ↦
              let (b, x, e, u) = publish_from-Ends fuel (i + 1) bus w total v (omega arith) in
              (b, x, rw (more, got, miss) e, u)
          | inl hit ↦
              let (b1, w1, called, v1) = total s.cb s.user bus w v in
              let (b, x, e, u) = publish_from-Ends fuel (i + 1) b1 w1 total v1 (omega arith) in
              (b, x, rw (more, got, hit, called) e, u)
        ]
  ]

  -- Publishing on a valid table ends, within 128 rounds and without a fault, and leaves a valid
  -- table, also when callbacks subscribe and unsubscribe on the way, provided that each of them
  -- returns and leaves a valid table.
  pub publish_ends :
      (bus : Bus) (w : W)
      → Returns
      → IsValid bus
      → (bus' : Bus) × (w' : W) × (egw_bus_publish call bus device_id sig_id value w
          ≡ done (bus', w'))
        × IsValid bus'
  unfolding egw_bus_publish
  publish_ends bus w total v = publish_from-Ends max_subs 0 bus w total v (omega arith)

  -- What the matching subscriptions of a list do, first to last.
  abbrev pub deliver : (ℕ → ℕ → W → W) → List Sub → W → W
  deliver act [] w = w
  deliver act (s ∷ l) w = deliver act l (if is_for device_id sig_id s then act s.cb s.user w else w)

  publish_from-deliver :
      (act : ℕ → ℕ → W → W)
      → ((cb user : ℕ) (bus : Bus) (w : W)
          → call cb device_id sig_id value user (bus, w) ≡ done (bus, act cb user w))
      → (l a rest : List Sub) (fuel i : ℕ) (bus : Bus) (w : W) → bus.subs ≡ a ++ (l ++ rest)
      → i ≡ length a
      → bus.count ≡ length a + length l
      → length l ≤ fuel
      → publish_from call fuel i device_id sig_id value (bus, w) ≡ done (bus, deliver act l w)
  unfolding publish_from
  publish_from-deliver act pure [] a rest zero i bus w e h n enough =
      rw (le→ltb i bus.count (omega arith)) refl
  publish_from-deliver act pure [] a rest (suc fuel) i bus w e h n enough =
      rw (le→ltb i bus.count (omega arith)) refl
  publish_from-deliver act pure (x ∷ l) a rest zero i bus w e h n enough = absurd (omega arith)
  publish_from-deliver act pure (x ∷ l) a rest (suc fuel) i bus w e h n enough =
      let loaded : load bus.subs i ≡ done x =
        ap (λ s. load s i) e ∙ load-parts i a x (l ++ rest) h in
      let on = λ (w' : W).
        publish_from-deliver act pure l (a ++ x ∷ []) rest fuel (i + 1) bus w'
          (e ∙ sym (append_assoc a (x ∷ []) (l ++ rest))) (omega (arith, length-append a (x ∷ [])))
          (omega (arith, length-append a (x ∷ []))) (omega arith) in
      elim (Bool-cases (is_for device_id sig_id x)) [
        | inl hit ↦
            rw (lt→ltb i bus.count (omega arith), loaded, hit, pure x.cb x.user bus w)
              (on (act x.cb x.user w))
        | inr miss ↦ rw (lt→ltb i bus.count (omega arith), loaded, miss) (on w)
      ]

  -- On a valid table, with callbacks that leave the table alone, publishing calls those of the
  -- matching subscriptions, in the order of the table, each once and no other, and the table stays
  -- as it was.
  pub publish_delivers :
      (act : ℕ → ℕ → W → W) (bus : Bus) (w : W)
      → ((cb user : ℕ) (bus : Bus) (w : W)
          → call cb device_id sig_id value user (bus, w) ≡ done (bus, act cb user w))
      → IsValid bus
      → egw_bus_publish call bus device_id sig_id value w ≡ done (bus, deliver act (contents bus) w)
  unfolding egw_bus_publish
  publish_delivers act bus w pure v =
      publish_from-deliver act pure (contents bus) [] (drop bus.count bus.subs) max_subs 0 bus w
        (split_subs bus) refl (omega (arith, length-contents bus v))
        (omega (arith, length-contents bus v, v.within))
