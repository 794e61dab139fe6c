-- ===== src/Bus/Subscribe.antt =====
-- src/core/egw_bus.c: the table of subscriptions as a list, what subscribing and unsubscribing do
-- to it, and that both keep it within the array.
use mathlib.Core.List.{Perm, perm_middle, perm_append_singleton}
use mathlib.Core.List.Perm
use service_data_gateway_edg.Prelude.{
  ℕ, suc, ◌+◌, ◌-◌, ◌≤◌, ◌<◌, ◌≡◌, ◌≢◌, ◌⊎◌, inl, inr, refl, sym, ap, ◌∙◌, true, false, List, [],
  ◌∷◌, ◌++◌, done, load, store, arith, length, take, drop, All, take-append-drop, length-take,
  length-drop, length-append, store-parts, load-parts, take-append_length, append_assoc, le→leb,
  lt→leb, ne→==,
}
use service_data_gateway_edg.Defs.{ok, invalid_arg, busy, notfound}
use service_data_gateway_edg.Bus.{
  max_subs, Sub, Bus, egw_bus_subscribe, is_sub, unsubscribe_from, egw_bus_unsubscribe,
}

pub record IsValid (bus : Bus) : Type 0 where
  pub array : length bus.subs ≡ max_subs
  pub within : bus.count ≤ max_subs

-- The subscriptions in force, oldest place first.
abbrev pub contents : Bus → List Sub
contents bus = take bus.count bus.subs

pub split_subs : (bus : Bus) → bus.subs ≡ contents bus ++ drop bus.count bus.subs
split_subs bus = sym (take-append-drop bus.count bus.subs)

pub length-contents : (bus : Bus) → IsValid bus → length (contents bus) ≡ bus.count
length-contents bus v = omega (arith, length-take bus.count bus.subs, v.array, v.within)

-- Where the array still has room: `drop count subs` has a first element.
room :
    (bus : Bus)
    → IsValid bus
    → bus.count < max_subs
    → (x : Sub) × (rest : List Sub) × (bus.subs ≡ contents bus ++ x ∷ rest)
room bus v h = go (drop bus.count bus.subs) refl
  where
    go :
        (l : List Sub)
        → drop bus.count bus.subs ≡ l
        → (x : Sub) × (rest : List Sub) × (bus.subs ≡ contents bus ++ x ∷ rest)
    go [] e = absurd (omega (arith, length-drop bus.count bus.subs, v.array, ap length e))
    go (x ∷ rest) e = (x, rest, split_subs bus ∙ ap (λ l. contents bus ++ l) e)

abbrev pub sub : ℕ → ℕ → ℕ → ℕ → Sub
sub device_id sig_id cb user = record {
  device_id = device_id;
  sig_id = sig_id;
  cb = cb;
  user = user;
}

-- While a valid table has fewer than 128 subscriptions, subscribing with a callback succeeds and
-- puts the new subscription behind the others, in a valid table.
pub subscribe_adds :
    (bus : Bus) (device_id sig_id cb user : ℕ)
    → IsValid bus
    → cb ≢ 0
    → bus.count < max_subs
    → (bus' : Bus) × (egw_bus_subscribe bus device_id sig_id cb user ≡ done (ok, bus'))
      × (contents bus' ≡ contents bus ++ sub device_id sig_id cb user ∷ [])
      × IsValid bus'
unfolding egw_bus_subscribe
subscribe_adds bus device_id sig_id cb user v h lt =
    let s : Sub = sub device_id sig_id cb user in
    let (x, rest, e) = room bus v lt in
    let subs' : List Sub = contents bus ++ (s ∷ rest) in
    let n : bus.count ≡ length (contents bus) = sym (length-contents bus v) in
    let stored : store bus.subs bus.count (s ∷ []) ≡ done subs' =
      ap (λ l. store l bus.count (s ∷ [])) e
      ∙ store-parts bus.count (contents bus) (x ∷ []) rest (s ∷ []) n refl in
    let assoc : subs' ≡ (contents bus ++ s ∷ []) ++ rest =
      sym (append_assoc (contents bus) (s ∷ []) rest) in
    let len : bus.count + 1 ≡ length (contents bus ++ s ∷ []) =
      omega (arith, length-append (contents bus) (s ∷ []), n) in
    (
      record { subs = subs'; count = bus.count + 1 },
      rw (ne→== cb 0 h, lt→leb max_subs bus.count lt, stored),
      rw assoc (take-append_length (bus.count + 1) (contents bus ++ s ∷ []) rest len),
      record {
        array = omega (
          arith,
          length-append (contents bus) (s ∷ rest),
          length-append (contents bus) (x ∷ rest),
          ap length e,
          v.array,
        );
        within = omega arith;
      },
    )

-- A full table and a missing callback are refused, and nothing changes.
pub subscribe_refuses :
    (bus : Bus) (device_id sig_id cb user : ℕ)
    → (cb ≡ 0 → egw_bus_subscribe bus device_id sig_id cb user ≡ done (invalid_arg, bus))
      × (cb ≢ 0
          → max_subs ≤ bus.count
          → egw_bus_subscribe bus device_id sig_id cb user ≡ done (busy, bus))
unfolding egw_bus_subscribe
subscribe_refuses bus device_id sig_id cb user =
    (λ e. rw e, λ h full. rw (ne→== cb 0 h, le→leb max_subs bus.count full))

last_cases : (l : List Sub) → (l ≡ []) ⊎ ((c : List Sub) × (y : Sub) × (l ≡ c ++ y ∷ []))
last_cases [] = inl refl
last_cases (x ∷ l) = elim (last_cases l) [
  | inl e ↦ inr ([], x, ap (λ r. x ∷ r) e)
  | inr (c, y, e) ↦ inr (x ∷ c, y, ap (λ r. x ∷ r) e)
]

module _ (device_id sig_id cb : ℕ) where
  abbrev pub Misses : Sub → Type 0
  Misses s = is_sub device_id sig_id cb s ≡ false

  -- The loop runs past entries that do not match.
  skip :
      (l a rest : List Sub) (k i j : ℕ) (bus : Bus)
      → bus.subs ≡ a ++ (l ++ rest)
      → i ≡ length a
      → j ≡ i + length l
      → All Misses l
      → unsubscribe_from (length l + k) i bus device_id sig_id cb
        ≡ unsubscribe_from k j bus device_id sig_id cb
  unfolding unsubscribe_from
  skip [] a rest k i j bus e h n m =
      let ij : j ≡ i = omega arith in let kk : 0 + k ≡ k = omega arith in rw (ij, kk)
  skip (x ∷ l) a rest k i j bus e h n m =
      let kk : suc (length l) + k ≡ suc (length l + k) = omega arith in
      let loaded : load bus.subs i ≡ done x =
        ap (λ s. load s i) e ∙ load-parts i a x (l ++ rest) h in
      rw (kk, loaded, m.0)
        (skip l (a ++ x ∷ []) rest k (i + 1) j bus (e ∙ sym (append_assoc a (x ∷ []) (l ++ rest)))
          (omega (arith, length-append a (x ∷ []))) (omega arith) m.1)

  -- Where no subscription of a valid table matches, unsubscribing with a callback reports that none
  -- was found and changes nothing.
  pub unsubscribe_missing :
      (bus : Bus)
      → IsValid bus
      → cb ≢ 0
      → All Misses (contents bus)
      → egw_bus_unsubscribe bus device_id sig_id cb ≡ done (notfound, bus)
  unfolding egw_bus_unsubscribe
  unsubscribe_missing bus v h m =
      let n : bus.count ≡ length (contents bus) + 0 = omega (arith, length-contents bus v) in
      rw (ne→== cb 0 h) (
        ap (λ k. unsubscribe_from k 0 bus device_id sig_id cb) n
        ∙ skip (contents bus) [] (drop bus.count bus.subs) 0 0 (length (contents bus)) bus
            (split_subs bus) refl (omega arith) m)

  -- The round that finds a match, at the end of `a`.
  found :
      (a rest : List Sub) (x y : Sub) (k i : ℕ) (bus : Bus)
      → bus.subs ≡ a ++ x ∷ rest
      → i ≡ length a
      → is_sub device_id sig_id cb x ≡ true
      → load bus.subs (bus.count - 1) ≡ done y
      → unsubscribe_from (suc k) i bus device_id sig_id cb
        ≡ done (ok, record { subs = a ++ y ∷ rest; count = bus.count - 1 })
  unfolding unsubscribe_from
  found a rest x y k i bus e h hit last =
      let loaded : load bus.subs i ≡ done x = ap (λ s. load s i) e ∙ load-parts i a x rest h in
      let stored : store bus.subs i (y ∷ []) ≡ done (a ++ y ∷ rest) =
        ap (λ s. store s i (y ∷ [])) e ∙ store-parts i a (x ∷ []) rest (y ∷ []) h refl in
      rw (loaded, hit, last, stored)

  -- The last entry `y` moves to the place of `x`; `cs` is what is left in force.
  remove_at :
      (bus : Bus) (a b cs tail : List Sub) (x y : Sub)
      → IsValid bus
      → cb ≢ 0
      → contents bus ≡ a ++ x ∷ b
      → All Misses a
      → is_sub device_id sig_id cb x ≡ true
      → load bus.subs (bus.count - 1) ≡ done y
      → a ++ y ∷ (b ++ drop bus.count bus.subs) ≡ cs ++ tail
      → length cs ≡ bus.count - 1
      → Perm (a ++ x ∷ b) (x ∷ cs)
      → (bus' : Bus) × (egw_bus_unsubscribe bus device_id sig_id cb ≡ done (ok, bus'))
        × Perm (contents bus) (x ∷ contents bus')
        × IsValid bus'
  unfolding egw_bus_unsubscribe
  remove_at bus a b cs tail x y v h e m hit last lay len perm =
      let rest : List Sub = drop bus.count bus.subs in
      let whole : bus.subs ≡ a ++ (x ∷ (b ++ rest)) =
        split_subs bus ∙ ap (λ l. l ++ rest) e ∙ append_assoc a (x ∷ b) rest in
      let n : bus.count ≡ length a + suc (length b) =
        omega (arith, length-contents bus v, ap length e, length-append a (x ∷ b)) in
      let kept : take (bus.count - 1) (a ++ y ∷ (b ++ rest)) ≡ cs =
        ap (λ l. take (bus.count - 1) l) lay
        ∙ take-append_length (bus.count - 1) cs tail (sym len) in
      (
        record { subs = a ++ y ∷ (b ++ rest); count = bus.count - 1 },
        rw (ne→== cb 0 h) (
            ap (λ k. unsubscribe_from k 0 bus device_id sig_id cb) n
            ∙ skip a [] (x ∷ (b ++ rest)) (suc (length b)) 0 (length a) bus whole refl (omega arith)
                m
            ∙ found a (b ++ rest) x y (length b) (length a) bus whole refl hit last),
        rw (e, kept) perm,
        record {
          array = omega (
            arith,
            v.array,
            ap length whole,
            length-append a (x ∷ (b ++ rest)),
            length-append a (y ∷ (b ++ rest)),
          );
          within = omega (arith, v.within);
        },
      )

  -- Where a subscription of a valid table matches, unsubscribing with a callback succeeds and takes
  -- out the first that does; the others all stay in force, once each, in a valid table.
  pub unsubscribe_removes :
      (bus : Bus) (a b : List Sub) (x : Sub)
      → IsValid bus
      → cb ≢ 0
      → contents bus ≡ a ++ x ∷ b
      → All Misses a
      → is_sub device_id sig_id cb x ≡ true
      → (bus' : Bus) × (egw_bus_unsubscribe bus device_id sig_id cb ≡ done (ok, bus'))
        × Perm (contents bus) (x ∷ contents bus')
        × IsValid bus'
  unfolding egw_bus_unsubscribe
  unsubscribe_removes bus a b x v h e m hit = elim (last_cases b) [
    | inl nil ↦
        remove_at bus a b a (x ∷ rest) x x v h e m hit (last_of a x (e ∙ ap (λ l. a ++ x ∷ l) nil))
          (ap (λ l. a ++ x ∷ (l ++ rest)) nil) (omega (arith, n, ap length nil))
          (rw nil (perm_append_singleton x a))
    | inr (c, y, snoc) ↦
        remove_at bus a b (a ++ y ∷ c) (y ∷ rest) x y v h e m hit
          (last_of (a ++ x ∷ c) y
            (e ∙ ap (λ l. a ++ x ∷ l) snoc ∙ sym (append_assoc a (x ∷ c) (y ∷ []))))
          (ap (λ l. a ++ y ∷ (l ++ rest)) snoc
            ∙ ap (λ l. a ++ y ∷ l) (append_assoc c (y ∷ []) rest)
            ∙ sym (append_assoc a (y ∷ c) (y ∷ rest)))
          (omega (arith, n, ap length snoc, length-append c (y ∷ []), length-append a (y ∷ c)))
          (rw snoc (
            Perm.trans (perm_middle a (c ++ y ∷ []))
              (Perm.cons x (Perm.append (Perm.refl a) (perm_append_singleton y c)))))
  ]
    where
      rest : List Sub
      rest = drop bus.count bus.subs

      n : bus.count ≡ length a + suc (length b)
      n = omega (arith, length-contents bus v, ap length e, length-append a (x ∷ b))

      last_of :
          (front : List Sub) (z : Sub)
          → contents bus ≡ front ++ z ∷ []
          → load bus.subs (bus.count - 1) ≡ done z
      last_of front z q =
          ap (λ l. load l (bus.count - 1))
            (split_subs bus ∙ ap (λ l. l ++ rest) q ∙ append_assoc front (z ∷ []) rest)
          ∙ load-parts (bus.count - 1) front z rest
              (omega (arith, length-contents bus v, ap length q, length-append front (z ∷ [])))
