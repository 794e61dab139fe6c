-- ===== src/Persist/Thread/Flush.antt =====
-- src/app/egw_persist_thread.c: what is written to the pipe reaches the database.
use service_data_gateway_edg.Prelude.{
  ℕ, zero, suc, ◌-◌, ◌*◌, ◌/◌, ◌≤◌, ◌<◌, ◌≡◌, refl, ap, ap₂, sym, ◌∙◌, Bool, true, false, List, [],
  ◌∷◌, ◌++◌, map, append_assoc, append-nil, Run, done, length, length-append, take, drop,
  take-append_length, take-append_add, drop-append_length, drop-append_add, if◌then◌else◌, arith,
  All, All-take, joined, length-drop, take-append-drop,
}
use service_data_gateway_edg.Ptable.{Text}
use service_data_gateway_edg.Transport.{Sys, moved}
use service_data_gateway_edg.Persist.{egw_persist_put}
use service_data_gateway_edg.Persist.Thread.{
  Word16, PersistThread, Item, item_bytes, item_of, ThreadOs, put_items, drain_round, drain,
}
use service_data_gateway_edg.Persist.Thread.Items.{
  IsWord16, IsItem, length-item_bytes, item_of-item_bytes,
}

-- The database keeps what is put into it, and the pipe what is written to it: reading takes as many
-- bytes as there are, up to the limit, and gives 0 when there are none, since the writing end is
-- closed.
pub record Pipe {W : Type 0} (sys : ThreadOs W) (read_end : ℕ) : Type 0 where
  pub queue : W → List ℕ
  pub log : W → List Item
  pub read_ended :
      (w : W)
      → queue w ≡ []
      → (w' : W) × (sys.os.read_fd read_end 2048 w ≡ (moved [], w'))
        × (queue w' ≡ [])
        × (log w' ≡ log w)
  pub read_some :
      (w : W)
      → 1 ≤ length (queue w)
      → (w' : W) × (sys.os.read_fd read_end 2048 w ≡ (moved (take 2048 (queue w)), w'))
        × (queue w' ≡ drop 2048 (queue w))
        × (log w' ≡ log w)
  pub prepares : (w : W) → sys.db.put_prepares w ≡ true
  pub put_log :
      (t : Text) (d a v : ℕ) (w : W)
      → log (sys.db.step_put t d a v w)
        ≡ log w ++ record { table = t; device_id = d; reg_addr = a; value = v } ∷ []
  pub put_queue : (t : Text) (d a v : ℕ) (w : W) → queue (sys.db.step_put t d a v w) ≡ queue w

abbrev pub bytes_of : Word16 → List Item → List ℕ
bytes_of m items = joined (map (item_bytes m) items)

module _ {W : Type 0} (m : Word16) (law : IsWord16 m) (sys : ThreadOs W) where
  take_items :
      (k n : ℕ) (items : List Item)
      → All IsItem items
      → n ≡ k * 32
      → take n (bytes_of m items) ≡ bytes_of m (take k items)
  take_items zero n items v e = let none_taken : n ≡ 0 = omega arith in rw none_taken refl
  take_items (suc k) n [] v e = let some_taken : n ≡ suc (n - 1) = omega arith in rw some_taken refl
  take_items (suc k) n (i ∷ items) v e =
      take-append_add n (k * 32) (item_bytes m i) (bytes_of m items)
        (omega (arith, length-item_bytes m law i v.0))
      ∙ ap (λ l. item_bytes m i ++ l) (take_items k (k * 32) items v.1 refl)

  drop_items :
      (k n : ℕ) (items : List Item)
      → All IsItem items
      → n ≡ k * 32
      → drop n (bytes_of m items) ≡ bytes_of m (drop k items)
  drop_items zero n items v e = let none_taken : n ≡ 0 = omega arith in rw none_taken refl
  drop_items (suc k) n [] v e = let some_taken : n ≡ suc (n - 1) = omega arith in rw some_taken refl
  drop_items (suc k) n (i ∷ items) v e =
      drop-append_add n (k * 32) (item_bytes m i) (bytes_of m items)
        (omega (arith, length-item_bytes m law i v.0))
      ∙ drop_items k (k * 32) items v.1 refl

  length-items :
      (items : List Item) → All IsItem items → length (bytes_of m items) ≡ length items * 32
  length-items [] v = refl
  length-items (i ∷ items) v = omega (
    arith,
    length-append (item_bytes m i) (bytes_of m items),
    length-item_bytes m law i v.0,
    length-items items v.1,
  )

  All-drop : (k : ℕ) (items : List Item) → All IsItem items → All IsItem (drop k items)
  All-drop zero items v = v
  All-drop (suc k) [] v = tt
  All-drop (suc k) (i ∷ items) v = All-drop k items v.1

  module _ (r : ℕ) (pipe : Pipe sys r) where
    put_one : Item → W → W
    put_one i w = egw_persist_put sys.db i.table i.device_id i.reg_addr i.value w

    -- What one read delivered goes into the database, item by item.
    put_items-log :
        (items : List Item) (n : ℕ) (w : W)
        → All IsItem items
        → n ≡ length items
        → (pipe.log (put_items m sys n (bytes_of m items) w) ≡ pipe.log w ++ items)
          × (pipe.queue (put_items m sys n (bytes_of m items) w) ≡ pipe.queue w)
    unfolding put_items egw_persist_put put_one
    put_items-log [] zero w v e = (sym (append-nil (pipe.log w)), refl)
    put_items-log [] (suc n) w v e = absurd (omega arith)
    put_items-log (i ∷ items) zero w v e = absurd (omega arith)
    put_items-log (i ∷ items) (suc n) w v e =
        let first : take 32 (bytes_of m (i ∷ items)) ≡ item_bytes m i =
          take-append_length 32 (item_bytes m i) (bytes_of m items)
            (sym (length-item_bytes m law i v.0)) in
        let others : drop 32 (bytes_of m (i ∷ items)) ≡ bytes_of m items =
          drop-append_length 32 (item_bytes m i) (bytes_of m items)
            (sym (length-item_bytes m law i v.0)) in
        let w1 : W = sys.db.step_put i.table i.device_id i.reg_addr i.value w in
        let (logged, kept) = put_items-log items n w1 v.1 (omega arith) in
        let whole : put_items m sys (suc n) (bytes_of m (i ∷ items)) w
            ≡ put_items m sys n (bytes_of m items) w1 =
          ap₂ (λ a b. put_items m sys n b (put_one (item_of m a) w)) first others
          ∙ ap (λ j. put_items m sys n (bytes_of m items) (put_one j w))
              (item_of-item_bytes m law i v.0)
          ∙ ap (λ b. put_items m sys n (bytes_of m items) (if b then w1 else w))
              (pipe.prepares w) in
        (
          ap pipe.log whole
              ∙ logged
              ∙ ap (λ l. l ++ items) (pipe.put_log i.table i.device_id i.reg_addr i.value w)
              ∙ append_assoc (pipe.log w) (i ∷ []) items,
          ap pipe.queue whole ∙ kept ∙ pipe.put_queue i.table i.device_id i.reg_addr i.value w,
        )

    go_on : ℕ → PersistThread → Bool × W → Run W
    go_on fuel pt (more, w) = elim more [ true ↦ drain m sys fuel pt w | false ↦ done w ]

    nothing_left :
        (fuel : ℕ) (pt : PersistThread) (w : W)
        → go_on fuel pt (drain_round m sys (moved [], w)) ≡ done w
    unfolding go_on drain_round
    nothing_left fuel pt w = refl

    goes_on :
        (fuel : ℕ) (pt : PersistThread) (w : W) → go_on fuel pt (true, w) ≡ drain m sys fuel pt w
    unfolding go_on
    goes_on fuel pt w = refl

    drain-read :
        (fuel : ℕ) (pt : PersistThread) (w : W) (got : Sys (List ℕ) × W)
        → sys.os.read_fd pt.read_end 2048 w ≡ got
        → drain m sys (suc fuel) pt w ≡ go_on fuel pt (drain_round m sys got)
    unfolding drain go_on
    drain-read fuel pt w got e = ap (λ g. go_on fuel pt (drain_round m sys g)) e

    round_some :
        (bs : List ℕ) (w : W)
        → 1 ≤ length bs
        → drain_round m sys (moved bs, w) ≡ (true, put_items m sys (length bs / 32) bs w)
    unfolding drain_round
    round_some [] w h = absurd (omega arith)
    round_some (b ∷ bs) w h = refl

    -- Reading ends, with everything in the database.
    abbrev pub Flushed : W → List Item → Run W → Type 0
    Flushed w items out =
        (w' : W) × (out ≡ done w') × (pipe.log w' ≡ pipe.log w ++ items) × (pipe.queue w' ≡ [])

    drain_rest :
        (fuel : ℕ) (pt : PersistThread) (items : List Item) (w : W)
        → pt.read_end ≡ r
        → All IsItem items
        → pipe.queue w ≡ bytes_of m items
        → length items < fuel
        → Flushed w items (drain m sys fuel pt w)
    drain_rest zero pt items w end_r v waits enough = absurd (omega arith)
    drain_rest (suc fuel) pt [] w end_r v waits enough =
        let (w1, ends, empty, same) = pipe.read_ended w waits in
        (
          w1,
          drain-read fuel pt w (moved [], w1) (ap (λ (e : ℕ). sys.os.read_fd e 2048 w) end_r ∙ ends)
              ∙ nothing_left fuel pt w1,
          same ∙ sym (append-nil (pipe.log w)),
          empty,
        )
    drain_rest (suc fuel) pt (i ∷ items) w end_r v waits enough =
        let size = length-items (i ∷ items) v in
        let some_bytes : 1 ≤ length (pipe.queue w) = omega (arith, ap length waits, size) in
        let (w1, reads, left, same) = pipe.read_some w some_bytes in
        let now : List Item = take 64 (i ∷ items) in
        let later : List Item = drop 64 (i ∷ items) in
        let now_items : All IsItem now = All-take IsItem 64 (i ∷ items) v in
        let bytes : take 2048 (pipe.queue w) ≡ bytes_of m now =
          ap (take 2048) waits ∙ take_items 64 2048 (i ∷ items) v refl in
        let n : length (bytes_of m now) / 32 ≡ length now =
          omega (arith, length-items now now_items) in
        let w2 : W = put_items m sys (length (bytes_of m now) / 32) (bytes_of m now) w1 in
        let (logged, kept) = put_items-log now (length (bytes_of m now) / 32) w1 now_items n in
        let (w', ends, log', empty) =
          drain_rest fuel pt later w2 end_r (All-drop 64 (i ∷ items) v)
            (kept ∙ left ∙ ap (drop 2048) waits ∙ drop_items 64 2048 (i ∷ items) v refl)
            (omega (arith, length-drop 63 items)) in
        (
          w',
          drain-read fuel pt w (moved (take 2048 (pipe.queue w)), w1)
                (ap (λ (e : ℕ). sys.os.read_fd e 2048 w) end_r ∙ reads)
              ∙ ap (λ l. go_on fuel pt (drain_round m sys (moved l, w1))) bytes
              ∙ ap (go_on fuel pt)
                  (round_some (bytes_of m now) w1 (omega (arith, length-items now now_items)))
              ∙ goes_on fuel pt w2
              ∙ ends,
          log'
              ∙ ap (λ l. l ++ later) (logged ∙ ap (λ l. l ++ now) same)
              ∙ append_assoc (pipe.log w) now later
              ∙ ap (λ l. pipe.log w ++ l) (take-append-drop 64 (i ∷ items)),
          empty,
        )

    -- Where the writing end of the pipe is closed and the pipe holds the bytes of some items, the
    -- reading loop ends after at most one round more than there are items, has put every item into
    -- the database once and in their order, and leaves the pipe empty; SQLite prepares the
    -- statements, and a read takes what there is, up to the limit.
    pub drain_delivers :
        (pt : PersistThread) (items : List Item) (w : W)
        → pt.read_end ≡ r
        → All IsItem items
        → pipe.queue w ≡ bytes_of m items
        → Flushed w items (drain m sys (suc (length items)) pt w)
    drain_delivers pt items w end_r v waits =
        drain_rest (suc (length items)) pt items w end_r v waits (omega arith)
