-- ===== src/Ptable/Rows/Fill.antt =====
-- src/ptable/egw_ptable.c: what `egw_ptable_register` loads.
use service_data_gateway_edg.Prelude.{
  ℕ, ◌&&◌, ap₂, ◌+◌, ◌≤◌, ◌<◌, ◌≡◌, ◌≢◌, refl, ap, sym, ◌∙◌, true, List, [], ◌∷◌, ◌++◌, Option,
  some, done, fault, ◌>>=◌, store-parts, store-fault, length, length-append, replicate,
  append_assoc, ne→==, arith,
}
use service_data_gateway_edg.Ptable.Rows.{
  Column, Schema, Answers, resolve_cols, validate_order_by, read_fields, read_rows, with_result,
  fill_rows, count_of, egw_ptable_register,
}

count_of-some : (o : Option ℕ) (n : ℕ) → o ≡ some n → n < 4294967296 → count_of o ≡ n
unfolding count_of
count_of-some o n e small = rw e (omega arith)

module _ (to_float : ℕ → ℕ) {K R : Type 0} (schema : Schema K R) where
  -- The rows that the result's rows give, by the columns that the first of them resolves to.
  abbrev pub Reads : List (Option ℕ) → List (List Column) → List R → Type 0
  Reads idx [] [] = Unit
  Reads idx [] (r ∷ rs) = ⊥
  Reads idx (cols ∷ more) [] = ⊥
  Reads idx (cols ∷ more) (r ∷ rs) =
      (read_fields to_float schema.zeroed schema.fields idx cols ≡ done r) × Reads idx more rs

  read_rows-Reads :
      (idx : List (Option ℕ)) (result : List (List Column)) (rs before : List R) (n : ℕ)
      → Reads idx result rs
      → n ≡ length before
      → read_rows to_float schema.zeroed schema.fields idx
          (before ++ replicate (length rs) schema.zeroed)
          n
          result
        ≡ done (before ++ rs)
  unfolding read_rows
  read_rows-Reads idx [] [] before n h at = refl
  read_rows-Reads idx [] (r ∷ rs) before n h at = elim h [ ]
  read_rows-Reads idx (cols ∷ more) [] before n h at = elim h [ ]
  read_rows-Reads idx (cols ∷ more) (r ∷ rs) before n (e, rest) at =
      let zeros : List R = replicate (length rs) schema.zeroed in
      rw e (
        ap
          (λ q.
            q >>= (λ rows. read_rows to_float schema.zeroed schema.fields idx rows (n + 1) more))
          (store-parts n before (schema.zeroed ∷ []) zeros (r ∷ []) at refl
            ∙ ap done (sym (append_assoc before (r ∷ []) zeros)))
        ∙ read_rows-Reads idx more rs (before ++ r ∷ []) (n + 1) rest
            (omega (arith, length-append before (r ∷ [])))
        ∙ ap done (append_assoc before (r ∷ []) rs))

  -- Into an array that is full.
  read_rows-full :
      (idx : List (Option ℕ)) (cols : List Column) (more : List (List Column)) (r : R)
      (rows : List R) (n : ℕ)
      → read_fields to_float schema.zeroed schema.fields idx cols ≡ done r
      → length rows ≤ n
      → read_rows to_float schema.zeroed schema.fields idx rows n (cols ∷ more) ≡ fault
  unfolding read_rows
  read_rows-full idx cols more r rows n e full =
      rw e (rw (store-fault rows n (r ∷ []) (omega arith)) refl)

  read_rows-over :
      (idx : List (Option ℕ)) (result : List (List Column)) (cols : List Column)
      (more : List (List Column)) (rs before : List R) (r : R) (n : ℕ)
      → Reads idx result rs
      → read_fields to_float schema.zeroed schema.fields idx cols ≡ done r
      → n ≡ length before
      → read_rows to_float schema.zeroed schema.fields idx
          (before ++ replicate (length rs) schema.zeroed)
          n
          (result ++ cols ∷ more)
        ≡ fault
  unfolding read_rows
  read_rows-over idx [] cols more [] before r n h e at =
      read_rows-full idx cols more r (before ++ []) n e (omega (arith, length-append before []))
  read_rows-over idx [] cols more (x ∷ rs) before r n h e at = elim h [ ]
  read_rows-over idx (x ∷ result) cols more [] before r n h e at = elim h [ ]
  read_rows-over idx (x ∷ result) cols more (y ∷ rs) before r n (ey, rest) e at =
      let zeros : List R = replicate (length rs) schema.zeroed in
      rw ey (
        ap
          (λ q. q >>= (λ rows.
            read_rows to_float schema.zeroed schema.fields idx rows (n + 1)
              (result ++ cols ∷ more)))
          (store-parts n before (schema.zeroed ∷ []) zeros (y ∷ []) at refl
            ∙ ap done (sym (append_assoc before (y ∷ []) zeros)))
        ∙ read_rows-over idx result cols more rs (before ++ y ∷ []) r (n + 1) rest e
            (omega (arith, length-append before (y ∷ []))))

  -- The two statements prepare, the first counts `n` rows, and the fields and the order are those of
  -- the table, whose first row is `cols`.
  pub record Registers (a : Answers) (cols : List Column) (n : ℕ) (idx : List (Option ℕ))
      : Type 0 where
    pub some_fields : length schema.fields ≢ 0
    pub ordered : validate_order_by schema.fields schema.order_by ≡ true
    pub counts : a.count_prepares ≡ true
    pub counted : a.counted ≡ some n
    pub small : n < 4294967296
    pub prepares : a.rows_prepare ≡ true
    pub resolved : resolve_cols schema.fields cols ≡ (0, idx)

  registers :
      (a : Answers) (cols : List Column) (more : List (List Column)) (n : ℕ) (idx : List (Option ℕ))
      → Registers a cols n idx
      → a.result ≡ cols ∷ more
      → egw_ptable_register to_float schema true a ≡ (
          read_rows to_float schema.zeroed schema.fields idx
            (replicate n schema.zeroed)
            0
            (cols ∷ more)
          >>= (λ rows. done (some (record { count = n; lkp_cmp = schema.lkp; rows = rows }))))
  unfolding egw_ptable_register with_result fill_rows
  registers a cols more n idx reg result =
      let all_prepare : (a.count_prepares && (true && a.rows_prepare)) ≡ true =
        ap₂ (λ x y. x && (true && y)) reg.counts reg.prepares in
      rw (ne→== (length schema.fields) 0 reg.some_fields, reg.ordered, all_prepare)
        (ap₂ (with_result to_float schema) (count_of-some a.counted n reg.counted reg.small) result
          ∙ ap (fill_rows to_float schema n (cols ∷ more)) reg.resolved)

  -- Where the fields and the order are columns of the table, both statements prepare and the count
  -- is the number of rows delivered, at least one, registering a table gives a row set of that many
  -- rows: those that reading the fields of each result row gives, in the order of the result.
  pub register_loads :
      (a : Answers) (cols : List Column) (more : List (List Column)) (idx : List (Option ℕ))
      (rs : List R)
      → Registers a cols (length rs) idx
      → a.result ≡ cols ∷ more
      → Reads idx (cols ∷ more) rs
      → egw_ptable_register to_float schema true a
        ≡ done (some (record { count = length rs; lkp_cmp = schema.lkp; rows = rs }))
  register_loads a cols more idx rs reg result reads =
      registers a cols more (length rs) idx reg result
      ∙ ap
          (λ q. q >>= (λ rows.
            done (some (record { count = length rs; lkp_cmp = schema.lkp; rows = rows }))))
          (read_rows-Reads idx (cols ∷ more) rs [] 0 reads refl)

  -- Where the second statement delivers more rows than the first has counted, registering the table
  -- writes past the end of the row set's array.
  pub register_overflow :
      (a : Answers) (cols : List Column) (first : List (List Column)) (extra : List Column)
      (more : List (List Column)) (idx : List (Option ℕ)) (rs : List R) (r : R)
      → Registers a cols (length rs) idx
      → a.result ≡ cols ∷ (first ++ extra ∷ more)
      → Reads idx (cols ∷ first) rs
      → read_fields to_float schema.zeroed schema.fields idx extra ≡ done r
      → egw_ptable_register to_float schema true a ≡ fault
  register_overflow a cols first extra more idx rs r reg result reads e =
      registers a cols (first ++ extra ∷ more) (length rs) idx reg result
      ∙ ap
          (λ q. q >>= (λ rows.
            done (some (record { count = length rs; lkp_cmp = schema.lkp; rows = rows }))))
          (read_rows-over idx (cols ∷ first) extra more rs [] r 0 reads e refl)
