-- ===== src/Ptable/Manifest/Entries.antt =====
-- src/ptable/egw_ptable.c: what a manifest lists, and that its array is large enough.
use mathlib.Core.Path.{subst}
use service_data_gateway_edg.Prelude.{
  ℕ, ◌+◌, ◌*◌, ◌%◌, ◌^◌, ◌≤◌, ◌<◌, ◌≡◌, refl, ap, sym, ◌∙◌, inl, inr, Bool, Bool-cases, true, false,
  List, [], ◌∷◌, ◌++◌, append-nil, Option, none, some, Run, done, ltb, leb, ◌==◌, if◌then◌else◌,
  arith, length, length-append,
}
use service_data_gateway_edg.Ptable.{Text, clip}
use service_data_gateway_edg.Ptable.Manifest.{
  Tbl, Manifest, Row, protocol_of, append_table, add_named, add_keyed, valid_cb,
}

pub record IsValid (mh : Manifest) : Type 0 where
  pub counted : mh.count ≡ length mh.tables
  pub within : mh.count ≤ mh.cap

new_entry : Text → Text → Option Text → Tbl
unfolding protocol_of
new_entry junk name value = record { name = clip 31 name; protocol = protocol_of junk value }

named : Text → Option Text → Option Text → List Tbl
unfolding new_entry
named junk none value = []
named junk (some name) value = new_entry junk name value ∷ []

-- The entry of a row: none where the row has fewer than two columns or no name.
unfoldable pub entry : Text → Row → List Tbl
unfolding named
entry junk row = if ltb row.ncol 2 then [] else named junk row.key row.value

-- The entries of the rows, in their order.
unfoldable pub entries : Text → List (Bool × Row) → List Tbl
unfolding entry
entries junk [] = []
entries junk ((b, row) ∷ rows) = entry junk row ++ entries junk rows

-- What a row does to a manifest: it stays valid, counts at most one more, and has the row's entry
-- behind the others, at least where `realloc` succeeds.
pub record Grows (b : Bool) (mh : Manifest) (l : List Tbl) (mh' : Manifest) : Type 0 where
  pub valid : IsValid mh'
  pub one_more : mh'.count ≤ mh.count + 1
  pub listed : b ≡ true → mh'.tables ≡ mh.tables ++ l

unchanged-Grows :
    (b : Bool) (mh : Manifest) (l : List Tbl) → IsValid mh → (b ≡ true → l ≡ []) → Grows b mh l mh
unchanged-Grows b mh l v h = record {
  valid = v;
  one_more = omega arith;
  listed = λ e. sym (ap (λ k. mh.tables ++ k) (h e) ∙ append-nil mh.tables);
}

abbrev pub Grown : Bool → Manifest → List Tbl → Run Manifest → Type 0
Grown b mh l r = (mh' : Manifest) × (r ≡ done mh') × Grows b mh l mh'

append_table-Grown :
    (b : Bool) (junk name : Text) (value : Option Text) (mh : Manifest) (size : ℕ)
    → IsValid mh
    → mh.count < 2 ^ 31
    → mh.count < size
    → Grown b mh
        (new_entry junk name value ∷ [])
        (append_table junk (record mh { cap = size }) name value)
unfolding append_table new_entry
append_table-Grown b junk name value mh size v small room =
    let e : (mh.count + 1) % 2 ^ 32 ≡ mh.count + 1 = omega arith in
    let fits : leb size mh.count ≡ false = ground arith in
    (
      record {
        tables = mh.tables ++ new_entry junk name value ∷ [];
        count = mh.count + 1;
        cap = size;
      },
      rw (fits, e),
      record {
        valid = record {
          counted =
              omega (arith, v.counted, length-append mh.tables (new_entry junk name value ∷ []));
          within = omega arith;
        };
        one_more = omega arith;
        listed = λ h. refl;
      },
    )

add_named_room :
    (b : Bool) (junk name : Text) (value : Option Text) (mh : Manifest)
    → leb mh.cap mh.count ≡ false
    → add_named b junk mh name value ≡ append_table junk mh name value
unfolding add_named
add_named_room b junk name value mh room = rw room refl

add_named_full :
    (b : Bool) (junk name : Text) (value : Option Text) (mh : Manifest)
    → leb mh.cap mh.count ≡ true
    → add_named b junk mh name value ≡ (
        if b
        then append_table junk
            (record mh { cap = if mh.cap == 0 then 4 else (mh.cap * 2) % 2 ^ 32 })
            name
            value
        else done mh)
unfolding add_named
add_named_full b junk name value mh full = rw full refl

-- A manifest that is full has fewer than 2 ^ 31 entries, so doubling does not wrap.
new_cap_large :
    (mh : Manifest)
    → IsValid mh
    → mh.count < 2 ^ 31
    → leb mh.cap mh.count ≡ true
    → mh.count < (if mh.cap == 0 then 4 else (mh.cap * 2) % 2 ^ 32)
new_cap_large mh v small full = ground (arith, v.within)

add_named-Grown :
    (b : Bool) (junk name : Text) (value : Option Text) (mh : Manifest)
    → IsValid mh
    → mh.count < 2 ^ 31
    → Grown b mh (new_entry junk name value ∷ []) (add_named b junk mh name value)
add_named-Grown b junk name value mh v small =
    let P : Run Manifest → Type 0 = Grown b mh (new_entry junk name value ∷ []) in
    elim (Bool-cases (leb mh.cap mh.count)) [
      | inl full ↦ subst P (sym (add_named_full b junk name value mh full)) (enlarged b full)
      | inr room ↦
          subst P (sym (add_named_room b junk name value mh room))
            (append_table-Grown b junk name value mh mh.cap v small (ground arith))
    ]
  where
    enlarged :
        (b : Bool)
        → leb mh.cap mh.count ≡ true
        → Grown b mh (new_entry junk name value ∷ []) (
            if b
            then append_table junk
                (record mh { cap = if mh.cap == 0 then 4 else (mh.cap * 2) % 2 ^ 32 })
                name
                value
            else done mh)
    enlarged true full =
        append_table-Grown true junk name value mh _ v small (new_cap_large mh v small full)
    enlarged false full = (mh, refl, unchanged-Grows false mh _ v (λ e. absurd (cc)))

add_keyed-Grown :
    (b : Bool) (junk : Text) (key value : Option Text) (mh : Manifest)
    → IsValid mh
    → mh.count < 2 ^ 31
    → Grown b mh (named junk key value) (add_keyed b junk mh key value)
unfolding add_keyed named
add_keyed-Grown b junk none value mh v small = (mh, refl, unchanged-Grows b mh [] v (λ e. refl))
add_keyed-Grown b junk (some name) value mh v small = add_named-Grown b junk name value mh v small

pub valid_cb-Grown :
    (b : Bool) (junk : Text) (mh : Manifest) (row : Row)
    → IsValid mh
    → mh.count < 2 ^ 31
    → Grown b mh (entry junk row) (valid_cb b junk mh row)
unfolding valid_cb entry
valid_cb-Grown b junk mh row v small = go (ltb row.ncol 2)
  where
    go :
        (few : Bool)
        → Grown b mh
            (if few then [] else named junk row.key row.value)
            (if few then done mh else add_keyed b junk mh row.key row.value)
    go true = (mh, refl, unchanged-Grows b mh [] v (λ e. refl))
    go false = add_keyed-Grown b junk row.key row.value mh v small
