-- ===== src/Backend/Table/Query/Selection.antt =====
-- What `GetObjects` of dlna/backend/db_driver_postgres.go answers: which rows, in which order, and how many.
use godlna.Base.{
  ℕ, zero, suc, ◌-◌, ◌≤◌, List, [], ◌∷◌, some, none, Option, Bool, true, if◌then◌else◌, ◌≡◌, refl,
  sym, ap, ◌∙◌, length, take, drop, arith, ◌⊎◌, inl, inr, Bool-cases, ltb, leb, ℤ, pos_part, All,
  All-mono,
}
use godlna.Backend.Object.{Object}
use godlna.Backend.Filter.{Filter, SearchResponse, ObjectSort, by_id, public}
use godlna.Backend.Table.{Table}
use godlna.Backend.Table.Query.{
  Db, status_test, is_valid, selects, where_rows, before, insert_sorted, sort_rows, page, respond,
  get_objects,
}

module _ (P : Object → Type 0) where
  All-insert_sorted :
      (le : Object → Object → Bool) (x : Object) (ys : List Object)
      → P x
      → All P ys
      → All P (insert_sorted le x ys)
  unfolding insert_sorted
  All-insert_sorted le x [] h a = (h, tt)
  All-insert_sorted le x (y ∷ ys) h (g, a) = ground (arith, All-insert_sorted le x ys h a)

  All-sort_rows :
      (le : Object → Object → Bool) (rs : List Object) → All P rs → All P (sort_rows le rs)
  unfolding sort_rows
  All-sort_rows le [] a = tt
  All-sort_rows le (r ∷ rs) (h, a) =
      All-insert_sorted le r (sort_rows le rs) h (All-sort_rows le rs a)

  All-drop : (n : ℕ) (rs : List Object) → All P rs → All P (drop n rs)
  All-drop zero rs a = a
  All-drop (suc n) [] a = tt
  All-drop (suc n) (r ∷ rs) (h, a) = All-drop n rs a

  All-take : (n : ℕ) (rs : List Object) → All P rs → All P (take n rs)
  All-take zero rs a = tt
  All-take (suc n) [] a = tt
  All-take (suc n) (r ∷ rs) (h, a) = (h, All-take n rs a)

  All-page : (limit offset : ℤ) (rs : List Object) → All P rs → All P (page limit offset rs)
  unfolding page
  All-page limit offset rs a = elim (Bool-cases (ltb 0 (pos_part limit))) [
    | inl e ↦
        rw e
          (All-take (pos_part limit) (drop (pos_part offset) rs) (All-drop (pos_part offset) rs a))
    | inr e ↦ rw e (All-drop (pos_part offset) rs a)
  ]

  All-where_rows :
      (test : Object → Bool) (rs : List Object)
      → All P rs
      → All (λ r. P r × (test r ≡ true)) (where_rows test rs)
  unfolding where_rows
  All-where_rows test [] a = tt
  All-where_rows test (r ∷ rs) (h, a) = ground (arith, All-where_rows test rs a)

-- The object is one of the rows.
abbrev pub IsRow : List Object → Object → Type 0
IsRow [] o = ⊥
IsRow (r ∷ rs) o = (o ≡ r) ⊎ IsRow rs o

All-IsRow : (rs : List Object) → All (IsRow rs) rs
All-IsRow [] = tt
All-IsRow (r ∷ rs) = (inl refl, All-mono rs (λ x h. inr h) (All-IsRow rs))

length-insert_sorted :
    (le : Object → Object → Bool) (x : Object) (ys : List Object)
    → length (insert_sorted le x ys) ≡ suc (length ys)
unfolding insert_sorted
length-insert_sorted le x [] = refl
length-insert_sorted le x (y ∷ ys) = ground (arith, length-insert_sorted le x ys)

length-sort_rows :
    (le : Object → Object → Bool) (rs : List Object) → length (sort_rows le rs) ≡ length rs
unfolding sort_rows
length-sort_rows le [] = refl
length-sort_rows le (r ∷ rs) =
    ground (arith, length-insert_sorted le r (sort_rows le rs), length-sort_rows le rs)

length-drop : (n : ℕ) (rs : List Object) → length (drop n rs) ≡ length rs - n
length-drop zero rs = omega arith
length-drop (suc n) [] = omega arith
length-drop (suc n) (r ∷ rs) = length-drop n rs ∙ omega arith

abbrev pub at_most : ℕ → ℕ → ℕ
at_most limit n = if leb n limit then n else limit

length-take : (n : ℕ) (rs : List Object) → length (take n rs) ≡ at_most n (length rs)
length-take zero rs = ground arith
length-take (suc n) [] = ground arith
length-take (suc n) (r ∷ rs) = ground (arith, length-take n rs)

-- The number of items on a page, out of n.
abbrev pub page_length : ℤ → ℤ → ℕ → ℕ
page_length limit offset n =
    let rest = n - pos_part offset in
    if ltb 0 (pos_part limit) then at_most (pos_part limit) rest else rest

length-page :
    (limit offset : ℤ) (rs : List Object)
    → length (page limit offset rs) ≡ page_length limit offset (length rs)
unfolding page
length-page limit offset rs = ground (
  arith,
  length-drop (pos_part offset) rs,
  length-take (pos_part limit) (drop (pos_part offset) rs),
)

-- The numbers do not go down along the list.
abbrev pub IsAscending : List Object → Type 0
IsAscending [] = Unit
IsAscending (r ∷ rs) = All (λ s. r.id ≤ s.id) rs × IsAscending rs

by_number : Object → Object → Bool
by_number a b = leb a.id b.id

insert_sorted-IsAscending :
    (x : Object) (ys : List Object) → IsAscending ys → IsAscending (insert_sorted by_number x ys)
unfolding insert_sorted by_number
insert_sorted-IsAscending x [] a = (tt, tt)
insert_sorted-IsAscending x (y ∷ ys) (l, a) = elim (Bool-cases (leb x.id y.id)) [
  | inl e ↦ rw e ((ground arith, All-mono ys (λ s h. ground arith) l), (l, a))
  | inr e ↦ rw e (
    All-insert_sorted (λ s. y.id ≤ s.id) by_number x ys (ground arith) l,
    insert_sorted-IsAscending x ys a,
  )
]

sort_rows-IsAscending : (rs : List Object) → IsAscending (sort_rows by_number rs)
unfolding sort_rows
sort_rows-IsAscending [] = tt
sort_rows-IsAscending (r ∷ rs) =
    insert_sorted-IsAscending r (sort_rows by_number rs) (sort_rows-IsAscending rs)

drop-IsAscending : (n : ℕ) (rs : List Object) → IsAscending rs → IsAscending (drop n rs)
drop-IsAscending zero rs a = a
drop-IsAscending (suc n) [] a = tt
drop-IsAscending (suc n) (r ∷ rs) (l, a) = drop-IsAscending n rs a

take-IsAscending : (n : ℕ) (rs : List Object) → IsAscending rs → IsAscending (take n rs)
take-IsAscending zero rs a = tt
take-IsAscending (suc n) [] a = tt
take-IsAscending (suc n) (r ∷ rs) (l, a) =
    (All-take (λ s. r.id ≤ s.id) n rs l, take-IsAscending n rs a)

page-IsAscending :
    (limit offset : ℤ) (rs : List Object) → IsAscending rs → IsAscending (page limit offset rs)
unfolding page
page-IsAscending limit offset rs a = elim (Bool-cases (ltb 0 (pos_part limit))) [
  | inl e ↦ rw e (
      take-IsAscending (pos_part limit) (drop (pos_part offset) rs)
        (drop-IsAscending (pos_part offset) rs a))
  | inr e ↦ rw e (drop-IsAscending (pos_part offset) rs a)
]

-- The order that a sort asks for; only the order by number is stated.
abbrev pub IsInOrder : ObjectSort → List Object → Type 0
IsInOrder by_id rs = IsAscending rs
IsInOrder ObjectSort.by_public rs = Unit
IsInOrder ObjectSort.none rs = Unit

page_of : Db → Filter → List Object → List Object
page_of db f rows = page f.limit f.offset (sort_rows (before db.collate f.sort) rows)

drop_nil : (n : ℕ) → drop {A = Object} n [] ≡ []
drop_nil zero = refl
drop_nil (suc n) = refl

take_nil : (n : ℕ) → take {A = Object} n [] ≡ []
take_nil zero = refl
take_nil (suc n) = refl

respond-items :
    (db : Db) (f : Filter) (rows : List Object) → (respond db f rows).items ≡ page_of db f rows
unfolding respond page_of sort_rows page
respond-items db f [] = ground (arith, drop_nil (pos_part f.offset), take_nil (pos_part f.limit))
respond-items db f (r ∷ rs) = ground arith

page_of-IsInOrder :
    (db : Db) (f : Filter) (rows : List Object) → IsInOrder f.sort (page_of db f rows)
unfolding page_of
page_of-IsInOrder db f rows = by_sort f.sort
  where
    by_sort :
        (s : ObjectSort)
        → IsInOrder s (page f.limit f.offset (sort_rows (before db.collate s) rows))
    by_sort by_id =
        unfold before in
        page-IsAscending f.limit f.offset (sort_rows (before db.collate by_id) rows)
          (unfold by_number in sort_rows-IsAscending rows)
    by_sort ObjectSort.by_public = tt
    by_sort ObjectSort.none = tt

-- The number of rows that the conditions select.
status_test-public : (now : ℤ) (at : Option ℤ) → status_test now public at ≡ true → at ≡ none
unfolding status_test is_valid
status_test-public now none h = refl
status_test-public now (some t) h = cc

-- A search for public objects finds none that waits to be read.
pub selects-public :
    (now : ℤ) (f : Filter) (o : Object)
    → f.status ≡ public
    → selects now f o ≡ true
    → o.reindex_at ≡ none
unfolding selects
selects-public now f o p h = status_test-public now o.reindex_at (ground (arith, p, h))

abbrev pub selected_count : ℤ → Filter → List Object → ℕ
selected_count now f rows = length (where_rows (selects now f) rows)

respond-total :
    (db : Db) (f : Filter) (rows : List Object)
    → (respond db f rows).total_matches ≡ (if f.with_total_matches then length rows else 0)
unfolding respond
respond-total db f rows = ground arith

-- A search that is answered: every item is a row of the table that meets the filter's conditions; there are as many
-- items as the page holds of the selected rows; sorted by number they ascend; and the total, when it is asked for, is
-- the number of selected rows on all pages.
pub get_objects_exact :
    (db : Db) (t : Table) (f : Filter) (r : SearchResponse)
    → get_objects db t f ≡ some r
    → All (λ o. IsRow t.rows o × (selects db.now f o ≡ true)) r.items
      × (length r.items ≡ page_length f.limit f.offset (selected_count db.now f t.rows))
      × IsInOrder f.sort r.items
      × (r.total_matches ≡ (if f.with_total_matches then selected_count db.now f t.rows else 0))
unfolding get_objects
get_objects_exact db t f r h =
    let found = where_rows (selects db.now f) t.rows in
    let same : respond db f found ≡ r = ground arith in
    rw (sym same, respond-items db f found)
      (
        unfold page_of in
            All-page (λ o. IsRow t.rows o × (selects db.now f o ≡ true)) f.limit f.offset
              (sort_rows (before db.collate f.sort) found)
              (All-sort_rows (λ o. IsRow t.rows o × (selects db.now f o ≡ true))
                (before db.collate f.sort) found
                (All-where_rows (IsRow t.rows) (selects db.now f) t.rows (All-IsRow t.rows))),
        unfold page_of in
            length-page f.limit f.offset (sort_rows (before db.collate f.sort) found)
            ∙ ap (page_length f.limit f.offset) (length-sort_rows (before db.collate f.sort) found),
        page_of-IsInOrder db f found,
        respond-total db f found,
      )
