-- ===== src/Backend/Postgres/Parents.antt =====
-- `Children` and `ParentId` of dlna/backend/backend.go over the Postgres driver.
use godlna.Base.{
  ℕ, ◌<◌, Text, text_beq, text_beq_iff, dir_name, dir_name-join, List, [], ◌∷◌, none, some, Bool,
  true, if◌then◌else◌, ◌≡◌, refl, sym, ap, ◌∙◌, arith, inl, inr, All, All-mono, ℤ, pos, length,
  Option-cases,
}
use godlna.Backend.Object.{Object}
use godlna.Backend.Files.{has_text}
use godlna.Backend.Like.{under_parent, under_parent_iff, IsPlain, IsChild}
use godlna.Backend.Filter.{Filter, SearchResponse, ObjectSort}
use godlna.Backend.Table.{Table, has_path}
use godlna.Backend.Table.Rows.{DistinctPaths}
use godlna.Backend.Table.Numbers.{IsSound}
use godlna.Backend.Table.Query.{Db, selects, where_rows, get_objects}
use godlna.Backend.Table.Query.Selection.{get_objects_exact, IsRow, page_length, selected_count}
use godlna.Backend.Service.{
  ok, any_filter, first_item, get_one_object, children_filter, children, parent_number,
  is_single_root, parent_id,
}
use godlna.Backend.Postgres.{postgres}
use godlna.Backend.Postgres.Paging.{IsRow-IsGiven}

-- The search for the row of one path.
abbrev own_filter : Text → Filter
own_filter p = record any_filter { own_paths = p ∷ []; sort = ObjectSort.none; limit = pos 1 }

IsRow-has_path : (rs : List Object) (o : Object) → IsRow rs o → has_path o.path rs ≡ true
unfolding has_path
IsRow-has_path [] o i = absurd i
IsRow-has_path (r ∷ rs) o (inl e) = ground (arith, e, text_beq_iff r.path o.path)
IsRow-has_path (r ∷ rs) o (inr i) = ground (arith, IsRow-has_path rs o i)

-- Rows with one path are one row.
same_row :
    (rs : List Object) (a b : Object)
    → DistinctPaths rs
    → IsRow rs a
    → IsRow rs b
    → a.path ≡ b.path
    → a ≡ b
same_row [] a b d i j e = absurd i
same_row (r ∷ rs) a b (f, d) (inl i) (inl j) e = i ∙ sym j
same_row (r ∷ rs) a b (f, d) (inl i) (inr j) e =
    absurd (ground (arith, f, i, e, IsRow-has_path rs b j))
same_row (r ∷ rs) a b (f, d) (inr i) (inl j) e =
    absurd (ground (arith, f, j, e, IsRow-has_path rs a i))
same_row (r ∷ rs) a b (f, d) (inr i) (inr j) e = same_row rs a b d i j e

pub count_of_row :
    (test : Object → Bool) (rs : List Object) (o : Object)
    → IsRow rs o
    → test o ≡ true
    → 0 < length (where_rows test rs)
unfolding where_rows
count_of_row test [] o i h = absurd i
count_of_row test (r ∷ rs) o (inl e) h = ground (arith, e, h)
count_of_row test (r ∷ rs) o (inr i) h = ground (arith, count_of_row test rs o i h)

selects_own :
    (now : ℤ) (o : Object) → o.reindex_at ≡ none → selects now (own_filter o.path) o ≡ true
unfolding selects has_text
selects_own now o p = rw p (ground (arith, text_beq_iff o.path o.path, text_beq_iff [] []))

own_path : (now : ℤ) (p : Text) (x : Object) → selects now (own_filter p) x ≡ true → x.path ≡ p
unfolding selects has_text
own_path now p x h = ground (arith, h, text_beq_iff x.path p)

-- The only item of a response.
first-own :
    (now : ℤ) (rs : List Object) (o : Object) (n : ℕ) (items : List Object)
    → DistinctPaths rs
    → IsRow rs o
    → 0 < n
    → All (λ x. IsRow rs x × (selects now (own_filter o.path) x ≡ true)) items
    → length items ≡ page_length (pos 1) (pos 0) n
    → (more : List Object) × (items ≡ o ∷ more)
first-own now rs o n [] d i l a e = absurd (ground (arith, l, e))
first-own now rs o n (x ∷ xs) d i l ((j, h), a) e =
    (xs, ap (λ y. y ∷ xs) (same_row rs x o d j i (own_path now o.path x h)))

-- The search finds the row.
get_one_object-own :
    (db : Db) (t : Table) (o : Object)
    → db.up ≡ true
    → IsSound t
    → IsRow t.rows o
    → o.reindex_at ≡ none
    → get_one_object (postgres db) t (own_filter o.path) ≡ ok o
get_one_object-own db t o up s i p = elim (Option-cases (get_objects db t (own_filter o.path))) [
  | inl e ↦ absurd (unfold get_objects in ground (arith, up, e))
  | inr (r, e) ↦
      let facts = get_objects_exact db t (own_filter o.path) r e in
      let (more, same) =
        first-own db.now t.rows o (selected_count db.now (own_filter o.path) t.rows) r.items
          s.distinct i
          (count_of_row (selects db.now (own_filter o.path)) t.rows o i (selects_own db.now o p))
          facts.0 facts.1 in
      unfold get_one_object first_item postgres in rw (e, same) refl
]

pub selects-child :
    (now : ℤ) (o x : Object) (limit offset : ℤ) (c : ℕ) (rest : Text)
    → o.path ≡ c ∷ rest
    → selects now (children_filter o limit offset) x ≡ true
    → under_parent o.path x.path ≡ true
unfolding selects
selects-child now o x limit offset c rest e h = ground (arith, h, e, text_beq_iff o.path [])

dir_name-child :
    (parent p : Text) (c : ℕ) (rest : Text)
    → parent ≡ c ∷ rest
    → IsChild parent p
    → dir_name p ≡ parent
dir_name-child parent p c rest e (name, f, l) = rw (f, e) (dir_name-join c rest name l)

parent_id-own :
    (db : Db) (t : Table) (root : Text) (x o : Object)
    → 0 < x.id
    → get_one_object (postgres db) t (own_filter (dir_name x.path)) ≡ ok o
    → parent_id (postgres db) (root ∷ []) t x
      ≡ ok (if text_beq o.path root then pos 0 else pos o.id)
unfolding parent_id
parent_id-own db t root x o n h = unfold parent_number is_single_root in ground (arith, h)

pub children-get_objects :
    (db : Db) (t : Table) (root : Text) (o : Object) (limit offset : ℤ)
    → 0 < o.id
    → children (postgres db) (root ∷ []) t o limit offset
      ≡ get_objects db t (children_filter o limit offset)
unfolding children postgres
children-get_objects db t root o limit offset n = ground arith

-- In a library with one root: what Children gives for a folder, whose path holds no percent sign, underscore or
-- backslash, on a well-formed table and a database that answers, are objects whose ParentId is that folder again, or 0
-- if the folder is the root.
pub children-parent_id :
    (db : Db) (t : Table) (root : Text) (o : Object) (c : ℕ) (rest : Text) (limit offset : ℤ)
    (r : SearchResponse)
    → db.up ≡ true
    → IsSound t
    → IsRow t.rows o
    → o.reindex_at ≡ none
    → o.path ≡ c ∷ rest
    → IsPlain o.path
    → children (postgres db) (root ∷ []) t o limit offset ≡ some r
    → All
        (λ x.
          parent_id (postgres db) (root ∷ []) t x
          ≡ ok (if text_beq o.path root then pos 0 else pos o.id))
        r.items
children-parent_id db t root o c rest limit offset r up s i p e plain h =
    All-mono r.items
      (λ x k.
        let child =
          (under_parent_iff o.path x.path plain).0
            (selects-child db.now o x limit offset c rest e k.1) in
        parent_id-own db t root x o (IsRow-IsGiven t.next_id t.rows x s.numbered.1 k.0).0
          (rw (dir_name-child o.path x.path c rest e child) (get_one_object-own db t o up s i p)))
      (get_objects_exact db t (children_filter o limit offset) r (
        sym (
          children-get_objects db t root o limit offset
            (IsRow-IsGiven t.next_id t.rows o s.numbered.1 i).0)
        ∙ h)).0
