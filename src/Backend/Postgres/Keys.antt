-- ===== src/Backend/Postgres/Keys.antt =====
-- The search of dlna/backend/backend.go for one object by its number, over the Postgres driver.
use godlna.Base.{
  ℕ, ◌<◌, List, [], ◌∷◌, true, none, ◌≡◌, refl, ap, arith, inl, inr, All, ℤ, pos, length,
  Option-cases, text_beq_iff,
}
use godlna.Backend.Object.{Object}
use godlna.Backend.Files.{has_text}
use godlna.Backend.Table.{Table}
use godlna.Backend.Table.Query.{Db, selects, get_objects}
use godlna.Backend.Table.Query.Selection.{get_objects_exact, IsRow, page_length, selected_count}
use godlna.Backend.Service.{ok, by_number, first_item, get_one_object}
use godlna.Backend.Postgres.{postgres}
use godlna.Backend.Postgres.Parents.{count_of_row}

-- The number is a key of the table.
abbrev pub IsKeyed : List Object → Type 0
IsKeyed rs = (a b : Object) → IsRow rs a → IsRow rs b → a.id ≡ b.id → a ≡ b

selects_number :
    (now : ℤ) (o : Object) → o.reindex_at ≡ none → selects now (by_number o.id) o ≡ true
unfolding selects has_text
selects_number now o p = rw p (ground (arith, text_beq_iff [] []))

own_number : (now : ℤ) (n : ℕ) (x : Object) → 0 < n → selects now (by_number n) x ≡ true → x.id ≡ n
unfolding selects has_text
own_number now n x g h = ground (arith, h, g)

first_keyed :
    (now : ℤ) (rs : List Object) (o : Object) (n : ℕ) (items : List Object)
    → IsKeyed rs
    → IsRow rs o
    → 0 < o.id
    → 0 < n
    → All (λ x. IsRow rs x × (selects now (by_number o.id) x ≡ true)) items
    → length items ≡ page_length (pos 0) (pos 0) n
    → (more : List Object) × (items ≡ o ∷ more)
first_keyed now rs o n [] k i g l a e = absurd (ground (arith, l, e))
first_keyed now rs o n (x ∷ xs) k i g l ((j, h), a) e =
    (xs, ap (λ y. y ∷ xs) (k x o j i (own_number now o.id x g h)))

-- The search by number finds the row, if it waits for no reading.
pub object-row :
    (db : Db) (t : Table) (o : Object)
    → db.up ≡ true
    → IsKeyed t.rows
    → IsRow t.rows o
    → 0 < o.id
    → o.reindex_at ≡ none
    → get_one_object (postgres db) t (by_number o.id) ≡ ok o
object-row db t o up k i g p = elim (Option-cases (get_objects db t (by_number o.id))) [
  | inl e ↦ absurd (unfold get_objects in ground (arith, up, e))
  | inr (r, e) ↦
      let facts = get_objects_exact db t (by_number o.id) r e in
      let (more, same) =
        first_keyed db.now t.rows o (selected_count db.now (by_number o.id) t.rows) r.items k i g
          (count_of_row (selects db.now (by_number o.id)) t.rows o i (selects_number db.now o p))
          facts.0 facts.1 in
      unfold get_one_object first_item postgres in rw (e, same) refl
]
