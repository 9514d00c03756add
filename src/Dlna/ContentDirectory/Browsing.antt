-- ===== src/Dlna/ContentDirectory/Browsing.antt =====
-- Browse of dlna/content_directory_controller.go on the Postgres driver: the two flags agree.
use godlna.Base.{
  ℕ, ◌<◌, Text, codes, text_beq, List, [], ◌∷◌, ◌++◌, none, some, true, false, if◌then◌else◌, ◌≡◌,
  refl, sym, ap, ◌∙◌, arith, All, All-zip, All-map, length-map, ℤ, pos, length, map, Option-cases,
  inl, inr, zero, suc,
}
use mathlib.Core.List.{append-nil, append_assoc}
use godlna.Backend.Object.{Object}
use godlna.Backend.Like.{IsPlain}
use godlna.Backend.Filter.{SearchResponse}
use godlna.Backend.Table.{Table}
use godlna.Backend.Table.Numbers.{IsSound}
use godlna.Backend.Table.Query.{Db, get_objects}
use godlna.Backend.Table.Query.Selection.{
  get_objects_exact, selects-public, IsRow, page_length, selected_count,
}
use godlna.Backend.Service.{
  ok, object, children, children_filter, parent_id, get_one_object, by_number,
}
use godlna.Backend.Postgres.{postgres}
use godlna.Backend.Postgres.Parents.{children-parent_id, children-get_objects}
use godlna.Backend.Postgres.Paging.{IsRow-IsGiven}
use godlna.Backend.Postgres.Keys.{IsKeyed, object-row}
use godlna.Soap.Didl.{Entry, DidlLite, append}
use godlna.Dlna.Entries.{Request, upnpav_obj}
use godlna.Dlna.ContentDirectory.{
  Env, decoded, BrowseArgs, found, browse_direct_children, browse_metadata, by_flag, browse_object,
  browse, append_children, empty_didl,
}

abbrev pub entries : Env → ℤ → Request → List Object → List Entry
entries env parent r = map (λ o. upnpav_obj env.format_date o parent r)

-- The loop appends one entry for each object.
append_children-entries :
    (env : Env) (parent : ℤ) (r : Request) (v : DidlLite) (os : List Object)
    → append_children env parent r v os ≡ record v { items = v.items ++ entries env parent r os }
unfolding append_children append
append_children-entries env parent r v [] = rw append-nil refl
append_children-entries env parent r v (o ∷ os) =
    append_children-entries env parent r (append v (upnpav_obj env.format_date o parent r)) os
    ∙ unfold append in rw append_assoc refl

abbrev pub children_args : ℕ → ℤ → ℤ → BrowseArgs
children_args id count start = record {
  object_id = pos id;
  browse_flag = codes "BrowseDirectChildren";
  starting_index = start;
  requested_count = count;
}

abbrev pub metadata_args : ℤ → BrowseArgs
metadata_args id = record {
  object_id = id;
  browse_flag = codes "BrowseMetadata";
  starting_index = pos 0;
  requested_count = pos 0;
}

children-found :
    (db : Db) (env : Env) (t : Table) (root : Text) (r : Request) (o : Object) (count start : ℤ)
    (res : SearchResponse)
    → env.roots ≡ root ∷ []
    → object (postgres db) t (pos o.id) ≡ ok o
    → children (postgres db) (root ∷ []) t o count start ≡ some res
    → browse (postgres db) env t r (decoded (children_args o.id count start))
      ≡ found
          (record (empty_didl r) { items = entries env (pos o.id) r res.items })
          res.total_matches
unfolding browse
children-found db env t root r o count start res roots own h =
    unfold browse_object in
    rw own (
      unfold by_flag text_beq in
      rw (roots, h)
        (unfold browse_direct_children in
          ap (λ v. found v res.total_matches)
            (append_children-entries env (pos o.id) r (empty_didl r) res.items)))

metadata_found :
    (db : Db) (env : Env) (t : Table) (root : Text) (r : Request) (x : Object) (parent : ℤ)
    → env.roots ≡ root ∷ []
    → object (postgres db) t (pos x.id) ≡ ok x
    → parent_id (postgres db) (root ∷ []) t x ≡ ok parent
    → browse (postgres db) env t r (decoded (metadata_args (pos x.id)))
      ≡ found (record (empty_didl r) { items = upnpav_obj env.format_date x parent r ∷ [] }) 1
unfolding browse
metadata_found db env t root r x parent roots own h =
    unfold browse_object in
    rw own (unfold by_flag text_beq in rw (roots, h) (unfold browse_metadata append in refl))

object-number :
    (db : Db) (t : Table) (o : Object)
    → 0 < o.id
    → get_one_object (postgres db) t (by_number o.id) ≡ ok o
    → object (postgres db) t (pos o.id) ≡ ok o
object-number db t o g h = positive o.id refl
  where
    positive : (n : ℕ) → o.id ≡ n → object (postgres db) t (pos n) ≡ ok o
    positive zero e = absurd (omega (arith, e, g))
    positive (suc n) e = unfold object in rw (sym e) h

-- In a library with one root, on a database that answers and a well-formed table whose numbers are a key: for a folder
-- other than the root, whose path holds no percent sign, underscore or backslash and which is not to be read again,
-- BrowseDirectChildren answers with the page of its children that was asked for and their number as the total; and
-- each of its entries is exactly the entry that BrowseMetadata answers for a number.
pub browse_metadata-children :
    (db : Db) (env : Env) (t : Table) (root : Text) (r : Request) (o : Object) (c : ℕ) (rest : Text)
    (count start : ℤ)
    → env.roots ≡ root ∷ []
    → db.up ≡ true
    → IsSound t
    → IsKeyed t.rows
    → IsRow t.rows o
    → o.reindex_at ≡ none
    → o.path ≡ c ∷ rest
    → text_beq o.path root ≡ false
    → IsPlain o.path
    → (v : DidlLite) × (total : ℕ) × (browse
          (postgres db)
          env
          t
          r
          (decoded (children_args o.id count start))
        ≡ found v total)
      × (total ≡ selected_count db.now (children_filter o count start) t.rows)
      × (length v.items ≡ page_length count start total)
      × All
          (λ e.
            (id : ℤ) × (browse (postgres db) env t r (decoded (metadata_args id))
              ≡ found (record (empty_didl r) { items = e ∷ [] }) 1))
          v.items
browse_metadata-children db env t root r o c rest count start roots up s k i p e n plain =
    let f = children_filter o count start in
    let given = IsRow-IsGiven t.next_id t.rows o s.numbered.1 i in
    let own = λ (x : Object) (j : IsRow t.rows x) (q : x.reindex_at ≡ none).
      object-number db t x (IsRow-IsGiven t.next_id t.rows x s.numbered.1 j).0
        (object-row db t x up k j (IsRow-IsGiven t.next_id t.rows x s.numbered.1 j).0 q) in
    elim (Option-cases (get_objects db t f)) [
      | inl x ↦ absurd (unfold get_objects in ground (arith, up, x))
      | inr (res, h) ↦
          let listed = children-get_objects db t root o count start given.0 ∙ h in
          let facts = get_objects_exact db t f res h in
          (
            record (empty_didl r) { items = entries env (pos o.id) r res.items },
            res.total_matches,
            children-found db env t root r o count start res roots (own o i p) listed,
            facts.3,
            length-map (λ x. upnpav_obj env.format_date x (pos o.id) r) res.items
                ∙ facts.1
                ∙ ap (page_length count start) (sym facts.3),
            All-map _ (λ x. upnpav_obj env.format_date x (pos o.id) r) res.items
                (All-zip res.items
                  (λ x j q. (
                    pos x.id,
                    metadata_found db env t root r x (pos o.id) roots
                        (own x j.0 (selects-public db.now f x refl j.1))
                        (q ∙ ap (λ b. ok (if b then pos 0 else pos o.id)) n),
                  ))
                  facts.0
                  (children-parent_id db t root o c rest count start res up s i p e plain listed)),
          )
    ]
