-- ===== src/Backend/Table/Rescan.antt =====
-- A full scan: `AllObjectsToOffline` when the walk starts, `Index` for each file and folder found, and
-- `DeleteOfflineObjects` when the walk is complete (dlna/backend/backend.go and db_driver_postgres.go).
use godlna.Base.{
  ℕ, Text, text_beq, List, [], ◌∷◌, Option, none, some, Bool, true, false, ◌||◌, ◌≡◌, refl, ap, ◌∙◌,
  ℤ, pos, arith, ◌⊎◌, inl, inr, Bool-cases, ◌+ℤ◌,
}
use godlna.Backend.Object.{Object, ObjectType, folder, video}
use godlna.Backend.Table.{
  Table, new_row, upsert, index_add, all_objects_to_offline, delete_offline_objects, ten_seconds,
}
use godlna.Backend.Table.Rows.{
  find_row, merged, offline, if_online, find_row-upsert, find_row-offline,
  find_row-delete_offline_objects,
}
use godlna.Backend.Table.Distinct.{
  IsDistinct, index_add-IsDistinct, offline-IsDistinct, delete_offline-IsDistinct,
}

-- One Index event: when it is handled, whether the name is a folder, and the name.
pub record Seen : Type 0 where
  pub at : ℤ
  pub is_dir : Bool
  pub name : Text

unfoldable pub index_all : Table → List Seen → Table
index_all t [] = t
index_all t (e ∷ es) = index_all (index_add e.at t e.is_dir e.name) es

unfoldable pub rescan : Table → List Seen → Table
unfolding index_all
rescan t seen = delete_offline_objects (index_all (all_objects_to_offline t) seen)

abbrev pub was_seen : Text → List Seen → Bool
was_seen p [] = false
was_seen p (e ∷ es) = text_beq e.name p || was_seen p es

-- A scan touches three columns only; a new row starts without bookmark and duration.
abbrev pub KeepsMetadata : Option Object → Object → Type 0
KeepsMetadata none r = (r.bookmark ≡ none) × (r.duration ≡ pos 0)
KeepsMetadata (some old) r =
    r ≡ record old { typ = r.typ; online = r.online; reindex_at = r.reindex_at }

abbrev pub IsIndexed : Option Object → Option Object → Type 0
IsIndexed before after =
    (r : Object) × (after ≡ some r) × (r.online ≡ true) × KeepsMetadata before r

merged-Keeps :
    (id : ℕ) (p : Text) (typ : ObjectType) (at : Option ℤ) (o : Option Object)
    → ((merged id p typ at o).online ≡ true) × KeepsMetadata o (merged id p typ at o)
unfolding new_row
merged-Keeps id p typ at none = (refl, (refl, refl))
merged-Keeps id p typ at (some r) = (refl, refl)

Keeps-trans :
    (o : Option Object) (r s : Object)
    → KeepsMetadata o r
    → KeepsMetadata (some r) s
    → KeepsMetadata o s
Keeps-trans none r s h k = (ap (λ y. y.bookmark) k ∙ h.0, ap (λ y. y.duration) k ∙ h.1)
Keeps-trans (some old) r s h k =
    k
    ∙ ap {A = Object} {B = Object}
        (λ y. record y { typ = s.typ; online = s.online; reindex_at = s.reindex_at }) h

upsert-IsIndexed :
    (t : Table) (p : Text) (typ : ObjectType) (at : Option ℤ) (q : Text)
    → text_beq p q ≡ true
    → IsIndexed (find_row q t.rows) (find_row q (upsert t p typ at).rows)
upsert-IsIndexed t p typ at q h =
    let (on, kept) = merged-Keeps t.next_id p typ at (find_row q t.rows) in
    (
      merged t.next_id p typ at (find_row q t.rows),
      find_row-upsert t p typ at q ∙ rw h refl,
      on,
      kept,
    )

index_add_same :
    (now : ℤ) (t : Table) (is_dir : Bool) (p q : Text)
    → text_beq p q ≡ true
    → IsIndexed (find_row q t.rows) (find_row q (index_add now t is_dir p).rows)
unfolding index_add
index_add_same now t true p q h = upsert-IsIndexed t p folder none q h
index_add_same now t false p q h = upsert-IsIndexed t p video (some (now +ℤ ten_seconds)) q h

index_add_other :
    (now : ℤ) (t : Table) (is_dir : Bool) (p q : Text)
    → text_beq p q ≡ false
    → find_row q (index_add now t is_dir p).rows ≡ find_row q t.rows
unfolding index_add
index_add_other now t true p q h = find_row-upsert t p folder none q ∙ rw h refl
index_add_other now t false p q h =
    find_row-upsert t p video (some (now +ℤ ten_seconds)) q ∙ rw h refl

index_all_unseen :
    (t : Table) (seen : List Seen) (q : Text)
    → was_seen q seen ≡ false
    → find_row q (index_all t seen).rows ≡ find_row q t.rows
unfolding index_all
index_all_unseen t [] q h = refl
index_all_unseen t (e ∷ es) q h =
    index_all_unseen (index_add e.at t e.is_dir e.name) es q (ground arith)
    ∙ index_add_other e.at t e.is_dir e.name q (ground arith)

after_first :
    (before mid after : Option Object)
    → ((mid ≡ before) ⊎ IsIndexed before mid)
    → IsIndexed mid after
    → IsIndexed before after
after_first before mid after (inl e) h = rw (← e) h
after_first before mid after (inr (r, e, on, k)) h = chain (rw e at h)
  where
    chain : IsIndexed (some r) after → IsIndexed before after
    chain (s, f, on', k') = (s, f, on', Keeps-trans before r s k k')

index_all_seen :
    (t : Table) (seen : List Seen) (q : Text)
    → was_seen q seen ≡ true
    → IsIndexed (find_row q t.rows) (find_row q (index_all t seen).rows)
unfolding index_all
index_all_seen t [] q h = absurd (ground arith)
index_all_seen t (e ∷ es) q h = elim (Bool-cases (was_seen q es)) [
  | inl later ↦
      after_first (find_row q t.rows) (find_row q (index_add e.at t e.is_dir e.name).rows) _
        (elim (Bool-cases (text_beq e.name q)) [
          | inl same ↦ inr (index_add_same e.at t e.is_dir e.name q same)
          | inr other ↦ inl (index_add_other e.at t e.is_dir e.name q other)
        ])
        (index_all_seen (index_add e.at t e.is_dir e.name) es q later)
  | inr last ↦
      rw (index_all_unseen (index_add e.at t e.is_dir e.name) es q last)
        (index_add_same e.at t e.is_dir e.name q (ground arith))
]

index_all-IsDistinct : (t : Table) (seen : List Seen) → IsDistinct t → IsDistinct (index_all t seen)
unfolding index_all
index_all-IsDistinct t [] d = d
index_all-IsDistinct t (e ∷ es) d =
    index_all-IsDistinct (index_add e.at t e.is_dir e.name) es
      (index_add-IsDistinct e.at t e.is_dir e.name d)

Keeps-offline : (o : Option Object) (r : Object) → KeepsMetadata (offline o) r → KeepsMetadata o r
Keeps-offline none r k = k
Keeps-offline (some old) r k = k

if_online-offline : (o : Option Object) → if_online (offline o) ≡ none
if_online-offline none = refl
if_online-offline (some r) = refl

-- What a scan leaves of a row, by whether its name was found.
abbrev pub IsScanned : Bool → Option Object → Option Object → Type 0
IsScanned false before after = after ≡ none
IsScanned true before after = IsIndexed before after

-- A full scan on a table with distinct paths leaves a row for exactly the names that were found: a name that was
-- found has an online row, which differs from the row that it had before at most in its type, the online flag and
-- the mark for the indexer, or starts without bookmark and duration; a name that was not found has no row; and the
-- paths stay distinct.
pub rescan_exact :
    (t : Table) (seen : List Seen) (q : Text)
    → IsDistinct t
    → IsDistinct (rescan t seen)
      × IsScanned (was_seen q seen) (find_row q t.rows) (find_row q (rescan t seen).rows)
unfolding rescan
rescan_exact t seen q d = (
  delete_offline-IsDistinct _ distinct,
  elim (Bool-cases (was_seen q seen)) [ inl h ↦ rw h (here h) | inr h ↦ rw h (gone h) ],
)
  where
    start : Table
    start = all_objects_to_offline t

    distinct : IsDistinct (index_all start seen)
    distinct = index_all-IsDistinct start seen (offline-IsDistinct t d)

    off : find_row q start.rows ≡ offline (find_row q t.rows)
    off = unfold all_objects_to_offline in find_row-offline q t.rows

    gone :
        was_seen q seen ≡ false
        → find_row q (delete_offline_objects (index_all start seen)).rows ≡ none
    gone h =
        find_row-delete_offline_objects q (index_all start seen) distinct
        ∙ ap if_online (index_all_unseen start seen q h ∙ off)
        ∙ if_online-offline (find_row q t.rows)

    here :
        was_seen q seen ≡ true
        → IsIndexed
            (find_row q t.rows)
            (find_row q (delete_offline_objects (index_all start seen)).rows)
    here h =
        let (r, e, on, k) = index_all_seen start seen q h in
        (
          r,
          find_row-delete_offline_objects q (index_all start seen) distinct ∙ rw (e, on) refl,
          on,
          Keeps-offline (find_row q t.rows) r (rw off at k),
        )
