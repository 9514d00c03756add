-- ===== src/Backend/Examples/Queries.antt =====
-- The searches and updates of dlna/backend at the library with a folder and a film.
use godlna.Base.{
  ℕ, suc, negsuc, [], ◌∷◌, none, some, true, false, ◌≡◌, ◌⊎◌, refl, arith, pos, All, length,
  text_beq, if◌then◌else◌,
}
use godlna.Backend.Object.{Object, option_beq}
use godlna.Backend.Filter.{Filter, SearchResponse, DatabaseDriver}
use godlna.Backend.Table.{Table}
use godlna.Backend.Table.Query.{selects, get_objects, where_rows}
use godlna.Backend.Table.Query.Selection.{
  get_objects_exact, IsRow, page_length, selected_count, IsInOrder,
}
use godlna.Backend.Table.Update.{
  update_object, find_id, indexed, update_object_exact, update_object_loses_mark,
}
use godlna.Backend.Service.{World, get_one_object, ok, by_number, set_bookmark, thumbnail_error}
use godlna.Backend.Service.Bookmarks.{IsSaved, set_bookmark_success, set_bookmark_unsaved}
use godlna.Backend.Service.Reindexer.{chunk_filter}
use godlna.Backend.Table.Numbers.{IsSound}
use godlna.Backend.Table.{has_path}
use godlna.Backend.Examples.{films, film, library, info, media, db_at}

abbrev waiting : Filter
waiting = record (chunk_filter 0) { limit = pos 100 }

abbrev answer : SearchResponse
answer = record { items = film ∷ []; total_matches = 0 }

get_objects_exact_example :
    All (λ o. IsRow library.rows o × (selects (pos 9) waiting o ≡ true)) answer.items
    × (length answer.items
        ≡ page_length waiting.limit waiting.offset (selected_count (pos 9) waiting library.rows))
    × IsInOrder waiting.sort answer.items
    × (answer.total_matches
        ≡ (if waiting.with_total_matches then selected_count (pos 9) waiting library.rows else 0))
unfolding get_objects where_rows selects text_beq
get_objects_exact_example = get_objects_exact (db_at (pos 9)) library waiting answer refl

update_object_exact_example :
    (t' : Table) × (update_object true library film (some info) (some none)
      ≡ (indexed info none film, some t'))
    × (find_id 2 t'.rows ≡ some (indexed info none film))
    × ((films.id ≡ film.id) ⊎ (find_id 1 t'.rows ≡ find_id 1 library.rows))
update_object_exact_example =
    update_object_exact library film info none 1 (unfold find_id in refl) (λ e. omega (arith, e))

update_object_loses_mark_example :
    (t' : Table) × (row' : Object) × ((update_object true library
        (record film { reindex_at = some (pos 1) })
        (some info)
        (some none)).1
      ≡ some t')
    × (find_id 2 t'.rows ≡ some row')
    × (row'.reindex_at ≡ none)
update_object_loses_mark_example =
    update_object_loses_mark library (record film { reindex_at = some (pos 1) }) film info none
      (pos 1) (λ e. omega (arith, e)) refl (unfold find_id in refl)

-- A database that holds the film without a bookmark, and then with one.
abbrev pub keeper : DatabaseDriver Object
keeper = record {
  get_objects = λ s f. some (record { items = s ∷ []; total_matches = 0 });
  update_object = λ s o v b.
      (record film { bookmark = some (pos 30) }, some (record film { bookmark = some (pos 30) }));
  all_to_offline = λ s. some s;
  delete_offline = λ s. some s;
  index = λ s is_dir p. some s;
  remove = λ s is_dir p. some s;
  rename = λ s is_dir old new. some s;
}

abbrev before : World Object Unit
before = record { store = film; files = tt }

set_bookmark_success_example :
    ((n : ℕ) × (pos 30 ≡ negsuc n)
      × (set_bookmark keeper (media true) before (pos 2) (pos 30) ≡ (before, none)))
    ⊎ ((n : ℕ) × (b : ℕ) × (pos 2 ≡ pos (suc n))
        × (pos 30 ≡ pos b)
        × (o : Object) × (get_one_object keeper film (by_number (suc n)) ≡ ok o)
        × (((o.bookmark ≡ some (pos b))
              × (set_bookmark keeper (media true) before (pos 2) (pos 30)).0 ≡ before)
            ⊎ ((o' : Object) × (s : Object) × IsSaved keeper (media true) before n b o o' s
                × ((set_bookmark keeper (media true) before (pos 2) (pos 30)).0.store ≡ s))))
unfolding set_bookmark option_beq
set_bookmark_success_example = set_bookmark_success keeper (media true) before (pos 2) (pos 30) refl

set_bookmark_unsaved_example :
    let failed =
      set_bookmark keeper (media false) (record { store = film; files = tt }) (pos 2) (pos 30) in
    (failed ≡ (
      record { store = record film { bookmark = some (pos 30) }; files = tt },
      some thumbnail_error,
    ))
    × (set_bookmark keeper (media false) failed.0 (pos 2) (pos 30) ≡ (failed.0, none))
unfolding get_one_object
set_bookmark_unsaved_example =
    set_bookmark_unsaved keeper (media false) (record { store = film; files = tt }) 1 30 film
      (record film { bookmark = some (pos 30) }) (record film { bookmark = some (pos 30) }) refl
      (λ e. cc) refl refl refl refl

abbrev shown : Object
shown = record film { reindex_at = none }

abbrev shelf : Table
shelf = record { rows = films ∷ shown ∷ []; next_id = 3 }

shelf-IsSound : IsSound shelf
unfolding has_path text_beq
shelf-IsSound = record {
  distinct = (refl, (refl, tt));
  numbered = (omega arith, ((omega arith, omega arith), ((omega arith, omega arith), tt)));
}

abbrev folder_answer : SearchResponse
folder_answer = record { items = shown ∷ []; total_matches = 1 }
