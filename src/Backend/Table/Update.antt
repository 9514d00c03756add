-- ===== src/Backend/Table/Update.antt =====
-- `UpdateObject` of dlna/backend/db_driver_postgres.go: the columns in which the new data differs
-- from the object that was read are set, in the row with its number.
use godlna.Base.{
  ℕ, Text, text_beq, text_beq_iff, List, [], ◌∷◌, Option, none, some, Bool, true, false, ◌||◌, not,
  if◌then◌else◌, ◌≡◌, ◌≢◌, refl, sym, ap, ◌∙◌, arith, nat_beq, nat_beq_iff, ℤ, ◌⊎◌, inl, inr,
  Bool-cases,
}
use godlna.Backend.Object.{Object, VideoInfo, int_beq, option_beq, int_beq_iff, option_beq_iff}
use godlna.Backend.Table.{Table}

set_text : Text → Text → Text → Text
set_text new read stored = if text_beq new read then stored else new

set_int : ℤ → ℤ → ℤ → ℤ
set_int new read stored = if int_beq new read then stored else new

cleared : Option ℤ → Option ℤ → Option ℤ
cleared none stored = stored
cleared (some t) stored = none

-- The assignments of video data, for the object that was read and the stored row.
set_info : Option VideoInfo → Object → Object → Object
set_info none o row = row
set_info (some v) o row = record row {
  format = set_text v.format o.format row.format;
  file_size = set_int v.file_size o.file_size row.file_size;
  video_codec = set_text v.video_codec o.video_codec row.video_codec;
  audio_codec = set_text v.audio_codec o.audio_codec row.audio_codec;
  width = set_int v.width o.width row.width;
  height = set_int v.height o.height row.height;
  channels = set_int v.channels o.channels row.channels;
  bitrate = set_int v.bitrate o.bitrate row.bitrate;
  frequency = set_int v.frequency o.frequency row.frequency;
  duration = set_int v.duration o.duration row.duration;
  date = set_int v.date o.date row.date;
  reindex_at = cleared o.reindex_at row.reindex_at;
}

set_bookmark : Option (Option ℤ) → Object → Object → Object
set_bookmark none o row = row
set_bookmark (some b) o row = if option_beq o.bookmark b then row else record row { bookmark = b }

unfoldable pub set_columns : Option VideoInfo → Option (Option ℤ) → Object → Object → Object
unfolding set_info set_bookmark set_text set_int cleared
set_columns v b o row = set_bookmark b o (set_info v o row)

-- Whether the list of assignments is empty.
info_changes : Option VideoInfo → Object → Bool
info_changes none o = false
info_changes (some v) o =
    not (text_beq v.format o.format)
    || (not (int_beq v.file_size o.file_size)
        || (not (text_beq v.video_codec o.video_codec)
            || (not (text_beq v.audio_codec o.audio_codec)
                || (not (int_beq v.width o.width)
                    || (not (int_beq v.height o.height)
                        || (not (int_beq v.channels o.channels)
                            || (not (int_beq v.bitrate o.bitrate)
                                || (not (int_beq v.frequency o.frequency)
                                    || (not (int_beq v.duration o.duration)
                                        || (not (int_beq v.date o.date)
                                            || not (option_beq o.reindex_at none)))))))))))

bookmark_changes : Option (Option ℤ) → Object → Bool
bookmark_changes none o = false
bookmark_changes (some b) o = not (option_beq o.bookmark b)

unfoldable pub update_rows : (Object → Object) → ℕ → List Object → List Object
update_rows f id [] = []
update_rows f id (r ∷ rs) =
    if nat_beq r.id id then f r ∷ update_rows f id rs else r ∷ update_rows f id rs

-- The object as the call leaves it, and the table or the error. The INT columns are taken as wide enough.
unfoldable pub update_object :
    Bool → Table → Object → Option VideoInfo → Option (Option ℤ) → Object × Option Table
unfolding info_changes bookmark_changes
update_object up t o v b =
    let o' = set_columns v b o o in
    let stored : Option Table =
      if up then some (record t { rows = update_rows (set_columns v b o) o.id t.rows }) else none in
    if nat_beq o.id 0
    then (o, none)
    else if info_changes v o || bookmark_changes b o
    then (o', stored)
    else (o, some t)

unfoldable pub find_id : ℕ → List Object → Option Object
find_id id [] = none
find_id id (r ∷ rs) = if nat_beq r.id id then some r else find_id id rs

abbrev mapped : (Object → Object) → Option Object → Option Object
mapped f none = none
mapped f (some r) = some (f r)

-- The object with all the video data and the bookmark taken over, and no longer waiting.
abbrev pub indexed : VideoInfo → Option ℤ → Object → Object
indexed v b o = record o {
  format = v.format;
  file_size = v.file_size;
  video_codec = v.video_codec;
  audio_codec = v.audio_codec;
  width = v.width;
  height = v.height;
  channels = v.channels;
  bitrate = v.bitrate;
  frequency = v.frequency;
  duration = v.duration;
  bookmark = b;
  date = v.date;
  reindex_at = none;
}

set_text_same : (new read : Text) → set_text new read read ≡ new
unfolding set_text
set_text_same new read = ground (arith, text_beq_iff new read)

set_int_same : (new read : ℤ) → set_int new read read ≡ new
unfolding set_int
set_int_same new read = ground (arith, int_beq_iff new read)

cleared_same : (at : Option ℤ) → cleared at at ≡ none
unfolding cleared
cleared_same none = refl
cleared_same (some t) = refl

set_bookmark_same :
    (b : Option ℤ) (o row : Object)
    → o.bookmark ≡ row.bookmark
    → set_bookmark (some b) o row ≡ record row { bookmark = b }
unfolding set_bookmark
set_bookmark_same b o row e = ground (arith, option_beq_iff o.bookmark b)

set_info_same : (v : VideoInfo) (o : Object) → set_info (some v) o o ≡ indexed v o.bookmark o
unfolding set_info
set_info_same v o = cc (
  set_text_same v.format o.format,
  set_int_same v.file_size o.file_size,
  set_text_same v.video_codec o.video_codec,
  set_text_same v.audio_codec o.audio_codec,
  set_int_same v.width o.width,
  set_int_same v.height o.height,
  set_int_same v.channels o.channels,
  set_int_same v.bitrate o.bitrate,
  set_int_same v.frequency o.frequency,
  set_int_same v.duration o.duration,
  set_int_same v.date o.date,
  cleared_same o.reindex_at,
)

columns-indexed :
    (v : VideoInfo) (b : Option ℤ) (o : Object)
    → set_bookmark (some b) o (set_info (some v) o o) ≡ indexed v b o
columns-indexed v b o = rw (set_info_same v o) (set_bookmark_same b o (indexed v o.bookmark o) refl)

-- Without a change there is nothing to assign: the row would stay as it is.
set_info_idle :
    (v : VideoInfo) (o row : Object)
    → info_changes (some v) o ≡ false
    → set_info (some v) o row ≡ row
unfolding info_changes set_info set_text set_int cleared
set_info_idle v o row h = ground (arith, option_beq_iff o.reindex_at none)

set_bookmark_idle :
    (b : Option ℤ) (o row : Object)
    → bookmark_changes (some b) o ≡ false
    → set_bookmark (some b) o row ≡ row
unfolding bookmark_changes set_bookmark
set_bookmark_idle b o row h = ground arith

find_id-update_rows :
    (f : Object → Object) (id j : ℕ) (rs : List Object)
    → ((r : Object) → (f r).id ≡ r.id)
    → find_id j (update_rows f id rs)
      ≡ (if nat_beq id j then mapped f (find_id j rs) else find_id j rs)
unfolding find_id update_rows
find_id-update_rows f id j [] keeps = ground arith
find_id-update_rows f id j (r ∷ rs) keeps =
    ground (arith, find_id-update_rows f id j rs keeps, keeps r)

set_columns-id :
    (v : VideoInfo) (b : Option ℤ) (o r : Object) → (set_columns (some v) (some b) o r).id ≡ r.id
unfolding set_columns
set_columns-id v b o r = ground arith

pub set_columns-keeps :
    (v : Option VideoInfo) (b : Option (Option ℤ)) (o r : Object)
    → ((set_columns v b o r).id ≡ r.id) × ((set_columns v b o r).path ≡ r.path)
unfolding set_columns
set_columns-keeps none none o r = (refl, refl)
set_columns-keeps none (some b) o r = ground arith
set_columns-keeps (some v) none o r = (refl, refl)
set_columns-keeps (some v) (some b) o r = ground arith

set_columns-indexed :
    (v : VideoInfo) (b : Option ℤ) (o : Object) → set_columns (some v) (some b) o o ≡ indexed v b o
set_columns-indexed v b o = unfold set_columns in columns-indexed v b o

idle-indexed :
    (v : VideoInfo) (b : Option ℤ) (o : Object)
    → info_changes (some v) o ≡ false
    → bookmark_changes (some b) o ≡ false
    → o ≡ indexed v b o
idle-indexed v b o h k =
    sym (set_bookmark_idle b o o k)
    ∙ ap (set_bookmark (some b) o) (sym (set_info_idle v o o h))
    ∙ columns-indexed v b o

-- Indexing an object that was read as it is stored, on a database that answers: the object and its row take over all
-- the video data and the bookmark and stop waiting for the indexer, whether or not any column had to be assigned, and
-- every row with another number stays.
pub update_object_exact :
    (t : Table) (o : Object) (v : VideoInfo) (b : Option ℤ) (j : ℕ)
    → find_id o.id t.rows ≡ some o
    → o.id ≢ 0
    → (t' : Table) × (update_object true t o (some v) (some b) ≡ (indexed v b o, some t'))
      × (find_id o.id t'.rows ≡ some (indexed v b o))
      × ((j ≡ o.id) ⊎ (find_id j t'.rows ≡ find_id j t.rows))
update_object_exact t o v b j here n =
    elim (Bool-cases (info_changes (some v) o || bookmark_changes (some b) o)) [
      | inl e ↦ (
        record t { rows = update_rows f o.id t.rows },
        unfold update_object in ground (arith, e, set_columns-indexed v b o),
        found o.id ∙ ground (arith, here, set_columns-indexed v b o),
        elim (Bool-cases (nat_beq o.id j)) [
          | inl g ↦ inl (ground (arith, nat_beq_iff o.id j))
          | inr g ↦ inr (found j ∙ rw g refl)
        ],
      )
      | inr e ↦
          let same : o ≡ indexed v b o = idle-indexed v b o (ground arith) (ground arith) in
          (t, unfold update_object in ground (arith, e, same), here ∙ ap some same, inr refl)
    ]
  where
    f : Object → Object
    f = set_columns (some v) (some b) o

    found :
        (j : ℕ)
        → find_id j (update_rows f o.id t.rows)
          ≡ (if nat_beq o.id j then mapped f (find_id j t.rows) else find_id j t.rows)
    found j = find_id-update_rows f o.id j t.rows (set_columns-id v b o)

info_changes_waiting :
    (v : VideoInfo) (o : Object) (read : ℤ)
    → o.reindex_at ≡ some read
    → info_changes (some v) o ≡ true
unfolding info_changes
info_changes_waiting v o read was = ground (arith, option_beq_iff o.reindex_at none)

clears_mark :
    (v : VideoInfo) (b : Option ℤ) (o row : Object) (read : ℤ)
    → o.reindex_at ≡ some read
    → (set_columns (some v) (some b) o row).reindex_at ≡ none
unfolding set_columns
clears_mark v b o row read was = ground arith

-- An object that was waiting when it was read: the update clears the mark of its row whatever mark the row carries by
-- then.
pub update_object_loses_mark :
    (t : Table) (o row : Object) (v : VideoInfo) (b : Option ℤ) (read : ℤ)
    → o.id ≢ 0
    → o.reindex_at ≡ some read
    → find_id o.id t.rows ≡ some row
    → (t' : Table) × (row' : Object) × ((update_object true t o (some v) (some b)).1 ≡ some t')
      × (find_id o.id t'.rows ≡ some row')
      × (row'.reindex_at ≡ none)
update_object_loses_mark t o row v b read n was here = (
  record t { rows = update_rows f o.id t.rows },
  f row,
  unfold update_object in ground (arith, info_changes_waiting v o read was),
  find_id-update_rows f o.id o.id t.rows (set_columns-id v b o) ∙ ground (arith, here),
  clears_mark v b o row read was,
)
  where
    f : Object → Object
    f = set_columns (some v) (some b) o

-- An update gives the table as it was, or with its rows updated.
pub update_object-cases :
    (up : Bool) (t t' : Table) (o : Object) (v : Option VideoInfo) (b : Option (Option ℤ))
    → (update_object up t o v b).1 ≡ some t'
    → (t' ≡ t) ⊎ (t' ≡ record t { rows = update_rows (set_columns v b o) o.id t.rows })
unfolding update_object
update_object-cases up t t' o v b h = ground (arith, h)
