-- ===== src/Backend/Filter.antt =====
-- The search filter of dlna/backend/backend.go, and the interface of db_driver.go.
use godlna.Base.{ℕ, Text, List, Option, Bool, ℤ}
use godlna.Backend.Object.{Object, VideoInfo}

pub data ObjectStatus : Type 0 where
  public dirty reindex all : ObjectStatus

pub data ObjectSort : Type 0 where
  by_public by_id none : ObjectSort

-- Zero, the empty text and the empty list mean that a field does not restrict the search.
pub record Filter : Type 0 where
  pub id : ℕ
  pub limit : ℤ
  pub offset : ℤ
  pub parent_path : Text
  pub own_paths : List Text
  pub last_visited_id : ℕ
  pub with_total_matches : Bool
  pub status : ObjectStatus
  pub sort : ObjectSort

pub record SearchResponse : Type 0 where
  pub items : List Object
  pub total_matches : ℕ

-- DatabaseDriver over a state S. An operation that returns an error gives `none` and leaves the state as it is.
-- UpdateObject also gives the object, whose fields it sets before the query runs.
pub record DatabaseDriver (S : Type 0) : Type 0 where
  pub get_objects : S → Filter → Option SearchResponse
  pub update_object : S → Object → Option VideoInfo → Option (Option ℤ) → Object × Option S
  pub all_to_offline : S → Option S
  pub delete_offline : S → Option S
  pub index : S → Bool → Text → Option S
  pub remove : S → Bool → Text → Option S
  pub rename : S → Bool → Text → Text → Option S
