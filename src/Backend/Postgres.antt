-- ===== src/Backend/Postgres.antt =====
-- The driver of dlna/backend/db_driver_postgres.go as a DatabaseDriver, and the watcher's events that
-- onWatcherEvent of backend.go hands to a driver.
pub mod Events
pub mod Paging
pub mod Parents
pub mod Keys
use godlna.Base.{Text, Option, none, some, Bool, true, false, if◌then◌else◌, ◌≡◌, refl}
pub use godlna.Watcher.Event.{Op, Event, walk_start, walk_complete, index, remove, rename}
use godlna.Backend.Filter.{DatabaseDriver}
use godlna.Backend.Table.{
  Table, index_add, index_delete, index_rename, all_objects_to_offline, delete_offline_objects,
}
use godlna.Backend.Table.Query.{Db, get_objects}
use godlna.Backend.Table.Update.{update_object}

-- The driver while the database is in the given state: without a connection every call is an error.
unfoldable pub postgres : Db → DatabaseDriver Table
postgres db = record {
  get_objects = get_objects db;
  update_object = update_object db.up;
  all_to_offline = λ t. if db.up then some (all_objects_to_offline t) else none;
  delete_offline = λ t. if db.up then some (delete_offline_objects t) else none;
  index = λ t is_dir p. if db.up then some (index_add db.now t is_dir p) else none;
  remove = λ t is_dir p. if db.up then some (index_delete t is_dir p) else none;
  rename = λ t is_dir old new. if db.up then index_rename t is_dir old new else none;
}

-- What the backend keeps: the store, the dirty flag, and whether a reindexer has been started.
pub record Backend (S : Type 0) : Type 0 where
  pub store : S
  pub dirty_flag : Bool
  pub reindexing : Bool

module _ {S : Type 0} where
  stored : Backend S → Option S → Backend S
  stored b none = b
  stored b (some s) = record b { store = s }

  started : Backend S → Option S → Backend S
  started b none = b
  started b (some s) = record b { store = s; reindexing = true }

  by_op : DatabaseDriver S → Backend S → Event → Op → Backend S
  unfolding stored started
  by_op drv b e walk_start = stored b (drv.all_to_offline b.store)
  by_op drv b e walk_complete = started b (drv.delete_offline b.store)
  by_op drv b e index = stored (record b { dirty_flag = true }) (drv.index b.store e.is_dir e.name)
  by_op drv b e remove = stored b (drv.remove b.store e.is_dir e.name)
  by_op drv b e rename = stored b (drv.rename b.store e.is_dir e.renamed_from e.name)

  -- An error is logged; the event is then lost.
  unfoldable pub on_watcher_event : DatabaseDriver S → Backend S → Event → Backend S
  unfolding by_op
  on_watcher_event drv b e = by_op drv b e e.op
