-- ===== src/Watcher/Roots.antt =====
-- `validatedAddDir` of pkg/fswatcher/common.go: the directories that a watcher may be given.
pub mod Apart
use godlna.Watcher.Goroutines.{IsIn, All-IsIn}
use godlna.Watcher.WatchMap.{is_under}
use godlna.Base.{
  ℕ, sym, ◌∙◌, Text, codes, text_beq, has_prefix, has_prefix_refl, List, [], ◌∷◌, ◌++◌, Option,
  none, some, Bool, true, false, not, if◌then◌else◌, ◌≡◌, ◌≢◌, refl, ◌⊎◌, inl, inr, arith, All,
  All-append, text_beq_iff, Bool-cases,
}

-- What the file system says of a path: its absolute form, and whether there is a directory.
pub data Stat : Type 0 where
  no_absolute : Stat
  no_stat : Text → Stat
  non_directory : Text → Stat
  directory : Text → Stat

pub data AddError : Type 0 where
  absolute_failed stat_failed not_directory duplicate : AddError
  is_subdirectory : Text → AddError
  has_subdirectory : Text → AddError

pub data Added : Type 0 where
  accepted : Text → Added
  rejected : AddError → Added

unfoldable pub check_added : Text → List Text → Added
check_added path [] = accepted path
check_added path (v ∷ vs) =
    let rest = check_added path vs in
    if text_beq path v
    then rejected duplicate
    else if has_prefix (v ++ codes "/") (path ++ codes "/")
    then rejected (is_subdirectory v)
    else if has_prefix (path ++ codes "/") (v ++ codes "/")
    then rejected (has_subdirectory v)
    else rest

unfoldable pub validated_add_dir : Stat → List Text → Added
unfolding check_added
validated_add_dir no_absolute roots = rejected absolute_failed
validated_add_dir (no_stat path) roots = rejected stat_failed
validated_add_dir (non_directory path) roots = rejected not_directory
validated_add_dir (directory path) roots = check_added path roots

-- `addDirectory`, with its error.
unfoldable pub add_directory : Stat → List Text → List Text × Option AddError
unfolding validated_add_dir
add_directory st roots = elim (validated_add_dir st roots) [
  | accepted path ↦ (roots ++ path ∷ [], none)
  | rejected e ↦ (roots, some e)
]

-- `New`: the directories are added one after the other, up to the first that fails.
unfoldable pub new : List Stat → List Text → Option (List Text)
unfolding add_directory
new [] roots = some roots
new (st ∷ sts) roots = elim (validated_add_dir st roots) [
  | accepted path ↦ new sts (roots ++ path ∷ [])
  | rejected e ↦ none
]
