-- ===== src/Watcher/Tree.antt =====
-- What `filepath.Walk` meets in a directory tree, with the names in their order. Walk reads the names of a directory
-- before it visits it.
use godlna.Base.{Text, codes, text_beq, [], ◌∷◌, ◌++◌, if◌then◌else◌}

mutual
  -- A broken entry cannot be looked up, and of a sealed directory the names cannot be read.
  pub data Tree : Type 0 where
    file broken sealed : Tree
    directory : Entries → Tree

  pub data Entries : Type 0 where
    nil : Entries
    entry : Text → Tree → Entries → Entries

-- `path.Join` of a clean path and a name without slashes, which may be empty.
unfoldable pub join : Text → Text → Text
join dir name =
    if text_beq name []
    then dir
    else if text_beq dir (codes "/")
    then b'/' ∷ name
    else dir ++ b'/' ∷ name
