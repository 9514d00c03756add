-- ===== src/Watcher/Event.antt =====
-- The events of pkg/fswatcher/watcher.go and how they are printed.
use godlna.Base.{Text, codes, ◌∷◌, ◌++◌, Bool, true, false}

pub data Op : Type 0 where
  walk_start walk_complete index remove rename : Op

pub record Event : Type 0 where
  pub op : Op
  pub is_dir : Bool
  pub name : Text
  pub renamed_from : Text

unfoldable pub op_string : Op → Text
op_string index = codes "INDEX"
op_string remove = codes "REMOVE"
op_string rename = codes "RENAME"
op_string walk_start = codes "WALK_START"
op_string walk_complete = codes "WALK_COMPLETE"

type_string : Bool → Text
type_string true = codes "DIR"
type_string false = codes "FILE"

-- The operation and the type in brackets.
tag : Op → Bool → Text
unfolding op_string type_string
tag op is_dir = b'[' ∷ (op_string op ++ (b':' ∷ (type_string is_dir ++ codes "] '")))

string_of : Op → Event → Text
unfolding op_string tag
string_of walk_start e = b'[' ∷ (op_string walk_start ++ codes "]")
string_of walk_complete e = b'[' ∷ (op_string walk_complete ++ codes "]")
string_of rename e =
    tag rename e.is_dir ++ (e.renamed_from ++ (codes "' -> '" ++ (e.name ++ codes "'")))
string_of index e = tag index e.is_dir ++ (e.name ++ codes "'")
string_of remove e = tag remove e.is_dir ++ (e.name ++ codes "'")

unfoldable pub event_string : Event → Text
unfolding string_of
event_string e = string_of e.op e
