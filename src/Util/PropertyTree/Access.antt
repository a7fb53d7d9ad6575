-- ===== src/Util/PropertyTree/Access.antt =====
-- The functions of MyPropertyTree that throw: `at`, `get_array`, `array_size`, and `GetAllKeys`.
use echo_frame.Base.{ℕ, Bool, true, false, if◌then◌else◌, Option, none, some, List, [], ◌∷◌}
use echo_frame.Util.Text.{Text, bind}
use echo_frame.Util.PropertyTree.{
  Node, Children, nil, child, PropertyType, array, trunk, string, bool, null, integral, floating,
  PropertyValue, Kind, read, type_of, value_of, childs, key, get_child, to_str, count_of, walk,
  path_of,
}

-- The messages of the exceptions.
pub data TreeError : Type 0 where
  path_is_empty path_not_found key_not_found not_array index_overflow : TreeError

pub data Outcome (A : Type 0) : Type 0 where
  returned : A → Outcome A
  threw : TreeError → Outcome A

abbrev pub is_array : PropertyType → Bool
is_array array = true
is_array trunk = false
is_array string = false
is_array bool = false
is_array null = false
is_array integral = false
is_array floating = false

abbrev pub element : Kind → Option Node → Outcome (Option PropertyValue)
element kind none = threw index_overflow
element kind (some c) = returned (read kind (value_of c))

-- `at` of a node.
abbrev pub at_node : Kind → ℕ → Node → Outcome (Option PropertyValue)
at_node kind idx n =
    if is_array (type_of n) then element kind (get_child (to_str idx) n) else threw not_array

abbrev pub elements : Kind → Children → List (Option PropertyValue)
elements kind nil = []
elements kind (child k n cs) = read kind (value_of n) ∷ elements kind cs

-- `get_array` of a node: the children in the order of their keys.
abbrev pub array_node : Kind → Node → Outcome (List (Option PropertyValue))
array_node kind n =
    if is_array (type_of n) then returned (elements kind (childs n)) else threw not_array

-- What `at` and `get_array` of the tree do before they ask the node.
abbrev pub on_child : {A : Type 0} → (Node → Outcome A) → Option Node → Outcome A
on_child f none = threw key_not_found
on_child f (some c) = f c

abbrev pub on_parent : {A : Type 0} → (Node → Outcome A) → Text → Option Node → Outcome A
on_parent f k none = threw path_not_found
on_parent f k (some n) = on_child f (get_child k n)

abbrev pub on_path : {A : Type 0} → (Node → Outcome A) → List Text → Text → Node → Outcome A
on_path f [] k root = threw path_is_empty
on_path f (p ∷ ps) k root = on_parent f k (walk (p ∷ ps) root)

unfoldable pub at : Kind → Text → Text → ℕ → Node → Outcome (Option PropertyValue)
at kind path k idx root = on_path (at_node kind idx) (path_of path) k root

unfoldable pub get_array : Kind → Text → Text → Node → Outcome (List (Option PropertyValue))
get_array kind path k root = on_path (array_node kind) (path_of path) k root

abbrev pub size_if_array : Option Node → ℕ
size_if_array none = 0
size_if_array (some c) = if is_array (type_of c) then count_of c else 0

abbrev pub size_at : List Text → Node → Outcome ℕ
size_at [] root = threw path_is_empty
size_at (p ∷ ps) root = returned (size_if_array (walk (p ∷ ps) root))

-- `array_size` of the tree: its key is not looked at.
unfoldable pub array_size : Text → Text → Node → Outcome ℕ
array_size path k root = size_at (path_of path) root

abbrev pub child_keys : Children → List Text
child_keys nil = []
child_keys (child k n cs) = key n ∷ child_keys cs

abbrev pub keys_at : List Text → Node → Option (List Text)
keys_at [] root = some []
keys_at (p ∷ ps) root = bind (walk (p ∷ ps) root) (λ n. some (child_keys (childs n)))

-- `GetAllKeys`; `none` is the access through the null pointer that a missing path leaves.
unfoldable pub get_all_keys : Text → Node → Option (List Text)
get_all_keys path root = keys_at (path_of path) root
