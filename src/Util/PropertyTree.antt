-- ===== src/Util/PropertyTree.antt =====
-- MyPropertyTree and MyPropertyTreeNode (util/MyPropertyTree.h, util/MyPropertyTree.cc). A node is
-- reached through its parent alone, so that the tree is a value; the pointers back to the parents
-- are left out. A 64-bit number and a double stand as their bit patterns.
pub mod Lookup
pub mod Access
use echo_frame.Base.{
  ℕ, zero, suc, ◌+◌, ◌/◌, ◌%◌, ◌^◌, Bool, true, false, ◌&&◌, Option, none, some, List, [], ◌∷◌,
  ◌++◌, ltb, ◌==◌, if◌then◌else◌, length,
}
use echo_frame.Util.Text.{Text, Pieces, pieces, out_of_range, split, bind}

pub data PropertyType : Type 0 where
  string bool null integral floating array trunk : PropertyType

-- The alternatives of the variant.
pub data PropertyValue : Type 0 where
  int64 : ℕ → PropertyValue
  boolean : Bool → PropertyValue
  double : ℕ → PropertyValue
  text : Text → PropertyValue

mutual
  -- The key, the type, the value and the children.
  pub data Node : Type 0 where
    node : Text → PropertyType → PropertyValue → Children → Node

  -- `std::map<std::string, …>`
  pub data Children : Type 0 where
    nil : Children
    child : Text → Node → Children → Children

unfoldable pub text_eq : Text → Text → Bool
text_eq [] [] = true
text_eq [] (y ∷ ys) = false
text_eq (x ∷ xs) [] = false
text_eq (x ∷ xs) (y ∷ ys) = x == y && text_eq xs ys

-- The order of `std::string`.
unfoldable pub text_lt : Text → Text → Bool
text_lt xs [] = false
text_lt [] (y ∷ ys) = true
text_lt (x ∷ xs) (y ∷ ys) = if x == y then text_lt xs ys else ltb x y

unfoldable pub find_child : Text → Children → Option Node
find_child k nil = none
find_child k (child j n cs) = if text_eq j k then some n else find_child k cs

unfoldable pub put_child : Text → Node → Children → Children
put_child k n nil = child k n nil
put_child k n (child j m cs) =
    if text_eq j k
    then child j n cs
    else if text_lt k j
    then child k n (child j m cs)
    else child j m (put_child k n cs)

unfoldable pub size : Children → ℕ
size nil = 0
size (child k n cs) = suc (size cs)

abbrev pub key : Node → Text
key (node k t v cs) = k

abbrev pub type_of : Node → PropertyType
type_of (node k t v cs) = t

abbrev pub value_of : Node → PropertyValue
value_of (node k t v cs) = v

abbrev pub childs : Node → Children
childs (node k t v cs) = cs

-- A new node: the value is the variant's first alternative.
abbrev pub new_node : Text → Node
new_node k = node k trunk (int64 0) nil

abbrev pub type_for : PropertyValue → PropertyType
type_for (int64 n) = integral
type_for (boolean b) = bool
type_for (double d) = floating
type_for (text s) = string

-- `set` of a node.
abbrev pub set_value : PropertyValue → Node → Node
set_value v (node k t w cs) = node k (type_for v) v cs

abbrev pub put_at : Text → Node → Node → Node
put_at k c (node j t v cs) = node j t v (put_child k c cs)

abbrev pub add_child : Node → Node → Node
add_child c n = put_at (key c) c n

-- `append` of the tree.
abbrev pub append : Text → PropertyValue → Node → Node
append k v parent = add_child (set_value v (new_node k)) parent

abbrev pub get_child : Text → Node → Option Node
get_child k n = find_child k (childs n)

-- `std::to_string`, with a bound on the digits.
unfoldable pub digits : ℕ → ℕ → Text
digits zero n = []
digits (suc fuel) n =
    let rest = digits fuel (n / 10) in
    if ltb n 10 then (b'0' + n) ∷ [] else rest ++ ((b'0' + n % 10) ∷ [])

abbrev pub to_str : ℕ → Text
to_str n = digits 10 n

abbrev pub may_add : PropertyType → Bool
may_add trunk = true
may_add array = true
may_add string = false
may_add bool = false
may_add null = false
may_add integral = false
may_add floating = false

-- The number of children, as `uint32_t`.
abbrev pub count_of : Node → ℕ
count_of n = size (childs n) % 2 ^ 32

abbrev pub to_array : Node → Node
to_array (node k t v cs) = node k array v cs

-- `add` of a node.
abbrev pub add : PropertyValue → Node → Node
add v n =
    if may_add (type_of n)
    then to_array (add_child (set_value v (new_node (to_str (count_of n)))) n)
    else n

-- The kinds of value that a caller asks for. `MyProperty::get` returns a variable that was never
-- written where the variant holds another alternative: `none`.
pub data Kind : Type 0 where
  int64_kind bool_kind double_kind text_kind : Kind

unfoldable pub read : Kind → PropertyValue → Option PropertyValue
read int64_kind (int64 n) = some (int64 n)
read bool_kind (boolean b) = some (boolean b)
read double_kind (double d) = some (double d)
read text_kind (text s) = some (text s)
read int64_kind (boolean b) = none
read int64_kind (double d) = none
read int64_kind (text s) = none
read bool_kind (int64 n) = none
read bool_kind (double d) = none
read bool_kind (text s) = none
read double_kind (int64 n) = none
read double_kind (boolean b) = none
read double_kind (text s) = none
read text_kind (int64 n) = none
read text_kind (boolean b) = none
read text_kind (double d) = none

abbrev pub pieces_of : Option Pieces → List Text
pieces_of none = []
pieces_of (some out_of_range) = []
pieces_of (some (pieces ps)) = ps

-- `split<std::string>(path, "/")`
unfoldable pub path_of : Text → List Text
path_of path = pieces_of (split (suc (length path)) true (b'/' ∷ []) (some path))

-- The loop that walks a path.
unfoldable pub walk : List Text → Node → Option Node
walk [] n = some n
walk (p ∷ ps) n = bind (get_child p n) (walk ps)

abbrev pub value_or : Kind → PropertyValue → Option Node → Option PropertyValue
value_or kind v none = some v
value_or kind v (some n) = read kind (value_of n)

abbrev pub get_from : Kind → Text → PropertyValue → Option Node → Option PropertyValue
get_from kind k v none = some v
get_from kind k v (some n) = value_or kind v (get_child k n)

abbrev pub get_at : Kind → List Text → Text → PropertyValue → Node → Option PropertyValue
get_at kind [] k v root = some v
get_at kind (p ∷ ps) k v root = get_from kind k v (walk (p ∷ ps) root)

-- `get` of the tree, with a default value.
unfoldable pub get : Kind → Text → Text → PropertyValue → Node → Option PropertyValue
get kind path k v root = get_at kind (path_of path) k v root

-- The child of a node that a walk goes on from, made where it is missing.
abbrev pub or_new : Text → Option Node → Node
or_new p none = new_node p
or_new p (some c) = c

unfoldable pub set_path : List Text → Text → PropertyValue → Node → Node
set_path [] k v n = append k v n
set_path (p ∷ ps) k v n = put_at p (set_path ps k v (or_new p (get_child p n))) n

abbrev pub set_pieces : List Text → Text → PropertyValue → Node → Node
set_pieces [] k v root = root
set_pieces (p ∷ ps) k v root = set_path (p ∷ ps) k v root

-- `set` of the tree.
unfoldable pub set : Text → Text → PropertyValue → Node → Node
set path k v root = set_pieces (path_of path) k v root

unfoldable pub push_path : List Text → Text → PropertyValue → Node → Node
push_path [] k v n = add_child (add v (or_new k (get_child k n))) n
push_path (p ∷ ps) k v n = put_at p (push_path ps k v (or_new p (get_child p n))) n

abbrev pub push_pieces : List Text → Text → PropertyValue → Node → Node
push_pieces [] k v root = root
push_pieces (p ∷ ps) k v root = push_path (p ∷ ps) k v root

-- `push_back` of the tree.
unfoldable pub push_back : Text → Text → PropertyValue → Node → Node
push_back path k v root = push_pieces (path_of path) k v root
