-- ===== src/Util/XmlConfig.antt =====
-- MyXmlConfigFileParser (util/MyConfig.h, util/MyConfig.cc). A node of the file is an element with
-- its name and children, or a text, or a comment and the like; `null` is the end of the siblings. A
-- call of `visit` stands at a node: it and the siblings behind it, the siblings behind each of its
-- ancestors, the node of the tree that is being filled and that node's ancestors.
pub mod Loading
pub mod Sections
use echo_frame.Base.{
  ℕ, zero, suc, ◌+◌, ◌≤◌, ◌≡◌, refl, sym, ap, ◌∙◌, Bool, true, false, Option, none, some, List, [],
  ◌∷◌, ◌++◌, arith,
}
use echo_frame.Util.Text.{Text}
use echo_frame.Util.PropertyTree.{Node, text, key, new_node, put_at, append}

mutual
  pub data XmlNode : Type 0 where
    xml_element : Text → XmlNodes → XmlNode
    xml_text : Text → XmlNode
    xml_other : XmlNode

  pub data XmlNodes : Type 0 where
    null : XmlNodes
    node_before : XmlNode → XmlNodes → XmlNodes

-- `GetText`: the text of an element whose first child is one.
abbrev pub get_text : XmlNodes → Option Text
get_text null = none
get_text (node_before (xml_text s) cs) = some s
get_text (node_before (xml_element n ds) cs) = none
get_text (node_before xml_other cs) = none

-- The root that the parents of a node lead to.
unfoldable pub close : Node → List Node → Node
close p [] = p
close p (q ∷ qs) = close (put_at (key p) p q) qs

-- `visit(node->Parent()->NextSibling(), parent->parent())`
abbrev pub climb :
    (XmlNodes → List XmlNodes → Node → List Node → Option Node)
    → List XmlNodes
    → Node
    → List Node
    → Option Node
climb go [] p ps = some (close p ps)
climb go (next ∷ up) p [] = some p
climb go (next ∷ up) p (q ∷ qs) = go next up (put_at (key p) p q) qs

abbrev pub after_leaf :
    (XmlNodes → List XmlNodes → Node → List Node → Option Node)
    → XmlNodes
    → List XmlNodes
    → Node
    → List Node
    → Option Node
after_leaf go null up p ps = climb go up p ps
after_leaf go (node_before x xs) up p ps = go (node_before x xs) up p ps

abbrev pub branch :
    (XmlNodes → List XmlNodes → Node → List Node → Option Node)
    → Text
    → XmlNodes
    → XmlNodes
    → List XmlNodes
    → Node
    → List Node
    → Option Node
branch go n null rest up p ps = climb go up p ps
branch go n (node_before c cs) rest up p ps =
    go (node_before c cs) (rest ∷ up) (new_node n) (p ∷ ps)

abbrev pub visit_element :
    (XmlNodes → List XmlNodes → Node → List Node → Option Node)
    → Text
    → Option Text
    → XmlNodes
    → XmlNodes
    → List XmlNodes
    → Node
    → List Node
    → Option Node
visit_element go n (some s) cs rest up p ps = after_leaf go rest up (append n (text s) p) ps
visit_element go n none cs rest up p ps = branch go n cs rest up p ps

-- `visit`, on fuel; the result is the root of the tree.
unfoldable pub visit : ℕ → XmlNodes → List XmlNodes → Node → List Node → Option Node
visit zero nodes up p ps = none
visit (suc fuel) null up p ps = some (close p ps)
visit (suc fuel) (node_before (xml_text s) rest) up p ps = some (close p ps)
visit (suc fuel) (node_before xml_other rest) up p ps = some (close p ps)
visit (suc fuel) (node_before (xml_element n cs) rest) up p ps =
    visit_element (visit fuel) n (get_text cs) cs rest up p ps

-- `parse`: `none` is a file that cannot be loaded. The root element has no siblings that count.
unfoldable pub parse : ℕ → Option XmlNode → Node → Bool × Option Node
parse fuel none root = (false, some root)
parse fuel (some x) root = (true, visit fuel (node_before x null) [] root [])
