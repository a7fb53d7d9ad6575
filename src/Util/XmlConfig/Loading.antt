-- ===== src/Util/XmlConfig/Loading.antt =====
-- MyXmlConfigFileParser ends on every file with so many calls
-- (util/MyConfig.cc).
use echo_frame.Base.{
  ℕ, zero, suc, ◌+◌, ◌≤◌, ◌<◌, ◌≡◌, refl, ap, true, Option, none, some, List, [], ◌∷◌, arith,
}
use echo_frame.Util.Text.{Text}
use echo_frame.Util.PropertyTree.{Node, text, key, new_node, put_at, append}
use echo_frame.Util.XmlConfig.{
  XmlNode, xml_element, xml_text, xml_other, XmlNodes, null, node_before, get_text, close, climb,
  after_leaf, branch, visit_element, visit, parse,
}

-- Two for each node, and one for the end of each list of siblings.
unfoldable mutual
  pub weight_node : XmlNode → ℕ
  weight_node (xml_element n cs) = suc (weight cs)
  weight_node (xml_text s) = 1
  weight_node xml_other = 1

  pub weight : XmlNodes → ℕ
  weight null = 1
  weight (node_before x xs) = suc (weight_node x + weight xs)

weight_up : List XmlNodes → ℕ
weight_up [] = 0
weight_up (xs ∷ up) = weight xs + weight_up up

weight_some : (xs : XmlNodes) → 0 < weight xs
unfolding weight
weight_some null = omega arith
weight_some (node_before x xs) = omega arith

Ends : ℕ → XmlNodes → List XmlNodes → Node → List Node → Type 0
Ends fuel nodes up p ps = (t : Node) × (visit fuel nodes up p ps ≡ some t)

-- Enough fuel for what is to be visited.
Enough : ℕ → Type 0
Enough fuel =
    (nodes : XmlNodes) (up : List XmlNodes) (p : Node) (ps : List Node)
    → weight nodes + weight_up up ≤ fuel
    → Ends fuel nodes up p ps

climb-Ends :
    (fuel : ℕ)
    → Enough fuel
    → (up : List XmlNodes) (p : Node) (ps : List Node) → weight_up up ≤ fuel
    → (t : Node) × (climb (visit fuel) up p ps ≡ some t)
unfolding weight_up Enough Ends
climb-Ends fuel more [] p ps h = (close p ps, refl)
climb-Ends fuel more (next ∷ up) p [] h = (p, refl)
climb-Ends fuel more (next ∷ up) p (q ∷ qs) h = more next up (put_at (key p) p q) qs h

after_leaf-Ends :
    (fuel : ℕ)
    → Enough fuel
    → (rest : XmlNodes) (up : List XmlNodes) (p : Node) (ps : List Node)
    → weight rest + weight_up up ≤ fuel
    → (t : Node) × (after_leaf (visit fuel) rest up p ps ≡ some t)
unfolding Enough Ends
after_leaf-Ends fuel more null up p ps h = climb-Ends fuel more up p ps (omega arith)
after_leaf-Ends fuel more (node_before x xs) up p ps h = more (node_before x xs) up p ps h

branch-Ends :
    (fuel : ℕ)
    → Enough fuel
    → (n : Text) (cs rest : XmlNodes) (up : List XmlNodes) (p : Node) (ps : List Node)
    → weight cs + (weight rest + weight_up up) ≤ fuel
    → (t : Node) × (branch (visit fuel) n cs rest up p ps ≡ some t)
unfolding Enough Ends weight_up
branch-Ends fuel more n null rest up p ps h = climb-Ends fuel more up p ps (omega arith)
branch-Ends fuel more n (node_before c cs) rest up p ps h =
    more (node_before c cs) (rest ∷ up) (new_node n) (p ∷ ps) h

element-Ends :
    (fuel : ℕ)
    → Enough fuel
    → (n : Text) (o : Option Text) (cs rest : XmlNodes) (up : List XmlNodes) (p : Node)
      (ps : List Node)
    → weight cs + (weight rest + weight_up up) ≤ fuel
    → (t : Node) × (visit_element (visit fuel) n o cs rest up p ps ≡ some t)
element-Ends fuel more n (some s) cs rest up p ps h =
    after_leaf-Ends fuel more rest up (append n (text s) p) ps (omega arith)
element-Ends fuel more n none cs rest up p ps h = branch-Ends fuel more n cs rest up p ps h

visit-Ends : (fuel : ℕ) → Enough fuel
unfolding Enough Ends visit weight weight_node
visit-Ends zero nodes up p ps h = absurd (omega (arith, weight_some nodes))
visit-Ends (suc fuel) null up p ps h = (close p ps, refl)
visit-Ends (suc fuel) (node_before (xml_text s) rest) up p ps h = (close p ps, refl)
visit-Ends (suc fuel) (node_before xml_other rest) up p ps h = (close p ps, refl)
visit-Ends (suc fuel) (node_before (xml_element n cs) rest) up p ps h =
    element-Ends fuel (visit-Ends fuel) n (get_text cs) cs rest up p ps (omega arith)

-- Parsing a file that can be loaded ends with a tree, with no more calls of `visit` than twice its
-- nodes and one for the end of each list of siblings.
pub parse-Ends :
    (fuel : ℕ) (x : XmlNode) (root : Node)
    → weight (node_before x null) ≤ fuel
    → (t : Node) × (parse fuel (some x) root ≡ (true, some t))
unfolding parse weight_up Ends Enough
parse-Ends fuel x root h =
    let (t, e) = visit-Ends fuel (node_before x null) [] root [] (omega arith) in
    (t, ap (λ o. (true, o)) e)
