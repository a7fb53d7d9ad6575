-- ===== src/Util/XmlConfig/Sections.antt =====
-- What is loaded from a file whose root has sections with values (util/MyConfig.cc).
use echo_frame.Base.{
  ℕ, zero, suc, ◌+◌, ◌≤◌, ◌≡◌, refl, ap, ◌∙◌, true, Option, none, some, List, [], ◌∷◌,
}
use native.Mathlib.Nat.{zero-add, suc-add, add_comm}
use echo_frame.Util.Text.{Text}
use echo_frame.Util.PropertyTree.{Node, node, text, key, new_node, put_at, append}
use echo_frame.Util.XmlConfig.{
  XmlNode, xml_element, xml_text, xml_other, XmlNodes, null, node_before, get_text, close, climb,
  visit_element, visit, parse,
}
use echo_frame.Util.XmlConfig.Loading.{weight, parse-Ends}

-- A value has a name and a text, a section a name and its values.
abbrev pub Values : Type 0
Values = List (Text × Text)

abbrev pub Section : Type 0
Section = Text × (Text × Text) × Values

abbrev pub leaf : Text × Text → XmlNode
leaf (n, s) = xml_element n (node_before (xml_text s) null)

abbrev pub leaves : Values → XmlNodes
leaves [] = null
leaves (v ∷ vs) = node_before (leaf v) (leaves vs)

abbrev pub sections : List Section → XmlNodes
sections [] = null
sections ((n, v, vs) ∷ ss) = node_before (xml_element n (leaves (v ∷ vs))) (sections ss)

-- What is to be loaded: every value of a section into a node, every such node into that of the root.
unfoldable pub fill : Node → Values → Node
fill p [] = p
fill p ((n, s) ∷ vs) = fill (append n (text s) p) vs

unfoldable pub fill_sections : Node → List Section → Node
fill_sections r [] = r
fill_sections r ((n, v, vs) ∷ ss) = fill_sections (put_at n (fill (new_node n) (v ∷ vs)) r) ss

key-append : (n s : Text) (p : Node) → key (append n (text s) p) ≡ key p
key-append n s (node k t v cs) = refl

key-fill : (p : Node) (vs : Values) → key (fill p vs) ≡ key p
unfolding fill
key-fill p [] = refl
key-fill p ((n, s) ∷ vs) = key-fill (append n (text s) p) vs ∙ key-append n s p

key-put_at : (k : Text) (c p : Node) → key (put_at k c p) ≡ key p
key-put_at k c (node j t v cs) = refl

key-fill_sections : (r : Node) (ss : List Section) → key (fill_sections r ss) ≡ key r
unfolding fill_sections
key-fill_sections r [] = refl
key-fill_sections r ((n, v, vs) ∷ ss) =
    key-fill_sections (put_at n (fill (new_node n) (v ∷ vs)) r) ss
    ∙ key-put_at n (fill (new_node n) (v ∷ vs)) r

-- The calls for the values of a section, and for sections, before so many others.
abbrev value_calls : Values → ℕ → ℕ
value_calls [] f = f
value_calls (v ∷ vs) f = suc (value_calls vs f)

abbrev section_calls : List Section → ℕ → ℕ
section_calls [] f = suc f
section_calls ((n, v, vs) ∷ ss) f = suc (value_calls (v ∷ vs) (section_calls ss f))

visit-leaves :
    (v : Text × Text) (vs : Values) (f : ℕ) (next : XmlNodes) (up : List XmlNodes) (p q : Node)
    (qs : List Node)
    → visit (value_calls (v ∷ vs) f) (leaves (v ∷ vs)) (next ∷ up) p (q ∷ qs)
      ≡ visit f next up (put_at (key p) (fill p (v ∷ vs)) q) qs
unfolding visit fill
visit-leaves (n, s) [] f next up p q qs =
    ap (λ k. visit f next up (put_at k (append n (text s) p) q) qs) (key-append n s p)
visit-leaves (n, s) (v ∷ vs) f next up p q qs =
    visit-leaves v vs f next up (append n (text s) p) q qs
    ∙ ap (λ k. visit f next up (put_at k (fill (append n (text s) p) (v ∷ vs)) q) qs)
        (key-append n s p)

visit-sections :
    (ss : List Section) (f : ℕ) (r root : Node)
    → visit (section_calls ss f) (sections ss) (null ∷ []) r (root ∷ [])
      ≡ some (put_at (key r) (fill_sections r ss) root)
unfolding fill_sections close visit
visit-sections [] f r root = refl
visit-sections ((n, v, vs) ∷ ss) f r root =
    let s = put_at n (fill (new_node n) (v ∷ vs)) r in
    visit-leaves v vs (section_calls ss f) (sections ss) (null ∷ []) (new_node n) r (root ∷ [])
    ∙ visit-sections ss f s root
    ∙ ap (λ k. some (put_at k (fill_sections s ss) root))
        (key-put_at n (fill (new_node n) (v ∷ vs)) r)

-- With more fuel a visit that ends ends with the same tree.
Later : ℕ → Type 0
Later fuel =
    (nodes : XmlNodes) (up : List XmlNodes) (p : Node) (ps : List Node) (t : Node)
    → visit fuel nodes up p ps ≡ some t
    → visit (suc fuel) nodes up p ps ≡ some t

climb-Later :
    (fuel : ℕ)
    → Later fuel
    → (up : List XmlNodes) (p : Node) (ps : List Node) (t : Node)
    → climb (visit fuel) up p ps ≡ some t
    → climb (visit (suc fuel)) up p ps ≡ some t
unfolding Later
climb-Later fuel more [] p ps t e = e
climb-Later fuel more (next ∷ up) p [] t e = e
climb-Later fuel more (next ∷ up) p (q ∷ qs) t e = more next up (put_at (key p) p q) qs t e

element-Later :
    (fuel : ℕ)
    → Later fuel
    → (n : Text) (o : Option Text) (cs rest : XmlNodes) (up : List XmlNodes) (p : Node)
      (ps : List Node) (t : Node)
    → visit_element (visit fuel) n o cs rest up p ps ≡ some t
    → visit_element (visit (suc fuel)) n o cs rest up p ps ≡ some t
unfolding Later
element-Later fuel more n (some s) cs null up p ps t e =
    climb-Later fuel more up (append n (text s) p) ps t e
element-Later fuel more n (some s) cs (node_before x xs) up p ps t e =
    more (node_before x xs) up (append n (text s) p) ps t e
element-Later fuel more n none null rest up p ps t e = climb-Later fuel more up p ps t e
element-Later fuel more n none (node_before c cs) rest up p ps t e =
    more (node_before c cs) (rest ∷ up) (new_node n) (p ∷ ps) t e

visit-Later : (fuel : ℕ) → Later fuel
unfolding Later visit
visit-Later zero nodes up p ps t e = cc
visit-Later (suc fuel) null up p ps t e = e
visit-Later (suc fuel) (node_before (xml_text s) rest) up p ps t e = e
visit-Later (suc fuel) (node_before xml_other rest) up p ps t e = e
visit-Later (suc fuel) (node_before (xml_element n cs) rest) up p ps t e =
    element-Later fuel (visit-Later fuel) n (get_text cs) cs rest up p ps t e

visit-add :
    (k fuel : ℕ) (x : XmlNode) (root t : Node)
    → visit fuel (node_before x null) [] root [] ≡ some t
    → visit (k + fuel) (node_before x null) [] root [] ≡ some t
unfolding Later
visit-add zero fuel x root t e = rw (zero-add fuel) e
visit-add (suc k) fuel x root t e =
    rw (suc-add k fuel)
      (visit-Later (k + fuel) (node_before x null) [] root [] t (visit-add k fuel x root t e))

-- Two visits of a file that end, whatever their fuel, end with the same tree.
visit_same :
    (f g : ℕ) (x : XmlNode) (root s t : Node)
    → visit f (node_before x null) [] root [] ≡ some s
    → visit g (node_before x null) [] root [] ≡ some t
    → s ≡ t
visit_same f g x root s t a b = cc (
  visit-add g f x root s a,
  visit-add f g x root t b,
  ap (λ n. visit n (node_before x null) [] root []) (add_comm g f),
)

visit-whole :
    (name : Text) (s : Section) (ss : List Section) (root : Node)
    → visit
        (suc (section_calls (s ∷ ss) 0))
        (node_before (xml_element name (sections (s ∷ ss))) null)
        []
        root
        []
      ≡ some (put_at name (fill_sections (new_node name) (s ∷ ss)) root)
unfolding visit
visit-whole name s ss root = visit-sections (s ∷ ss) 0 (new_node name) root

-- A file whose root element has sections, each with one value at least, is loaded with fuel for twice
-- its nodes and for the end of each list of siblings. Below the root stands a node for the root
-- element, into which each section is put in turn, and into the section's node each of its values in
-- turn; so of sections with the same name only the last stays, and of values with the same name in a
-- section as well.
pub parse-sections :
    (fuel : ℕ) (name : Text) (s : Section) (ss : List Section) (root : Node)
    → weight (node_before (xml_element name (sections (s ∷ ss))) null) ≤ fuel
    → parse fuel (some (xml_element name (sections (s ∷ ss)))) root
      ≡ (true, some (put_at name (fill_sections (new_node name) (s ∷ ss)) root))
unfolding parse
parse-sections fuel name s ss root h =
    let x = xml_element name (sections (s ∷ ss)) in
    let (t, e) = parse-Ends fuel x root h in
    let same =
      visit_same fuel (suc (section_calls (s ∷ ss) 0)) x root t
        (put_at name (fill_sections (new_node name) (s ∷ ss)) root) (ap (λ r. r.1) e)
        (visit-whole name s ss root) in
    e ∙ ap (λ u. (true, some u)) same
