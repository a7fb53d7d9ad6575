-- ===== src/Tests/Configs.antt =====
-- A configuration file with two sections.
use echo_frame.Base.{◌≡◌, true, some, [], ◌∷◌, arith}
use echo_frame.Persistence.Names.{codes}
use echo_frame.Util.PropertyTree.{Node, new_node, put_at}
use echo_frame.Util.XmlConfig.{XmlNode, xml_element, xml_text, xml_other, null, node_before, parse}
use echo_frame.Util.XmlConfig.Loading.{parse-Ends, weight}
use echo_frame.Util.XmlConfig.Sections.{Section, sections, fill_sections, parse-sections}

abbrev server : Section
server = (codes "server", (codes "host", codes "localhost"), (codes "port", codes "80") ∷ [])

abbrev client : Section
client = (codes "client", (codes "name", codes "c"), [])

abbrev tree_root : Node
tree_root = new_node (codes "root")

-- A comment stands before what else the file has.
abbrev commented : XmlNode
commented =
    xml_element (codes "a") (node_before xml_other (node_before (xml_text (codes "b")) null))

parse-Ends_example : (t : Node) × (parse 8 (some commented) tree_root ≡ (true, some t))
unfolding weight
parse-Ends_example = parse-Ends 8 commented tree_root (omega arith)

parse-sections_example :
    parse 40 (some (xml_element (codes "config") (sections (server ∷ client ∷ [])))) tree_root ≡ (
      true,
      some (
          put_at
            (codes "config")
            (fill_sections (new_node (codes "config")) (server ∷ client ∷ []))
            tree_root),
    )
unfolding weight
parse-sections_example =
    parse-sections 40 (codes "config") server (client ∷ []) tree_root (omega arith)
