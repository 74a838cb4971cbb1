-- ===== src/Conf/Version.antt =====
-- findVersion of kesconf/config.go, on the tree of nodes of yaml.v3.
use kes.Prelude.{
  ℕ, ◌≡◌, refl, Bool, true, false, not, Option, none, some, [], ◌∷◌, if◌then◌else◌, Text, codes,
  text_beq, text_eq, arith, every,
}
use kes.Prelude.Maps.{Assoc, lookup}
use kes.Api.Errors.{Result, ok, err, plain, message}

-- The kinds of node.
pub data Kind : Type 0 where
  document_node sequence_node mapping_node scalar_node alias_node : Kind

-- Kind, Value, Line and Content of a node; the last are a list.
mutual
  pub data Node : Type 0 where
    node : Kind → Text → ℕ → Nodes → Node

  pub data Nodes : Type 0 where
    no_node : Nodes
    next_node : Node → Nodes → Nodes

abbrev pub is_scalar : Node → Bool
is_scalar (node scalar_node value line content) = true
is_scalar n = false

abbrev pub value_of : Node → Text
value_of (node kind value line content) = value

abbrev pub line_of : Node → ℕ
line_of (node kind value line content) = line

abbrev pub content_of : Node → Nodes
content_of (node kind value line content) = content

abbrev pub invalid_format : {X : Type 0} → Result X
invalid_format = err (plain (message "kesconf: invalid config format"))

-- The error names the line of the node, which is left out.
abbrev pub invalid_version : {X : Type 0} → Result X
invalid_version = err (plain (message "kesconf: invalid config version at line"))

-- The node after the one with the text "version", if both are scalars.
abbrev pub version_of : Node → Nodes → Result Text
version_of n no_node = invalid_version
version_of n (next_node v rest) =
    if not (is_scalar n)
    then invalid_version
    else if not (is_scalar v)
    then invalid_version
    else ok (value_of v)

-- The loop, which goes over the keys and the values of a mapping alike.
unfoldable pub find_in : Nodes → Result Text
find_in no_node = ok []
find_in (next_node n rest) =
    let later = find_in rest in
    if text_beq (value_of n) (codes "version") then version_of n rest else later

abbrev pub find_in_document : Nodes → Result Text
find_in_document (next_node doc no_node) = find_in (content_of doc)
find_in_document nodes = invalid_format

unfoldable pub find_version : Option Node → Result Text
find_version none = err (plain (message "kesconf: invalid config"))
find_version (some (node document_node value line content)) = find_in_document content
find_version (some n) = invalid_format

abbrev pub scalar : Text → Node
scalar value = node scalar_node value 0 no_node

-- A mapping with scalar keys; the values are any nodes.
abbrev pub mapping : Assoc Text Node → Nodes
mapping [] = no_node
mapping ((key, value) ∷ entries) = next_node (scalar key) (next_node value (mapping entries))

-- A document with one mapping.
abbrev pub document : Assoc Text Node → Node
document entries =
    node document_node [] 0 (next_node (node mapping_node [] 0 (mapping entries)) no_node)

-- What the entry under "version" says.
abbrev pub entry_version : Option Node → Result Text
entry_version none = ok []
entry_version (some v) = if is_scalar v then ok (value_of v) else invalid_version

abbrev pub no_version_text : Text × Node → Bool
no_version_text (key, value) = not (text_beq (value_of value) (codes "version"))

find_in-mapping :
    (entries : Assoc Text Node)
    → every no_version_text entries ≡ true
    → find_in (mapping entries) ≡ entry_version (lookup (codes "version") entries)
unfolding find_in lookup
find_in-mapping [] h = refl
find_in-mapping ((key, value) ∷ entries) h = ground (arith, find_in-mapping entries)

-- In a document with one mapping, where no value is the text "version", the version is what the entry
-- under "version" says: the empty text without one, and an error for an entry that is no scalar.
pub find_version-document :
    (entries : Assoc Text Node)
    → every no_version_text entries ≡ true
    → find_version (some (document entries)) ≡ entry_version (lookup (codes "version") entries)
unfolding find_version
find_version-document entries h = find_in-mapping entries h

-- A value that is the text "version" is taken for the key: whatever scalar key follows it is returned
-- as the version.
pub find_version-value :
    (first second : Text) (value : Node) (entries : Assoc Text Node)
    → text_beq first (codes "version") ≡ false
    → find_version (some (document ((first, scalar (codes "version")) ∷ (second, value) ∷ entries)))
      ≡ ok second
unfolding find_version find_in
find_version-value first second value entries h = ground arith
