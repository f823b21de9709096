-- ===== src/Config/Yaml.antt =====
-- The edits of the YAML tree in internal/config/writer.go and internal/config/config.go.
pub mod Pairs
pub mod Edits
use dockhand.Prelude.{
  Bool, true, false, not, Option, none, some, ◌++◌, if◌then◌else◌, Text, codes, quoted, text_eq,
  Result, ok, err,
}

-- yaml.Kind
pub data Kind : Type 0 where
  document : Kind
  sequence : Kind
  mapping : Kind
  scalar : Kind
  alias : Kind

-- What the program reads and writes of a yaml.Node: its kind, tag, value and content. The content of
-- a mapping has keys and values in turn.
mutual
  pub data Node : Type 0 where
    node : Kind → Text → Text → Nodes → Node

  pub data Nodes : Type 0 where
    no_nodes : Nodes
    more : Node → Nodes → Nodes

abbrev pub is_mapping : Node → Bool
is_mapping (node document t v c) = false
is_mapping (node sequence t v c) = false
is_mapping (node mapping t v c) = true
is_mapping (node scalar t v c) = false
is_mapping (node alias t v c) = false

abbrev pub value : Node → Text
value (node k t v c) = v

abbrev pub content : Node → Nodes
content (node k t v c) = c

abbrev pub with_value : Text → Node → Node
with_value w (node k t v c) = node k t w c

abbrev pub with_content : (Nodes → Nodes) → Node → Node
with_content f (node k t v c) = node k t v (f c)

-- The value behind the first key that is `key`, in a content of keys and values.
unfoldable pub get_pair : Text → Nodes → Option Node
get_pair key no_nodes = none
get_pair key (more k no_nodes) = none
get_pair key (more k (more v rest)) = if text_eq (value k) key then some v else get_pair key rest

-- The same value, changed in place.
unfoldable pub change_pair : Text → (Node → Node) → Nodes → Nodes
change_pair key f no_nodes = no_nodes
change_pair key f (more k no_nodes) = more k no_nodes
change_pair key f (more k (more v rest)) =
    if text_eq (value k) key
    then more k (more (f v) rest)
    else more k (more v (change_pair key f rest))

-- The first key that is `key` and its value, taken out.
unfoldable pub remove_pair : Text → Nodes → Nodes
remove_pair key no_nodes = no_nodes
remove_pair key (more k no_nodes) = more k no_nodes
remove_pair key (more k (more v rest)) =
    if text_eq (value k) key then rest else more k (more v (remove_pair key rest))

abbrev pub append_pair : Node → Node → Nodes → Nodes
append_pair key v no_nodes = more key (more v no_nodes)
append_pair key v (more k rest) = more k (append_pair key v rest)

-- mappingGet
unfoldable pub mapping_get : Text → Node → Option Node
unfolding get_pair
mapping_get key n = if is_mapping n then get_pair key (content n) else none

abbrev pub first_node : Nodes → Option Node
first_node no_nodes = none
first_node (more n rest) = some n

abbrev pub change_first : (Node → Node) → Nodes → Nodes
change_first f no_nodes = no_nodes
change_first f (more n rest) = more (f n) rest

abbrev pub str_node : Text → Node
str_node v = node scalar (codes "!!str") v no_nodes

abbrev pub current_version_key : Text
current_version_key = codes "current_version"

-- The entry `current_version` of an operation or an app, set or appended.
abbrev pub put_version : Text → Option Node → Node → Node
put_version version (some cv) n =
    with_content (change_pair current_version_key (with_value version)) n
put_version version none n =
    with_content (append_pair (str_node current_version_key) (str_node version)) n

abbrev pub is_current : Text → Option Node → Bool
is_current version none = false
is_current version (some cv) = text_eq (value cv) version

-- The edit of the whole tree: the entry `name` of the entry `section` of the root.
abbrev pub edited : Text → Text → Text → Node → Option Node → Node
edited section name version doc cv =
    with_content
      (change_first (
        with_content
          (change_pair section (with_content (change_pair name (put_version version cv))))))
      doc

-- Where UpdateOperationVersion and UpdateAppVersion differ: the section of the file, and the messages.
pub record Section : Type 0 where
  pub key : Text
  pub word : Text
  pub update : Text

abbrev pub operations_section : Section
operations_section = record {
  key = codes "operations";
  word = codes "operation ";
  update = codes "version update: ";
}

abbrev pub apps_section : Section
apps_section = record {
  key = codes "apps";
  word = codes "app ";
  update = codes "app version update: ";
}

abbrev pub edit_entry : Section → Text → Text → Node → Option Node → Result (Option Node)
edit_entry s name version doc none = err (s.word ++ quoted name ++ codes " not found in config")
edit_entry s name version doc (some entry) =
    let cv = mapping_get current_version_key entry in
    if is_current version cv then ok none else ok (some (edited s.key name version doc cv))

abbrev pub edit_section : Section → Text → Text → Node → Option Node → Result (Option Node)
edit_section s name version doc none = err (codes "no '" ++ s.key ++ codes "' key in config")
edit_section s name version doc (some entries) =
    edit_entry s name version doc (mapping_get name entries)

abbrev pub edit_root : Section → Text → Text → Node → Option Node → Result (Option Node)
edit_root s name version doc none = err (codes "empty config document")
edit_root s name version doc (some root) = edit_section s name version doc (mapping_get s.key root)

-- The tree that is written back; `none` if the version is there already.
unfoldable pub edit_version : Section → Text → Text → Node → Result (Option Node)
unfolding mapping_get change_pair
edit_version s name version doc = edit_root s name version doc (first_node (content doc))

-- ClearEnrollmentToken: the tree without the token, if it is a document with a mapping.
abbrev pub without_token : Node → Node
without_token n =
    if is_mapping n then with_content (remove_pair (codes "enrollment_token")) n else n

abbrev is_document : Node → Bool
is_document (node document t v c) = true
is_document (node sequence t v c) = false
is_document (node mapping t v c) = false
is_document (node scalar t v c) = false
is_document (node alias t v c) = false

abbrev pub clear_top : Node → Option Node → Result Node
clear_top doc none = err (codes "unexpected YAML structure")
clear_top doc (some top) =
    if not (is_document doc)
    then err (codes "unexpected YAML structure")
    else if is_mapping top
    then ok (
        with_content (change_first (with_content (change_pair (codes "runner") without_token))) doc)
    else err (codes "expected top-level mapping")

unfoldable pub clear_token : Node → Result Node
unfolding change_pair remove_pair
clear_token doc = clear_top doc (first_node (content doc))
