-- ===== src/Config/Yaml/Edits.antt =====
-- What the edits of internal/config/writer.go and ClearEnrollmentToken do to the tree.
use dockhand.Prelude.{
  or_zero, ℕ, ◌≤◌, ◌≡◌, refl, subst, true, false, ◌&&◌, Option, none, some, arith, Bool-cases,
  Option-cases, inl, inr, if◌then◌else◌, ap, Bool, List, [], ◌∷◌, Text, codes, text_eq, text_eq_iff,
  text_eq_refl, ok,
}
use dockhand.Config.Yaml.{
  document, mapping, scalar, sequence, alias, Node, node, Nodes, no_nodes, more, value, content,
  is_mapping, with_value, with_content, get_pair, change_pair, mapping_get, first_node,
  change_first, str_node, current_version_key, put_version, is_current, edited, Section, edit_entry,
  edit_section, edit_root, edit_version, without_token, clear_top, clear_token,
}
use dockhand.Config.Yaml.Pairs.{
  is_paired, count_key, on_some, get_pair-change_pair, get_pair-append_pair, get_pair-remove_pair,
}

-- The value behind a key of a mapping that may be missing.
unfoldable pub at_key : Text → Option Node → Option Node
at_key key none = none
at_key key (some n) = mapping_get key n

-- The node at the end of a path of keys.
abbrev pub node_along : List Text → Option Node → Option Node
node_along [] o = o
node_along (k ∷ path) o = node_along path (at_key k o)

-- Two paths of keys differ at some place that both have.
abbrev pub branches_off : List Text → List Text → Bool
branches_off [] path = false
branches_off (j ∷ ks) [] = false
branches_off (j ∷ ks) (k ∷ path) =
    let rest = branches_off ks path in if text_eq j k then rest else true

abbrev pub root_of : Node → Option Node
root_of doc = first_node (content doc)

-- The node at `section`, `name`, `key` of a document.
abbrev pub entry_at : Text → Text → Node → Option Node
entry_at section name doc = at_key name (at_key section (root_of doc))

abbrev pub node_at : Text → Text → Text → Node → Option Node
node_at section name key doc = at_key key (entry_at section name doc)

abbrev pub value_of : Option Node → Option Text
value_of none = none
value_of (some n) = some (value n)

-- The entry is a mapping of keys and values.
abbrev IsEntry : Option Node → Type 0
IsEntry none = ⊥
IsEntry (some n) = (is_mapping n ≡ true) × (is_paired (content n) ≡ true)

mapping_get-with_content :
    (j k : Text) (f : Node → Node) (n : Node)
    → mapping_get j (with_content (change_pair k f) n)
      ≡ (if text_eq k j then on_some f (mapping_get j n) else mapping_get j n)
unfolding mapping_get
mapping_get-with_content j k f (node mapping t v c) = get_pair-change_pair j k f c
mapping_get-with_content j k f (node document t v c) = ground arith
mapping_get-with_content j k f (node sequence t v c) = ground arith
mapping_get-with_content j k f (node scalar t v c) = ground arith
mapping_get-with_content j k f (node alias t v c) = ground arith

-- Lookups below a changed entry.
at_key-on_some :
    (j k : Text) (f : Node → Node) (o : Option Node)
    → at_key j (on_some (with_content (change_pair k f)) o)
      ≡ (if text_eq k j then on_some f (at_key j o) else at_key j o)
unfolding at_key
at_key-on_some j k f none = ground arith
at_key-on_some j k f (some n) = mapping_get-with_content j k f n

root_of-change_first :
    (f : Node → Node) (doc : Node)
    → root_of (with_content (change_first f) doc) ≡ on_some f (root_of doc)
root_of-change_first f (node k t v no_nodes) = refl
root_of-change_first f (node k t v (more n rest)) = refl

-- The entry at a place after a change of the entry at another.
entry_at-changed :
    (s n s' n' : Text) (f : Node → Node) (doc : Node)
    → entry_at s' n' (
        with_content
          (change_first (with_content (change_pair s (with_content (change_pair n f)))))
          doc)
      ≡ (if text_eq s s' && text_eq n n'
          then on_some f (entry_at s' n' doc)
          else entry_at s' n' doc)
entry_at-changed s n s' n' f doc =
    let g = with_content (change_pair n f) in
    rw
      (
        root_of-change_first (with_content (change_pair s g)) doc,
        at_key-on_some s' s g (root_of doc),
      )
      (elim (Bool-cases (text_eq s s')) [
        | inl e ↦ rw (e, at_key-on_some n' n f (at_key s' (root_of doc))) refl
        | inr e ↦ rw e refl
      ])

-- The content of an entry after the version was put there.
mapping_get-put_version :
    (j version t v : Text) (c : Nodes) (o : Option Node)
    → is_paired c ≡ true
    → get_pair current_version_key c ≡ o
    → mapping_get j (put_version version o (node mapping t v c)) ≡ (
        if text_eq current_version_key j
        then some (or_zero (str_node version) (on_some (with_value version) o))
        else get_pair j c)
unfolding mapping_get
mapping_get-put_version j version t v c none p h =
    get_pair-append_pair j (str_node current_version_key) (str_node version) c p h
mapping_get-put_version j version t v c (some cv) p h =
    rw (get_pair-change_pair j current_version_key (with_value version) c)
      (elim (Bool-cases (text_eq current_version_key j)) [
        | inl e ↦
            rw (e, subst (λ k. get_pair k c ≡ some cv) ((text_eq_iff current_version_key j).0 e) h)
              refl
        | inr e ↦ rw e refl
      ])

-- A node after the version was put into the entry that is there.
node_at-edited :
    (s n s' n' k version : Text) (doc e : Node)
    → entry_at s n doc ≡ some e
    → IsEntry (some e)
    → node_at s' n' k (edited s n version doc (mapping_get current_version_key e)) ≡ (
        if (text_eq s s' && text_eq n n') && text_eq current_version_key k
        then some (
            or_zero
              (str_node version)
              (on_some (with_value version) (mapping_get current_version_key e)))
        else node_at s' n' k doc)
unfolding at_key mapping_get
node_at-edited s n s' n' k version doc (node mapping t v c) h p =
    let cv = get_pair current_version_key c in
    rw (entry_at-changed s n s' n' (put_version version cv) doc)
      (elim (Bool-cases (text_eq s s' && text_eq n n')) [
        | inl e ↦
            let same =
              subst (λ a. entry_at a n' doc ≡ some (node mapping t v c))
                ((text_eq_iff s s').0 (ground (arith, e)))
                (subst (λ a. entry_at s a doc ≡ some (node mapping t v c))
                  ((text_eq_iff n n').0 (ground (arith, e))) h) in
            rw (e, same) (mapping_get-put_version k version t v c cv p.1 refl)
        | inr e ↦ rw e refl
      ])
node_at-edited s n s' n' k version doc (node document t v c) h p = cc
node_at-edited s n s' n' k version doc (node sequence t v c) h p = cc
node_at-edited s n s' n' k version doc (node scalar t v c) h p = cc
node_at-edited s n s' n' k version doc (node alias t v c) h p = cc

edit_entry-edited :
    (s : Section) (name version : Text) (doc doc' : Node) (o : Option Node)
    → edit_entry s name version doc o ≡ ok (some doc')
    → (e : Node) × (o ≡ some e)
      × (doc' ≡ edited s.key name version doc (mapping_get current_version_key e))
edit_entry-edited s name version doc doc' none h = cc
edit_entry-edited s name version doc doc' (some e) h =
    (e, refl, ground (arith, Bool-cases (is_current version (mapping_get current_version_key e))))

edit_section-edited :
    (s : Section) (name version : Text) (doc doc' : Node) (o : Option Node)
    → edit_section s name version doc o ≡ ok (some doc')
    → (e : Node) × (at_key name o ≡ some e)
      × (doc' ≡ edited s.key name version doc (mapping_get current_version_key e))
unfolding at_key
edit_section-edited s name version doc doc' none h = cc
edit_section-edited s name version doc doc' (some entries) h =
    edit_entry-edited s name version doc doc' (mapping_get name entries) h

edit_root-edited :
    (s : Section) (name version : Text) (doc doc' : Node) (root : Option Node)
    → edit_root s name version doc root ≡ ok (some doc')
    → (e : Node) × (at_key name (at_key s.key root) ≡ some e)
      × (doc' ≡ edited s.key name version doc (mapping_get current_version_key e))
unfolding at_key
edit_root-edited s name version doc doc' none h = cc
edit_root-edited s name version doc doc' (some root) h =
    edit_section-edited s name version doc doc' (mapping_get s.key root) h

module _ (s : Section) (name version : Text) (doc doc' : Node)
    (edit : edit_version s name version doc ≡ ok (some doc'))
    (is_entry : IsEntry (entry_at s.key name doc)) where
  node_at-edit_version :
      (s' n' k : Text)
      → (e : Node) × (node_at s' n' k doc' ≡ (
          if (text_eq s.key s' && text_eq name n') && text_eq current_version_key k
          then some (
              or_zero
                (str_node version)
                (on_some (with_value version) (mapping_get current_version_key e)))
          else node_at s' n' k doc))
  unfolding edit_version
  node_at-edit_version s' n' k =
      let (e, at, same) = edit_root-edited s name version doc doc' (root_of doc) edit in
      (e, rw same (node_at-edited s.key name s' n' k version doc e at (subst IsEntry at is_entry)))

  -- Where the entry is a mapping, the tree that UpdateOperationVersion or UpdateAppVersion writes back has
  -- the new version as its current version.
  pub edit_version-current : value_of (node_at s.key name current_version_key doc') ≡ some version
  edit_version-current =
      let (e, h) = node_at-edit_version s.key name current_version_key in
      rw h (
        ground (
          arith,
          text_eq_refl s.key,
          text_eq_refl name,
          text_eq_refl current_version_key,
          Option-cases (mapping_get current_version_key e),
        ))

  node_at-other :
      (s' n' k : Text)
      → ((text_eq s.key s' && text_eq name n') && text_eq current_version_key k) ≡ false
      → node_at s' n' k doc' ≡ node_at s' n' k doc
  node_at-other s' n' k h = let (e, at) = node_at-edit_version s' n' k in ground (arith, at)

  entry_at-other :
      (s' n' : Text)
      → (text_eq s.key s' && text_eq name n') ≡ false
      → entry_at s' n' doc' ≡ entry_at s' n' doc
  unfolding edit_version
  entry_at-other s' n' h =
      let (e, at, same) = edit_root-edited s name version doc doc' (root_of doc) edit in
      let put = put_version version (mapping_get current_version_key e) in
      rw (same, entry_at-changed s.key name s' n' put doc, h) refl

  section_at-other :
      (s' : Text) → text_eq s.key s' ≡ false → at_key s' (root_of doc') ≡ at_key s' (root_of doc)
  unfolding edit_version
  section_at-other s' h =
      let (e, at, same) = edit_root-edited s name version doc doc' (root_of doc) edit in
      let put = put_version version (mapping_get current_version_key e) in
      let change = change_pair name put in
      rw
        (
          same,
          root_of-change_first (with_content (change_pair s.key (with_content change))) doc,
          at_key-on_some s' s.key (with_content change) (root_of doc),
          h,
        )
        refl

  -- Where the entry is a mapping, that tree has the same node as before at the end of every path of
  -- keys, short or long, that branches off the path of the version: in the other sections and entries
  -- and behind the other keys of the entry.
  pub edit_version-other :
      (path : List Text)
      → branches_off (s.key ∷ name ∷ current_version_key ∷ []) path ≡ true
      → node_along path (root_of doc') ≡ node_along path (root_of doc)
  edit_version-other [] h = cc
  edit_version-other (a ∷ []) h = section_at-other a (ground arith)
  edit_version-other (a ∷ b ∷ []) h = entry_at-other a b (ground arith)
  edit_version-other (a ∷ b ∷ c ∷ path) h =
      ap (node_along path) (node_at-other a b c (ground arith))

-- How often a key stands in a mapping that may be missing.
abbrev count_at : Text → Option Node → ℕ
count_at key none = 0
count_at key (some n) = count_key key (content n)

at_key-without_token :
    (k : Text) (o : Option Node)
    → count_at (codes "enrollment_token") o ≤ 1
    → at_key k (on_some without_token o)
      ≡ (if text_eq (codes "enrollment_token") k then none else at_key k o)
unfolding at_key mapping_get
at_key-without_token k none h = ground arith
at_key-without_token k (some (node mapping t v c)) h =
    get_pair-remove_pair k (codes "enrollment_token") c h
at_key-without_token k (some (node document t v c)) h = ground arith
at_key-without_token k (some (node sequence t v c)) h = ground arith
at_key-without_token k (some (node scalar t v c)) h = ground arith
at_key-without_token k (some (node alias t v c)) h = ground arith

clear_top_changed :
    (doc doc' : Node) (root : Option Node)
    → clear_top doc root ≡ ok doc'
    → doc'
      ≡ with_content (change_first (with_content (change_pair (codes "runner") without_token))) doc
clear_top_changed doc doc' none h = cc
clear_top_changed doc doc' (some top) h = ground arith

-- Unless the token stands twice in it, the tree that ClearEnrollmentToken writes back has no token in
-- the section of the runner, and at every other place of two keys what it had there.
clear_token-entry_at :
    (doc doc' : Node) (s k : Text)
    → clear_token doc ≡ ok doc'
    → count_at (codes "enrollment_token") (at_key (codes "runner") (root_of doc)) ≤ 1
    → entry_at s k doc' ≡ (
        if text_eq (codes "runner") s && text_eq (codes "enrollment_token") k
        then none
        else entry_at s k doc)
unfolding clear_token
clear_token-entry_at doc doc' s k h few =
    rw
      (
        clear_top_changed doc doc' (root_of doc) h,
        root_of-change_first (with_content (change_pair (codes "runner") without_token)) doc,
        at_key-on_some s (codes "runner") without_token (root_of doc),
      )
      (elim (Bool-cases (text_eq (codes "runner") s)) [
        | inl e ↦ rw e (
            at_key-without_token k (at_key s (root_of doc)) (
              subst (λ a. count_at (codes "enrollment_token") (at_key a (root_of doc)) ≤ 1)
                ((text_eq_iff (codes "runner") s).0 e) few))
        | inr e ↦ rw e refl
      ])
