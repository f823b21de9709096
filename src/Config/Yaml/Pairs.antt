-- ===== src/Config/Yaml/Pairs.antt =====
-- What the edits of keys and values in internal/config/writer.go do to a lookup.
use dockhand.Prelude.{
  subst, Bool-cases, inl, inr, ℕ, ◌+◌, ◌≤◌, ◌≡◌, refl, Bool, true, false, Option, none, some, arith,
  if◌then◌else◌, Text, text_eq, text_eq_iff,
}
use dockhand.Config.Yaml.{
  Node, Nodes, no_nodes, more, value, get_pair, change_pair, remove_pair, append_pair,
}

-- Every key has a value.
abbrev pub is_paired : Nodes → Bool
is_paired no_nodes = true
is_paired (more k no_nodes) = false
is_paired (more k (more v rest)) = is_paired rest

abbrev pub count_key : Text → Nodes → ℕ
count_key key no_nodes = 0
count_key key (more k no_nodes) = 0
count_key key (more k (more v rest)) = (if text_eq (value k) key then 1 else 0) + count_key key rest

abbrev pub on_some : (Node → Node) → Option Node → Option Node
on_some f none = none
on_some f (some n) = some (f n)

pub get_pair-change_pair :
    (j k : Text) (f : Node → Node) (c : Nodes)
    → get_pair j (change_pair k f c)
      ≡ (if text_eq k j then on_some f (get_pair j c) else get_pair j c)
unfolding get_pair change_pair
get_pair-change_pair j k f no_nodes = ground arith
get_pair-change_pair j k f (more a no_nodes) = ground arith
get_pair-change_pair j k f (more a (more v rest)) = ground (
  arith,
  text_eq_iff k j,
  text_eq_iff (value a) j,
  text_eq_iff (value a) k,
  get_pair-change_pair j k f rest,
)

pub get_pair-append_pair :
    (j : Text) (k v : Node) (c : Nodes)
    → is_paired c ≡ true
    → get_pair (value k) c ≡ none
    → get_pair j (append_pair k v c) ≡ (if text_eq (value k) j then some v else get_pair j c)
unfolding get_pair
get_pair-append_pair j k v no_nodes p h = ground arith
get_pair-append_pair j k v (more a no_nodes) p h = cc
get_pair-append_pair j k v (more a (more w rest)) p h = ground (
  arith,
  text_eq_iff (value k) j,
  text_eq_iff (value a) j,
  text_eq_iff (value a) (value k),
  get_pair-append_pair j k v rest p,
)

get_pair-absent : (j : Text) (c : Nodes) → count_key j c ≡ 0 → get_pair j c ≡ none
unfolding get_pair
get_pair-absent j no_nodes h = refl
get_pair-absent j (more a no_nodes) h = refl
get_pair-absent j (more a (more v rest)) h = ground (arith, get_pair-absent j rest)

-- Behind a removed pair there is no other with its key.
get_pair-removed :
    (j k : Text) (a v : Node) (rest : Nodes)
    → value a ≡ k
    → get_pair k rest ≡ none
    → text_eq (value a) k ≡ true
    → get_pair j (remove_pair k (more a (more v rest)))
      ≡ (if text_eq k j then none else get_pair j (more a (more v rest)))
unfolding get_pair remove_pair
get_pair-removed j k a v rest same absent e = elim (Bool-cases (text_eq k j)) [
  | inl d ↦ rw (e, d) (subst (λ x. get_pair x rest ≡ none) ((text_eq_iff k j).0 d) absent)
  | inr d ↦ rw (e, d, same, d) refl
]

pub get_pair-remove_pair :
    (j k : Text) (c : Nodes)
    → count_key k c ≤ 1
    → get_pair j (remove_pair k c) ≡ (if text_eq k j then none else get_pair j c)
unfolding get_pair remove_pair
get_pair-remove_pair j k no_nodes h = ground arith
get_pair-remove_pair j k (more a no_nodes) h = ground arith
get_pair-remove_pair j k (more a (more v rest)) h = elim (Bool-cases (text_eq (value a) k)) [
  | inl e ↦
      get_pair-removed j k a v rest ((text_eq_iff (value a) k).0 e)
        (get_pair-absent k rest (ground (arith, e))) e
  | inr e ↦
      let ih = get_pair-remove_pair j k rest (ground (arith, e)) in
      rw e (elim (Bool-cases (text_eq (value a) j)) [
        | inl d ↦
            rw d (ground (arith, text_eq_iff k j, text_eq_iff (value a) j, text_eq_iff (value a) k))
        | inr d ↦ rw d ih
      ])
]

pub ruleset pair_laws = (get_pair-change_pair, get_pair-remove_pair)
