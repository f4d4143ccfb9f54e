-- ===== src/Storage/Trie.antt =====
-- `NameTrie` of src/storage/storage-engine.cpp: `insert` and `getLongestPrefixes`. A node is owned
-- by one parent alone, so the shared pointers are a tree. The order of an `unordered_map` is
-- unspecified: children are kept in the order in which they came.
use fast_repo.Prelude.{Bool, true, false, Option, none, some, List, [], ◌∷◌, if◌then◌else◌, ite}
use fast_repo.Prelude.Bytes.{Bytes, bytes_discrete, is_empty}

mutual
  pub data Trie : Type 0 where
    node : Bool → Children → Trie

  pub data Children : Type 0 where
    nil : Children
    child : Bytes → Trie → Children → Children

-- `TrieNode()`: `isLeaf(false)`, no components.
abbrev pub new_node : Trie
new_node = node false nil

-- `components.find(c)`
unfoldable pub find_child : Bytes → Children → Option Trie
find_child c nil = none
find_child c (child d t ch) = ite (bytes_discrete d c) (some t) (find_child c ch)

-- `components[c] = t`
unfoldable pub put_child : Bytes → Trie → Children → Children
put_child c t nil = child c t nil
put_child c t (child d u ch) =
    let rest = put_child c t ch in ite (bytes_discrete d c) (child c t ch) (child d u rest)

abbrev pub children : Trie → Children
children (node leaf ch) = ch

abbrev pub is_leaf : Trie → Bool
is_leaf (node leaf ch) = leaf

abbrev pub or_new : Option Trie → Trie
or_new none = new_node
or_new (some t) = t

-- The loop of `insert` over the components that `split` gave; an empty one is skipped.
unfoldable pub insert : List Bytes → Trie → Trie
unfolding find_child put_child
insert [] curr = curr
insert (c ∷ cs) curr =
    let skipped = insert cs curr in
    let below = insert cs (or_new (find_child c (children curr))) in
    if is_empty c then skipped else node (is_leaf curr) (put_child c below (children curr))

-- The `while` loop of `getLongestPrefixes`: down from a node while it has one child alone.
unfoldable pub only_child_path : Trie → List Bytes
only_child_path (node true ch) = []
only_child_path (node false nil) = []
only_child_path (node false (child c t nil)) = c ∷ only_child_path t
only_child_path (node false (child c t (child d u ch))) = []

-- The `for` loop over the children of the head; each result is the list of its components.
unfoldable pub prefixes_of : Children → List (List Bytes)
prefixes_of nil = []
prefixes_of (child c t ch) = (c ∷ only_child_path t) ∷ prefixes_of ch

unfoldable pub get_longest_prefixes : Trie → List (List Bytes)
unfolding prefixes_of only_child_path
get_longest_prefixes head = prefixes_of (children head)
