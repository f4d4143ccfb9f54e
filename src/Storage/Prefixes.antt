-- ===== src/Storage/Prefixes.antt =====
-- What the trie of `NameTrie` holds, and what `getLongestPrefixes` returns of it.
use fast_repo.Prelude.{
  Bool, true, false, ◌||◌, ◌≡◌, refl, ap, ◌≢◌, inl, inr, Option, none, some, List, [], ◌∷◌, ◌++◌,
  arith, if◌then◌else◌, In, All, ite, if_pos, Bool-cases,
}
use fast_repo.Prelude.Bytes.{Bytes, bytes_discrete, is_empty}
use fast_repo.Storage.Trie.{
  Trie, Children, node, nil, child, new_node, find_child, put_child, children, or_new, insert,
  only_child_path, prefixes_of, get_longest_prefixes,
}

abbrev pub follow : (Trie → Bool) → Option Trie → Bool
follow f none = false
follow f (some t) = f t

-- Whether a path of components leads down from a node.
unfoldable pub has_path : List Bytes → Trie → Bool
has_path [] t = true
has_path (c ∷ cs) t = follow (has_path cs) (find_child c (children t))

-- Whether the first list begins the second.
unfoldable pub begins : List Bytes → List Bytes → Bool
begins [] ds = true
begins (c ∷ cs) [] = false
begins (c ∷ cs) (d ∷ ds) = ite (bytes_discrete c d) (begins cs ds) false

-- The components that `insert` does not skip.
unfoldable pub kept : List Bytes → List Bytes
kept [] = []
kept (c ∷ cs) = if is_empty c then kept cs else c ∷ kept cs

pub find_child-put_child :
    (c d : Bytes) (t : Trie) (ch : Children)
    → find_child d (put_child c t ch) ≡ ite (bytes_discrete c d) (some t) (find_child d ch)
unfolding find_child put_child
find_child-put_child c d t nil = refl
find_child-put_child c d t (child e u ch) = ground (arith, find_child-put_child c d t ch)

-- a node that was not there has no path but the empty one
has_path-or_new :
    (ds ks : List Bytes) (o : Option Trie)
    → (has_path ds (or_new o) || begins ds ks) ≡ (follow (has_path ds) o || begins ds ks)
unfolding has_path begins find_child
has_path-or_new [] ks none = refl
has_path-or_new (d ∷ ds) ks none = refl
has_path-or_new ds ks (some t) = refl

-- After `insert`, the paths are those from before, and those that begin the components inserted.
pub has_path-insert :
    (p cs : List Bytes) (t : Trie) → has_path p (insert cs t) ≡ (has_path p t || begins p (kept cs))
unfolding has_path insert begins kept
has_path-insert [] cs t = refl
has_path-insert (d ∷ ds) [] t = ground arith
has_path-insert (d ∷ ds) (c ∷ cs) t = elim (Bool-cases (is_empty c)) [
  | inl e ↦ rw e (has_path-insert (d ∷ ds) cs t)
  | inr e ↦
      rw (e, find_child-put_child)
        (ground (
          arith,
          has_path-insert ds cs (or_new (find_child c (children t))),
          has_path-or_new ds (kept cs) (find_child c (children t)),
        ))
]

-- The components from a node down, while there is one child alone, begin each path from there that
-- goes no further.
only_child_path-begins :
    (cs : List Bytes) (t : Trie)
    → has_path cs t ≡ true
    → ((c : Bytes) → has_path (cs ++ c ∷ []) t ≡ false)
    → begins (only_child_path t) cs ≡ true
unfolding has_path only_child_path begins find_child
only_child_path-begins cs (node true ch) h ends = refl
only_child_path-begins cs (node false nil) h ends = refl
only_child_path-begins [] (node false (child c t nil)) h ends = ground (arith, ends c)
only_child_path-begins (d ∷ cs) (node false (child c t nil)) h ends =
    let down = only_child_path-begins cs t in
    elim (bytes_discrete c d) [
      | yes q ↦ rw (if_pos _ q) (down (ground arith) (λ x. ground (arith, ends x)))
      | no q ↦ ground arith
    ]
only_child_path-begins cs (node false (child c t (child d u ch))) h ends = refl

prefixes_of-covers :
    (c : Bytes) (cs : List Bytes) (ch : Children)
    → follow (has_path cs) (find_child c ch) ≡ true
    → ((x : Bytes) → follow (has_path (cs ++ x ∷ [])) (find_child c ch) ≡ false)
    → (q : List Bytes) × In q (prefixes_of ch) × (begins q (c ∷ cs) ≡ true)
unfolding find_child prefixes_of begins
prefixes_of-covers c cs nil h ends = cc
prefixes_of-covers c cs (child d t ch) h ends = elim (bytes_discrete d c) [
  | yes p ↦ (
    d ∷ only_child_path t,
    inl refl,
    rw (if_pos _ p) (only_child_path-begins cs t (ground arith) (λ x. ground (arith, ends x))),
  )
  | no p ↦
      let (q, m, b) = prefixes_of-covers c cs ch (ground arith) (λ x. ground (arith, ends x)) in
      (q, inr m, b)
]

-- Each path of the trie that is not empty and goes no further (a stored key that is no proper
-- prefix of another) is begun by one of the prefixes that `getLongestPrefixes` returns.
pub get_longest_prefixes-covers :
    (p : List Bytes) (t : Trie)
    → p ≢ []
    → has_path p t ≡ true
    → ((c : Bytes) → has_path (p ++ c ∷ []) t ≡ false)
    → (q : List Bytes) × In q (get_longest_prefixes t) × (begins q p ≡ true)
unfolding has_path get_longest_prefixes
get_longest_prefixes-covers [] t ne h ends = absurd (ne refl)
get_longest_prefixes-covers (c ∷ cs) (node leaf ch) ne h ends = prefixes_of-covers c cs ch h ends

-- A trie of one path.
abbrev line : List Bytes → Trie
line [] = new_node
line (c ∷ cs) = node false (child c (line cs) nil)

abbrev NonEmpty : Bytes → Type 0
NonEmpty c = is_empty c ≡ false

only_child_path-line : (cs : List Bytes) → only_child_path (line cs) ≡ cs
unfolding only_child_path
only_child_path-line [] = refl
only_child_path-line (c ∷ cs) = ap (◌∷◌ c) (only_child_path-line cs)

insert-line_new : (cs : List Bytes) → All NonEmpty cs → insert cs new_node ≡ line cs
unfolding insert find_child put_child
insert-line_new [] a = refl
insert-line_new (c ∷ cs) a = rw (a.0, insert-line_new cs a.1)

insert-line :
    (cs ds : List Bytes)
    → All NonEmpty cs
    → All NonEmpty ds
    → insert (cs ++ ds) (line cs) ≡ line (cs ++ ds)
unfolding insert find_child put_child
insert-line [] ds a b = insert-line_new ds b
insert-line (c ∷ cs) ds a b = rw (
  a.0,
  if_pos (bytes_discrete c c) refl,
  if_pos (bytes_discrete c c) refl,
  insert-line cs ds a.1 b,
)

longer : (cs ds : List Bytes) → ds ≢ [] → begins (cs ++ ds) cs ≡ false
unfolding begins
longer [] [] ne = absurd (ne refl)
longer [] (d ∷ ds) ne = refl
longer (c ∷ cs) ds ne = ground (arith, longer cs ds ne)

-- Where the keys inserted are a key and an extension of it, of components that are not empty, the
-- one prefix returned is the extension, and it does not begin the shorter key: `isLeaf` is never
-- set.
pub shorter_key_is_lost :
    (c : Bytes) (cs ds : List Bytes)
    → All NonEmpty (c ∷ cs)
    → All NonEmpty ds
    → ds ≢ []
    → (get_longest_prefixes (insert ((c ∷ cs) ++ ds) (insert (c ∷ cs) new_node))
        ≡ ((c ∷ cs) ++ ds) ∷ [])
      × (begins ((c ∷ cs) ++ ds) (c ∷ cs) ≡ false)
unfolding get_longest_prefixes
shorter_key_is_lost c cs ds a b ne = (
  rw (insert-line_new (c ∷ cs) a, insert-line (c ∷ cs) ds a b)
      (ap (λ (x : List Bytes). (c ∷ x) ∷ []) (only_child_path-line (cs ++ ds))),
  longer (c ∷ cs) ds ne,
)
