-- ===== src/Storage/Sound.antt =====
-- The prefixes that `getLongestPrefixes` returns of a trie that `insert` has filled.
use fast_repo.Prelude.{
  true, false, ◌||◌, ◌≡◌, refl, ap, sym, ◌∙◌, inl, inr, none, some, List, [], ◌∷◌, arith, In, any,
  if_pos, if_neg, subst, ◌≢◌, Bool-cases,
}
use fast_repo.Prelude.Bytes.{Bytes, bytes_discrete, is_empty}
use fast_repo.Storage.Trie.{
  Trie, Children, node, nil, child, new_node, find_child, put_child, children, or_new, insert,
  only_child_path, prefixes_of, get_longest_prefixes,
}
use fast_repo.Storage.Prefixes.{
  has_path, begins, kept, has_path-insert, find_child-put_child, follow,
}

false≢true : ¬ (false ≡ true)
false≢true h = cc

only_child_path-has_path : (t : Trie) → has_path (only_child_path t) t ≡ true
unfolding has_path only_child_path find_child
only_child_path-has_path (node true ch) = refl
only_child_path-has_path (node false nil) = refl
only_child_path-has_path (node false (child c t nil)) =
    ap (follow (has_path (only_child_path t))) (if_pos (bytes_discrete c c) refl (some t) none)
    ∙ only_child_path-has_path t
only_child_path-has_path (node false (child c t (child d u ch))) = refl

-- No two children stand under the same component.
abbrev Unique : Children → Type 0
Unique nil = Unit
Unique (child c t ch) = (find_child c ch ≡ none) × Unique ch

put_child-Unique : (c : Bytes) (t : Trie) (ch : Children) → Unique ch → Unique (put_child c t ch)
unfolding put_child find_child
put_child-Unique c t nil u = (refl, tt)
put_child-Unique c t (child d v ch) (absent, u) = elim (bytes_discrete d c) [
  | yes p ↦ rw (if_pos _ p) (subst (λ x. find_child x ch ≡ none) p absent, u)
  | no p ↦ rw (if_neg _ p) (
    find_child-put_child c d t ch
        ∙ if_neg (bytes_discrete c d) (λ e. p (sym e)) (some t) (find_child d ch)
        ∙ absent,
    put_child-Unique c t ch u,
  )
]

insert-Unique : (cs : List Bytes) (t : Trie) → Unique (children t) → Unique (children (insert cs t))
unfolding insert
insert-Unique [] t u = u
insert-Unique (c ∷ cs) t u = elim (Bool-cases (is_empty c)) [
  | inl e ↦ rw e (insert-Unique cs t u)
  | inr e ↦
      rw e (put_child-Unique c (insert cs (or_new (find_child c (children t)))) (children t) u)
]

still_there :
    (q : List Bytes) (c : Bytes) (t : Trie) (ch : Children)
    → find_child c ch ≡ none
    → has_path q (node false ch) ≡ true
    → has_path q (node false (child c t ch)) ≡ true
unfolding has_path find_child
still_there [] c t ch absent there = refl
still_there (d ∷ ds) c t ch absent there = elim (bytes_discrete c d) [
  | yes p ↦
      let none_left = subst (λ x. find_child x ch ≡ none) p absent in
      absurd (false≢true (sym (ap (follow (has_path ds)) none_left) ∙ there))
  | no p ↦ rw (if_neg _ p) there
]

prefixes_of-has_path :
    (q : List Bytes) (ch : Children)
    → Unique ch
    → In q (prefixes_of ch)
    → (has_path q (node false ch) ≡ true) × (has_path q new_node ≡ false)
unfolding has_path prefixes_of find_child
prefixes_of-has_path q nil u m = absurd m
prefixes_of-has_path q (child c t ch) (absent, u) (inl e) =
    subst (λ x. (has_path x (node false (child c t ch)) ≡ true) × (has_path x new_node ≡ false))
      (sym e)
      (
        ap (follow (has_path (only_child_path t)))
              (if_pos (bytes_discrete c c) refl (some t) (find_child c ch))
            ∙ only_child_path-has_path t,
        refl,
      )
prefixes_of-has_path q (child c t ch) (absent, u) (inr m) =
    let (there, not_empty) = prefixes_of-has_path q ch u m in
    (still_there q c t ch absent there, not_empty)

-- Keys inserted one after another.
unfoldable pub insert_all : List (List Bytes) → Trie → Trie
insert_all [] t = t
insert_all (k ∷ ks) t = insert_all ks (insert k t)

insert_all-Unique :
    (ks : List (List Bytes)) (t : Trie) → Unique (children t) → Unique (children (insert_all ks t))
unfolding insert_all
insert_all-Unique [] t u = u
insert_all-Unique (k ∷ ks) t u = insert_all-Unique ks (insert k t) (insert-Unique k t u)

has_path-insert_all :
    (p : List Bytes) (ks : List (List Bytes)) (t : Trie)
    → has_path p (insert_all ks t) ≡ (has_path p t || any (λ k. begins p (kept k)) ks)
unfolding insert_all
has_path-insert_all p [] t = ground arith
has_path-insert_all p (k ∷ ks) t =
    ground (arith, has_path-insert_all p ks (insert k t), has_path-insert p k t)

has_path-children :
    (q : List Bytes) (t : Trie) → has_path q (node false (children t)) ≡ has_path q t
unfolding has_path
has_path-children [] t = refl
has_path-children (c ∷ cs) t = refl

-- Each prefix that `getLongestPrefixes` returns of the trie of any keys begins the components of
-- one of the keys, and has a component.
pub get_longest_prefixes-begins :
    (keys : List (List Bytes)) (q : List Bytes)
    → In q (get_longest_prefixes (insert_all keys new_node))
    → (any (λ k. begins q (kept k)) keys ≡ true) × (q ≢ [])
unfolding get_longest_prefixes has_path
get_longest_prefixes-begins keys q m =
    let t = insert_all keys new_node in
    let (there, not_empty) =
      prefixes_of-has_path q (children t) (insert_all-Unique keys new_node tt) m in
    (
      sym (ap (λ b. b || any (λ k. begins q (kept k)) keys) not_empty)
          ∙ sym (has_path-insert_all q keys new_node)
          ∙ sym (has_path-children q t)
          ∙ there,
      λ e. false≢true (sym not_empty ∙ ap (λ x. has_path x new_node) e),
    )
