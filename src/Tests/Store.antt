-- ===== src/Tests/Store.antt =====
-- A store that meets the laws of RocksDB: a list of entries in strictly ascending order.
use fast_repo.Prelude.{
  ◌≡◌, refl, ◌∙◌, inl, inr, true, false, Option, none, some, List, [], ◌∷◌, arith, ite, if_pos,
  if_neg, if◌then◌else◌, Bool-cases, All, In, subst,
}
use fast_repo.Prelude.Bytes.{
  Bytes, bytes_discrete, bytes_le, bytes_le_refl, bytes_le_trans, bytes_le_total, bytes_le_antisym,
  is_prefix,
}
use fast_repo.Ndn.{Rocks, IteratorLaws, WriteLaws, Ascending}

abbrev pub Entry : Type 0
Entry = Bytes × Bytes

abbrev pub Below : Bytes → Entry → Type 0
Below k e = (bytes_le k e.0 ≡ true) × (bytes_le e.0 k ≡ false)

abbrev pub Strict : List Entry → Type 0
Strict [] = Unit
Strict (e ∷ es) = All (Below e.0) es × Strict es

-- The proof that the entries ascend is part of the store.
pub record Sorted : Type 0 where
  pub entries : List Entry
  pub strict : Strict entries

unfoldable pub find : Bytes → List Entry → Option Bytes
find k [] = none
find k ((j, v) ∷ es) = ite (bytes_discrete j k) (some v) (find k es)

unfoldable pub insert : Bytes → Bytes → List Entry → List Entry
insert k v [] = (k, v) ∷ []
insert k v ((j, w) ∷ es) =
    let rest = insert k v es in
    ite (bytes_discrete j k) ((k, v) ∷ es)
      (if bytes_le k j then (k, v) ∷ (j, w) ∷ es else (j, w) ∷ rest)

unfoldable pub from : Bytes → List Entry → List Entry
from t [] = []
from t (e ∷ es) = let rest = from t es in if bytes_le t e.0 then e ∷ rest else rest

All-Below-trans :
    (k j : Bytes) (es : List Entry) → Below k (j, []) → All (Below j) es → All (Below k) es
All-Below-trans k j [] b a = tt
All-Below-trans k j (e ∷ es) b a = (
  (bytes_le_trans k j e.0 b.0 a.0.0, ground (arith, bytes_le_trans e.0 k j)),
  All-Below-trans k j es b a.1,
)

All-Below-insert :
    (i k v : Bytes) (es : List Entry)
    → Below i (k, v)
    → All (Below i) es
    → All (Below i) (insert k v es)
unfolding insert
All-Below-insert i k v [] b a = (b, tt)
All-Below-insert i k v ((j, w) ∷ es) b a = ground (arith, All-Below-insert i k v es b a.1)

pub Strict-insert : (k v : Bytes) (es : List Entry) → Strict es → Strict (insert k v es)
unfolding insert
Strict-insert k v [] s = (tt, tt)
Strict-insert k v ((j, w) ∷ es) s = elim (bytes_discrete j k) [
  | yes p ↦ rw (if_pos _ p) (subst (λ x. All (Below x) es) p s.0, s.1)
  | no p ↦ rw (if_neg _ p) (elim (Bool-cases (bytes_le k j)) [
    | inl h ↦
        let b : Below k (j, w) = (h, not_below h p) in rw h ((b, All-Below-trans k j es b s.0), s)
    | inr h ↦
        rw h (All-Below-insert j k v es (bytes_le_total k j h, h) s.0, Strict-insert k v es s.1)
  ])
]
  where
    not_below : bytes_le k j ≡ true → ¬ (j ≡ k) → bytes_le j k ≡ false
    not_below h p = elim (Bool-cases (bytes_le j k)) [
      | inl q ↦ absurd (p (bytes_le_antisym j k q h))
      | inr q ↦ q
    ]

find-insert :
    (k j v : Bytes) (es : List Entry)
    → find j (insert k v es) ≡ ite (bytes_discrete k j) (some v) (find j es)
unfolding find insert
find-insert k j v [] = refl
find-insert k j v ((i, w) ∷ es) = ground (arith, find-insert k j v es)

All-from : (P : Entry → Type 0) (t : Bytes) (es : List Entry) → All P es → All P (from t es)
unfolding from
All-from P t [] a = tt
All-from P t (e ∷ es) a = ground (arith, All-from P t es a.1)

from-above : (t : Bytes) (es : List Entry) → All (λ e. bytes_le t e.0 ≡ true) (from t es)
unfolding from
from-above t [] = tt
from-above t (e ∷ es) = ground (arith, from-above t es)

weaker : (k : Bytes) (es : List Entry) → All (Below k) es → All (λ e. bytes_le k e.0 ≡ true) es
weaker k [] a = tt
weaker k (e ∷ es) a = (a.0.0, weaker k es a.1)

Ascending-from : (t : Bytes) (es : List Entry) → Strict es → Ascending (from t es)
unfolding from
Ascending-from t [] s = tt
Ascending-from t (e ∷ es) s =
    ground (arith, Ascending-from t es s.1, All-from _ t es (weaker e.0 es s.0))

behind :
    (e : Entry) (fs es : List Entry)
    → All (Below e.0) fs
    → All (λ f. find f.0 es ≡ some f.1) fs
    → All (λ f. find f.0 (e ∷ es) ≡ some f.1) fs
unfolding find
behind e [] es b a = tt
behind e (f ∷ fs) es b a = (ground (arith, bytes_le_refl e.0), behind e fs es b.1 a.1)

find_sound : (es : List Entry) → Strict es → All (λ e. find e.0 es ≡ some e.1) es
find_sound [] s = tt
find_sound (e ∷ es) s = (
  unfold find in rw (if_pos (bytes_discrete e.0 e.0) refl),
  behind e es es s.0 (find_sound es s.1),
)

find_complete :
    (t k v : Bytes) (es : List Entry)
    → find k es ≡ some v
    → bytes_le t k ≡ true
    → In (k, v) (from t es)
unfolding find from
find_complete t k v [] h q = cc
find_complete t k v ((j, w) ∷ es) h q = elim (bytes_discrete j k) [
  | yes p ↦ rw (p, q) (inl (ground arith))
  | no p ↦
      let there = find_complete t k v es (ground arith) q in
      elim (Bool-cases (bytes_le t j)) [ inl b ↦ rw b (inr there) | inr b ↦ rw b there ]
]

abbrev pub sorted_store : Rocks
sorted_store = record {
  Store = Sorted;
  put = λ k v s. (
    true,
    record { entries = insert k v s.entries; strict = Strict-insert k v s.entries s.strict },
  );
  get = λ k s. find k s.entries;
  seek = λ t s. from t s.entries;
  seek_to_first = λ s. s.entries;
  scan_ok = λ s. true;
  starts_with = λ k p. is_prefix p k;
}

pub iterator_laws : IteratorLaws sorted_store
iterator_laws = record {
  starts_with_lem = λ k p. refl;
  seek_above = λ t s. from-above t s.entries;
  seek_ascending = λ t s. Ascending-from t s.entries s.strict;
  seek_sound = λ t s. All-from _ t s.entries (find_sound s.entries s.strict);
  seek_complete = λ t k v s h q. find_complete t k v s.entries h q;
}

pub write_laws : WriteLaws sorted_store
write_laws = record {
  get_written = λ k v s h. find-insert k k v s.entries ∙ rw (if_pos (bytes_discrete k k) refl);
  get_other = λ k j v s ne. find-insert k j v s.entries ∙ rw (if_neg (bytes_discrete k j) ne);
}

abbrev pub empty_store : Sorted
empty_store = record { entries = []; strict = tt }
