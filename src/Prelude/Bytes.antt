-- ===== src/Prelude/Bytes.antt =====
-- `std::string` as the list of its bytes: equality, prefixes, and the bytewise order of keys.
use Prim.Native.Nat.{ℕ}
use native.Mathlib.Decide.{ℕ_discrete}
use native.Mathlib.Omega.{arith}
use mathlib.Core.Path.{◌≡◌, refl}
use mathlib.Core.Bool.{Bool, true, false, ◌&&◌}
use mathlib.Core.List.{List, [], ◌∷◌, ◌++◌}
use fast_repo.Prelude.Tests.{ltb, ◌==◌, if◌then◌else◌}

abbrev pub Bytes : Type 0
Bytes = List ℕ

unfoldable pub bytes_discrete : Discrete Bytes
bytes_discrete = hlevel ℕ_discrete

-- `s == ""`
abbrev pub is_empty : Bytes → Bool
is_empty [] = true
is_empty (c ∷ s) = false

-- Whether the first string begins the second.
unfoldable pub is_prefix : Bytes → Bytes → Bool
is_prefix [] s = true
is_prefix (c ∷ p) [] = false
is_prefix (c ∷ p) (d ∷ s) = (c == d) && is_prefix p s

-- The bytewise lexicographic order.
unfoldable pub bytes_le : Bytes → Bytes → Bool
bytes_le [] t = true
bytes_le (c ∷ s) [] = false
bytes_le (c ∷ s) (d ∷ t) = if ltb c d then true else ((c == d) && bytes_le s t)

pub bytes_le_refl : (s : Bytes) → bytes_le s s ≡ true
unfolding bytes_le
bytes_le_refl [] = refl
bytes_le_refl (c ∷ s) = ground (arith, bytes_le_refl s)

pub bytes_le_trans :
    (s t u : Bytes) → bytes_le s t ≡ true → bytes_le t u ≡ true → bytes_le s u ≡ true
unfolding bytes_le
bytes_le_trans [] t u h k = refl
bytes_le_trans (c ∷ s) [] u h k = ground arith
bytes_le_trans (c ∷ s) (d ∷ t) [] h k = ground arith
bytes_le_trans (c ∷ s) (d ∷ t) (e ∷ u) h k = ground (arith, bytes_le_trans s t u)

-- A string is not above what it begins.
pub le_of_is_prefix : (p s : Bytes) → is_prefix p s ≡ true → bytes_le p s ≡ true
unfolding is_prefix bytes_le
le_of_is_prefix [] s h = refl
le_of_is_prefix (c ∷ p) [] h = ground arith
le_of_is_prefix (c ∷ p) (d ∷ s) h = ground (arith, le_of_is_prefix p s)

-- The strings that begin with `p` are a block of the order: what lies between `p` and one of them
-- begins with `p` too.
pub is_prefix_between :
    (p s t : Bytes)
    → bytes_le p s ≡ true
    → bytes_le s t ≡ true
    → is_prefix p t ≡ true
    → is_prefix p s ≡ true
unfolding is_prefix bytes_le
is_prefix_between [] s t h k q = refl
is_prefix_between (c ∷ p) [] t h k q = ground arith
is_prefix_between (c ∷ p) (d ∷ s) [] h k q = ground arith
is_prefix_between (c ∷ p) (d ∷ s) (e ∷ t) h k q = ground (arith, is_prefix_between p s t)

pub is_prefix_append : (p s : Bytes) → is_prefix p (p ++ s) ≡ true
unfolding is_prefix
is_prefix_append [] s = refl
is_prefix_append (c ∷ p) s = ground (arith, is_prefix_append p s)

pub le_empty : (s : Bytes) → bytes_le s [] ≡ true → s ≡ []
unfolding bytes_le
le_empty [] h = refl
le_empty (c ∷ s) h = cc

pub is_empty_eq : (s : Bytes) → is_empty s ≡ true → s ≡ []
is_empty_eq [] h = refl
is_empty_eq (c ∷ s) h = cc

pub bytes_le_total : (s t : Bytes) → bytes_le s t ≡ false → bytes_le t s ≡ true
unfolding bytes_le
bytes_le_total [] t h = cc
bytes_le_total (c ∷ s) [] h = refl
bytes_le_total (c ∷ s) (d ∷ t) h = ground (arith, bytes_le_total s t)

pub bytes_le_antisym : (s t : Bytes) → bytes_le s t ≡ true → bytes_le t s ≡ true → s ≡ t
unfolding bytes_le
bytes_le_antisym [] [] h k = refl
bytes_le_antisym [] (d ∷ t) h k = cc
bytes_le_antisym (c ∷ s) [] h k = cc
bytes_le_antisym (c ∷ s) (d ∷ t) h k = ground (arith, bytes_le_antisym s t)
