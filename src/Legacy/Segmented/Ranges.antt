-- ===== src/Legacy/Segmented/Ranges.antt =====
-- Lists of segments against a range of segments: what is missing, and how many there can be.
use fast_repo.Prelude.{
  ℕ, zero, suc, ◌+◌, ◌≤◌, ◌<◌, ◌≡◌, ◌≢◌, refl, subst, ap, sym, ◌∙◌, ◌⊎◌, inl, inr, List, [], ◌∷◌,
  ◌++◌, In, length, arith, ℕ_discrete,
}

-- `count` segments from one on
abbrev pub count_up : ℕ → ℕ → List ℕ
count_up zero segment = []
count_up (suc count) segment = segment ∷ count_up count (segment + 1)

pub count_up-suc :
    (count segment : ℕ)
    → count_up count segment ++ (segment + count) ∷ [] ≡ count_up (suc count) segment
count_up-suc zero segment = ap (λ x. x ∷ []) (omega arith)
count_up-suc (suc count) segment = ap (◌∷◌ segment) (
    ap (λ x. count_up count (segment + 1) ++ x ∷ []) (omega arith)
    ∙ count_up-suc count (segment + 1))

pub In-count_up :
    (count segment x : ℕ) → In x (count_up count segment) → (segment ≤ x) × (x < segment + count)
In-count_up zero segment x i = absurd i
In-count_up (suc count) segment x (inl e) = (omega arith, omega arith)
In-count_up (suc count) segment x (inr i) =
    let (a, b) = In-count_up count (segment + 1) x i in (omega arith, omega arith)

pub count_up-In :
    (count segment x : ℕ) → segment ≤ x → x < segment + count → In x (count_up count segment)
count_up-In zero segment x a b = absurd (omega arith)
count_up-In (suc count) segment x a b = elim (ℕ_discrete segment x) [
  | yes e ↦ inl (sym e)
  | no e ↦ inr (count_up-In count (segment + 1) x (omega arith) (omega arith))
]

In_decided : (x : ℕ) (xs : List ℕ) → In x xs ⊎ ¬ In x xs
In_decided x [] = inr (λ i. i)
In_decided x (y ∷ xs) = elim (ℕ_discrete x y) [
  | yes e ↦ inl (inl e)
  | no ne ↦ elim (In_decided x xs) [
    | inl i ↦ inl (inr i)
    | inr no_i ↦ inr (elim [ inl e ↦ ne e | inr i ↦ no_i i ])
  ]
]

-- The list without its first occurrence of a number.
abbrev without : (x : ℕ) (xs : List ℕ) → In x xs → List ℕ
without x [] i = absurd i
without x (y ∷ xs) (inl e) = xs
without x (y ∷ xs) (inr i) = y ∷ without x xs i

length-without : (x : ℕ) (xs : List ℕ) (i : In x xs) → suc (length (without x xs i)) ≡ length xs
length-without x [] i = absurd i
length-without x (y ∷ xs) (inl e) = refl
length-without x (y ∷ xs) (inr i) = ap suc (length-without x xs i)

In-without : (x : ℕ) (xs : List ℕ) (i : In x xs) (z : ℕ) → z ≢ x → In z xs → In z (without x xs i)
In-without x [] i z differ j = absurd i
In-without x (y ∷ xs) (inl e) z differ (inl f) = absurd (differ (f ∙ sym e))
In-without x (y ∷ xs) (inl e) z differ (inr j) = j
In-without x (y ∷ xs) (inr i) z differ (inl f) = inl f
In-without x (y ∷ xs) (inr i) z differ (inr j) = inr (In-without x xs i z differ j)

without-In : (x : ℕ) (xs : List ℕ) (i : In x xs) (z : ℕ) → In z (without x xs i) → In z xs
without-In x [] i z j = absurd i
without-In x (y ∷ xs) (inl e) z j = inr j
without-In x (y ∷ xs) (inr i) z (inl f) = inl f
without-In x (y ∷ xs) (inr i) z (inr j) = inr (without-In x xs i z j)

abbrev pub Distinct : List ℕ → Type 0
Distinct [] = Unit
Distinct (x ∷ xs) = (¬ In x xs) × Distinct xs

Distinct-without : (x : ℕ) (xs : List ℕ) (i : In x xs) → Distinct xs → Distinct (without x xs i)
Distinct-without x [] i d = absurd i
Distinct-without x (y ∷ xs) (inl e) d = d.1
Distinct-without x (y ∷ xs) (inr i) d =
    (λ j. d.0 (without-In x xs i y j), Distinct-without x xs i d.1)

removed : (x : ℕ) (xs : List ℕ) (i : In x xs) → Distinct xs → ¬ In x (without x xs i)
removed x [] i d j = absurd i
removed x (y ∷ xs) (inl e) d j = d.0 (subst (λ z. In z xs) e j)
removed x (y ∷ xs) (inr i) d (inl f) = d.0 (subst (λ z. In z xs) f i)
removed x (y ∷ xs) (inr i) d (inr j) = removed x xs i d.1 j

-- A list shorter than a range misses a segment of it.
pub missing :
    (count segment : ℕ) (xs : List ℕ)
    → length xs < count
    → (i : ℕ) × (segment ≤ i) × (i < segment + count) × (¬ In i xs)
missing zero segment xs h = absurd (omega arith)
missing (suc count) segment xs h = elim (In_decided (segment + count) xs) [
  | inr no_i ↦ (segment + count, omega arith, omega arith, no_i)
  | inl i ↦
      let shorter = length-without (segment + count) xs i in
      let (z, a, b, no_z) = missing count segment (without (segment + count) xs i) (omega arith) in
      (
        z,
        a,
        omega arith,
        λ j. no_z (In-without (segment + count) xs i z (λ e. absurd (omega arith)) j),
      )
]

-- Distinct segments of a range are no more than it has.
pub length-Distinct :
    (count segment : ℕ) (xs : List ℕ)
    → Distinct xs
    → ((x : ℕ) → In x xs → (segment ≤ x) × (x < segment + count))
    → length xs ≤ count
length-Distinct zero segment [] d within = omega arith
length-Distinct zero segment (x ∷ xs) d within =
    let (a, b) = within x (inl refl) in absurd (omega arith)
length-Distinct (suc count) segment xs d within = elim (In_decided (segment + count) xs) [
  | inr no_i ↦
      let fewer = length-Distinct count segment xs d (λ x j.
        let (a, b) = within x j in
        let differ : x ≢ segment + count = λ e. no_i (subst (λ z. In z xs) e j) in
        (a, omega arith)) in
      omega arith
  | inl i ↦
      let shorter = length-without (segment + count) xs i in
      let fewer =
        length-Distinct count segment (without (segment + count) xs i)
          (Distinct-without (segment + count) xs i d)
          (λ x j.
            let (a, b) = within x (without-In (segment + count) xs i x j) in
            let differ : x ≢ segment + count = λ e.
              removed (segment + count) xs i d
                (subst (λ z. In z (without (segment + count) xs i)) e j) in
            (a, omega arith)) in
      omega arith
]
