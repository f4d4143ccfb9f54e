-- ===== src/Patterns/Decimal.antt =====
-- The numbers in the names that a counter pattern asks for, `std::to_string` of its counter.
use fast_repo.Prelude.{
  ℕ, zero, suc, ◌+◌, ◌-◌, ◌*◌, ◌/◌, ◌%◌, ◌<◌, ◌≤◌, ◌≡◌, ◌≢◌, refl, sym, ap, ◌∙◌, ◌⊎◌, inl, inr,
  true, [], ◌∷◌, arith, All,
}
use fast_repo.Prelude.Bytes.{Bytes}
use fast_repo.Ndn.{Ndn}
use fast_repo.Handles.Base.{Effects, expressed}
use fast_repo.Patterns.Fetch.{digits, to_string, do_fetch, CounterPattern}

-- The number that decimal digits write, behind a number already read.
unfoldable pub read_from : ℕ → Bytes → ℕ
read_from x [] = x
read_from x (c ∷ s) = read_from (x * 10 + (c - 48)) s

abbrev IsDigit : ℕ → Type 0
IsDigit c = (48 ≤ c) × (c ≤ 57)

abbrev first : Bytes → ℕ
first [] = 0
first (c ∷ s) = c

read_from-digits :
    (fuel x : ℕ) (acc : Bytes) → x < fuel → read_from 0 (digits fuel x acc) ≡ read_from x acc
unfolding read_from
read_from-digits zero x acc h = absurd (omega arith)
read_from-digits (suc fuel) x acc h =
    ground (arith, read_from-digits fuel (x / 10) ((48 + x % 10) ∷ acc))

digits-IsDigit : (fuel x : ℕ) (acc : Bytes) → All IsDigit acc → All IsDigit (digits fuel x acc)
digits-IsDigit zero x acc h = h
digits-IsDigit (suc fuel) x acc h =
    ground (arith, digits-IsDigit fuel (x / 10) ((48 + x % 10) ∷ acc))

first-digits : (fuel x : ℕ) (acc : Bytes) → x < fuel → 0 < x → 48 < first (digits fuel x acc)
first-digits zero x acc h k = absurd (omega arith)
first-digits (suc fuel) x acc h k = ground (arith, first-digits fuel (x / 10) ((48 + x % 10) ∷ acc))

pub read_from-to_string : (x : ℕ) → read_from 0 (to_string x) ≡ x
unfolding to_string read_from
read_from-to_string x = read_from-digits (suc x) x [] (omega arith)

-- `to_string` writes decimal digits, the first of them not 0 unless the number is, that read back
-- as the number.
to_string_lem :
    (x : ℕ)
    → (read_from 0 (to_string x) ≡ x)
      × All IsDigit (to_string x)
      × ((x ≡ 0) ⊎ (48 < first (to_string x)))
unfolding to_string
to_string_lem zero = (read_from-to_string zero, (omega arith, tt), inl refl)
to_string_lem (suc x) = (
  read_from-to_string (suc x),
  digits-IsDigit (suc (suc x)) (suc x) [] tt,
  inr (first-digits (suc (suc x)) (suc x) [] (omega arith) (omega arith)),
)

module _ (n : Ndn) where
  open n use {Name}

  -- ndn-cpp keeps apart names that differ in their last component, and components of different
  -- bytes.
  pub record ComponentLaws : Type 0 where
    pub append_component_injective :
        (prefix : Name) (c d : n.Component)
        → n.append_component prefix c ≡ n.append_component prefix d
        → c ≡ d
    pub component_injective : (s t : Bytes) → n.component s ≡ n.component t → s ≡ t

  expressed_name :
      {a b : Name} {i j : ℕ} → ◌≡◌ {A = Effects n} (expressed a i ∷ []) (expressed b j ∷ []) → a ≡ b
  expressed_name e = cc

  same_counter :
      (laws : ComponentLaws) (address : ℕ) (p q : CounterPattern n)
      → p.running ≡ true
      → q.running ≡ true
      → p.fetch_prefix ≡ q.fetch_prefix
      → do_fetch n address p ≡ do_fetch n address q
      → p.counter ≡ q.counter
  unfolding do_fetch
  same_counter laws address p q runs runs' same e =
      let named = expressed_name (rw (runs, runs', same) at e) in
      let written = laws.component_injective _ _ (laws.append_component_injective _ _ _ named) in
      sym (read_from-to_string p.counter) ∙ ap (read_from 0) written ∙ read_from-to_string q.counter

  -- Where ndn-cpp keeps names and components apart, a counter pattern asks for another Interest in each
  -- round: with the same prefix and different counters, two running states express different ones, as
  -- no number is written like another.
  pub do_fetch-distinct :
      (laws : ComponentLaws) (address : ℕ) (p q : CounterPattern n)
      → p.running ≡ true
      → q.running ≡ true
      → p.fetch_prefix ≡ q.fetch_prefix
      → p.counter ≢ q.counter
      → do_fetch n address p ≢ do_fetch n address q
  do_fetch-distinct laws address p q runs runs' same differ e =
      differ (same_counter laws address p q runs runs' same e)
