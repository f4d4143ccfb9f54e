-- ===== src/Handles/Write/Tallies.antt =====
-- What is counted of the write handle: the packets that it announces, and for each process its
-- fetches, its packets and whether it waits.
use fast_repo.Prelude.{
  ℕ, suc, ◌+◌, ◌≡◌, Option, none, some, List, [], ◌∷◌, ◌++◌, arith, ℕ_discrete, if◌then◌else◌, ◌==◌,
}
use fast_repo.Prelude.StdMap
use fast_repo.Prelude.StdMap.{Map}
use fast_repo.Handles.Base.{Response, Effect, inserted, expressed}

module _ {Name Data : Type 0} where
  -- The packets that a list of effects announces as stored, and the fetches that it makes for a
  -- process.
  abbrev pub insertions : List (Effect Name Data) → ℕ
  insertions [] = 0
  insertions (inserted name ∷ es) = suc (insertions es)
  insertions (_ ∷ es) = insertions es

  abbrev pub fetches_for : ℕ → List (Effect Name Data) → ℕ
  fetches_for j [] = 0
  fetches_for j (expressed name process_id ∷ es) =
      (if process_id == j then 1 else 0) + fetches_for j es
  fetches_for j (_ ∷ es) = fetches_for j es

  pub insertions-append :
      (es fs : List (Effect Name Data)) → insertions (es ++ fs) ≡ insertions es + insertions fs
  insertions-append [] fs = omega arith
  insertions-append (inserted name ∷ es) fs = omega (arith, insertions-append es fs)
  insertions-append (_ ∷ es) fs = insertions-append es fs

  pub fetches_for-append :
      (j : ℕ) (es fs : List (Effect Name Data))
      → fetches_for j (es ++ fs) ≡ fetches_for j es + fetches_for j fs
  fetches_for-append j [] fs = omega arith
  fetches_for-append j (expressed name process_id ∷ es) fs =
      omega (arith, fetches_for-append j es fs)
  fetches_for-append j (_ ∷ es) fs = fetches_for-append j es fs

module _ {Data : Type 0} where
  -- The packets of a process.
  abbrev pub packets_for : ℕ → List (Data × ℕ) → ℕ
  packets_for j [] = 0
  packets_for j ((d, process_id) ∷ ds) = (if process_id == j then 1 else 0) + packets_for j ds

-- Whether a process of the map waits for its packet.
abbrev one_if : Option Response → ℕ
one_if none = 0
one_if (some response) = 1

abbrev pub waiting_for : ℕ → Map ℕ Response → ℕ
waiting_for j processes = one_if (StdMap.find ℕ_discrete j processes)
