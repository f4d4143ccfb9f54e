-- ===== src/Patterns/Factory.antt =====
-- `PatternFactory` of src/handles/patterns/pattern-factory.cpp: what it creates against what it lists.
use fast_repo.Prelude.{
  ℕ, ◌≡◌, refl, ◌∙◌, true, false, Option, none, some, [], ◌∷◌, any, map, ite, arith, is_some,
}
use fast_repo.Prelude.StdMap
use fast_repo.Prelude.StdMap.{Map}
use fast_repo.Ndn.{Ndn}
use fast_repo.Patterns.Fetch.{Build, Kind, create, made, supported, get_supported_patterns}

is_some-find :
    {K V : Type 0} (dec : Discrete K) (k : K) (m : Map K V)
    → is_some (StdMap.find dec k m) ≡ any (λ j. ite (dec j k) true false) (map (λ entry. entry.0) m)
unfolding StdMap.find
is_some-find dec k [] = refl
is_some-find dec k ((j, v) ∷ m) = ground (arith, is_some-find dec k m)

module _ (n : Ndn) where
  is_some-made : (memory : ℕ) (o : Option Kind) → is_some (made n memory o) ≡ is_some o
  is_some-made memory none = refl
  is_some-made memory (some kind) = refl

  -- A pattern is created just for the names that the factory lists, read through their URIs.
  create-supported :
      (build : Build n.Name) (memory : ℕ) (name : n.Name)
      → is_some (create n build memory name)
        ≡ any
            (λ keyword. ite (n.name_discrete keyword (n.of_uri (n.to_uri name))) true false)
            (get_supported_patterns n build)
  unfolding create get_supported_patterns
  create-supported build memory name =
      is_some-made memory _
      ∙ is_some-find n.name_discrete (n.of_uri (n.to_uri name)) (supported n build)
