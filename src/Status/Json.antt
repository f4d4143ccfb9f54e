-- ===== src/Status/Json.antt =====
-- The JSON library as a record of the operations that the program uses, and what its documentation
-- and the JSON grammar say of them.
use fast_repo.Prelude.{ℕ, ◌≡◌, ◌≢◌, Option, none, [], ◌∷◌}
use fast_repo.Prelude.Bytes.{Bytes}

pub record Json : Type 1 where
  pub Value : Type 0
  pub null : Value
  pub of_text : Bytes → Value
  pub of_number : ℕ → Value
  -- `v.push_back(x)`, `v[key] = x`, `v[key]` (null where there is no such key)
  pub push_back : Value → Value → Value
  pub set : Bytes → Value → Value → Value
  pub get : Bytes → Value → Value
  -- both throw an exception of the library, which is no `std::runtime_error`
  pub dump : Value → Option Bytes
  pub parse : Bytes → Option Value

-- A text that begins with "{'" or is "n/a" is not JSON.
pub record GrammarLaws (j : Json) : Type 0 where
  pub single_quote : (s : Bytes) → j.parse (b'{' ∷ 39 ∷ s) ≡ none
  pub not_available : j.parse (b'n' ∷ b'/' ∷ b'a' ∷ []) ≡ none

-- An object keeps one value for a key, and the order of assignments to two keys does not show.
pub record ObjectLaws (j : Json) : Type 0 where
  pub set-set : (k : Bytes) (x y v : j.Value) → j.set k x (j.set k y v) ≡ j.set k x v
  pub set_comm :
      (k l : Bytes) (x y v : j.Value) → k ≢ l → j.set k x (j.set l y v) ≡ j.set l y (j.set k x v)
