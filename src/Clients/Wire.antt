-- ===== src/Clients/Wire.antt =====
-- A client's command, read back by the pattern handle.
use fast_repo.Prelude.{
  ℕ, suc, ◌+◌, ◌<◌, ◌≡◌, refl, ap, sym, ◌∙◌, subst, false, Option, some, List, [], ◌∷◌, length,
  arith,
}
use fast_repo.Prelude.Bytes.{Bytes}
use fast_repo.Ndn.{Ndn}
use fast_repo.Handles.Base.{Parameter, Response, extract_parameter, append_components}
use fast_repo.Clients.Commands.{Encoding, values_from, values, command_name}

-- What ndn-cpp says of names under appending, and of the components that `makeCommandInterest`
-- leaves in front; and that protobuf's decoding undoes its encoding.
pub record EncodingLaws (n : Ndn) (c : Encoding n) (decode : n.Component → Option Parameter)
    (decode_name : Bytes → Option (List Bytes)) : Type 0 where
  pub size_empty : n.size n.empty_name ≡ 0
  pub size-append_component :
      (p : n.Name) (x : n.Component) → n.size (n.append_component p x) ≡ suc (n.size p)
  pub get_last : (p : n.Name) (x : n.Component) → n.get (n.append_component p x) (n.size p) ≡ some x
  pub get_before :
      (p : n.Name) (x : n.Component) (i : ℕ)
      → i < n.size p
      → n.get (n.append_component p x) i ≡ n.get p i
  pub value-component : (s : Bytes) → c.value (n.component s) ≡ s
  pub get_signed : (p : n.Name) (i : ℕ) → i < n.size p → n.get (c.signed p) i ≡ n.get p i
  pub decode-encode : (p : Parameter) → decode (c.encode p) ≡ some p
  pub decode_response-encode_response :
      (x : Response) → c.decode_response (c.encode_response x) ≡ (false, x)
  pub decode_name-encode_name : (xs : List Bytes) → decode_name (c.encode_name xs) ≡ some xs

module _ (n : Ndn) (c : Encoding n) (decode : n.Component → Option Parameter)
    (decode_name : Bytes → Option (List Bytes)) (laws : EncodingLaws n c decode decode_name) where
  get_prefix :
      (p : n.Name) (xs : List Bytes) (i : ℕ)
      → i < n.size p
      → n.get (append_components n p xs) i ≡ n.get p i
  unfolding append_components
  get_prefix p [] i h = refl
  get_prefix p (x ∷ xs) i h =
      get_prefix (n.append_component p (n.component x)) xs i
        (let s = laws.size-append_component p (n.component x) in omega arith)
      ∙ laws.get_before p (n.component x) i h

  size_appended :
      (p : n.Name) (xs : List Bytes) → n.size (append_components n p xs) ≡ n.size p + length xs
  unfolding append_components
  size_appended p [] = omega arith
  size_appended p (x ∷ xs) =
      let s = laws.size-append_component p (n.component x) in
      let t = size_appended (n.append_component p (n.component x)) xs in ground arith

  -- Reading the components behind a name gives the values that were appended.
  values_appended :
      (p : n.Name) (xs : List Bytes)
      → values_from n c (append_components n p xs) (n.size p) (length xs) ≡ some xs
  unfolding values_from append_components
  values_appended p [] = refl
  values_appended p (x ∷ xs) =
      let q = n.append_component p (n.component x) in
      let s = laws.size-append_component p (n.component x) in
      let here : n.get (append_components n q xs) (n.size p) ≡ some (n.component x) =
        get_prefix q xs (n.size p) (omega arith) ∙ laws.get_last p (n.component x) in
      let rest : values_from n c (append_components n q xs) (suc (n.size p)) (length xs) ≡ some xs =
        ap (λ i. values_from n c (append_components n q xs) i (length xs)) (sym s)
        ∙ values_appended q xs in
      rw (here, rest, laws.value-component x) refl

  pub values_lem : (xs : List Bytes) → values n c (append_components n n.empty_name xs) ≡ some xs
  unfolding values
  values_lem xs =
      let s = size_appended n.empty_name xs in
      let z = laws.size_empty in
      subst
        (λ i.
          values_from n c (append_components n n.empty_name xs) i
            (n.size (append_components n n.empty_name xs))
          ≡ some xs)
        z
        (subst
          (λ k.
            values_from n c (append_components n n.empty_name xs) (n.size n.empty_name) k ≡ some xs)
          (omega arith) (values_appended n.empty_name xs))

  -- The handle finds a client's parameter behind the prefix of its filter.
  pub extract-command_name :
      (prefix : n.Name) (word : Bytes) (parameter : Parameter)
      → extract_parameter n decode
          (command_name n c prefix word parameter)
          (n.append_component prefix (n.component word))
        ≡ some parameter
  unfolding extract_parameter command_name
  extract-command_name prefix word parameter =
      let p = n.append_component prefix (n.component word) in
      let s = laws.size-append_component p (c.encode parameter) in
      let found =
        laws.get_signed (n.append_component p (c.encode parameter)) (n.size p) (omega arith)
        ∙ laws.get_last p (c.encode parameter) in
      rw (found, laws.decode-encode parameter) refl
