-- ===== src/Patterns/Cases.antt =====
-- The outcomes of the two commands of the pattern handle, as rules of case analysis.
use fast_repo.Prelude.{ℕ, ◌≡◌, refl, Option, none, some, List, ◌++◌}
use fast_repo.Prelude.Bytes.{Bytes}
use fast_repo.Prelude.StdMap
use fast_repo.Ndn.{Ndn, Rocks}
use fast_repo.Handles.Base.{Parameter, Effects, extract_parameter, negative_reply}
use fast_repo.Patterns.Fetch
use fast_repo.Patterns.Fetch.{Build}
use fast_repo.Patterns.Handle.{
  PatternHandle, decode_names, start, on_interest, discard, on_cancel_request, with_parameter,
  with_names, unless_active, if_active, to_cancel,
}

module _ (n : Ndn) (r : Rocks) (build : Build n.Name) (decode : n.Component → Option Parameter)
    (decode_name : Bytes → Option (List Bytes))
    (P : PatternHandle n r build decode decode_name × Effects n → Type 0)
    (h : PatternHandle n r build decode decode_name) (interest : n.Name) where
  module _ (memory : ℕ) (malformed : P (h, negative_reply n interest 403))
      (active : P (h, negative_reply n interest 402))
      (started : (pattern_name fetch_prefix : n.Name)
        → StdMap.find n.name_discrete fetch_prefix h.patterns ≡ none
        → P (
            start n r build decode decode_name h interest fetch_prefix
              (Fetch.create n build memory pattern_name))) where
    active_cases :
        (pattern_name fetch_prefix : n.Name) (o : Option ℕ)
        → StdMap.find n.name_discrete fetch_prefix h.patterns ≡ o
        → P (
            unless_active n r build decode decode_name h interest memory pattern_name fetch_prefix
              o)
    active_cases pattern_name fetch_prefix none e = started pattern_name fetch_prefix e
    active_cases pattern_name fetch_prefix (some address) e = active

    names_cases :
        (o : Option (n.Name × n.Name))
        → P (with_names n r build decode decode_name h interest memory o)
    names_cases none = malformed
    names_cases (some (pattern_name, fetch_prefix)) = active_cases pattern_name fetch_prefix _ refl

    parameter_cases :
        (o : Option Parameter) → P (with_parameter n r build decode decode_name h interest memory o)
    parameter_cases none = malformed
    parameter_cases (some parameter) =
        names_cases (decode_names n r build decode decode_name parameter.name)

    -- A fetch command is malformed, meets an active pattern, or tries to start one.
    pub on_interest_cases :
        (prefix : n.Name) → P (on_interest n r build decode decode_name h interest prefix memory)
    unfolding on_interest
    on_interest_cases prefix = parameter_cases (extract_parameter n decode interest prefix)

  module _ (malformed : P (h, negative_reply n interest 403))
      (unknown : P (h, negative_reply n interest 402))
      (discarded : (fetch_prefix : n.Name) (address : ℕ)
        → StdMap.find n.name_discrete fetch_prefix h.patterns ≡ some address
        → let (h', es) = discard n r build decode decode_name h fetch_prefix address in
          P (h', es ++ negative_reply n interest 101)) where
    if_active_cases :
        (fetch_prefix : n.Name) (o : Option ℕ)
        → StdMap.find n.name_discrete fetch_prefix h.patterns ≡ o
        → P (if_active n r build decode decode_name h interest fetch_prefix o)
    if_active_cases fetch_prefix none e = unknown
    if_active_cases fetch_prefix (some address) e = discarded fetch_prefix address e

    to_cancel_cases :
        (o : Option Parameter) → P (to_cancel n r build decode decode_name h interest o)
    to_cancel_cases none = malformed
    to_cancel_cases (some parameter) = if_active_cases _ _ refl

    -- A cancel command is malformed, names no active pattern, or discards one.
    pub on_cancel_request_cases :
        (prefix : n.Name) → P (on_cancel_request n r build decode decode_name h interest prefix)
    unfolding on_cancel_request
    on_cancel_request_cases prefix = to_cancel_cases (extract_parameter n decode interest prefix)
