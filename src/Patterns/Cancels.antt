-- ===== src/Patterns/Cancels.antt =====
-- How a cancel command of the pattern handle ends.
use fast_repo.Prelude.{
  ℕ, ◌≡◌, refl, ◌∙◌, ◌⊎◌, inl, inr, Option, none, some, List, [], ◌∷◌, ℕ_discrete, if_pos,
}
use fast_repo.Prelude.Bytes.{Bytes}
use fast_repo.Prelude.StdMap
use fast_repo.Prelude.StdMap.{find-erase}
use fast_repo.Ndn.{Ndn, Rocks}
use fast_repo.Handles.Base.{Parameter, Effects, extract_parameter, append_components}
use fast_repo.Patterns.Fetch.{Build}
use fast_repo.Patterns.Handle.{PatternHandle, on_cancel_request, discard, if_active, to_cancel}
use fast_repo.Patterns.Replies.{statuses, cancel_replies, Refused}

module _ (n : Ndn) (r : Rocks) (build : Build n.Name) (decode : n.Component → Option Parameter)
    (decode_name : Bytes → Option (List Bytes)) where
  -- What a cancel command names: its parameter decodes, and its components are those of the prefix.
  abbrev pub Names : n.Name → n.Name → n.Name → Type 0
  Names interest prefix fetch_prefix =
      (parameter : Parameter) × (extract_parameter n decode interest prefix ≡ some parameter)
      × (append_components n n.empty_name parameter.name ≡ fetch_prefix)

  -- The three ways in which a cancel command ends, each with its cause.
  abbrev pub Cancelled :
      PatternHandle n r build decode decode_name
      → n.Name
      → n.Name
      → PatternHandle n r build decode decode_name × Effects n
      → Type 0
  Cancelled h interest prefix result =
      (fetch_prefix : n.Name) × (address : ℕ) × Names interest prefix fetch_prefix
      × (StdMap.find n.name_discrete fetch_prefix h.patterns ≡ some address)
      × (statuses result.1 ≡ 101 ∷ [])
      × (StdMap.find n.name_discrete fetch_prefix result.0.patterns ≡ none)
      × (StdMap.find ℕ_discrete address result.0.objects ≡ none)

  abbrev pub NotActive :
      PatternHandle n r build decode decode_name
      → n.Name
      → n.Name
      → PatternHandle n r build decode decode_name × Effects n
      → Type 0
  NotActive h interest prefix result =
      (fetch_prefix : n.Name) × Names interest prefix fetch_prefix
      × (StdMap.find n.name_discrete fetch_prefix h.patterns ≡ none)
      × Refused n r build decode decode_name h interest 402 result

  abbrev pub NotDecoded :
      PatternHandle n r build decode decode_name
      → n.Name
      → n.Name
      → PatternHandle n r build decode decode_name × Effects n
      → Type 0
  NotDecoded h interest prefix result =
      (extract_parameter n decode interest prefix ≡ none)
      × Refused n r build decode decode_name h interest 403 result

  module _ (h : PatternHandle n r build decode decode_name) (interest prefix : n.Name) where
    abbrev CancelEnds : PatternHandle n r build decode decode_name × Effects n → Type 0
    CancelEnds result =
        Cancelled h interest prefix result
        ⊎ NotActive h interest prefix result
        ⊎ NotDecoded h interest prefix result

    discarded_ends :
        (fetch_prefix : n.Name) (o : Option ℕ)
        → Names interest prefix fetch_prefix
        → StdMap.find n.name_discrete fetch_prefix h.patterns ≡ o
        → CancelEnds (if_active n r build decode decode_name h interest fetch_prefix o)
    unfolding discard
    discarded_ends fetch_prefix none named q = inr (inl (fetch_prefix, named, q, (refl, refl)))
    discarded_ends fetch_prefix (some address) named q = inl (
      fetch_prefix,
      address,
      named,
      q,
      cancel_replies n r build decode decode_name h interest fetch_prefix address,
      find-erase n.name_discrete fetch_prefix fetch_prefix h.patterns ∙ rw (if_pos _ refl),
      find-erase ℕ_discrete address address h.objects ∙ rw (if_pos _ refl),
    )

    to_cancel_ends :
        (o : Option Parameter)
        → extract_parameter n decode interest prefix ≡ o
        → CancelEnds (to_cancel n r build decode decode_name h interest o)
    to_cancel_ends none e = inr (inr (e, (refl, refl)))
    to_cancel_ends (some parameter) e = discarded_ends _ _ (parameter, e, refl) refl

  -- A cancel command ends in one of three ways, each with its cause and exactly one reply. It names a
  -- prefix that has an entry: 101, the entry is gone and so is its pattern. It names a prefix that has
  -- none: 402. It does not decode: 403. With 402 and 403 the handle stays as it was.
  pub on_cancel_request_replies :
      (h : PatternHandle n r build decode decode_name) (interest prefix : n.Name)
      → let result = on_cancel_request n r build decode decode_name h interest prefix in
        Cancelled h interest prefix result
        ⊎ NotActive h interest prefix result
        ⊎ NotDecoded h interest prefix result
  unfolding on_cancel_request
  on_cancel_request_replies h interest prefix = to_cancel_ends h interest prefix _ refl
