-- ===== src/Patterns/Replies.antt =====
-- How the pattern handle answers: one reply to each command, and what a refusal leaves alone.
use fast_repo.Prelude.{
  ℕ, ◌≡◌, refl, ap, ◌∙◌, ◌⊎◌, inl, inr, Option, none, some, List, [], ◌∷◌, ◌++◌, ℕ_discrete, arith,
}
use fast_repo.Prelude.Bytes.{Bytes}
use fast_repo.Prelude.StdMap
use fast_repo.Prelude.StdMap.{find-insert_same, find-erase}
use fast_repo.Ndn.{Ndn, Rocks}
use fast_repo.Handles.Base.{Parameter, Effect, Effects, replied, negative_reply, extract_parameter}
use fast_repo.Patterns.Fetch
use fast_repo.Patterns.Fetch.{Build, Pattern, counter_pattern, ndnrtc_pattern, gobj_pattern}
use fast_repo.Patterns.Handle.{
  PatternHandle, start, on_interest, discard, effects_of_cancel, decode_names, unless_active,
  with_names, with_parameter,
}

module _ {Name Data : Type 0} where
  -- The status codes that a list of effects replies with, in order.
  abbrev pub statuses : List (Effect Name Data) → List ℕ
  statuses [] = []
  statuses (replied name response ∷ es) = response.status_code ∷ statuses es
  statuses (_ ∷ es) = statuses es

  pub statuses-append :
      (es fs : List (Effect Name Data)) → statuses (es ++ fs) ≡ statuses es ++ statuses fs
  statuses-append [] fs = refl
  statuses-append (replied name response ∷ es) fs =
      ap (◌∷◌ response.status_code) (statuses-append es fs)
  statuses-append (_ ∷ es) fs = statuses-append es fs

module _ (n : Ndn) (build : Build n.Name) where
  statuses-fetch :
      (address : ℕ) (prefix : n.Name) (pattern : Pattern n)
      → statuses (Fetch.fetch n build address prefix pattern).1 ≡ []
  unfolding Fetch.fetch
  statuses-fetch address prefix (counter_pattern p) = refl
  statuses-fetch address prefix (ndnrtc_pattern recorder) = ground arith
  statuses-fetch address prefix gobj_pattern = refl

  statuses-cancel : (pattern : Pattern n) → statuses (Fetch.cancel n pattern).1 ≡ []
  unfolding Fetch.cancel
  statuses-cancel (counter_pattern p) = refl
  statuses-cancel (ndnrtc_pattern none) = refl
  statuses-cancel (ndnrtc_pattern (some stream)) = refl
  statuses-cancel gobj_pattern = refl

module _ (n : Ndn) (r : Rocks) (build : Build n.Name) (decode : n.Component → Option Parameter)
    (decode_name : Bytes → Option (List Bytes)) where
  -- The handle is as it was and the one effect is a reply with the status.
  abbrev pub Refused :
      PatternHandle n r build decode decode_name
      → n.Name
      → ℕ
      → PatternHandle n r build decode decode_name × Effects n
      → Type 0
  Refused h interest status (h', es) = (h' ≡ h) × (es ≡ negative_reply n interest status)

  pub start_replies :
      (h : PatternHandle n r build decode decode_name) (interest fetch_prefix : n.Name)
      (p : Pattern n)
      → statuses (start n r build decode decode_name h interest fetch_prefix (some p)).1 ≡ 100 ∷ []
  unfolding start negative_reply
  start_replies h interest fetch_prefix p =
      statuses-append (Fetch.fetch n build h.next fetch_prefix p).1 _
      ∙ rw (statuses-fetch n build h.next fetch_prefix p)

  -- What a fetch command asks for: its parameter decodes, and so do the two names in it.
  abbrev pub Asks : n.Name → n.Name → n.Name → n.Name → Type 0
  Asks interest prefix pattern_name fetch_prefix =
      (parameter : Parameter) × (extract_parameter n decode interest prefix ≡ some parameter)
      × (decode_names n r build decode decode_name parameter.name
          ≡ some (pattern_name, fetch_prefix))

  -- The four ways in which a fetch command ends, each with its cause.
  abbrev pub Started :
      PatternHandle n r build decode decode_name
      → n.Name
      → n.Name
      → ℕ
      → PatternHandle n r build decode decode_name × Effects n
      → Type 0
  Started h interest prefix memory result =
      (pattern_name : n.Name) × (fetch_prefix : n.Name) × (p : Pattern n) × Asks interest prefix
        pattern_name fetch_prefix
      × (StdMap.find n.name_discrete fetch_prefix h.patterns ≡ none)
      × (Fetch.create n build memory pattern_name ≡ some p)
      × (statuses result.1 ≡ 100 ∷ [])
      × (StdMap.find n.name_discrete fetch_prefix result.0.patterns ≡ some h.next)

  abbrev pub Active :
      PatternHandle n r build decode decode_name
      → n.Name
      → n.Name
      → PatternHandle n r build decode decode_name × Effects n
      → Type 0
  Active h interest prefix result =
      (pattern_name : n.Name) × (fetch_prefix : n.Name) × (address : ℕ) × Asks interest prefix
        pattern_name fetch_prefix
      × (StdMap.find n.name_discrete fetch_prefix h.patterns ≡ some address)
      × Refused h interest 402 result

  abbrev pub Malformed :
      PatternHandle n r build decode decode_name
      → n.Name
      → n.Name
      → PatternHandle n r build decode decode_name × Effects n
      → Type 0
  Malformed h interest prefix result =
      ((pattern_name fetch_prefix : n.Name) → ¬ Asks interest prefix pattern_name fetch_prefix)
      × Refused h interest 403 result

  abbrev pub Unknown :
      PatternHandle n r build decode decode_name
      → n.Name
      → n.Name
      → ℕ
      → PatternHandle n r build decode decode_name × Effects n
      → Type 0
  Unknown h interest prefix memory result =
      (pattern_name : n.Name) × (fetch_prefix : n.Name) × Asks interest prefix pattern_name
        fetch_prefix
      × (StdMap.find n.name_discrete fetch_prefix h.patterns ≡ none)
      × (Fetch.create n build memory pattern_name ≡ none)
      × Refused h interest 404 result

  module _ (h : PatternHandle n r build decode decode_name) (interest prefix : n.Name)
      (memory : ℕ) where
    abbrev Ends : PatternHandle n r build decode decode_name × Effects n → Type 0
    Ends result =
        Started h interest prefix memory result
        ⊎ Active h interest prefix result
        ⊎ Malformed h interest prefix result
        ⊎ Unknown h interest prefix memory result

    start-Ends :
        (pattern_name fetch_prefix : n.Name) (o : Option (Pattern n))
        → Asks interest prefix pattern_name fetch_prefix
        → StdMap.find n.name_discrete fetch_prefix h.patterns ≡ none
        → Fetch.create n build memory pattern_name ≡ o
        → Ends (start n r build decode decode_name h interest fetch_prefix o)
    unfolding start
    start-Ends pattern_name fetch_prefix none asks free q =
        inr (inr (inr (pattern_name, fetch_prefix, asks, free, q, (refl, refl))))
    start-Ends pattern_name fetch_prefix (some p) asks free q = inl (
      pattern_name,
      fetch_prefix,
      p,
      asks,
      free,
      q,
      start_replies h interest fetch_prefix p,
      find-insert_same n.name_discrete fetch_prefix h.next h.patterns,
    )

    active-Ends :
        (pattern_name fetch_prefix : n.Name) (o : Option ℕ)
        → Asks interest prefix pattern_name fetch_prefix
        → StdMap.find n.name_discrete fetch_prefix h.patterns ≡ o
        → Ends (
            unless_active n r build decode decode_name h interest memory pattern_name fetch_prefix
              o)
    active-Ends pattern_name fetch_prefix none asks q =
        start-Ends pattern_name fetch_prefix _ asks q refl
    active-Ends pattern_name fetch_prefix (some address) asks q =
        inr (inl (pattern_name, fetch_prefix, address, asks, q, (refl, refl)))

    names-Ends :
        (parameter : Parameter) (o : Option (n.Name × n.Name))
        → extract_parameter n decode interest prefix ≡ some parameter
        → decode_names n r build decode decode_name parameter.name ≡ o
        → Ends (with_names n r build decode decode_name h interest memory o)
    names-Ends parameter none e q =
        inr (inr (inl (λ pattern_name fetch_prefix (other, e', q'). cc, (refl, refl))))
    names-Ends parameter (some (pattern_name, fetch_prefix)) e q =
        active-Ends pattern_name fetch_prefix _ (parameter, e, q) refl

    parameter-Ends :
        (o : Option Parameter)
        → extract_parameter n decode interest prefix ≡ o
        → Ends (with_parameter n r build decode decode_name h interest memory o)
    parameter-Ends none e =
        inr (inr (inl (λ pattern_name fetch_prefix (other, e', q'). cc, (refl, refl))))
    parameter-Ends (some parameter) e = names-Ends parameter _ e refl

  -- A fetch command ends in one of four ways, each with its cause and exactly one reply. It asks for a
  -- pattern that the factory creates, under a prefix with no entry: 100, and the prefix has an entry
  -- with the new pattern. It asks for a prefix that has an entry: 402. It does not decode, or the names
  -- in it do not: 403. It asks for a prefix with no entry and a pattern that the factory does not
  -- create: 404. With 402, 403 and 404 the handle stays as it was.
  pub on_interest_replies :
      (h : PatternHandle n r build decode decode_name) (interest prefix : n.Name) (memory : ℕ)
      → let result = on_interest n r build decode decode_name h interest prefix memory in
        Started h interest prefix memory result
        ⊎ Active h interest prefix result
        ⊎ Malformed h interest prefix result
        ⊎ Unknown h interest prefix memory result
  unfolding on_interest
  on_interest_replies h interest prefix memory = parameter-Ends h interest prefix memory _ refl

  statuses_of_cancel :
      (o : Option (Pattern n)) → statuses (effects_of_cancel n r build decode decode_name o) ≡ []
  statuses_of_cancel none = refl
  statuses_of_cancel (some p) = statuses-cancel n build p

  pub cancel_replies :
      (h : PatternHandle n r build decode decode_name) (interest fetch_prefix : n.Name)
      (address : ℕ)
      → statuses (
          (discard n r build decode decode_name h fetch_prefix address).1
          ++ negative_reply n interest 101)
        ≡ 101 ∷ []
  unfolding discard negative_reply
  cancel_replies h interest fetch_prefix address =
      statuses-append
        (effects_of_cancel n r build decode decode_name (StdMap.find ℕ_discrete address h.objects))
        _
      ∙ rw (statuses_of_cancel (StdMap.find ℕ_discrete address h.objects))
