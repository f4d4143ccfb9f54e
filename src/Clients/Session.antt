-- ===== src/Clients/Session.antt =====
-- A client starts a pattern, another cancels it.
use fast_repo.Prelude.{◌≢◌, ◌⊎◌, ℕ, ◌≡◌, refl, Option, none, some, List, [], ◌∷◌, ◌++◌, arith}
use fast_repo.Prelude.Bytes.{Bytes}
use fast_repo.Prelude.StdMap
use fast_repo.Prelude.StdMap.{find-insert, find-erase, find-insert_same}
use fast_repo.Ndn.{Ndn, Rocks}
use fast_repo.Handles.Base.{Parameter, Effects, replied, append_components, negative_reply}
use fast_repo.Patterns.Fetch
use fast_repo.Patterns.Fetch.{Build, Pattern}
use fast_repo.Patterns.Handle.{
  PatternHandle, decode_names, start, on_interest, discard, on_cancel_request,
}
use fast_repo.Patterns.Replies.{statuses, start_replies, cancel_replies}
use fast_repo.Repo.Prefixes.{pattern_word, cancel_word}
use fast_repo.Clients.Commands.{
  Encoding, Call, succeeded, pattern_name, named_parameter, command_name, request_fetch,
  request_cancel, fetch_on_data, cancel_on_data, fetch_on_timeout, cancel_on_timeout, Process,
  stopped, succeeded_exit, after_calls,
}
use fast_repo.Clients.Wire.{EncodingLaws, values_lem, extract-command_name}

module _ (n : Ndn) (c : Encoding n) where
  -- What a client's callbacks get from the replies among a handler's effects.
  abbrev pub heard : (n.Content → List Call) → Effects n → List Call
  heard on_data [] = []
  heard on_data (replied name response ∷ es) =
      on_data (c.encode_response response) ++ heard on_data es
  heard on_data (_ ∷ es) = heard on_data es

  heard_none :
      (on_data : n.Content → List Call) (es : Effects n) → statuses es ≡ [] → heard on_data es ≡ []
  heard_none on_data [] e = refl
  heard_none on_data (replied name response ∷ es) e = cc
  heard_none on_data (_ ∷ es) e = heard_none on_data es e

  module _ (decode : n.Component → Option Parameter) (decode_name : Bytes → Option (List Bytes))
      (laws : EncodingLaws n c decode decode_name) where
    heard_100 :
        (es : Effects n) → statuses es ≡ 100 ∷ [] → heard (fetch_on_data n c) es ≡ succeeded ∷ []
    unfolding fetch_on_data
    heard_100 [] e = cc
    heard_100 (replied name response ∷ es) e =
        let status : response.status_code ≡ 100 = cc in
        let rest : statuses es ≡ [] = cc in
        rw
          (
            laws.decode_response-encode_response response,
            status,
            heard_none (fetch_on_data n c) es rest,
          )
          refl
    heard_100 (_ ∷ es) e = heard_100 es e

    heard_101 :
        (es : Effects n) → statuses es ≡ 101 ∷ [] → heard (cancel_on_data n c) es ≡ succeeded ∷ []
    unfolding cancel_on_data
    heard_101 [] e = cc
    heard_101 (replied name response ∷ es) e =
        let status : response.status_code ≡ 101 = cc in
        let rest : statuses es ≡ [] = cc in
        rw
          (
            laws.decode_response-encode_response response,
            status,
            heard_none (cancel_on_data n c) es rest,
          )
          refl
    heard_101 (_ ∷ es) e = heard_101 es e

    module _ (r : Rocks) (build : Build n.Name) where
      abbrev H : Type 0
      H = PatternHandle n r build decode decode_name

      fetch_started :
          (h : H) (prefix : n.Name) (xs : List Bytes) (memory : ℕ) (pattern : Pattern n)
          → let fetch_prefix = append_components n n.empty_name xs in
            StdMap.find n.name_discrete fetch_prefix h.patterns ≡ none
            → Fetch.create n build memory (append_components n n.empty_name (pattern_name ∷ []))
              ≡ some pattern
            → (i : n.Name) × (request_fetch n c prefix fetch_prefix ≡ some i)
              × (on_interest n r build decode decode_name h i
                    (n.append_component prefix (n.component pattern_word))
                    memory
                  ≡ start n r build decode decode_name h i fetch_prefix (some pattern))
      unfolding request_fetch on_interest decode_names
      fetch_started h prefix xs memory pattern idle made =
          let parameter =
            named_parameter (c.encode_name (pattern_name ∷ []) ∷ c.encode_name xs ∷ []) in
          (
            command_name n c prefix pattern_word parameter,
            rw (values_lem n c decode decode_name laws xs) refl,
            rw
                (
                  extract-command_name n c decode decode_name laws prefix pattern_word parameter,
                  laws.decode_name-encode_name (pattern_name ∷ []),
                  laws.decode_name-encode_name xs,
                  idle,
                  made,
                )
                refl,
          )

      cancel_done :
          (h : H) (prefix : n.Name) (xs : List Bytes) (address : ℕ)
          → let fetch_prefix = append_components n n.empty_name xs in
            StdMap.find n.name_discrete fetch_prefix h.patterns ≡ some address
            → (i : n.Name) × (request_cancel n c prefix fetch_prefix ≡ some i)
              × (on_cancel_request n r build decode decode_name h i
                    (n.append_component prefix (n.component cancel_word))
                  ≡ (let (h', es) = discard n r build decode decode_name h fetch_prefix address in
                      (h', es ++ negative_reply n i 101)))
      unfolding request_cancel on_cancel_request
      cancel_done h prefix xs address active = (
        command_name n c prefix cancel_word (named_parameter xs),
        rw (values_lem n c decode decode_name laws xs) refl,
        rw
            (
              extract-command_name n c decode decode_name laws prefix cancel_word
                  (named_parameter xs),
              active,
            )
            refl,
      )

      find-start :
          (h : H) (i fetch_prefix : n.Name) (pattern : Pattern n)
          → StdMap.find n.name_discrete fetch_prefix
              (start n r build decode decode_name h i fetch_prefix (some pattern)).0.patterns
            ≡ some h.next
      unfolding start
      find-start h i fetch_prefix pattern =
          find-insert_same n.name_discrete fetch_prefix h.next h.patterns

      find-discard :
          (h : H) (fetch_prefix : n.Name) (address : ℕ)
          → StdMap.find n.name_discrete fetch_prefix
              (discard n r build decode decode_name h fetch_prefix address).0.patterns
            ≡ none
      unfolding discard
      find-discard h fetch_prefix address =
          ground (arith, find-erase n.name_discrete fetch_prefix fetch_prefix h.patterns)

      abbrev pub Session : H → n.Name → n.Name → ℕ → Type 0
      Session h prefix fetch_prefix memory =
          (i : n.Name) × (j : n.Name) × (request_fetch n c prefix fetch_prefix ≡ some i)
          × (request_cancel n c prefix fetch_prefix ≡ some j)
          × (let (h1, es) =
                on_interest n r build decode decode_name h i
                  (n.append_component prefix (n.component pattern_word)) memory in
              let (h2, fs) =
                on_cancel_request n r build decode decode_name h1 j
                  (n.append_component prefix (n.component cancel_word)) in
              (heard (fetch_on_data n c) es ≡ succeeded ∷ [])
              × (heard (cancel_on_data n c) fs ≡ succeeded ∷ [])
              × (StdMap.find n.name_discrete fetch_prefix h2.patterns ≡ none))

      -- Names keep what is appended, `makeCommandInterest` keeps the components in front, and
      -- protobuf decodes what it encoded. For a fetch name made of generic components under which
      -- nothing is active, where the factory has the client's pattern: the fetch client's command
      -- starts the pattern and the client is told so once, the cancel client's command for the same
      -- name cancels it and that client is told so once, and nothing is then active under the name.
      pub fetch_then_cancel :
          (h : H) (prefix : n.Name) (xs : List Bytes) (memory : ℕ) (pattern : Pattern n)
          → StdMap.find n.name_discrete (append_components n n.empty_name xs) h.patterns ≡ none
          → Fetch.create n build memory (append_components n n.empty_name (pattern_name ∷ []))
            ≡ some pattern
          → Session h prefix (append_components n n.empty_name xs) memory
      fetch_then_cancel h prefix xs memory pattern idle made =
          let fetch_prefix = append_components n n.empty_name xs in
          let (i, asked, started) = fetch_started h prefix xs memory pattern idle made in
          let started_result = start n r build decode decode_name h i fetch_prefix (some pattern) in
          let h1 = started_result.0 in
          let (j, asked', cancelled) =
            cancel_done h1 prefix xs h.next (find-start h i fetch_prefix pattern) in
          let discarded = discard n r build decode decode_name h1 fetch_prefix h.next in
          (
            i,
            j,
            asked,
            asked',
            rw (started, cancelled)
                (
                  heard_100 started_result.1
                      (start_replies n r build decode decode_name h i fetch_prefix pattern),
                  heard_101 (discarded.1 ++ negative_reply n j 101)
                      (cancel_replies n r build decode decode_name h1 j fetch_prefix h.next),
                  find-discard h1 fetch_prefix h.next,
                ),
          )

-- How a client's process ends, by the status that its message holds.
module _ (n : Ndn) (c : Encoding n) where
  abbrev pub ExitsOn : ℕ → n.Content → Process → Type 0
  ExitsOn status content process =
      ((process ≡ succeeded_exit) × ((c.decode_response content).1.status_code ≡ status))
      ⊎ ((process ≡ stopped) × ((c.decode_response content).1.status_code ≢ status))

  -- Any packet and the timeout end either client's loop. A packet ends it with the success message
  -- just when the response message holds the status 100 (fetch) or 101 (cancel), also where its
  -- decoding threw; the timeout ends it as a failure.
  pub client_ends :
      (content : n.Content)
      → ExitsOn 100 content (after_calls (fetch_on_data n c content))
        × ExitsOn 101 content (after_calls (cancel_on_data n c content))
        × (after_calls (fetch_on_timeout n c) ≡ stopped)
        × (after_calls (cancel_on_timeout n c) ≡ stopped)
  unfolding after_calls fetch_on_data cancel_on_data fetch_on_timeout cancel_on_timeout
  client_ends content = ground arith
