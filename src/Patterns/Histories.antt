-- ===== src/Patterns/Histories.antt =====
-- Sequences of commands and callbacks of the pattern handle: what they store, and what one counter
-- pattern does among the others.
use fast_repo.Prelude.{ℕ, ◌≡◌, refl, ap, ◌∙◌, sym, Option, none, some, List, [], ◌∷◌, ◌++◌}
use fast_repo.Prelude.Bytes.{Bytes}
use fast_repo.Ndn.{Ndn, Rocks}
use fast_repo.Storage.Engine.{Engine, Result, ok, err, put}
use fast_repo.Storage.Histories.{puts, go_on}
use fast_repo.Handles.Base.{Parameter, Effects}
use fast_repo.Patterns.Fetch.{
  Build, Pattern, CounterPattern, counter_pattern, ndnrtc_pattern, gobj_pattern,
}
use fast_repo.Patterns.Handle.{
  PatternHandle, Outcome, done, fault, start, on_interest, discard, on_cancel_request, on_timer,
  on_data, remove_pattern, removed, stored, data_at, timer_at, on_recorded, recorded_put, Event,
  fetch_command, cancel_command, timer, packet, recorded, removal, step,
}
use fast_repo.Patterns.Cases.{on_interest_cases, on_cancel_request_cases}

module _ (n : Ndn) (r : Rocks) (build : Build n.Name) (decode : n.Component → Option Parameter)
    (decode_name : Bytes → Option (List Bytes)) where
  abbrev H : Type 0
  H = PatternHandle n r build decode decode_name

  abbrev pub E : Type 0
  E = Event n r build decode decode_name

  abbrev pub after : Effects n → Outcome (H × Effects n) → Outcome (H × Effects n)
  after es (fault x) = fault x
  after es (done (h, fs)) = done (h, es ++ fs)

  abbrev pub then_run :
      Outcome (H × Effects n) → (H → Outcome (H × Effects n)) → Outcome (H × Effects n)
  then_run (fault x) rest = fault x
  then_run (done (h, es)) rest = after es (rest h)

  unfoldable pub run : H → List E → Outcome (H × Effects n)
  run h [] = done (h, [])
  run h (event ∷ events) =
      then_run (step n r build decode decode_name h event) (λ h'. run h' events)

  pub done_eq : {x y : H × Effects n} → ◌≡◌ {A = Outcome (H × Effects n)} (done x) (done y) → x ≡ y
  done_eq e = cc

  after_done :
      (gs : Effects n) (rest : Outcome (H × Effects n)) (h : H) (es : Effects n)
      → after gs rest ≡ done (h, es)
      → (hs : Effects n) × (rest ≡ done (h, hs)) × (es ≡ gs ++ hs)
  after_done gs (fault x) h es e = cc
  after_done gs (done (h', hs)) h es e = (hs, cc, cc)

  then_run_done :
      (first : Outcome (H × Effects n)) (rest : H → Outcome (H × Effects n)) (h : H)
      (es : Effects n)
      → then_run first rest ≡ done (h, es)
      → (h1 : H) × (gs : Effects n) × (hs : Effects n) × (first ≡ done (h1, gs))
        × (rest h1 ≡ done (h, hs))
        × (es ≡ gs ++ hs)
  then_run_done (fault x) rest h es e = cc
  then_run_done (done (h1, gs)) rest h es e =
      let (hs, ended, split) = after_done gs (rest h1) h es e in (h1, gs, hs, refl, ended, split)

  pub run_cons :
      (h h' : H) (event : E) (events : List E) (es : Effects n)
      → run h (event ∷ events) ≡ done (h', es)
      → (h1 : H) × (gs : Effects n) × (hs : Effects n) × (step n r build decode decode_name h event
          ≡ done (h1, gs))
        × (run h1 events ≡ done (h', hs))
        × (es ≡ gs ++ hs)
  unfolding run
  run_cons h h' event events es e =
      then_run_done (step n r build decode decode_name h event) _ h' es e

  -- The packets that come, for whichever pattern, those of ndnrtc's recorders among them.
  unfoldable pub arrived : List E → List n.Data
  arrived [] = []
  arrived (packet d address ∷ events) = d ∷ arrived events
  arrived (recorded d ∷ events) = d ∷ arrived events
  arrived (fetch_command interest prefix memory ∷ events) = arrived events
  arrived (cancel_command interest prefix ∷ events) = arrived events
  arrived (timer address ∷ events) = arrived events
  arrived (removal prefix ∷ events) = arrived events

  abbrev state_of :
      {h h' : H} {es fs : Effects n}
      → ◌≡◌ {A = Outcome (H × Effects n)} (done (h, es)) (done (h', fs))
      → h ≡ h'
  state_of e = ap (λ (x : H × Effects n). x.0) (done_eq e)

  start-storage :
      (h : H) (interest fetch_prefix : n.Name) (pattern : Option (Pattern n))
      → (start n r build decode decode_name h interest fetch_prefix pattern).0.storage ≡ h.storage
  unfolding start
  start-storage h interest fetch_prefix none = refl
  start-storage h interest fetch_prefix (some x) = refl

  removed-storage :
      (h : H) (fetch_prefix : n.Name) (o : Option ℕ)
      → (removed n r build decode decode_name h fetch_prefix o).0.storage ≡ h.storage
  unfolding discard
  removed-storage h fetch_prefix none = refl
  removed-storage h fetch_prefix (some address) = refl

  on_interest-storage :
      (h : H) (interest prefix : n.Name) (memory : ℕ)
      → (on_interest n r build decode decode_name h interest prefix memory).0.storage ≡ h.storage
  on_interest-storage h interest prefix memory =
      on_interest_cases n r build decode decode_name (λ x. x.0.storage ≡ h.storage) h interest
        memory refl refl (λ pattern_name fetch_prefix e. start-storage h interest fetch_prefix _)
        prefix

  on_cancel_request-storage :
      (h : H) (interest prefix : n.Name)
      → (on_cancel_request n r build decode decode_name h interest prefix).0.storage ≡ h.storage
  on_cancel_request-storage h interest prefix =
      on_cancel_request_cases n r build decode decode_name (λ x. x.0.storage ≡ h.storage) h interest
        refl refl (λ fetch_prefix address e. removed-storage h fetch_prefix (some address)) prefix

  timer-storage :
      (h h' : H) (address : ℕ) (es : Effects n) (o : Option (Pattern n))
      → timer_at n r build decode decode_name h address o ≡ done (h', es)
      → h.storage ≡ h'.storage
  timer-storage h h' address es (some (counter_pattern p)) e =
      ap (λ (x : H). x.storage) (state_of e)
  timer-storage h h' address es (some (ndnrtc_pattern recorder)) e = cc
  timer-storage h h' address es (some gobj_pattern) e = cc
  timer-storage h h' address es none e = cc

  stored-storage :
      (h h' : H) (address : ℕ) (p : CounterPattern n) (es : Effects n)
      (result : Result (n.Name × Engine n r))
      → stored n r build decode decode_name h address p result ≡ done (h', es)
      → (name : n.Name) × (result ≡ ok (name, h'.storage))
  stored-storage h h' address p es (err x) e = cc
  stored-storage h h' address p es (ok (name, storage)) e =
      (name, ap (λ (x : H). ok (name, x.storage)) (state_of e))

  packet-storage :
      (h h' : H) (d : n.Data) (address : ℕ) (es : Effects n) (o : Option (Pattern n))
      → data_at n r build decode decode_name h d address o ≡ done (h', es)
      → (name : n.Name) × (put n r h.storage d ≡ ok (name, h'.storage))
  packet-storage h h' d address es (some (counter_pattern p)) e =
      stored-storage h h' address p es _ e
  packet-storage h h' d address es (some (ndnrtc_pattern recorder)) e = cc
  packet-storage h h' d address es (some gobj_pattern) e = cc
  packet-storage h h' d address es none e = cc

  recorded-storage :
      (h h' : H) (es : Effects n) (result : Result (n.Name × Engine n r))
      → recorded_put n r build decode decode_name h result ≡ done (h', es)
      → (name : n.Name) × (result ≡ ok (name, h'.storage))
  recorded-storage h h' es (err x) e = cc
  recorded-storage h h' es (ok (name, storage)) e =
      (name, ap (λ (x : H). ok (name, x.storage)) (state_of e))

  step-storage :
      (h h1 : H) (event : E) (es : Effects n)
      → step n r build decode decode_name h event ≡ done (h1, es)
      → (events : List E)
      → puts n r h.storage (arrived (event ∷ events)) ≡ puts n r h1.storage (arrived events)
  unfolding step on_timer on_data on_recorded remove_pattern arrived puts
  step-storage h h1 (fetch_command interest prefix memory) es e events =
      ap (λ x. puts n r x (arrived events))
        (sym (on_interest-storage h interest prefix memory)
          ∙ ap (λ (x : H). x.storage) (state_of e))
  step-storage h h1 (cancel_command interest prefix) es e events =
      ap (λ x. puts n r x (arrived events))
        (sym (on_cancel_request-storage h interest prefix) ∙ ap (λ (x : H). x.storage) (state_of e))
  step-storage h h1 (timer address) es e events =
      ap (λ x. puts n r x (arrived events)) (timer-storage h h1 address es _ e)
  step-storage h h1 (packet d address) es e events =
      let (name, done_put) = packet-storage h h1 d address es _ e in
      ap (λ x. go_on n r x (λ e'. puts n r e' (arrived events))) done_put
  step-storage h h1 (recorded d) es e events =
      let (name, done_put) = recorded-storage h h1 es _ e in
      ap (λ x. go_on n r x (λ e'. puts n r e' (arrived events))) done_put
  step-storage h h1 (removal prefix) es e events =
      ap (λ x. puts n r x (arrived events))
        (sym (removed-storage h prefix _) ∙ ap (λ (x : H). x.storage) (state_of e))

  -- Whatever reaches the pattern handle without a fault, the storage is afterwards as if just the
  -- packets that came had been put into it, in their order: commands, timers and cancellations
  -- store nothing, and no packet is left out or stored twice.
  pub run-puts :
      (events : List E) (h h' : H) (es : Effects n)
      → run h events ≡ done (h', es)
      → puts n r h.storage (arrived events) ≡ ok h'.storage
  unfolding run puts arrived
  run-puts [] h h' es e = ap (λ (x : H). ok x.storage) (state_of e)
  run-puts (event ∷ events) h h' es e =
      let (h1, gs, hs, first, rest, split) = run_cons h h' event events es e in
      step-storage h h1 event gs first events ∙ run-puts events h1 h' hs rest
