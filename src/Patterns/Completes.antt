-- ===== src/Patterns/Completes.antt =====
-- A counter pattern from its fetch command to its last packet.
use fast_repo.Prelude.{
  ℕ, ◌+◌, ◌≤◌, ◌≡◌, refl, ap, ◌∙◌, sym, subst, true, Option, none, some, List, [], ◌∷◌, ◌++◌,
  length, is_some, ℕ_discrete, arith,
}
use fast_repo.Prelude.Bytes.{Bytes}
use fast_repo.Prelude.StdMap
use fast_repo.Prelude.StdMap.{find-insert_same}
use fast_repo.Ndn.{Ndn, Rocks}
use fast_repo.Storage.Engine.{ok, put_packet, stored_packet}
use fast_repo.Storage.Written.{put_eq}
use fast_repo.Storage.Histories.{puts}
use fast_repo.Handles.Base.{Parameter, Effects, extract_parameter}
use fast_repo.Patterns.Fetch
use fast_repo.Patterns.Fetch.{Build, Pattern, CounterPattern, counter_pattern, to_string}
use fast_repo.Patterns.Handle.{
  PatternHandle, Outcome, done, start, on_interest, on_timer, on_data, timer_at, data_at, stored,
  decode_names, Event, timer, packet, step,
}
use fast_repo.Patterns.Linked.{IsLinked}
use fast_repo.Patterns.Histories.{run, then_run, after, arrived, run-puts}
use fast_repo.Patterns.Trace.{asked, packets, packets_at, asks, schedule, with_count, at}
use fast_repo.Patterns.Counting.{started-schedule, started_there}

module _ (n : Ndn) where
  -- The Interests of as many rounds as there are packets.
  abbrev pub numbered : n.Name → ℕ → List n.Data → List n.Name
  numbered prefix k [] = []
  numbered prefix k (d ∷ ds) =
      n.append_component prefix (n.component (to_string k)) ∷ numbered prefix (k + 1) ds

module _ (n : Ndn) (r : Rocks) (build : Build n.Name) (decode : n.Component → Option Parameter)
    (decode_name : Bytes → Option (List Bytes)) where
  abbrev H : Type 0
  H = PatternHandle n r build decode decode_name

  abbrev E : Type 0
  E = Event n r build decode decode_name

  -- The timer of a pattern and its packet, in turn.
  abbrev pub rounds : ℕ → List n.Data → List E
  rounds a [] = []
  rounds a (d ∷ ds) = timer a ∷ packet d a ∷ rounds a ds

  arrived-rounds :
      (a : ℕ) (ds : List n.Data) → arrived n r build decode decode_name (rounds a ds) ≡ ds
  unfolding arrived
  arrived-rounds a [] = refl
  arrived-rounds a (d ∷ ds) = ap (λ rest. d ∷ rest) (arrived-rounds a ds)

  packets-rounds :
      (a : ℕ) (ds : List n.Data) → packets n r build decode decode_name a (rounds a ds) ≡ length ds
  unfolding packets packets_at
  packets-rounds a [] = refl
  packets-rounds a (d ∷ ds) = ground (arith, packets-rounds a ds)

  schedule-rounds :
      (a : ℕ) (prefix : n.Name) (ds : List n.Data) (k : ℕ)
      → k + length ds ≤ 10
      → schedule n r build decode decode_name a prefix k (rounds a ds) ≡ numbered n prefix k ds
  unfolding schedule asks packets_at
  schedule-rounds a prefix [] k few = refl
  schedule-rounds a prefix (d ∷ ds) k few =
      ground (arith, schedule-rounds a prefix ds (k + 1) (omega arith))

  -- The storage is open, and a counter pattern stands at the address.
  abbrev Ready : ℕ → H → Type 0
  Ready a h =
      ((s : r.Store) × (h.storage.db ≡ some s))
      × ((p : CounterPattern n) × (at n r build decode decode_name a h ≡ some (counter_pattern p)))

  module _ (a : ℕ) (h : H) (s : r.Store) (p : CounterPattern n) (opened : h.storage.db ≡ some s)
      (there : at n r build decode decode_name a h ≡ some (counter_pattern p)) where
    step-timer : step n r build decode decode_name h (timer a) ≡ done (h, Fetch.do_fetch n a p)
    unfolding step on_timer
    step-timer = ap (timer_at n r build decode decode_name h a) there

    -- The handle after a packet for the pattern.
    abbrev stored_one : n.Data → H
    stored_one d = record h {
      storage = (put_packet n r h.storage s (stored_packet n r h.storage d)).1;
      objects = StdMap.insert ℕ_discrete a (counter_pattern (Fetch.count n a p).0) h.objects;
    }

    step-packet :
        (d : n.Data)
        → step n r build decode decode_name h (packet d a)
          ≡ done (stored_one d, (Fetch.count n a p).1)
    unfolding step on_data
    step-packet d =
        ap (data_at n r build decode decode_name h d a) there
        ∙ ap (stored n r build decode decode_name h a p) (put_eq n r h.storage s d opened)

    stored_one-Ready : (d : n.Data) → Ready a (stored_one d)
    unfolding put_packet
    stored_one-Ready d = (
      ((r.put _ _ s).1, refl),
      ((Fetch.count n a p).0, find-insert_same ℕ_discrete a _ h.objects),
    )

  -- What is left of a run when it is known to end.
  ends_after :
      (gs : Effects n) (result : Outcome (H × Effects n)) (h' : H) (hs : Effects n)
      → result ≡ done (h', hs)
      → after n r build decode decode_name gs result ≡ done (h', gs ++ hs)
  ends_after gs result h' hs e = ap (after n r build decode decode_name gs) e

  step_then :
      (h h1 h' : H) (event : E) (events : List E) (gs hs : Effects n)
      → step n r build decode decode_name h event ≡ done (h1, gs)
      → run n r build decode decode_name h1 events ≡ done (h', hs)
      → run n r build decode decode_name h (event ∷ events) ≡ done (h', gs ++ hs)
  unfolding run
  step_then h h1 h' event events gs hs first rest =
      ap
        (λ x.
          then_run n r build decode decode_name x (λ y. run n r build decode decode_name y events))
        first
      ∙ ends_after gs (run n r build decode decode_name h1 events) h' hs rest

  -- No round faults.
  run-rounds :
      (ds : List n.Data) (a : ℕ) (h : H)
      → Ready a h
      → (h' : H) × (es : Effects n) × (run n r build decode decode_name h (rounds a ds)
          ≡ done (h', es))
        × (is_some (at n r build decode decode_name a h') ≡ true)
  unfolding run
  run-rounds [] a h ((s, opened), (p, there)) = (h, [], refl, rw there refl)
  run-rounds (d ∷ ds) a h ((s, opened), (p, there)) =
      let h1 = stored_one a h s p opened there d in
      let (h', es, ended, alive) = run-rounds ds a h1 (stored_one-Ready a h s p opened there d) in
      (
        h',
        Fetch.do_fetch n a p ++ ((Fetch.count n a p).1 ++ es),
        step_then h h h' (timer a) (packet d a ∷ rounds a ds) _ _ (step-timer a h s p opened there)
            (step_then h h1 h' (packet d a) (rounds a ds) _ es (step-packet a h s p opened there d)
              ended),
        alive,
      )

  start_eq :
      (h : H) (interest prefix pattern_name fetch_prefix : n.Name) (memory : ℕ)
      (parameter : Parameter) (p : CounterPattern n)
      → extract_parameter n decode interest prefix ≡ some parameter
      → decode_names n r build decode decode_name parameter.name ≡ some (pattern_name, fetch_prefix)
      → StdMap.find n.name_discrete fetch_prefix h.patterns ≡ none
      → Fetch.create n build memory pattern_name ≡ some (counter_pattern p)
      → on_interest n r build decode decode_name h interest prefix memory
        ≡ start n r build decode decode_name h interest fetch_prefix (some (counter_pattern p))
  unfolding on_interest
  start_eq h interest prefix pattern_name fetch_prefix memory parameter p extracted decoded free
        created =
      rw (extracted, decoded, free, created) refl

  start-Ready :
      (h : H) (interest prefix : n.Name) (p : CounterPattern n) (s : r.Store)
      → h.storage.db ≡ some s
      → Ready h.next
          (start n r build decode decode_name h interest prefix (some (counter_pattern p))).0
  unfolding start
  start-Ready h interest prefix p s opened = (
    (s, opened),
    (
      record p { running = true; counter = 0; fetch_prefix = prefix },
      started_there n r build decode decode_name h interest prefix p,
    ),
  )

  -- What becomes of the rounds from a handle on: they end without a fault, the Interests of the pattern at
  -- the address are the numbered ones, the packets are stored, and the pattern has counted them.
  abbrev pub Completes : ℕ → n.Name → List n.Data → H → Type 0
  Completes a prefix ds h0 =
      (h' : H) × (es : Effects n) × (run n r build decode decode_name h0 (rounds a ds)
        ≡ done (h', es))
      × (asked n a es ≡ numbered n prefix 0 ds)
      × (puts n r h0.storage ds ≡ ok h'.storage)
      × (at n r build decode decode_name a h' ≡ some (with_count n prefix (length ds)))

  started-Completes :
      (h : H) (interest prefix : n.Name) (p : CounterPattern n) (s : r.Store) (ds : List n.Data)
      → IsLinked n r build decode decode_name h
      → h.storage.db ≡ some s
      → length ds ≤ 10
      → Completes h.next prefix ds
          (start n r build decode decode_name h interest prefix (some (counter_pattern p))).0
  started-Completes h interest prefix p s ds linked opened few =
      let h0 =
        (start n r build decode decode_name h interest prefix (some (counter_pattern p))).0 in
      let (h', es, ended, alive) =
        run-rounds ds h.next h0 (start-Ready h interest prefix p s opened) in
      let (last, all) =
        started-schedule n r build decode decode_name h h' interest prefix p (rounds h.next ds) es
          linked ended alive in
      (
        h',
        es,
        ended,
        all ∙ schedule-rounds h.next prefix ds 0 (omega arith),
        sym (ap (puts n r h0.storage) (arrived-rounds h.next ds))
            ∙ run-puts n r build decode decode_name (rounds h.next ds) h0 h' es ended,
        last ∙ ap (λ k. some (with_count n prefix k)) (packets-rounds h.next ds),
      )

  -- A fetch command that names a counter pattern, and a prefix that nothing is fetched under, at a
  -- pattern handle whose storage is open. When the pattern's timer then fires and a packet comes for
  -- it, in turn and at most ten times, nothing faults; the Interests that the pattern expresses are
  -- the prefix followed by 0, 1, 2 and so on, one for each packet, in this order; the storage is as
  -- if these packets had been put into it, in their order; and the pattern has counted all of them.
  pub counter-Completes :
      (h : H) (interest prefix pattern_name fetch_prefix : n.Name) (memory : ℕ)
      (parameter : Parameter) (p : CounterPattern n) (s : r.Store) (ds : List n.Data)
      → IsLinked n r build decode decode_name h
      → h.storage.db ≡ some s
      → extract_parameter n decode interest prefix ≡ some parameter
      → decode_names n r build decode decode_name parameter.name ≡ some (pattern_name, fetch_prefix)
      → StdMap.find n.name_discrete fetch_prefix h.patterns ≡ none
      → Fetch.create n build memory pattern_name ≡ some (counter_pattern p)
      → length ds ≤ 10
      → Completes h.next fetch_prefix ds
          (on_interest n r build decode decode_name h interest prefix memory).0
  counter-Completes h interest prefix pattern_name fetch_prefix memory parameter p s ds linked
        opened extracted decoded free created few =
      subst (λ x. Completes h.next fetch_prefix ds x.0)
        (sym (
          start_eq h interest prefix pattern_name fetch_prefix memory parameter p extracted decoded
            free created))
        (started-Completes h interest fetch_prefix p s ds linked opened few)
