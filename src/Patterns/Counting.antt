-- ===== src/Patterns/Counting.antt =====
-- A counter pattern in a whole history of the pattern handle.
use fast_repo.Prelude.{
  ℕ, ◌+◌, ◌≡◌, refl, ap, ◌∙◌, subst, inl, inr, true, Option, some, List, [], ◌∷◌, is_some,
  ℕ_discrete, arith,
}
use fast_repo.Prelude.Bytes.{Bytes}
use fast_repo.Prelude.StdMap.{find-insert_same}
use fast_repo.Ndn.{Ndn, Rocks}
use fast_repo.Handles.Base.{Parameter, Effects}
use fast_repo.Patterns.Fetch
use fast_repo.Patterns.Fetch.{
  Build, Pattern, CounterPattern, counter_pattern, ndnrtc_pattern, gobj_pattern, to_string,
}
use fast_repo.Patterns.Handle.{PatternHandle, done, start, Event}
use fast_repo.Patterns.Linked.{IsLinked, start-IsLinked, step-IsLinked}
use fast_repo.Patterns.Histories.{run, run_cons, done_eq}
use fast_repo.Patterns.Trace.{
  asked, asked-append, packets_at, packets, asks, schedule, with_count, at,
}
use fast_repo.Patterns.Counted.{FollowsEvent, step-Follows}
use fast_repo.Patterns.Gone.{run-IsGone}

module _ (n : Ndn) (r : Rocks) (build : Build n.Name) (decode : n.Component → Option Parameter)
    (decode_name : Bytes → Option (List Bytes)) where
  abbrev H : Type 0
  H = PatternHandle n r build decode decode_name

  abbrev E : Type 0
  E = Event n r build decode decode_name

  -- The rest of a history, after its first event.
  go_on :
      (events : List E) (a k : ℕ) (prefix : n.Name) (event : E) (h1 h' : H) (gs hs : Effects n)
      → run n r build decode decode_name h1 events ≡ done (h', hs)
      → is_some (at n r build decode decode_name a h') ≡ true
      → FollowsEvent n r build decode decode_name a prefix k event (h1, gs)
      → (at n r build decode decode_name a h1
          ≡ some (with_count n prefix (k + packets_at n r build decode decode_name a event)))
        × (asked n a gs ≡ asks n r build decode decode_name a prefix k event)
  go_on events a k prefix event h1 h' gs hs rest alive (inl gone) =
      cc (run-IsGone n r build decode decode_name events a h1 h' hs gone rest)
  go_on events a k prefix event h1 h' gs hs rest alive (inr follows) = follows

  -- From any count on.
  pub run-schedule :
      (events : List E) (a k : ℕ) (prefix : n.Name) (h h' : H) (es : Effects n)
      → IsLinked n r build decode decode_name h
      → at n r build decode decode_name a h ≡ some (with_count n prefix k)
      → run n r build decode decode_name h events ≡ done (h', es)
      → is_some (at n r build decode decode_name a h') ≡ true
      → (at n r build decode decode_name a h'
          ≡ some (with_count n prefix (k + packets n r build decode decode_name a events)))
        × (asked n a es ≡ schedule n r build decode decode_name a prefix k events)
  unfolding run packets schedule asked
  run-schedule [] a k prefix h h' es linked there e alive =
      subst
        (λ (y : H × Effects n).
          (at n r build decode decode_name a y.0 ≡ some (with_count n prefix (k + 0)))
          × (asked n a y.1 ≡ []))
        (done_eq n r build decode decode_name e)
        (there ∙ ap (λ j. some (with_count n prefix j)) (omega arith), refl)
  run-schedule (event ∷ events) a k prefix h h' es linked there e alive =
      let (h1, gs, hs, first, rest, split) =
        run_cons n r build decode decode_name h h' event events es e in
      let (there1, asked1) =
        go_on events a k prefix event h1 h' gs hs rest alive
          (step-Follows n r build decode decode_name a prefix k h there linked h1 event gs first) in
      let (last, all) =
        run-schedule events a (k + packets_at n r build decode decode_name a event) prefix h1 h' hs
          (step-IsLinked n r build decode decode_name h h1 event gs first linked) there1 rest
          alive in
      (
        last ∙ ap (λ j. some (with_count n prefix j)) (omega arith),
        ap (asked n a) split ∙ asked-append n a gs hs ∙ rw (asked1, all) refl,
      )

  pub started_there :
      (h : H) (interest prefix : n.Name) (p : CounterPattern n)
      → at n r build decode decode_name h.next
          (start n r build decode decode_name h interest prefix (some (counter_pattern p))).0
        ≡ some (with_count n prefix 0)
  unfolding start Fetch.fetch
  started_there h interest prefix p =
      find-insert_same ℕ_discrete h.next (with_count n prefix 0) h.objects

  -- A counter pattern that the pattern handle starts, among whatever else then reaches the handle
  -- without a fault, as long as it is not cancelled: its counter is the number of packets that came
  -- for it, it runs until that is ten, and the Interests that it expresses are those of the schedule:
  -- each time its timer fires, while fewer than ten packets have come, the prefix followed by their
  -- number, and nothing else.
  pub started-schedule :
      (h h' : H) (interest prefix : n.Name) (p : CounterPattern n) (events : List E)
      (es : Effects n)
      → IsLinked n r build decode decode_name h
      → run n r build decode decode_name
          (start n r build decode decode_name h interest prefix (some (counter_pattern p))).0
          events
        ≡ done (h', es)
      → is_some (at n r build decode decode_name h.next h') ≡ true
      → (at n r build decode decode_name h.next h'
          ≡ some (with_count n prefix (packets n r build decode decode_name h.next events)))
        × (asked n h.next es ≡ schedule n r build decode decode_name h.next prefix 0 events)
  started-schedule h h' interest prefix p events es linked e alive =
      let (last, all) =
        run-schedule events h.next 0 prefix _ h' es
          (start-IsLinked n r build decode decode_name h interest prefix (some (counter_pattern p))
            linked)
          (started_there h interest prefix p) e alive in
      (last ∙ ap (λ j. some (with_count n prefix j)) (omega arith), all)
