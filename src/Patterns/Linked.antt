-- ===== src/Patterns/Linked.antt =====
-- The heap of patterns: the handle's map owns live objects, each under one prefix.
use fast_repo.Prelude.{
  ℕ, ◌<◌, ◌≡◌, refl, subst, true, Option, none, some, List, ℕ_discrete, arith, is_some,
}
use fast_repo.Prelude.Bytes.{Bytes}
use fast_repo.Prelude.StdMap
use fast_repo.Prelude.StdMap.{Map, find-insert, find-erase}
use fast_repo.Ndn.{Ndn, Rocks}
use fast_repo.Storage.Engine
use fast_repo.Storage.Engine.{Result, ok, err}
use fast_repo.Handles.Base.{Parameter, Effects}
use fast_repo.Patterns.Fetch
use fast_repo.Patterns.Fetch.{
  Build, Pattern, CounterPattern, counter_pattern, ndnrtc_pattern, gobj_pattern,
}
use fast_repo.Patterns.Handle.{
  PatternHandle, Outcome, done, start, on_interest, discard, on_cancel_request, on_timer, on_data,
  on_recorded, recorded_put, remove_pattern, removed, stored, data_at, timer_at, Event,
  fetch_command, cancel_command, timer, packet, recorded, removal, step,
}
use fast_repo.Patterns.Cases.{on_interest_cases, on_cancel_request_cases}

module _ (n : Ndn) (r : Rocks) (build : Build n.Name) (decode : n.Component → Option Parameter)
    (decode_name : Bytes → Option (List Bytes)) where
  -- Every address in the map is of a live object, no live object has an address that is still to
  -- come, and no object stands under two prefixes.
  pub record IsLinked (h : PatternHandle n r build decode decode_name) : Type 0 where
    pub live :
        (prefix : n.Name) (address : ℕ)
        → StdMap.find n.name_discrete prefix h.patterns ≡ some address
        → is_some (StdMap.find ℕ_discrete address h.objects) ≡ true
    pub below :
        (address : ℕ) → is_some (StdMap.find ℕ_discrete address h.objects) ≡ true → address < h.next
    pub unique :
        (p q : n.Name) (address : ℕ)
        → StdMap.find n.name_discrete p h.patterns ≡ some address
        → StdMap.find n.name_discrete q h.patterns ≡ some address
        → p ≡ q

  pub start-IsLinked :
      (h : PatternHandle n r build decode decode_name) (interest fetch_prefix : n.Name)
      (pattern : Option (Pattern n))
      → IsLinked h
      → IsLinked (start n r build decode decode_name h interest fetch_prefix pattern).0
  unfolding start
  start-IsLinked h interest fetch_prefix none l = l
  start-IsLinked h interest fetch_prefix (some x) l =
      let x' = (Fetch.fetch n build h.next fetch_prefix x).0 in
      record {
        live = λ p a. ground (
          arith,
          l.live p a,
          find-insert n.name_discrete fetch_prefix p h.next h.patterns,
          find-insert ℕ_discrete h.next a x' h.objects,
        );
        below = λ a. ground (arith, l.below a, find-insert ℕ_discrete h.next a x' h.objects);
        unique = λ p q a. ground (
          arith,
          l.unique p q a,
          l.live p a,
          l.live q a,
          l.below a,
          find-insert n.name_discrete fetch_prefix p h.next h.patterns,
          find-insert n.name_discrete fetch_prefix q h.next h.patterns,
        );
      }

  discard-IsLinked :
      (h : PatternHandle n r build decode decode_name) (fetch_prefix : n.Name) (address : ℕ)
      → StdMap.find n.name_discrete fetch_prefix h.patterns ≡ some address
      → IsLinked h
      → IsLinked (discard n r build decode decode_name h fetch_prefix address).0
  unfolding discard
  discard-IsLinked h fetch_prefix address found l = record {
    live = λ p a. ground (
      arith,
      found,
      l.live p a,
      l.unique p fetch_prefix a,
      find-erase n.name_discrete fetch_prefix p h.patterns,
      find-erase ℕ_discrete address a h.objects,
    );
    below = λ a. ground (arith, l.below a, find-erase ℕ_discrete address a h.objects);
    unique = λ p q a. ground (
      arith,
      l.unique p q a,
      find-erase n.name_discrete fetch_prefix p h.patterns,
      find-erase n.name_discrete fetch_prefix q h.patterns,
    );
  }

  on_interest-IsLinked :
      (h : PatternHandle n r build decode decode_name) (interest prefix : n.Name) (memory : ℕ)
      → IsLinked h
      → IsLinked (on_interest n r build decode decode_name h interest prefix memory).0
  on_interest-IsLinked h interest prefix memory l =
      on_interest_cases n r build decode decode_name (λ result. IsLinked result.0) h interest memory
        l l (λ pattern_name fetch_prefix e. start-IsLinked h interest fetch_prefix _ l) prefix

  on_cancel_request-IsLinked :
      (h : PatternHandle n r build decode decode_name) (interest prefix : n.Name)
      → IsLinked h
      → IsLinked (on_cancel_request n r build decode decode_name h interest prefix).0
  on_cancel_request-IsLinked h interest prefix l =
      on_cancel_request_cases n r build decode decode_name (λ result. IsLinked result.0) h interest
        l l (λ fetch_prefix address e. discard-IsLinked h fetch_prefix address e l) prefix

  remove_pattern-IsLinked :
      (h : PatternHandle n r build decode decode_name) (fetch_prefix : n.Name) (o : Option ℕ)
      → StdMap.find n.name_discrete fetch_prefix h.patterns ≡ o
      → IsLinked h
      → IsLinked (removed n r build decode decode_name h fetch_prefix o).0
  remove_pattern-IsLinked h fetch_prefix none e l = l
  remove_pattern-IsLinked h fetch_prefix (some address) e l =
      discard-IsLinked h fetch_prefix address e l

  stored-IsLinked :
      (h h' : PatternHandle n r build decode decode_name) (address : ℕ) (p : CounterPattern n)
      (result : Result (n.Name × Engine.Engine n r)) (es : Effects n)
      → is_some (StdMap.find ℕ_discrete address h.objects) ≡ true
      → stored n r build decode decode_name h address p result ≡ done (h', es)
      → IsLinked h
      → IsLinked h'
  stored-IsLinked h h' address p (err x) es there e l = cc
  stored-IsLinked h h' address p (ok (name, storage)) es there e l =
      let p' = counter_pattern (Fetch.count n address p).0 in
      record {
        live = λ q a. ground (arith, l.live q a, find-insert ℕ_discrete address a p' h.objects);
        below =
            λ a. ground (arith, there, l.below a, find-insert ℕ_discrete address a p' h.objects);
        unique = λ q s a. ground (arith, l.unique q s a);
      }

  state_eq :
      (h h' : PatternHandle n r build decode decode_name) (es fs : Effects n)
      → ◌≡◌ {A = Outcome (PatternHandle n r build decode decode_name × Effects n)}
          (done (h, es))
          (done (h', fs))
      → h ≡ h'
  state_eq h h' es fs e = cc

  timer-IsLinked :
      (h h' : PatternHandle n r build decode decode_name) (address : ℕ) (es : Effects n)
      (o : Option (Pattern n))
      → timer_at n r build decode decode_name h address o ≡ done (h', es)
      → IsLinked h
      → IsLinked h'
  timer-IsLinked h h' address es (some (counter_pattern p)) e l =
      subst IsLinked (state_eq _ h' _ es e) l
  timer-IsLinked h h' address es (some (ndnrtc_pattern recorder)) e l = cc
  timer-IsLinked h h' address es (some gobj_pattern) e l = cc
  timer-IsLinked h h' address es none e l = cc

  packet-IsLinked :
      (h h' : PatternHandle n r build decode decode_name) (d : n.Data) (address : ℕ)
      (es : Effects n) (o : Option (Pattern n))
      → StdMap.find ℕ_discrete address h.objects ≡ o
      → data_at n r build decode decode_name h d address o ≡ done (h', es)
      → IsLinked h
      → IsLinked h'
  packet-IsLinked h h' d address es (some (counter_pattern p)) q e l =
      stored-IsLinked h h' address p (Engine.put n r h.storage d) es (rw q) e l
  packet-IsLinked h h' d address es (some (ndnrtc_pattern recorder)) q e l = cc
  packet-IsLinked h h' d address es (some gobj_pattern) q e l = cc
  packet-IsLinked h h' d address es none q e l = cc

  recorded-IsLinked :
      (h h' : PatternHandle n r build decode decode_name) (es : Effects n)
      (result : Result (n.Name × Engine.Engine n r))
      → recorded_put n r build decode decode_name h result ≡ done (h', es)
      → IsLinked h
      → IsLinked h'
  recorded-IsLinked h h' es (err x) e l = cc
  recorded-IsLinked h h' es (ok (name, storage)) e l =
      subst IsLinked (state_eq _ h' _ es e)
        (record { live = l.live; below = l.below; unique = l.unique })

  -- Every command and callback that does not fault keeps the map of patterns and their heap linked:
  -- each entry's object is live, addresses are fresh, and no object has two prefixes.
  pub step-IsLinked :
      (h h' : PatternHandle n r build decode decode_name)
      (event : Event n r build decode decode_name) (es : Effects n)
      → step n r build decode decode_name h event ≡ done (h', es)
      → IsLinked h
      → IsLinked h'
  unfolding step on_timer on_data on_recorded remove_pattern
  step-IsLinked h h' (fetch_command interest prefix memory) es e l =
      subst IsLinked (state_eq _ h' _ es e) (on_interest-IsLinked h interest prefix memory l)
  step-IsLinked h h' (cancel_command interest prefix) es e l =
      subst IsLinked (state_eq _ h' _ es e) (on_cancel_request-IsLinked h interest prefix l)
  step-IsLinked h h' (timer address) es e l =
      timer-IsLinked h h' address es (StdMap.find ℕ_discrete address h.objects) e l
  step-IsLinked h h' (packet d address) es e l =
      packet-IsLinked h h' d address es (StdMap.find ℕ_discrete address h.objects) refl e l
  step-IsLinked h h' (recorded d) es e l = recorded-IsLinked h h' es _ e l
  step-IsLinked h h' (removal prefix) es e l =
      subst IsLinked (state_eq _ h' _ es e) (remove_pattern-IsLinked h prefix _ refl l)
