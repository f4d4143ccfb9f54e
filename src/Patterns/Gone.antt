-- ===== src/Patterns/Gone.antt =====
-- An object of the heap that is destroyed stays so: its address is not used again.
use fast_repo.Prelude.{
  ℕ, ◌<◌, ◌≡◌, refl, subst, Option, none, some, List, [], ◌∷◌, ℕ_discrete, arith,
}
use fast_repo.Prelude.Bytes.{Bytes}
use fast_repo.Prelude.StdMap.{find-insert, find-erase}
use fast_repo.Ndn.{Ndn, Rocks}
use fast_repo.Storage.Engine
use fast_repo.Storage.Engine.{Result, ok, err}
use fast_repo.Handles.Base.{Parameter, Effects}
use fast_repo.Patterns.Fetch
use fast_repo.Patterns.Fetch.{
  Build, Pattern, CounterPattern, counter_pattern, ndnrtc_pattern, gobj_pattern, to_string,
}
use fast_repo.Patterns.Handle.{
  PatternHandle, done, start, discard, on_timer, on_data, remove_pattern, removed, stored, data_at,
  timer_at, on_recorded, recorded_put, Event, fetch_command, cancel_command, timer, packet,
  recorded, removal, step,
}
use fast_repo.Patterns.Cases.{on_interest_cases, on_cancel_request_cases}
use fast_repo.Patterns.Histories.{run, run_cons, done_eq}
use fast_repo.Patterns.Trace.{at, IsGone}

module _ (n : Ndn) (r : Rocks) (build : Build n.Name) (decode : n.Component → Option Parameter)
    (decode_name : Bytes → Option (List Bytes)) where
  abbrev H : Type 0
  H = PatternHandle n r build decode decode_name

  abbrev E : Type 0
  E = Event n r build decode decode_name

  module _ (a : ℕ) (h : H) (gone : at n r build decode decode_name a h ≡ none)
      (below : a < h.next) where
    start-IsGone :
        (interest fetch_prefix : n.Name) (pattern : Option (Pattern n))
        → IsGone n r build decode decode_name a
            (start n r build decode decode_name h interest fetch_prefix pattern).0
    unfolding start
    start-IsGone interest fetch_prefix none = (gone, below)
    start-IsGone interest fetch_prefix (some y) = (
      ground (
        arith,
        gone,
        below,
        find-insert ℕ_discrete h.next a (Fetch.fetch n build h.next fetch_prefix y).0 h.objects,
      ),
      omega (arith, below),
    )

    removed-IsGone :
        (fetch_prefix : n.Name) (o : Option ℕ)
        → IsGone n r build decode decode_name a
            (removed n r build decode decode_name h fetch_prefix o).0
    unfolding discard
    removed-IsGone fetch_prefix none = (gone, below)
    removed-IsGone fetch_prefix (some address) =
        (ground (arith, gone, find-erase ℕ_discrete address a h.objects), below)

    timer-IsGone :
        (h' : H) (es : Effects n) (address : ℕ) (o : Option (Pattern n))
        → timer_at n r build decode decode_name h address o ≡ done (h', es)
        → IsGone n r build decode decode_name a h'
    timer-IsGone h' es address (some (counter_pattern p)) e =
        subst (λ (y : H × Effects n). IsGone n r build decode decode_name a y.0)
          (done_eq n r build decode decode_name e) (gone, below)
    timer-IsGone h' es address (some (ndnrtc_pattern recorder)) e = cc
    timer-IsGone h' es address (some gobj_pattern) e = cc
    timer-IsGone h' es address none e = cc

    stored-IsGone :
        (h' : H) (es : Effects n) (address : ℕ) (p : CounterPattern n)
        (result : Result (n.Name × Engine.Engine n r))
        → at n r build decode decode_name address h ≡ some (counter_pattern p)
        → stored n r build decode decode_name h address p result ≡ done (h', es)
        → IsGone n r build decode decode_name a h'
    stored-IsGone h' es address p (err x) q e = cc
    stored-IsGone h' es address p (ok (name, storage)) q e =
        subst (λ (y : H × Effects n). IsGone n r build decode decode_name a y.0)
          (done_eq n r build decode decode_name e)
          (
            ground (
              arith,
              gone,
              q,
              find-insert ℕ_discrete address a (counter_pattern (Fetch.count n address p).0)
                  h.objects,
            ),
            below,
          )

    packet-IsGone :
        (h' : H) (es : Effects n) (d : n.Data) (address : ℕ) (o : Option (Pattern n))
        → at n r build decode decode_name address h ≡ o
        → data_at n r build decode decode_name h d address o ≡ done (h', es)
        → IsGone n r build decode decode_name a h'
    packet-IsGone h' es d address (some (counter_pattern p)) q e =
        stored-IsGone h' es address p _ q e
    packet-IsGone h' es d address (some (ndnrtc_pattern recorder)) q e = cc
    packet-IsGone h' es d address (some gobj_pattern) q e = cc
    packet-IsGone h' es d address none q e = cc

    recorded-IsGone :
        (h' : H) (es : Effects n) (result : Result (n.Name × Engine.Engine n r))
        → recorded_put n r build decode decode_name h result ≡ done (h', es)
        → IsGone n r build decode decode_name a h'
    recorded-IsGone h' es (err x) e = cc
    recorded-IsGone h' es (ok (name, storage)) e =
        subst (λ (y : H × Effects n). IsGone n r build decode decode_name a y.0)
          (done_eq n r build decode decode_name e) (gone, below)

    step-IsGone :
        (h' : H) (event : E) (es : Effects n)
        → step n r build decode decode_name h event ≡ done (h', es)
        → IsGone n r build decode decode_name a h'
    unfolding step on_timer on_data on_recorded remove_pattern
    step-IsGone h' (fetch_command interest prefix' memory) es e =
        subst (λ (y : H × Effects n). IsGone n r build decode decode_name a y.0)
          (done_eq n r build decode decode_name e)
          (on_interest_cases n r build decode decode_name
            (λ (y : H × Effects n). IsGone n r build decode decode_name a y.0) h interest memory
            (gone, below) (gone, below)
            (λ pattern_name fetch_prefix e'. start-IsGone interest fetch_prefix _) prefix')
    step-IsGone h' (cancel_command interest prefix') es e =
        subst (λ (y : H × Effects n). IsGone n r build decode decode_name a y.0)
          (done_eq n r build decode decode_name e)
          (on_cancel_request_cases n r build decode decode_name
            (λ (y : H × Effects n). IsGone n r build decode decode_name a y.0) h interest
            (gone, below) (gone, below)
            (λ fetch_prefix address e'. removed-IsGone fetch_prefix (some address)) prefix')
    step-IsGone h' (timer address) es e = timer-IsGone h' es address _ e
    step-IsGone h' (packet d address) es e = packet-IsGone h' es d address _ refl e
    step-IsGone h' (recorded d) es e = recorded-IsGone h' es _ e
    step-IsGone h' (removal prefix') es e =
        subst (λ (y : H × Effects n). IsGone n r build decode decode_name a y.0)
          (done_eq n r build decode decode_name e) (removed-IsGone prefix' _)

  pub run-IsGone :
      (events : List E) (a : ℕ) (h h' : H) (es : Effects n)
      → IsGone n r build decode decode_name a h
      → run n r build decode decode_name h events ≡ done (h', es)
      → at n r build decode decode_name a h' ≡ none
  unfolding run
  run-IsGone [] a h h' es (gone, below) e =
      subst (λ (y : H × Effects n). at n r build decode decode_name a y.0 ≡ none)
        (done_eq n r build decode decode_name e) gone
  run-IsGone (event ∷ events) a h h' es (gone, below) e =
      let (h1, gs, hs, first, rest, split) =
        run_cons n r build decode decode_name h h' event events es e in
      run-IsGone events a h1 h' hs (step-IsGone a h gone below h1 event gs first) rest
