-- ===== src/Patterns/Counted.antt =====
-- One event for a counter pattern: what its number and its Interests become.
use fast_repo.Prelude.{
  ℕ, ◌+◌, ◌≡◌, refl, ap, ◌∙◌, sym, subst, inl, inr, Option, none, some, List, [], ltb, ℕ_discrete,
  arith,
}
use fast_repo.Prelude.Bytes.{Bytes}
use fast_repo.Prelude.StdMap
use fast_repo.Prelude.StdMap.{find-insert, find-insert_same, find-erase}
use fast_repo.Ndn.{Ndn, Rocks}
use fast_repo.Storage.Engine
use fast_repo.Storage.Engine.{Result, ok, err}
use fast_repo.Handles.Base.{Parameter, Effects}
use fast_repo.Patterns.Fetch
use fast_repo.Patterns.Fetch.{
  Build, Pattern, CounterPattern, counter_pattern, ndnrtc_pattern, gobj_pattern, to_string,
}
use fast_repo.Patterns.Handle.{
  PatternHandle, done, on_timer, on_data, remove_pattern, stored, data_at, timer_at, on_recorded,
  recorded_put, Event, fetch_command, cancel_command, timer, packet, recorded, removal, step,
}
use fast_repo.Patterns.Linked.{IsLinked}
use fast_repo.Patterns.Histories.{done_eq}
use fast_repo.Patterns.Trace.{
  asked, packets_at, asks, with_count, at, Follows, asked-do_fetch, asked-count,
  on_interest-Follows, on_cancel_request-Follows, removed-Follows,
}

module _ (n : Ndn) (r : Rocks) (build : Build n.Name) (decode : n.Component → Option Parameter)
    (decode_name : Bytes → Option (List Bytes)) where
  abbrev H : Type 0
  H = PatternHandle n r build decode decode_name

  abbrev E : Type 0
  E = Event n r build decode decode_name

  abbrev pub FollowsEvent : ℕ → n.Name → ℕ → E → H × Effects n → Type 0
  FollowsEvent a prefix k event =
      Follows n r build decode decode_name a
        (with_count n prefix (k + packets_at n r build decode decode_name a event))
        (asks n r build decode decode_name a prefix k event)

  module _ (a : ℕ) (prefix : n.Name) (k : ℕ) (h : H)
      (there : at n r build decode decode_name a h ≡ some (with_count n prefix k))
      (linked : IsLinked n r build decode decode_name h) where
    same_object :
        (address : ℕ) (p : CounterPattern n)
        → at n r build decode decode_name address h ≡ some (counter_pattern p)
        → address ≡ a
        → ◌≡◌ {A = CounterPattern n} p
            (record { running = ltb k 10; counter = k; fetch_prefix = prefix })
    same_object address p q same = cc

    asked-timer :
        (address : ℕ) (p : CounterPattern n)
        → at n r build decode decode_name address h ≡ some (counter_pattern p)
        → asked n a (Fetch.do_fetch n address p)
          ≡ asks n r build decode decode_name a prefix k (timer address)
    unfolding asks
    asked-timer address p q =
        asked-do_fetch n r build decode decode_name a h (with_count n prefix k) there linked address
          p
        ∙ ground (arith, same_object address p q)

    timer-Follows :
        (h' : H) (es : Effects n) (address : ℕ) (o : Option (Pattern n))
        → at n r build decode decode_name address h ≡ o
        → timer_at n r build decode decode_name h address o ≡ done (h', es)
        → FollowsEvent a prefix k (timer address) (h', es)
    unfolding packets_at
    timer-Follows h' es address (some (counter_pattern p)) q e =
        subst (FollowsEvent a prefix k (timer address)) (done_eq n r build decode decode_name e) (
          inr
            (there ∙ ap (λ j. some (with_count n prefix j)) (omega arith), asked-timer address p q))
    timer-Follows h' es address (some (ndnrtc_pattern recorder)) q e = cc
    timer-Follows h' es address (some gobj_pattern) q e = cc
    timer-Follows h' es address none q e = cc

    counted :
        (d : n.Data) (address : ℕ) (p : CounterPattern n)
        → at n r build decode decode_name address h ≡ some (counter_pattern p)
        → StdMap.find ℕ_discrete a (
            StdMap.insert ℕ_discrete address
              (counter_pattern (Fetch.count n address p).0)
              h.objects)
          ≡ some (
              with_count n prefix
                (k + packets_at n r build decode decode_name a (packet d address)))
    unfolding packets_at Fetch.count
    counted d address p q = ground (
      arith,
      there,
      same_object address p q,
      find-insert ℕ_discrete address a (counter_pattern (Fetch.count n address p).0) h.objects,
    )

    stored-Follows :
        (h' : H) (es : Effects n) (d : n.Data) (address : ℕ) (p : CounterPattern n)
        (result : Result (n.Name × Engine.Engine n r))
        → at n r build decode decode_name address h ≡ some (counter_pattern p)
        → stored n r build decode decode_name h address p result ≡ done (h', es)
        → FollowsEvent a prefix k (packet d address) (h', es)
    unfolding asks
    stored-Follows h' es d address p (err x) q e = cc
    stored-Follows h' es d address p (ok (name, storage)) q e =
        subst (FollowsEvent a prefix k (packet d address)) (done_eq n r build decode decode_name e)
          (inr (
            counted d address p q,
            asked-count n r build decode decode_name a h (with_count n prefix k) there linked
                address p,
          ))

    packet-Follows :
        (h' : H) (es : Effects n) (d : n.Data) (address : ℕ) (o : Option (Pattern n))
        → at n r build decode decode_name address h ≡ o
        → data_at n r build decode decode_name h d address o ≡ done (h', es)
        → FollowsEvent a prefix k (packet d address) (h', es)
    packet-Follows h' es d address (some (counter_pattern p)) q e =
        stored-Follows h' es d address p _ q e
    packet-Follows h' es d address (some (ndnrtc_pattern recorder)) q e = cc
    packet-Follows h' es d address (some gobj_pattern) q e = cc
    packet-Follows h' es d address none q e = cc

    quiet :
        (event : E) (y : H × Effects n)
        → packets_at n r build decode decode_name a event ≡ 0
        → asks n r build decode decode_name a prefix k event ≡ []
        → Follows n r build decode decode_name a (with_count n prefix k) [] y
        → FollowsEvent a prefix k event y
    quiet event y none_come none_asked (inl gone) = inl gone
    quiet event y none_come none_asked (inr (kept, said)) = inr (
      kept ∙ ap (λ j. some (with_count n prefix j)) (omega (arith, none_come)),
      said ∙ sym none_asked,
    )

    recorded-Follows :
        (h' : H) (es : Effects n) (result : Result (n.Name × Engine.Engine n r))
        → recorded_put n r build decode decode_name h result ≡ done (h', es)
        → Follows n r build decode decode_name a (with_count n prefix k) [] (h', es)
    unfolding asked
    recorded-Follows h' es (err x) e = cc
    recorded-Follows h' es (ok (name, storage)) e =
        subst (Follows n r build decode decode_name a (with_count n prefix k) [])
          (done_eq n r build decode decode_name e) (inr (there, refl))

    pub step-Follows :
        (h' : H) (event : E) (es : Effects n)
        → step n r build decode decode_name h event ≡ done (h', es)
        → FollowsEvent a prefix k event (h', es)
    unfolding step on_timer on_data on_recorded remove_pattern packets_at asks
    step-Follows h' (fetch_command interest prefix' memory) es e =
        quiet (fetch_command interest prefix' memory) (h', es) refl refl
          (subst (Follows n r build decode decode_name a (with_count n prefix k) [])
            (done_eq n r build decode decode_name e)
            (on_interest-Follows n r build decode decode_name a h (with_count n prefix k) there
              linked interest prefix' memory))
    step-Follows h' (cancel_command interest prefix') es e =
        quiet (cancel_command interest prefix') (h', es) refl refl
          (subst (Follows n r build decode decode_name a (with_count n prefix k) [])
            (done_eq n r build decode decode_name e)
            (on_cancel_request-Follows n r build decode decode_name a h (with_count n prefix k)
              there linked interest prefix'))
    step-Follows h' (timer address) es e = timer-Follows h' es address _ refl e
    step-Follows h' (packet d address) es e = packet-Follows h' es d address _ refl e
    step-Follows h' (recorded d) es e =
        quiet (recorded d) (h', es) refl refl (recorded-Follows h' es _ e)
    step-Follows h' (removal prefix') es e =
        quiet (removal prefix') (h', es) refl refl
          (subst (Follows n r build decode decode_name a (with_count n prefix k) [])
            (done_eq n r build decode decode_name e)
            (removed-Follows n r build decode decode_name a h (with_count n prefix k) there linked
              prefix' _))
