-- ===== src/Patterns/Rounds.antt =====
-- The rounds of a counter pattern from `fetch` to its end.
use fast_repo.Prelude.{ℕ, zero, suc, ◌<◌, ◌≤◌, ◌≡◌, refl, true, [], ◌∷◌, arith, ltb}
use fast_repo.Ndn.{Ndn}
use fast_repo.Handles.Base.{expressed, call_later}
use fast_repo.Patterns.Fetch.{
  CounterPattern, counter_pattern, fetch, do_fetch, count, to_string, Build,
}

module _ (n : Ndn) (address : ℕ) where
  -- A counter pattern after some of its packets have come.
  pub after_packets : ℕ → CounterPattern n → CounterPattern n
  after_packets zero p = p
  after_packets (suc k) p = (count n address (after_packets k p)).0

  after_packets_lem :
      (k : ℕ) (p : CounterPattern n)
      → p.running ≡ true
      → p.counter ≡ 0
      → k ≤ 10
      → ((after_packets k p).counter ≡ k)
        × ((after_packets k p).running ≡ ltb k 10)
        × ((after_packets k p).fetch_prefix ≡ p.fetch_prefix)
  unfolding count after_packets
  after_packets_lem zero p run start h = (start, run, refl)
  after_packets_lem (suc k) p run start h = ground (arith, after_packets_lem k p run start)

  -- A counter pattern that has just been told to fetch asks for `prefix/0` to `prefix/9`, one
  -- after each packet that comes, and for nothing after the tenth.
  pub counter_rounds :
      (k : ℕ) (p : CounterPattern n) (prefix : n.Name) (build : Build n.Name)
      → k < 10
      → let p0 : CounterPattern n = record { running = true; counter = 0; fetch_prefix = prefix } in
        (fetch n build address prefix (counter_pattern p)
          ≡ (counter_pattern p0, call_later 1 address ∷ []))
        × (do_fetch n address (after_packets k p0)
            ≡ expressed (n.append_component prefix (n.component (to_string k))) address ∷ [])
        × (do_fetch n address (after_packets 10 p0) ≡ [])
  unfolding do_fetch fetch
  counter_rounds k p prefix build h =
      let p0 : CounterPattern n = record { running = true; counter = 0; fetch_prefix = prefix } in
      (
        refl,
        ground (arith, after_packets_lem k p0 refl refl),
        ground (arith, after_packets_lem 10 p0 refl refl (omega arith)),
      )
