-- ===== src/Legacy/Segmented/Window.antt =====
-- The window of segmented fetching: what `segInit` sends, what one packet or timeout changes.
use fast_repo.Prelude.{
  ℕ, zero, suc, ◌+◌, ◌-◌, ◌^◌, ◌≤◌, ◌<◌, ◌≡◌, refl, ap, Option, none, some, [], ◌∷◌, ◌++◌, arith,
  ℕ_discrete,
}
use fast_repo.Prelude.Int.{pos, ◌-ℤ◌}
use fast_repo.Prelude.StdMap
use fast_repo.Prelude.StdMap.{Map, find-insert, find-erase}
use fast_repo.Legacy.Messages.{fetched_segment}
use fast_repo.Legacy.Segmented.Defs.{
  ProcessInfo, Effects, send_first, seg_init, initial_credit, data_control, send_queued, send_next,
  noend_timeout,
}

module _ (Name Selectors : Type 0) where
  -- Interests for as many segments, from one on.
  abbrev pub segments : Name → ℕ → ℕ → ℕ → Effects Name Selectors
  segments name id zero segment = []
  segments name id (suc count) segment =
      fetched_segment name segment id ∷ segments name id count (segment + 1)

  send_first_lem :
      (rounds : ℕ) (name : Name) (id segment left : ℕ) (p : ProcessInfo)
      → p.credit ≡ pos (left + rounds)
      → let (p', es, last) = send_first Name Selectors rounds name id segment p in
        (p'.credit ≡ pos left)
        × (es ≡ segments name id rounds segment)
        × (last ≡ segment + rounds)
        × (p'.next_segment_queue ≡ p.next_segment_queue)
        × (p'.response ≡ p.response)
  unfolding send_first
  send_first_lem zero name id segment left p h = ground arith
  send_first_lem (suc rounds) name id segment left p h = ground (
    arith,
    send_first_lem rounds name id (segment + 1) left (record p {
      credit = p.credit -ℤ pos 1;
      retry_counts = StdMap.insert ℕ_discrete segment 0 p.retry_counts;
    }),
  )

  -- Segmented fetching starts with one Interest for each segment from the start on, twelve or as
  -- many as there are up to the end; then the credit is used up, and the segment behind them is in
  -- the queue. The start lies at least twelve segments below 2 ^ 64.
  pub seg_init_lem :
      (now : ℕ) (name : Name) (id start : ℕ) (end : Option ℕ) (p : ProcessInfo)
      → start + 12 < 2 ^ 64
      → let (p', es) = seg_init Name Selectors now name id start end p in
        let credit = initial_credit Name Selectors start end in
        (es ≡ segments name id credit start)
        × (p'.credit ≡ pos 0)
        × (p'.next_segment ≡ start + credit)
        × (p'.next_segment_queue ≡ p.next_segment_queue ++ ((start + credit) ∷ []))
        × (p'.response ≡ p.response)
  unfolding seg_init
  seg_init_lem now name id start none p small = ground (
    arith,
    send_first_lem 12 name id start 0
        (record p { no_end_time = now + noend_timeout; credit = pos 12 }) refl,
  )
  seg_init_lem now name id start (some end) p small =
      let credit = initial_credit Name Selectors start (some end) in
      ground (
        arith,
        send_first_lem credit name id start 0 (record p { credit = pos credit })
            (ap pos (omega arith)),
      )

  abbrev pub fetches : Effects Name Selectors → ℕ
  fetches [] = 0
  fetches (fetched_segment name segment id ∷ es) = suc (fetches es)
  fetches (_ ∷ es) = fetches es

  -- Where the credit is not negative and no assertion fails, a packet gives one credit back and
  -- sends at most one Interest, which takes one: credit and Interests sent add up to the credit
  -- before and one.
  pub data_control-credit :
      (now : ℕ) (prefix : Name) (id got credit : ℕ) (p p' : ProcessInfo)
      (es : Effects Name Selectors)
      → p.credit ≡ pos credit
      → data_control Name Selectors now prefix id got p ≡ some (p', es)
      → (fetches es ≤ 1) × (p'.credit ≡ pos (credit + 1 - fetches es))
  unfolding data_control send_queued send_next
  data_control-credit now prefix id got credit p p' es has_credit result = ground arith
