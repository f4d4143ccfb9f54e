-- ===== src/Legacy/Segmented/Initial.antt =====
-- What `segInit` leaves: a segmented fetch under way.
use fast_repo.Prelude.{
  ℕ, zero, suc, ◌+◌, ◌^◌, ◌≤◌, ◌<◌, ◌≡◌, refl, ap, ◌∙◌, ◌⊎◌, inl, inr, min, true, some, [], ◌∷◌,
  ◌++◌, is_some, arith, ℕ_discrete, sym, Option, none, In,
}
use fast_repo.Prelude.Int.{pos, ◌-ℤ◌}
use fast_repo.Prelude.StdMap
use fast_repo.Prelude.StdMap.{find-insert}
use fast_repo.Legacy.Segmented.Ranges.{count_up}
use fast_repo.Legacy.Segmented.Window.{segments, seg_init_lem}
use fast_repo.Legacy.Segmented.Going.{asked, count, Going}
use fast_repo.Legacy.Segmented.Late.{Bounded}
use fast_repo.Legacy.Segmented.Defs.{
  ProcessInfo, send_first, seg_init, initial_credit, rounds_from, no_end_time_from,
}

module _ (Name Selectors : Type 0) where
  -- The counts that the loop of `segInit` sets, and those that it keeps.
  send_first-counts :
      (rounds : ℕ) (name : Name) (id segment : ℕ) (p : ProcessInfo) (i : ℕ)
      → (is_some (StdMap.find ℕ_discrete i p.retry_counts) ≡ true)
        ⊎ ((segment ≤ i) × (i < segment + rounds))
      → is_some (
          StdMap.find ℕ_discrete i
            (send_first Name Selectors rounds name id segment p).0.retry_counts)
        ≡ true
  unfolding send_first
  send_first-counts zero name id segment p i (inl h) = h
  send_first-counts zero name id segment p i (inr h) = absurd (omega arith)
  send_first-counts (suc rounds) name id segment p i h =
      send_first-counts rounds name id (segment + 1)
        (record p {
          credit = p.credit -ℤ pos 1;
          retry_counts = StdMap.insert ℕ_discrete segment 0 p.retry_counts;
        })
        i
        (elim (ℕ_discrete segment i) [
          | yes e ↦ inl (ground (arith, find-insert ℕ_discrete segment i 0 p.retry_counts))
          | no ne ↦ elim h [
            | inl found ↦ inl (ground (arith, find-insert ℕ_discrete segment i 0 p.retry_counts))
            | inr between ↦ inr (omega arith, omega arith)
          ]
        ])

  -- Every other count that it leaves is as it was; these are 0.
  send_first-zero :
      (rounds : ℕ) (name : Name) (id segment : ℕ) (p : ProcessInfo) (i times : ℕ)
      → let (p', es, last) = send_first Name Selectors rounds name id segment p in
        StdMap.find ℕ_discrete i p'.retry_counts ≡ some times
        → ((times ≡ 0) × In i (asked (send_first Name Selectors rounds name id segment p).1))
          ⊎ (StdMap.find ℕ_discrete i p.retry_counts ≡ some times)
  unfolding send_first
  send_first-zero zero name id segment p i times found = inr found
  send_first-zero (suc rounds) name id segment p i times found =
      elim (send_first-zero rounds name id (segment + 1)
        (record p {
          credit = p.credit -ℤ pos 1;
          retry_counts = StdMap.insert ℕ_discrete segment 0 p.retry_counts;
        })
        i times found) [
          | inl (none_yet, there) ↦ inl (none_yet, inr there)
          | inr before ↦ elim (ℕ_discrete segment i) [
            | yes same ↦ inl (
              ground (arith, same, before, find-insert ℕ_discrete segment i 0 p.retry_counts),
              inl (sym same),
            )
            | no other ↦
                inr
                  (ground (arith, other, before, find-insert ℕ_discrete segment i 0 p.retry_counts))
          ]
        ]

  -- A process without counts has only the counts of the Interests that `segInit` sends.
  pub seg_init-Bounded :
      (now : ℕ) (name : Name) (id start : ℕ) (end : Option ℕ) (p : ProcessInfo)
      → p.retry_counts ≡ []
      → let (p', es) = seg_init Name Selectors now name id start end p in
        Bounded p'.retry_counts (asked es) []
  unfolding seg_init StdMap.find
  seg_init-Bounded now name id start end p empty i times found =
      let credit = initial_credit Name Selectors start end in
      let before : ProcessInfo = record (no_end_time_from Name Selectors end now p) {
        credit = pos credit;
      } in
      elim (send_first-zero (rounds_from Name Selectors start credit) name id start before i times
        found) [
          | inl (none_yet, there) ↦ (omega (arith, none_yet), there)
          | inr old ↦ cc (old, kept_counts end)
        ]
    where
      kept_counts : (e : Option ℕ) → (no_end_time_from Name Selectors e now p).retry_counts ≡ []
      kept_counts none = empty
      kept_counts (some x) = empty

  asked-segments :
      (name : Name) (id rounds segment : ℕ)
      → asked (segments Name Selectors name id rounds segment) ≡ count_up rounds segment
  asked-segments name id zero segment = refl
  asked-segments name id (suc rounds) segment =
      ap (◌∷◌ segment) (asked-segments name id rounds (segment + 1))

  module _ (start end : ℕ) (ordered : start ≤ end) (small : end + 1 < 2 ^ 64) where
    abbrev n : ℕ
    n = count Name Selectors start end ordered small

    credit_eq : initial_credit Name Selectors start (some end) ≡ min 12 n
    credit_eq = ap (min 12) (omega arith)

    seg_init-counts :
        (now : ℕ) (name : Name) (id : ℕ) (p : ProcessInfo) (i : ℕ)
        → start + 12 < 2 ^ 64
        → start ≤ i
        → i < start + min 12 n
        → is_some (
            StdMap.find ℕ_discrete i
              (seg_init Name Selectors now name id start (some end) p).0.retry_counts)
          ≡ true
    unfolding seg_init
    seg_init-counts now name id p i room low high =
        send_first-counts _ name id start _ i (inr (low, (let c = credit_eq in omega arith)))

    -- What `segInit` leaves: the fetch is going.
    pub seg_init-Going :
        (now : ℕ) (name : Name) (id : ℕ) (p : ProcessInfo)
        → start + 12 < 2 ^ 64
        → p.response.start_block_id ≡ some start
        → p.response.end_block_id ≡ some end
        → p.response.insert_num ≡ 0
        → p.next_segment_queue ≡ []
        → let (p', es) = seg_init Name Selectors now name id start (some end) p in
          Going Name Selectors start end ordered small p' [] (min 12 n)
          × (asked es ≡ count_up (min 12 n) start)
    seg_init-Going now name id p room started ended inserted empty =
        let (sends, credit, next, queue, same) =
          seg_init_lem Name Selectors now name id start (some end) p room in
        (
          record {
            started = ap (λ y. y.start_block_id) same ∙ started;
            ended = ap (λ y. y.end_block_id) same ∙ ended;
            inserted = ap (λ y. y.insert_num) same ∙ inserted;
            counted = λ i low high fresh. seg_init-counts now name id p i room low high;
            ahead = omega arith;
            within = omega arith;
            phase = inl (
              queue
                  ∙ ap (λ q. q ++ (start + initial_credit Name Selectors start (some end)) ∷ [])
                      empty
                  ∙ ap (λ k. (start + k) ∷ []) credit_eq,
              next ∙ ap (λ k. start + k) credit_eq,
              credit,
            );
          },
          ap asked sends ∙ asked-segments name id _ start ∙ ap (λ k. count_up k start) credit_eq,
        )
