-- ===== src/Legacy/Segmented/Sends.antt =====
-- What a packet changes of a segmented fetch under way.
use fast_repo.Prelude.{
  ℕ, suc, ◌+◌, ◌^◌, ◌≤◌, ◌<◌, ◌≡◌, refl, ap, sym, ◌∙◌, subst, ◌⊎◌, inl, inr, true, Option, some,
  List, [], ◌∷◌, In, length, arith, ℕ_discrete,
}
use fast_repo.Prelude.Int.{pos, ◌+ℤ◌, ◌-ℤ◌}
use fast_repo.Prelude.StdMap
use fast_repo.Prelude.StdMap.{Map, find-insert, find-erase}
use fast_repo.Legacy.Messages.{fetched_segment, deletion_scheduled}
use mathlib.Core.List.{append-nil}
use fast_repo.Legacy.Segmented.Ranges.{count_up, count_up-suc}
use fast_repo.Legacy.Segmented.Defs.{
  ProcessInfo, data_control, send_queued, send_next, receive, retried, advance,
}
use fast_repo.Legacy.Segmented.Going.{
  count, Agrees, Sending, Drained, Counted, Going, received_one, receive_eq, control_eq, last_eq,
  Counted-erase, Counted-received, Goes,
}

module _ (Name Selectors : Type 0) (start end : ℕ) (ordered : start ≤ end)
    (small : end + 1 < 2 ^ 64) where
  abbrev n : ℕ
  n = count Name Selectors start end ordered small

  module _ (now : ℕ) (prefix : Name) (id x : ℕ) (final : Option ℕ) (p : ProcessInfo)
      (received : List ℕ) (sent : ℕ) (agrees : Agrees Name Selectors start end ordered small final)
      (g : Going Name Selectors start end ordered small p received sent)
      (more : length received + 1 < n) where
    abbrev q : ProcessInfo
    q = record p { response = record p.response { insert_num = p.response.insert_num + 1 } }

    to_queue :
        (c : ℕ)
        → p.credit ≡ pos c
        → data_control Name Selectors now prefix id x (receive Name Selectors final true p)
          ≡ send_queued Name Selectors prefix id x
              (received_one Name Selectors start end ordered small p)
              p.next_segment_queue
    to_queue c credit =
        ap (data_control Name Selectors now prefix id x)
          (receive_eq Name Selectors start end ordered small final p agrees g.ended)
        ∙ control_eq Name Selectors start end ordered small now prefix id x q c g.started g.ended
            (let n = g.inserted in omega arith) credit

    drained :
        Drained Name Selectors start end ordered small p sent
        → Goes Name Selectors start end ordered small p received sent x
            (data_control Name Selectors now prefix id x (receive Name Selectors final true p))
    unfolding send_queued
    drained (empty, all, (c, credit)) = (
      received_one Name Selectors start end ordered small p,
      [],
      sent,
      to_queue c credit
          ∙ ap
              (send_queued Name Selectors prefix id x
                (received_one Name Selectors start end ordered small p))
              empty,
      append-nil (count_up sent start),
      record {
        started = g.started;
        ended = g.ended;
        inserted = (let n = g.inserted in omega arith);
        counted =
            Counted-received Name Selectors start end ordered small p.retry_counts received sent x
              g.counted;
        ahead = omega arith;
        within = g.within;
        phase = inr (empty, all, (c + 1, ground arith));
      },
    )

    all_sent :
        Sending Name Selectors start end ordered small p sent
        → sent ≡ n
        → Goes Name Selectors start end ordered small p received sent x
            (data_control Name Selectors now prefix id x (receive Name Selectors final true p))
    unfolding send_queued
    all_sent (queue, next, credit) all = (
      record (received_one Name Selectors start end ordered small p) { next_segment_queue = [] },
      [],
      sent,
      to_queue 0 credit
          ∙ ap
              (send_queued Name Selectors prefix id x
                (received_one Name Selectors start end ordered small p))
              queue
          ∙ (let e = g.ended in ground arith),
      append-nil (count_up sent start),
      record {
        started = g.started;
        ended = g.ended;
        inserted = (let n = g.inserted in omega arith);
        counted =
            Counted-received Name Selectors start end ordered small p.retry_counts received sent x
              g.counted;
        ahead = omega arith;
        within = g.within;
        phase = inr (refl, all, (1, ap (λ z. z +ℤ pos 1) credit));
      },
    )

    -- The process with the waiting segment sent, before the next one is put into the queue.
    abbrev sent_one : ProcessInfo
    sent_one =
        let retry_counts = StdMap.erase ℕ_discrete x p.retry_counts in
        record (received_one Name Selectors start end ordered small p) {
          next_segment_queue = [];
          credit = (p.credit +ℤ pos 1) -ℤ pos 1;
          retry_counts =
              StdMap.insert ℕ_discrete (start + sent)
                (retried Name Selectors (StdMap.find ℕ_discrete (start + sent) retry_counts))
                retry_counts;
        }

    advance_more :
        p.next_segment ≡ start + sent
        → sent + 1 < n
        → advance Name Selectors sent_one ≡ record sent_one {
          next_segment = start + (sent + 1);
          next_segment_queue = (start + (sent + 1)) ∷ [];
        }
    advance_more next fewer = let e = g.ended in ground arith

    advance_end :
        p.next_segment ≡ start + sent → sent + 1 ≡ n → advance Name Selectors sent_one ≡ sent_one
    advance_end next all = let e = g.ended in ground arith

    -- The process with the segment sent, whatever its queue then holds.
    sent_one-Going :
        (q : ProcessInfo)
        → q.response ≡ (received_one Name Selectors start end ordered small p).response
        → q.retry_counts ≡ sent_one.retry_counts
        → sent < n
        → Sending Name Selectors start end ordered small q (sent + 1)
          ⊎ Drained Name Selectors start end ordered small q (sent + 1)
        → Going Name Selectors start end ordered small q (x ∷ received) (sent + 1)
    sent_one-Going q same counts fewer phase = record {
      started = ap (λ y. y.start_block_id) same ∙ g.started;
      ended = ap (λ y. y.end_block_id) same ∙ g.ended;
      inserted = (let n = g.inserted in let m = ap (λ y. y.insert_num) same in omega arith);
      counted =
          subst (λ m. Counted Name Selectors start end ordered small m (x ∷ received) (sent + 1))
            (sym counts)
            (Counted-erase Name Selectors start end ordered small p.retry_counts received sent x
              (start + sent) _ refl g.counted);
      ahead = (let a = g.ahead in omega arith);
      within = omega arith;
      phase = phase;
    }

    advanced-Going :
        Sending Name Selectors start end ordered small p sent
        → sent < n
        → Going Name Selectors start end ordered small
            (advance Name Selectors sent_one)
            (x ∷ received)
            (sent + 1)
    advanced-Going (queue, next, credit) fewer = elim (ℕ_discrete (sent + 1) n) [
      | yes all ↦
          subst (λ q. Going Name Selectors start end ordered small q (x ∷ received) (sent + 1))
            (sym (advance_end next all))
            (sent_one-Going sent_one refl refl fewer (inr (refl, all, (0, ground arith))))
      | no more_left ↦
          subst (λ q. Going Name Selectors start end ordered small q (x ∷ received) (sent + 1))
            (sym (advance_more next (omega arith)))
            (sent_one-Going _ refl refl fewer (inl (refl, refl, ground arith)))
    ]

    module _ (low : start ≤ x) (high : x < start + sent) (fresh : ¬ In x received) where
      send_waiting :
          Sending Name Selectors start end ordered small p sent
          → sent < n
          → data_control Name Selectors now prefix id x (receive Name Selectors final true p)
            ≡ some (advance Name Selectors sent_one, fetched_segment prefix (start + sent) id ∷ [])
      unfolding send_queued send_next
      send_waiting (queue, next, credit) fewer =
          to_queue 0 credit
          ∙ ap
              (send_queued Name Selectors prefix id x
                (received_one Name Selectors start end ordered small p))
              queue
          ∙ (let e = g.ended in let there = g.counted x low high fresh in ground arith)

      sending :
          Sending Name Selectors start end ordered small p sent
          → sent < n
          → Goes Name Selectors start end ordered small p received sent x
              (data_control Name Selectors now prefix id x (receive Name Selectors final true p))
      sending (queue, next, credit) fewer = (
        advance Name Selectors sent_one,
        fetched_segment prefix (start + sent) id ∷ [],
        sent + 1,
        send_waiting (queue, next, credit) fewer,
        (let e : suc sent ≡ sent + 1 = omega arith in
            count_up-suc sent start ∙ ap (λ k. count_up k start) e),
        advanced-Going (queue, next, credit) fewer,
      )

      -- Any packet but the last keeps the fetch going.
      pub goes :
          Goes Name Selectors start end ordered small p received sent x
            (data_control Name Selectors now prefix id x (receive Name Selectors final true p))
      goes = elim g.phase [
        | inr d ↦ drained d
        | inl s ↦ elim (ℕ_discrete sent n) [
          | yes all ↦ all_sent s all
          | no fewer ↦ sending s (let w = g.within in omega arith)
        ]
      ]

  -- The packet behind which none is missing ends the fetch.
  pub ends :
      (now : ℕ) (prefix : Name) (id x : ℕ) (final : Option ℕ) (p : ProcessInfo) (received : List ℕ)
      (sent : ℕ)
      → Agrees Name Selectors start end ordered small final
      → Going Name Selectors start end ordered small p received sent
      → length received + 1 ≡ n
      → (p' : ProcessInfo) × (data_control Name Selectors now prefix id x
            (receive Name Selectors final true p)
          ≡ some (p', deletion_scheduled id ∷ []))
        × (p'.response.status_code ≡ 200)
        × (p'.response.insert_num ≡ n)
  ends now prefix id x final p received sent agrees g last =
      let q = record p {
        response = record p.response { insert_num = p.response.insert_num + 1 };
      } in
      let n = g.inserted in
      (
        _,
        ap (data_control Name Selectors now prefix id x)
              (receive_eq Name Selectors start end ordered small final p agrees g.ended)
            ∙ last_eq Name Selectors start end ordered small now prefix id x q g.started g.ended
                (omega arith),
        refl,
        omega arith,
      )
