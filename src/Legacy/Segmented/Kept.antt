-- ===== src/Legacy/Segmented/Kept.antt =====
-- What a packet or a timeout leaves of a segmented fetch, done or under way.
use fast_repo.Prelude.{
  ℕ, ◌+◌, ◌^◌, ◌≤◌, ◌<◌, ◌≡◌, refl, ap, sym, ◌∙◌, subst, ◌⊎◌, inl, inr, true, Option, none, some,
  List, [], ◌∷◌, ◌++◌, In, length, arith, ℕ_discrete, leb, Bool-cases, Option-cases,
}
use mathlib.Core.List.{append-nil}
use fast_repo.Prelude.StdMap
use fast_repo.Prelude.StdMap.{find-insert}
use fast_repo.Legacy.Messages.{fetched_segment, deletion_scheduled}
use fast_repo.Legacy.Segmented.Ranges.{count_up, In-count_up, Distinct, missing, length-Distinct}
use fast_repo.Legacy.Segmented.Going.{asked, count, Agrees, Going}
use fast_repo.Legacy.Segmented.Sends.{goes, ends}
use fast_repo.Legacy.Segmented.Defs.{
  ProcessInfo, Effects, data_control, timeout_control, receive, retry_timeout,
}

module _ (Name Selectors : Type 0) (start end : ℕ) (ordered : start ≤ end)
    (small : end + 1 < 2 ^ 64) where
  abbrev n : ℕ
  n = count Name Selectors start end ordered small

  module _ (prefix : Name) (id : ℕ) where
    -- A packet that the storage takes comes for a segment of the process.
    abbrev pub taken :
        ℕ → ℕ → Option ℕ → ProcessInfo → Option (ProcessInfo × Effects Name Selectors)
    taken now x final p =
        data_control Name Selectors now prefix id x (receive Name Selectors final true p)

    abbrev pub Done : ProcessInfo → List ℕ → List ℕ → Type 0
    Done p sent received =
        (length received ≡ n)
        × (sent ≡ count_up n start)
        × (p.response.status_code ≡ 200)
        × (p.response.insert_num ≡ n)

    abbrev pub UnderWay : ProcessInfo → List ℕ → List ℕ → Type 0
    UnderWay p sent received =
        (length received < n)
        × ((k : ℕ) × (sent ≡ count_up k start)
            × Going Name Selectors start end ordered small p received k)

    pub record Kept (p : ProcessInfo) (sent received : List ℕ) : Type 0 where
      pub distinct : Distinct received
      pub among : (x : ℕ) → In x received → (start ≤ x) × (x < start + n)
      pub state : UnderWay p sent received ⊎ Done p sent received

    abbrev pub Moves : List ℕ → List ℕ → Option (ProcessInfo × Effects Name Selectors) → Type 0
    Moves sent received result =
        (p' : ProcessInfo) × (es : Effects Name Selectors) × (result ≡ some (p', es))
        × (UnderWay p' (sent ++ asked es) received ⊎ Done p' (sent ++ asked es) received)

    -- One more packet.
    pub next_state :
        (p : ProcessInfo) (sent received : List ℕ) (now x : ℕ) (final : Option ℕ)
        → In x sent
        → ¬ In x received
        → Agrees Name Selectors start end ordered small final
        → UnderWay p sent received
        → Moves sent (x ∷ received) (taken now x final p)
    next_state p sent received now x final asked_for fresh agrees (fewer, (k, all, g)) =
        let (low, high) = In-count_up k start x (subst (In x) all asked_for) in
        elim (ℕ_discrete (length received + 1) n) [
          | yes last ↦
              let (q, ended, status, inserted) =
                ends Name Selectors start end ordered small now prefix id x final p received k
                  agrees g last in
              let full : k ≡ n = (let a = g.ahead in let w = g.within in omega arith) in
              (
                q,
                deletion_scheduled id ∷ [],
                ended,
                inr (
                  omega arith,
                  append-nil sent ∙ all ∙ ap (λ j. count_up j start) full,
                  status,
                  inserted,
                ),
              )
          | no more ↦
              let (q, es, k', result, grown, going) =
                goes Name Selectors start end ordered small now prefix id x final p received k
                  agrees g (omega arith) low high fresh in
              (q, es, result, inl (omega arith, (k', ap (λ s. s ++ asked es) all ∙ grown, going)))
        ]

    -- Once every segment is received, there is no Interest left to answer.
    pub done_absurd :
        {A : Type 0} (p : ProcessInfo) (sent received : List ℕ) (x : ℕ)
        → Kept p sent received
        → Done p sent received
        → In x sent
        → ¬ In x received
        → A
    done_absurd p sent received x kept (full, all, status, inserted) asked_for fresh =
        let here = In-count_up n start x (subst (In x) all asked_for) in
        let bound =
          length-Distinct n start (x ∷ received) (fresh, kept.distinct)
            (λ z. elim [
              | inl e ↦ subst (λ y. (start ≤ y) × (y < start + n)) (sym e) here
              | inr i ↦ kept.among z i
            ]) in
        absurd (omega arith)

    Going-retried :
        (p : ProcessInfo) (received : List ℕ) (k x times : ℕ)
        → Going Name Selectors start end ordered small p received k
        → Going Name Selectors start end ordered small
            (record p { retry_counts = StdMap.insert ℕ_discrete x times p.retry_counts })
            received
            k
    Going-retried p received k x times g = record {
      started = g.started;
      ended = g.ended;
      inserted = g.inserted;
      counted = λ i low high fresh.
          let there = g.counted i low high fresh in
          ground (arith, find-insert ℕ_discrete x i times p.retry_counts);
      ahead = g.ahead;
      within = g.within;
      phase = g.phase;
    }

    -- A timeout of a segment: the fetch is given up, or the Interest is sent again.
    abbrev pub Retries :
        ℕ → List ℕ → List ℕ → Option (Option ProcessInfo × Effects Name Selectors) → Type 0
    Retries x sent received result =
        (result ≡ some (none, []))
        ⊎ ((p' : ProcessInfo) × (result ≡ some (some p', fetched_segment prefix x id ∷ []))
            × Kept p' sent received)

    pub late_state :
        (p : ProcessInfo) (sent received : List ℕ) (x : ℕ)
        → In x sent
        → ¬ In x received
        → Kept p sent received
        → Retries x sent received (timeout_control Name Selectors prefix id x p)
    unfolding timeout_control
    late_state p sent received x asked_for fresh kept = elim kept.state [
      | inr d ↦ done_absurd p sent received x kept d asked_for fresh
      | inl (fewer, (k, all, g)) ↦
          let (low, high) = In-count_up k start x (subst (In x) all asked_for) in
          let there = g.counted x low high fresh in
          elim (Option-cases (StdMap.find ℕ_discrete x p.retry_counts)) [
            | inl missing ↦ absurd (ground arith)
            | inr (times, found) ↦ elim (Bool-cases (leb retry_timeout times)) [
              | inl over ↦ inl (rw (found, over) refl)
              | inr under ↦ inr (
                record p { retry_counts = StdMap.insert ℕ_discrete x (times + 1) p.retry_counts },
                rw (found, under) refl,
                record {
                  distinct = kept.distinct;
                  among = kept.among;
                  state = inl (fewer, (k, all, Going-retried p received k x (times + 1) g));
                },
              )
            ]
          ]
    ]
