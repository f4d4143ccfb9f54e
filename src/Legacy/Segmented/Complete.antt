-- ===== src/Legacy/Segmented/Complete.antt =====
-- A whole segmented fetch: from `segInit` on, packets and timeouts in any order.
use fast_repo.Prelude.{
  ℕ, ◌+◌, ◌^◌, ◌≤◌, ◌<◌, ◌≡◌, refl, ap, sym, subst, ◌⊎◌, inl, inr, min, Option, none, some, List,
  [], ◌∷◌, ◌++◌, In, length, arith,
}
use fast_repo.Legacy.Segmented.Ranges.{count_up, In-count_up, count_up-In, missing}
use fast_repo.Legacy.Segmented.Going.{asked, count, Agrees, Going}
use fast_repo.Legacy.Segmented.Initial.{seg_init-Going, seg_init-Bounded}
use fast_repo.Legacy.Segmented.Late.{times, Bounded, Fresh, packet-Bounded, late-Bounded, given_up}
use fast_repo.Legacy.Segmented.Defs.{ProcessInfo, Effects, seg_init, timeout_control}
use fast_repo.Legacy.Segmented.Kept
use fast_repo.Legacy.Segmented.Kept.{taken, Done, UnderWay, next_state, done_absurd, late_state}

module _ (Name Selectors : Type 0) (start end : ℕ) (ordered : start ≤ end)
    (small : end + 1 < 2 ^ 64) where
  abbrev n : ℕ
  n = count Name Selectors start end ordered small

  -- What a packet leaves: `none` is a failed assertion, and `some none` a process that is gone.
  abbrev pub process_of :
      Option (ProcessInfo × Effects Name Selectors) → Option (Option ProcessInfo)
  process_of none = none
  process_of (some (p, es)) = some (some p)

  abbrev pub asked_of : Option (ProcessInfo × Effects Name Selectors) → List ℕ
  asked_of none = []
  asked_of (some (p, es)) = asked es

  -- What a timeout leaves.
  abbrev pub retried_of :
      Option (Option ProcessInfo × Effects Name Selectors) → Option (Option ProcessInfo)
  retried_of none = none
  retried_of (some (o, es)) = some o

  module _ (prefix : Name) (id : ℕ) where
    abbrev K : ProcessInfo → List ℕ → List ℕ → Type 0
    K = Kept.Kept Name Selectors start end ordered small prefix id

    abbrev packet : ℕ → ℕ → Option ℕ → ProcessInfo → Option (ProcessInfo × Effects Name Selectors)
    packet = taken Name Selectors start end ordered small prefix id

    -- Given up for a segment that was late four times, or kept with the counts bounded.
    Held : Option (Option ProcessInfo) → List ℕ → List ℕ → List ℕ → Type 0
    Held o sent received tardy =
        ((o ≡ some none) × ((x : ℕ) × In x sent × (4 ≤ times x tardy)))
        ⊎ ((p : ProcessInfo) × (o ≡ some (some p))
            × K p sent received
            × Bounded p.retry_counts sent tardy)

    Going-Fresh :
        (p : ProcessInfo) (sent received : List ℕ) (k : ℕ)
        → sent ≡ count_up k start
        → Going Name Selectors start end ordered small p received k
        → Fresh Name Selectors prefix id p.next_segment_queue sent
    Going-Fresh p sent received k all g = elim g.phase [
      | inl (queue, next, credit) ↦
          subst (λ q. Fresh Name Selectors prefix id q sent) (sym queue)
            (λ there.
              let (low, high) =
                In-count_up k start (start + k) (subst (In (start + k)) all there) in
              omega (arith, high))
      | inr (queue, full, credit) ↦
          subst (λ q. Fresh Name Selectors prefix id q sent) (sym queue) tt
    ]

    arrived-Held :
        (p : ProcessInfo) (sent received : List ℕ) (now x : ℕ) (final : Option ℕ)
        → In x sent
        → ¬ In x received
        → Agrees Name Selectors start end ordered small final
        → K p sent received
        → (tardy : List ℕ) → Bounded p.retry_counts sent tardy
        → Held
            (process_of (packet now x final p))
            (sent ++ asked_of (packet now x final p))
            (x ∷ received)
            tardy
    unfolding Held
    arrived-Held p sent received now x final asked_for fresh agrees kept tardy bounded =
        elim kept.state [
          | inr d ↦
              done_absurd Name Selectors start end ordered small prefix id p sent received x kept d
                asked_for fresh
          | inl (fewer, (k, all, g)) ↦
              let (low, high) = In-count_up k start x (subst (In x) all asked_for) in
              let (q, es, result, state) =
                next_state Name Selectors start end ordered small prefix id p sent received now x
                  final asked_for fresh agrees (fewer, (k, all, g)) in
              inr (
                q,
                ap process_of result,
                subst (λ s. K q (sent ++ s) (x ∷ received)) (ap asked_of (sym result))
                    (record {
                      distinct = (fresh, kept.distinct);
                      among = λ z. elim [
                        | inl at ↦
                            subst (λ y. (start ≤ y) × (y < start + n)) (sym at)
                              (low, (let w = g.within in omega arith))
                        | inr i ↦ kept.among z i
                      ];
                      state = state;
                    }),
                subst (λ s. Bounded q.retry_counts (sent ++ s) tardy) (ap asked_of (sym result))
                    (packet-Bounded Name Selectors prefix id now x p q es final sent tardy result
                      (Going-Fresh p sent received k all g) bounded),
              )
        ]

    late-Held :
        (p : ProcessInfo) (sent received : List ℕ) (x : ℕ)
        → In x sent
        → ¬ In x received
        → K p sent received
        → (tardy : List ℕ) → Bounded p.retry_counts sent tardy
        → Held (retried_of (timeout_control Name Selectors prefix id x p)) sent received (x ∷ tardy)
    unfolding Held
    late-Held p sent received x asked_for fresh kept tardy bounded =
        elim (late_state Name Selectors start end ordered small prefix id p sent received x
          asked_for fresh kept) [
            | inl over ↦ inl (
              ap retried_of over,
              (x, asked_for, given_up Name Selectors prefix id x p [] sent tardy over bounded),
            )
            | inr (q, result, kept') ↦ inr (
              q,
              ap retried_of result,
              kept',
              late-Bounded Name Selectors prefix id x p q _ sent tardy result bounded,
            )
          ]

    -- A fetch as a sequence of packets and timeouts, in whatever order: how it stands, the segments
    -- asked for, those received, and those whose Interest timed out, once for each time. Either comes for an Interest that was sent and that no packet
    -- has answered yet; nothing comes for a process that is gone.
    pub data Run (p0 : ProcessInfo) (sent0 : List ℕ)
        : Option (Option ProcessInfo) → List ℕ → List ℕ → List ℕ → Type 0 where
      begun : Run p0 sent0 (some (some p0)) sent0 [] []
      arrived :
          {p : ProcessInfo} {sent received tardy : List ℕ} (now x : ℕ) (final : Option ℕ)
          → In x sent
          → ¬ In x received
          → Agrees Name Selectors start end ordered small final
          → Run p0 sent0 (some (some p)) sent received tardy
          → Run p0 sent0
              (process_of (packet now x final p))
              (sent ++ asked_of (packet now x final p))
              (x ∷ received)
              tardy
      late :
          {p : ProcessInfo} {sent received tardy : List ℕ} (x : ℕ)
          → In x sent
          → ¬ In x received
          → Run p0 sent0 (some (some p)) sent received tardy
          → Run p0 sent0
              (retried_of (timeout_control Name Selectors prefix id x p))
              sent
              received
              (x ∷ tardy)

    still_kept :
        (p : ProcessInfo) (sent received tardy : List ℕ)
        → Held (some (some p)) sent received tardy
        → K p sent received × Bounded p.retry_counts sent tardy
    unfolding Held
    still_kept p sent received tardy (inl (gone, some_late)) = cc
    still_kept p sent received tardy (inr (q, same, kept, bounded)) =
        subst (λ y. K y sent received × Bounded y.retry_counts sent tardy) (process_eq (sym same))
          (kept, bounded)
      where
        process_eq :
            {a b : ProcessInfo}
            → ◌≡◌ {A = Option (Option ProcessInfo)} (some (some a)) (some (some b))
            → a ≡ b
        process_eq e = cc

    Run-Held :
        {p0 : ProcessInfo} {sent0 : List ℕ} {o : Option (Option ProcessInfo)}
        {sent received tardy : List ℕ}
        → K p0 sent0 []
        → Bounded p0.retry_counts sent0 []
        → Run p0 sent0 o sent received tardy
        → Held o sent received tardy
    Run-Held {p0} first none_late begun = unfold Held in inr (p0, refl, first, none_late)
    Run-Held first none_late
          (arrived {p} {sent} {received} {tardy} now x final asked_for fresh agrees before) =
        let (kept, bounded) = still_kept p sent received tardy (Run-Held first none_late before) in
        arrived-Held p sent received now x final asked_for fresh agrees kept tardy bounded
    Run-Held first none_late (late {p} {sent} {received} {tardy} x asked_for fresh before) =
        let (kept, bounded) = still_kept p sent received tardy (Run-Held first none_late before) in
        late-Held p sent received x asked_for fresh kept tardy bounded

  -- From `segInit` on, in a new process, for segments within 64 bits, while the storage takes every
  -- packet and a FinalBlockId agrees with the end: in whatever order packets and timeouts come for the
  -- Interests sent, no assertion fails. Either the process is given up, and then some segment that was
  -- asked for timed out at least four times; or it is there: then an Interest is still to be answered
  -- while segments are missing; once there are as many packets as segments, each segment was asked for,
  -- the status is 200 and the response counts them all.
  pub fetch_completes :
      (now : ℕ) (name : Name) (id : ℕ) (p : ProcessInfo) (o : Option (Option ProcessInfo))
      (sent received tardy : List ℕ)
      → start + 12 < 2 ^ 64
      → p.response.start_block_id ≡ some start
      → p.response.end_block_id ≡ some end
      → p.response.insert_num ≡ 0
      → p.next_segment_queue ≡ []
      → p.retry_counts ≡ []
      → (let (p0, es) = seg_init Name Selectors now name id start (some end) p in
          Run name id p0 (asked es) o sent received tardy)
      → ((o ≡ some none) × ((x : ℕ) × In x sent × (4 ≤ times x tardy)))
        ⊎ ((p' : ProcessInfo) × (o ≡ some (some p'))
            × (((length received < n) × ((x : ℕ) × In x sent × (¬ In x received)))
                ⊎ Done Name Selectors start end ordered small name id p' sent received))
  unfolding Held
  fetch_completes now name id p o sent received tardy room started ended inserted empty uncounted
        run =
      let (going, all) =
        seg_init-Going Name Selectors start end ordered small now name id p room started ended
          inserted empty in
      let first : Kept.Kept Name Selectors start end ordered small name id
          (seg_init Name Selectors now name id start (some end) p).0
          (asked (seg_init Name Selectors now name id start (some end) p).1) [] =
        record {
          distinct = tt;
          among = λ x i. absurd i;
          state = inl (omega arith, (min 12 n, all, going));
        } in
      elim (Run-Held name id first
        (seg_init-Bounded Name Selectors now name id start (some end) p uncounted) run) [
          | inl gone ↦ inl gone
          | inr (p', same, kept, bounded) ↦ inr (
            p',
            same,
            elim kept.state [
              | inr d ↦ inr d
              | inl (fewer, (k, each, g)) ↦
                  let (x, low, high, fresh) = missing k start received g.ahead in
                  inl (fewer, (x, subst (In x) (sym each) (count_up-In k start x low high), fresh))
            ],
          )
        ]
