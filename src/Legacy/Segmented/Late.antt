-- ===== src/Legacy/Segmented/Late.antt =====
-- The counts of retries against the timeouts that there were: each count is at most the timeouts of
-- its segment.
use fast_repo.Prelude.{
  ℕ, suc, ◌+◌, ◌≤◌, ◌≡◌, refl, sym, Bool, false, ap, ◌∙◌, subst, ◌⊎◌, inl, inr, true, Option, none,
  some, List, [], ◌∷◌, ◌++◌, In, In-append_left, In-append_right, arith, ℕ_discrete, ◌==◌,
  if◌then◌else◌, Option-cases,
}
use fast_repo.Prelude.Int.{pos, ◌+ℤ◌, eqb_ℤ}
use fast_repo.Legacy.Messages.{deletion_scheduled}
use fast_repo.Prelude.StdMap
use fast_repo.Prelude.StdMap.{Map, find-insert, find-erase}
use fast_repo.Legacy.Segmented.Going.{asked}
use fast_repo.Legacy.Segmented.Defs.{
  ProcessInfo, Effects, data_control, send_queued, send_next, timeout_control, receive, retried,
  timed_out, is_complete,
}

-- How often a segment stands in a list.
unfoldable pub times : ℕ → List ℕ → ℕ
times x [] = 0
times x (y ∷ ys) = (if x == y then 1 else 0) + times x ys

-- Each count is of a segment asked for, and at most its timeouts.
abbrev pub Bounded : Map ℕ ℕ → List ℕ → List ℕ → Type 0
Bounded retry_counts sent late =
    (i count : ℕ)
    → StdMap.find ℕ_discrete i retry_counts ≡ some count
    → (count ≤ times i late) × In i sent

module _ (Name Selectors : Type 0) (prefix : Name) (id : ℕ) where
  -- The counts of retries once a segment has been received and another one is sent.
  abbrev resent : ℕ → ℕ → Map ℕ ℕ → Map ℕ ℕ
  resent got y retry_counts =
      let others = StdMap.erase ℕ_discrete got retry_counts in
      StdMap.insert ℕ_discrete y (retried Name Selectors (StdMap.find ℕ_discrete y others)) others

  -- A packet leaves the counts, or the segment at the front of the queue is sent.
  abbrev Sends : ℕ → Map ℕ ℕ → List ℕ → ProcessInfo × Effects Name Selectors → Type 0
  Sends got retry_counts [] (q, es) = q.retry_counts ≡ retry_counts
  Sends got retry_counts (y ∷ rest) (q, es) =
      (q.retry_counts ≡ retry_counts)
      ⊎ ((asked es ≡ y ∷ []) × (q.retry_counts ≡ resent got y retry_counts))

  unchanged :
      (got : ℕ) (retry_counts : Map ℕ ℕ) (queue : List ℕ) (q : ProcessInfo)
      (es : Effects Name Selectors)
      → q.retry_counts ≡ retry_counts
      → Sends got retry_counts queue (q, es)
  unchanged got retry_counts [] q es h = h
  unchanged got retry_counts (y ∷ rest) q es h = inl h

  pair_eq :
      {a b : ProcessInfo × Effects Name Selectors}
      → ◌≡◌ {A = Option (ProcessInfo × Effects Name Selectors)} (some a) (some b)
      → a ≡ b
  pair_eq e = cc

  send_next-counts :
      (got y : ℕ) (p : ProcessInfo)
      → (send_next Name Selectors prefix id got y p).0.retry_counts ≡ resent got y p.retry_counts
  unfolding send_next
  send_next-counts got y p = ground arith

  front_cases :
      (beyond_end counted : Bool) (got y : ℕ) (rest : List ℕ) (p : ProcessInfo)
      (x : ProcessInfo × Effects Name Selectors)
      → (if beyond_end
          then some (p, [])
          else if counted
          then some (send_next Name Selectors prefix id got y p)
          else none)
        ≡ some x
      → Sends got p.retry_counts (y ∷ rest) x
  unfolding send_next
  front_cases true counted got y rest p x e =
      subst (Sends got p.retry_counts (y ∷ rest)) (pair_eq e) (inl refl)
  front_cases false true got y rest p x e =
      subst (Sends got p.retry_counts (y ∷ rest)) (pair_eq e) (inr (refl, send_next-counts got y p))
  front_cases false false got y rest p x e = cc

  send_queued-Sends :
      (got : ℕ) (p : ProcessInfo) (queue : List ℕ) (x : ProcessInfo × Effects Name Selectors)
      → send_queued Name Selectors prefix id got p queue ≡ some x
      → Sends got p.retry_counts queue x
  unfolding send_queued
  send_queued-Sends got p [] x e = subst (Sends got p.retry_counts []) (pair_eq e) refl
  send_queued-Sends got p (y ∷ rest) x e =
      front_cases _ _ got y rest (record p { next_segment_queue = rest }) x e

  control_cases :
      (timed_out complete no_credit : Bool) (got : ℕ) (p1 : ProcessInfo)
      (x : ProcessInfo × Effects Name Selectors) (ended given_up : Effects Name Selectors)
      → (if timed_out
          then some (record p1 { response = record p1.response { status_code = 405 } }, given_up)
          else if complete
          then some (record p1 { response = record p1.response { status_code = 200 } }, ended)
          else if no_credit
          then some (p1, [])
          else send_queued Name Selectors prefix id got p1 p1.next_segment_queue)
        ≡ some x
      → Sends got p1.retry_counts p1.next_segment_queue x
  control_cases true complete no_credit got p1 x ended given_up e =
      subst (Sends got p1.retry_counts p1.next_segment_queue) (pair_eq e)
        (unchanged got p1.retry_counts p1.next_segment_queue _ _ refl)
  control_cases false true no_credit got p1 x ended given_up e =
      subst (Sends got p1.retry_counts p1.next_segment_queue) (pair_eq e)
        (unchanged got p1.retry_counts p1.next_segment_queue _ _ refl)
  control_cases false false true got p1 x ended given_up e =
      subst (Sends got p1.retry_counts p1.next_segment_queue) (pair_eq e)
        (unchanged got p1.retry_counts p1.next_segment_queue _ _ refl)
  control_cases false false false got p1 x ended given_up e =
      send_queued-Sends got p1 p1.next_segment_queue x e

  data_control-Sends :
      (now got : ℕ) (p : ProcessInfo) (x : ProcessInfo × Effects Name Selectors)
      → data_control Name Selectors now prefix id got p ≡ some x
      → Sends got p.retry_counts p.next_segment_queue x
  unfolding data_control
  data_control-Sends now got p x e =
      let p1 : ProcessInfo = record p { credit = p.credit +ℤ pos 1 } in
      control_cases (timed_out Name Selectors now p1)
        (is_complete Name Selectors p1 p1.response.end_block_id) (eqb_ℤ p1.credit (pos 0)) got p1 x
        (deletion_scheduled id ∷ []) (deletion_scheduled id ∷ []) e

  -- The front of the queue was not asked for before.
  abbrev pub Fresh : List ℕ → List ℕ → Type 0
  Fresh [] sent = Unit
  Fresh (y ∷ rest) sent = ¬ In y sent

  Bounded-sent :
      (retry_counts retry_counts' : Map ℕ ℕ) (sent more late : List ℕ)
      → retry_counts' ≡ retry_counts
      → Bounded retry_counts sent late
      → Bounded retry_counts' (sent ++ more) late
  Bounded-sent retry_counts retry_counts' sent more late same bounded i count found =
      let (few, there) = bounded i count (ap (StdMap.find ℕ_discrete i) (sym same) ∙ found) in
      (few, In-append_left i sent more there)

  absent :
      (y : ℕ) (retry_counts : Map ℕ ℕ) (sent late : List ℕ)
      → ¬ In y sent
      → Bounded retry_counts sent late
      → StdMap.find ℕ_discrete y retry_counts ≡ none
  absent y retry_counts sent late fresh bounded =
      elim (Option-cases (StdMap.find ℕ_discrete y retry_counts)) [
        | inl missing ↦ missing
        | inr (count, found) ↦ absurd (fresh (bounded y count found).1)
      ]

  Bounded-resent :
      (got y : ℕ) (retry_counts : Map ℕ ℕ) (sent late : List ℕ)
      → ¬ In y sent
      → Bounded retry_counts sent late
      → Bounded (resent got y retry_counts) (sent ++ y ∷ []) late
  Bounded-resent got y retry_counts sent late fresh bounded i count found =
      let others = StdMap.erase ℕ_discrete got retry_counts in
      let value = retried Name Selectors (StdMap.find ℕ_discrete y others) in
      let new = absent y retry_counts sent late fresh bounded in
      elim (ℕ_discrete y i) [
        | yes same ↦ (
          ground (
            arith,
            new,
            same,
            found,
            find-insert ℕ_discrete y i value others,
            find-erase ℕ_discrete got y retry_counts,
          ),
          In-append_right i sent (y ∷ []) (inl (sym same)),
        )
        | no other ↦
            let (few, there) = bounded i count (
              ground (
                arith,
                other,
                found,
                find-insert ℕ_discrete y i value others,
                find-erase ℕ_discrete got i retry_counts,
              )) in
            (few, In-append_left i sent (y ∷ []) there)
      ]

  -- A packet keeps the counts bounded.
  pub packet-Bounded :
      (now got : ℕ) (p q : ProcessInfo) (es : Effects Name Selectors) (final : Option ℕ)
      (sent late : List ℕ)
      → data_control Name Selectors now prefix id got (receive Name Selectors final true p)
        ≡ some (q, es)
      → Fresh p.next_segment_queue sent
      → Bounded p.retry_counts sent late
      → Bounded q.retry_counts (sent ++ asked es) late
  unfolding receive
  packet-Bounded now got p q es final sent late e fresh bounded =
      by_queue p.next_segment_queue fresh
        (data_control-Sends now got (receive Name Selectors final true p) (q, es) e)
    where
      by_queue :
          (queue : List ℕ)
          → Fresh queue sent
          → Sends got p.retry_counts queue (q, es)
          → Bounded q.retry_counts (sent ++ asked es) late
      by_queue [] new kept =
          Bounded-sent p.retry_counts q.retry_counts sent (asked es) late kept bounded
      by_queue (y ∷ rest) new (inl kept) =
          Bounded-sent p.retry_counts q.retry_counts sent (asked es) late kept bounded
      by_queue (y ∷ rest) new (inr (one, counts)) =
          subst (λ more. Bounded q.retry_counts (sent ++ more) late) (sym one)
            (subst (λ m. Bounded m (sent ++ y ∷ []) late) (sym counts)
              (Bounded-resent got y p.retry_counts sent late new bounded))

  timeout_counts :
      (x : ℕ) (p : ProcessInfo) (es : Effects Name Selectors)
      → timeout_control Name Selectors prefix id x p ≡ some (none, es)
      → (count : ℕ) × (StdMap.find ℕ_discrete x p.retry_counts ≡ some count) × (3 ≤ count)
  unfolding timeout_control
  timeout_counts x p es e = elim (Option-cases (StdMap.find ℕ_discrete x p.retry_counts)) [
    | inl missing ↦ absurd (ground (arith, e))
    | inr (count, found) ↦ (count, found, ground (arith, e))
  ]

  times-cons : (x : ℕ) (late : List ℕ) → times x (x ∷ late) ≡ suc (times x late)
  unfolding times
  times-cons x late = ground arith

  times-grows : (x y : ℕ) (late : List ℕ) → times y late ≤ times y (x ∷ late)
  unfolding times
  times-grows x y late = ground arith

  -- A segment whose fetch is given up was late four times.
  pub given_up :
      (x : ℕ) (p : ProcessInfo) (es : Effects Name Selectors) (sent late : List ℕ)
      → timeout_control Name Selectors prefix id x p ≡ some (none, es)
      → Bounded p.retry_counts sent late
      → 4 ≤ times x (x ∷ late)
  given_up x p es sent late e bounded =
      let (count, found, many) = timeout_counts x p es e in
      let (few, there) = bounded x count found in omega (arith, times-cons x late)

  retried_counts :
      (x : ℕ) (p q : ProcessInfo) (es : Effects Name Selectors)
      → timeout_control Name Selectors prefix id x p ≡ some (some q, es)
      → (count : ℕ) × (StdMap.find ℕ_discrete x p.retry_counts ≡ some count)
        × (q.retry_counts ≡ StdMap.insert ℕ_discrete x (count + 1) p.retry_counts)
  unfolding timeout_control
  retried_counts x p q es e = elim (Option-cases (StdMap.find ℕ_discrete x p.retry_counts)) [
    | inl missing ↦ absurd (ground (arith, e))
    | inr (count, found) ↦ (count, found, ground (arith, e))
  ]

  -- A timeout keeps the counts bounded.
  pub late-Bounded :
      (x : ℕ) (p q : ProcessInfo) (es : Effects Name Selectors) (sent late : List ℕ)
      → timeout_control Name Selectors prefix id x p ≡ some (some q, es)
      → Bounded p.retry_counts sent late
      → Bounded q.retry_counts sent (x ∷ late)
  late-Bounded x p q es sent late e bounded i count' found' =
      let (count, found, counts) = retried_counts x p q es e in
      let here = ap (StdMap.find ℕ_discrete i) (sym counts) ∙ found' in
      elim (ℕ_discrete x i) [
        | yes same ↦
            let (few, there) = bounded x count found in
            (
              ground (
                arith,
                same,
                here,
                few,
                times-cons x late,
                find-insert ℕ_discrete x i (count + 1) p.retry_counts,
              ),
              subst (λ y. In y sent) same there,
            )
        | no other ↦
            let (few, there) = bounded i count' (
              ground (arith, other, here, find-insert ℕ_discrete x i (count + 1) p.retry_counts)) in
            (omega (arith, few, times-grows x i late), there)
      ]
