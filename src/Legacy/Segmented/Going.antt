-- ===== src/Legacy/Segmented/Going.antt =====
-- A segmented fetch under way: what holds between two packets.
use fast_repo.Prelude.{
  ℕ, ◌+◌, ◌-◌, ◌^◌, ◌≤◌, ◌<◌, ◌≡◌, ◌≢◌, refl, sym, ◌⊎◌, inl, inr, true, Option, none, some, List,
  [], ◌∷◌, ◌++◌, In, length, is_some, arith, ℕ_discrete,
}
use fast_repo.Prelude.Int.{pos, ◌+ℤ◌}
use fast_repo.Prelude.StdMap
use fast_repo.Prelude.StdMap.{Map, find-insert, find-erase}
use fast_repo.Legacy.Messages.{fetched_segment, deletion_scheduled}
use fast_repo.Legacy.Segmented.Ranges.{count_up}
use fast_repo.Legacy.Segmented.Defs.{
  ProcessInfo, Effects, data_control, send_queued, receive, retried, set_status,
}

module _ {Name Selectors : Type 0} where
  -- The segments that a list of effects asks for.
  abbrev pub asked : Effects Name Selectors → List ℕ
  asked [] = []
  asked (fetched_segment name segment id ∷ es) = segment ∷ asked es
  asked (_ ∷ es) = asked es

-- The segments from `start` to `end`, with room for the count in 64 bits.
module _ (Name Selectors : Type 0) (start end : ℕ) (ordered : start ≤ end)
    (small : end + 1 < 2 ^ 64) where
  abbrev pub count : ℕ
  count = end + 1 - start

  -- A packet has no FinalBlockId, or the end's.
  abbrev pub Agrees : Option ℕ → Type 0
  Agrees none = Unit
  Agrees (some final) = final ≡ end

  -- One segment waits in the queue and there is no credit, or all Interests are sent.
  abbrev pub Sending : ProcessInfo → ℕ → Type 0
  Sending p sent =
      (p.next_segment_queue ≡ (start + sent) ∷ [])
      × (p.next_segment ≡ start + sent)
      × (p.credit ≡ pos 0)

  abbrev pub Drained : ProcessInfo → ℕ → Type 0
  Drained p sent = (p.next_segment_queue ≡ []) × (sent ≡ count) × ((c : ℕ) × (p.credit ≡ pos c))

  -- The counts of retries know each segment asked for and not received.
  abbrev pub Counted : Map ℕ ℕ → List ℕ → ℕ → Type 0
  Counted retry_counts received sent =
      (i : ℕ)
      → start ≤ i
      → i < start + sent
      → ¬ In i received
      → is_some (StdMap.find ℕ_discrete i retry_counts) ≡ true

  pub record Going (p : ProcessInfo) (received : List ℕ) (sent : ℕ) : Type 0 where
    pub started : p.response.start_block_id ≡ some start
    pub ended : p.response.end_block_id ≡ some end
    pub inserted : p.response.insert_num ≡ length received
    pub counted : Counted p.retry_counts received sent
    pub ahead : length received < sent
    pub within : sent ≤ count
    pub phase : Sending p sent ⊎ Drained p sent

  -- The process with one more packet, before anything is sent.
  abbrev pub received_one : ProcessInfo → ProcessInfo
  received_one p = record p {
    response = record p.response { insert_num = p.response.insert_num + 1 };
    credit = p.credit +ℤ pos 1;
  }

  pub receive_eq :
      (final : Option ℕ) (p : ProcessInfo)
      → Agrees final
      → p.response.end_block_id ≡ some end
      → receive Name Selectors final true p
        ≡ record p { response = record p.response { insert_num = p.response.insert_num + 1 } }
  unfolding receive
  receive_eq none p agrees ended = refl
  receive_eq (some final) p agrees ended = ground arith

  -- While segments are missing and there is credit, the control goes on to the queue.
  pub control_eq :
      (now : ℕ) (prefix : Name) (id got : ℕ) (p : ProcessInfo) (c : ℕ)
      → p.response.start_block_id ≡ some start
      → p.response.end_block_id ≡ some end
      → p.response.insert_num < count
      → p.credit ≡ pos c
      → data_control Name Selectors now prefix id got p
        ≡ send_queued Name Selectors prefix id got
            (record p { credit = p.credit +ℤ pos 1 })
            p.next_segment_queue
  unfolding data_control
  control_eq now prefix id got p c started ended fewer credit = ground arith

  pub last_eq :
      (now : ℕ) (prefix : Name) (id got : ℕ) (p : ProcessInfo)
      → p.response.start_block_id ≡ some start
      → p.response.end_block_id ≡ some end
      → count ≤ p.response.insert_num
      → data_control Name Selectors now prefix id got p
        ≡ some (
          set_status Name Selectors 200 (record p { credit = p.credit +ℤ pos 1 }),
          deletion_scheduled id ∷ [],
        )
  unfolding data_control
  last_eq now prefix id got p started ended enough = ground arith

  pub Counted-erase :
      (retry_counts : Map ℕ ℕ) (received : List ℕ) (sent x y : ℕ) (times : Option ℕ)
      → y ≡ start + sent
      → Counted retry_counts received sent
      → Counted
          (StdMap.insert ℕ_discrete y
            (retried Name Selectors times)
            (StdMap.erase ℕ_discrete x retry_counts))
          (x ∷ received)
          (sent + 1)
  Counted-erase retry_counts received sent x y times at counted i low high fresh =
      let value = retried Name Selectors times in
      let differ : x ≢ i = λ e. fresh (inl (sym e)) in
      elim (ℕ_discrete y i) [
        | yes e ↦
            ground
              (arith, find-insert ℕ_discrete y i value (StdMap.erase ℕ_discrete x retry_counts))
        | no ne ↦
            let there = counted i low (omega arith) (λ j. fresh (inr j)) in
            ground (
              arith,
              find-insert ℕ_discrete y i value (StdMap.erase ℕ_discrete x retry_counts),
              find-erase ℕ_discrete x i retry_counts,
            )
      ]

  pub Counted-received :
      (retry_counts : Map ℕ ℕ) (received : List ℕ) (sent x : ℕ)
      → Counted retry_counts received sent
      → Counted retry_counts (x ∷ received) sent
  Counted-received retry_counts received sent x counted i low high fresh =
      counted i low high (λ j. fresh (inr j))

  -- A packet that is neither the first for its segment nor the last to come.
  abbrev pub Goes :
      ProcessInfo → List ℕ → ℕ → ℕ → Option (ProcessInfo × Effects Name Selectors) → Type 0
  Goes p received sent x result =
      (p' : ProcessInfo) × (es : Effects Name Selectors) × (sent' : ℕ) × (result ≡ some (p', es))
      × (count_up sent start ++ asked es ≡ count_up sent' start)
      × Going p' (x ∷ received) sent'
