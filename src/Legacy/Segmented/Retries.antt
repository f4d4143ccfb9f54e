-- ===== src/Legacy/Segmented/Retries.antt =====
-- Timeouts of one segment, in a row: how often its Interest is sent again, and the end of the
-- process.
use fast_repo.Prelude.{
  ℕ, zero, suc, ◌+◌, ◌-◌, ◌≤◌, ◌<◌, min, ◌⊎◌, inl, inr, ◌≡◌, ap, ◌∙◌, refl, Bool, Option, none,
  some, [], ◌∷◌, ◌++◌, arith, if◌then◌else◌, leb, ℕ_discrete, dec_lt,
}
use fast_repo.Prelude.StdMap
use fast_repo.Prelude.StdMap.{Map, find-insert_same, find-erase}
use fast_repo.Legacy.Messages.{fetched_segment}
use fast_repo.Legacy.Segmented.Defs.{ProcessInfo, Effects, timeout_control}
use fast_repo.Legacy.Segmented.Commands.{WriteHandle, on_segment_timeout, delete_process}

module _ (Name Selectors Data Store : Type 0) (insert_data : Data → Store → Bool × Store) where
  -- As many Interests for one segment.
  abbrev pub again : ℕ → Name → ℕ → ℕ → Effects Name Selectors
  again zero name segment id = []
  again (suc count) name segment id = fetched_segment name segment id ∷ again count name segment id

  abbrev after :
      Effects Name Selectors
      → Option (WriteHandle Name Selectors Data Store insert_data × Effects Name Selectors)
      → Option (WriteHandle Name Selectors Data Store insert_data × Effects Name Selectors)
  after es none = none
  after es (some (w, fs)) = some (w, es ++ fs)

  abbrev and_then :
      (WriteHandle Name Selectors Data Store insert_data
        → Option (WriteHandle Name Selectors Data Store insert_data × Effects Name Selectors))
      → Option (WriteHandle Name Selectors Data Store insert_data × Effects Name Selectors)
      → Option (WriteHandle Name Selectors Data Store insert_data × Effects Name Selectors)
  and_then next none = none
  and_then next (some (w, es)) = after es (next w)

  -- Timeouts of one segment, in a row.
  unfoldable pub timeouts :
      ℕ
      → WriteHandle Name Selectors Data Store insert_data
      → Name
      → ℕ
      → ℕ
      → Option (WriteHandle Name Selectors Data Store insert_data × Effects Name Selectors)
  timeouts zero w name segment id = some (w, [])
  timeouts (suc rounds) w name segment id =
      and_then (λ w'. timeouts rounds w' name segment id)
        (on_segment_timeout Name Selectors Data Store insert_data w name segment id)

  gone :
      (rounds : ℕ) (w : WriteHandle Name Selectors Data Store insert_data) (name : Name)
      (segment id : ℕ)
      → StdMap.find ℕ_discrete id w.processes ≡ none
      → timeouts rounds w name segment id ≡ some (w, [])
  unfolding timeouts on_segment_timeout
  gone zero w name segment id h = refl
  gone (suc rounds) w name segment id h = ground (arith, gone rounds w name segment id h)

  abbrev retried_once :
      WriteHandle Name Selectors Data Store insert_data
      → ℕ
      → ℕ
      → ℕ
      → ProcessInfo
      → WriteHandle Name Selectors Data Store insert_data
  retried_once w id segment times p = record w {
    processes =
        StdMap.insert ℕ_discrete id
          (record p { retry_counts = StdMap.insert ℕ_discrete segment (times + 1) p.retry_counts })
          w.processes;
  }

  find-delete :
      (w : WriteHandle Name Selectors Data Store insert_data) (id : ℕ)
      → StdMap.find ℕ_discrete id
          (delete_process Name Selectors Data Store insert_data w id).processes
        ≡ none
  unfolding delete_process
  find-delete w id = ground (arith, find-erase ℕ_discrete id id w.processes)

  again_step :
      (times : ℕ) (w : WriteHandle Name Selectors Data Store insert_data) (name : Name)
      (segment id : ℕ) (p : ProcessInfo)
      → StdMap.find ℕ_discrete id w.processes ≡ some p
      → StdMap.find ℕ_discrete segment p.retry_counts ≡ some times
      → on_segment_timeout Name Selectors Data Store insert_data w name segment id ≡ (
          if leb 3 times
          then some (delete_process Name Selectors Data Store insert_data w id, [])
          else some (retried_once w id segment times p, fetched_segment name segment id ∷ []))
  unfolding on_segment_timeout timeout_control
  again_step times w name segment id p found counted = ground arith

  sent_again :
      (rounds times : ℕ) (w w2 : WriteHandle Name Selectors Data Store insert_data) (name : Name)
      (segment id : ℕ) (p : ProcessInfo)
      → StdMap.find ℕ_discrete id w.processes ≡ some p
      → StdMap.find ℕ_discrete segment p.retry_counts ≡ some times
      → times < 3
      → (sent : ℕ)
      → timeouts rounds (retried_once w id segment times p) name segment id
        ≡ some (w2, again sent name segment id)
      → timeouts (suc rounds) w name segment id ≡ some (w2, again (suc sent) name segment id)
  unfolding timeouts
  sent_again rounds times w w2 name segment id p found counted less sent same =
      ground (arith, again_step times w name segment id p found counted)

  sent_none :
      (rounds times : ℕ) (w : WriteHandle Name Selectors Data Store insert_data) (name : Name)
      (segment id : ℕ) (p : ProcessInfo)
      → StdMap.find ℕ_discrete id w.processes ≡ some p
      → StdMap.find ℕ_discrete segment p.retry_counts ≡ some times
      → 3 ≤ times
      → timeouts (suc rounds) w name segment id
        ≡ some (delete_process Name Selectors Data Store insert_data w id, [])
  unfolding timeouts
  sent_none rounds times w name segment id p found counted enough =
      let w1 = delete_process Name Selectors Data Store insert_data w id in
      ground (
        arith,
        again_step times w name segment id p found counted,
        gone rounds w1 name segment id (find-delete w id),
      )

  again_lem :
      (rounds times : ℕ) (w : WriteHandle Name Selectors Data Store insert_data) (name : Name)
      (segment id : ℕ) (p : ProcessInfo)
      → StdMap.find ℕ_discrete id w.processes ≡ some p
      → StdMap.find ℕ_discrete segment p.retry_counts ≡ some times
      → times ≤ 3
      → let result = timeouts rounds w name segment id in
        (w' : WriteHandle Name Selectors Data Store insert_data) × (result
          ≡ some (w', again (min rounds (3 - times)) name segment id))
        × (StdMap.find ℕ_discrete id w'.processes ≡ none ⊎ rounds ≤ 3 - times)
  unfolding timeouts on_segment_timeout timeout_control
  again_lem zero times w name segment id p found counted few =
      (w, ap (λ c. some (w, again c name segment id)) {x = 0} (omega arith), inr (omega arith))
  again_lem (suc rounds) times w name segment id p found counted few = elim (dec_lt times 3) [
    | yes less ↦
        let p' = record p {
          retry_counts = StdMap.insert ℕ_discrete segment (times + 1) p.retry_counts;
        } in
        let w1 = retried_once w id segment times p in
        let (w2, same, end) =
          again_lem rounds (times + 1) w1 name segment id p'
            (find-insert_same ℕ_discrete id p' w.processes)
            (find-insert_same ℕ_discrete segment (times + 1) p.retry_counts) (omega arith) in
        (
          w2,
          sent_again rounds times w w2 name segment id p found counted less _ same
              ∙ ap (λ c. some (w2, again c name segment id))
                  {x = suc (min rounds (3 - (times + 1)))} (omega arith),
          elim end [ inl none_left ↦ inl none_left | inr few_rounds ↦ inr (omega arith) ],
        )
    | no enough ↦
        let w1 = delete_process Name Selectors Data Store insert_data w id in
        (
          w1,
          sent_none rounds times w name segment id p found counted (omega arith)
              ∙ ap (λ c. some (w1, again c name segment id)) {x = 0} (omega arith),
          inl (find-delete w id),
        )
  ]

  -- Of the timeouts of a segment in a row, while its process exists and the segment's retry count
  -- is 0, the first three send its Interest again; the fourth ends the process, and later ones do
  -- nothing. No assertion fails.
  pub retries_end :
      (rounds : ℕ) (w : WriteHandle Name Selectors Data Store insert_data) (name : Name)
      (segment id : ℕ) (p : ProcessInfo)
      → StdMap.find ℕ_discrete id w.processes ≡ some p
      → StdMap.find ℕ_discrete segment p.retry_counts ≡ some 0
      → (w' : WriteHandle Name Selectors Data Store insert_data) × (timeouts rounds w name segment
            id
          ≡ some (w', again (min rounds 3) name segment id))
        × (StdMap.find ℕ_discrete id w'.processes ≡ none ⊎ rounds ≤ 3)
  retries_end rounds w name segment id p found counted =
      again_lem rounds 0 w name segment id p found counted (omega arith)
