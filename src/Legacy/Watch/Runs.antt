-- ===== src/Legacy/Watch/Runs.antt =====
-- A watch as the sequence of its callbacks: how many Interests it can send, and what stops it.
use fast_repo.Prelude.{
  ℕ, suc, ◌+◌, ◌≤◌, ◌<◌, ◌≡◌, refl, ap, ◌∙◌, ◌⊎◌, inl, inr, Bool, true, false, Option, none, some,
  List, [], ◌∷◌, ◌++◌, arith, if_neg, length, ◌≢◌,
}
use fast_repo.Prelude.StdMap.{find-insert, find-insert_same}
use fast_repo.Legacy.Messages.{Parameter, Response, fetched}
use fast_repo.Legacy.Watch.Defs.{
  NdnSelectors, Interest, Effects, WatchHandle, get_process, or_made, put_process, touched,
  is_active, watch_stop, is_over, on_running, next_selectors, same_selectors, taken, watch_on,
  on_timeout, on_data_validation_failed, on_data_validated, on_stop_validated,
}

module _ (n : NdnSelectors) (Store : Type 0) (insert_data : n.Data → Store → Bool × Store) where
  abbrev pub fetches : Effects n Store insert_data → ℕ
  fetches [] = 0
  fetches (fetched interest process ∷ es) = suc (fetches es)
  fetches (_ ∷ es) = fetches es

  watch_stop-is_active :
      (now : ℕ) (w : WatchHandle n Store insert_data) (name : n.Name)
      → is_active n Store insert_data (watch_stop n Store insert_data now w name) name ≡ false
  unfolding watch_stop
  watch_stop-is_active now w name =
      let (response, running) = get_process n Store insert_data w name in
      ap (λ o. let (r, b) = or_made n Store insert_data o in b)
        (find-insert_same n.name_discrete name (response, false) w.processes)

  -- A step that leaves no watch and sends nothing, or that counts what it sends within the maximum.
  abbrev pub Bounded :
      WatchHandle n Store insert_data
      → n.Name
      → WatchHandle n Store insert_data
      → Effects n Store insert_data
      → Type 0
  Bounded w name w' es =
      (is_active n Store insert_data w' name ≡ false) × (fetches es ≡ 0)
      ⊎ (w'.max_interest_num ≡ w.max_interest_num)
        × (w'.interest_num ≡ w.interest_num + fetches es)
        × (w'.interest_num ≤ w.max_interest_num)

  watch_on-Bounded :
      (now : ℕ) (w : WatchHandle n Store insert_data) (interest : Interest n Store insert_data)
      (selectors : n.Selectors) (name : n.Name)
      → 0 < w.max_interest_num
      → w.interest_num ≤ w.max_interest_num
      → let (w', es) = watch_on n Store insert_data now w interest selectors name in
        Bounded w name w' es
  unfolding watch_on on_running is_over
  watch_on-Bounded now w interest selectors name pos_max bound =
      ground (arith, watch_stop-is_active now w name)

  -- What can come back for a watch, at a time: a timeout or nack, a packet, or a packet that does
  -- not validate.
  pub data Event : Type 0 where
    unanswered : ℕ → Interest n Store insert_data → Event
    arrived : ℕ → Interest n Store insert_data → n.Data → Event
    rejected : ℕ → Interest n Store insert_data → n.Data → Event

  fetches-append :
      (es fs : Effects n Store insert_data) → fetches (es ++ fs) ≡ fetches es + fetches fs
  fetches-append [] fs = omega arith
  fetches-append (fetched interest process ∷ es) fs = omega (arith, fetches-append es fs)
  fetches-append (_ ∷ es) fs = fetches-append es fs

  abbrev or_nothing : Option (Effects n Store insert_data) → Effects n Store insert_data
  or_nothing none = []
  or_nothing (some es) = es

  unfoldable pub step :
      WatchHandle n Store insert_data
      → n.Name
      → Event
      → WatchHandle n Store insert_data × Effects n Store insert_data
  step w name (unanswered now interest) = on_timeout n Store insert_data now w interest name
  step w name (arrived now interest d) =
      let (w', es) = on_data_validated n Store insert_data now w interest d name in
      (w', or_nothing es)
  step w name (rejected now interest d) =
      on_data_validation_failed n Store insert_data now w interest d name

  unfoldable pub run :
      WatchHandle n Store insert_data
      → n.Name
      → List Event
      → WatchHandle n Store insert_data × Effects n Store insert_data
  run w name [] = (w, [])
  run w name (e ∷ events) =
      let (w1, es) = step w name e in let (w2, fs) = run w1 name events in (w2, es ++ fs)

  touched-is_active :
      (w : WatchHandle n Store insert_data) (name : n.Name)
      → is_active n Store insert_data (touched n Store insert_data w name) name
        ≡ is_active n Store insert_data w name
  touched-is_active w name =
      ap (λ o. let (r, b) = or_made n Store insert_data o in b)
        (find-insert_same n.name_discrete name (get_process n Store insert_data w name) w.processes)

  put-is_active :
      (w : WatchHandle n Store insert_data) (name : n.Name) (p : Response × Bool)
      → is_active n Store insert_data (put_process n Store insert_data w name p) name
        ≡ (let (r, b) = p in b)
  put-is_active w name p =
      ap (λ o. let (r, b) = or_made n Store insert_data o in b)
        (find-insert_same n.name_discrete name p w.processes)

  -- A stopped watch sends nothing, whatever comes back.
  stopped-step :
      (w : WatchHandle n Store insert_data) (name : n.Name) (e : Event)
      → is_active n Store insert_data w name ≡ false
      → let (w', es) = step w name e in
        (is_active n Store insert_data w' name ≡ false) × (fetches es ≡ 0)
  unfolding step on_timeout on_data_validated on_data_validation_failed
  stopped-step w name (unanswered now interest) h = ground (arith, touched-is_active w name)
  stopped-step w name (arrived now interest d) h = ground (arith, touched-is_active w name)
  stopped-step w name (rejected now interest d) h = ground (arith, touched-is_active w name)

  taken-Bounded :
      (now : ℕ) (w : WatchHandle n Store insert_data) (interest : Interest n Store insert_data)
      (d : n.Data) (name : n.Name)
      → 0 < w.max_interest_num
      → w.interest_num ≤ w.max_interest_num
      → let (w', es) = taken n Store insert_data now w interest d name in Bounded w name w' es
  taken-Bounded now w interest d name pos_max bound =
      let selectors = next_selectors n Store insert_data interest d in
      let (w', es) = watch_on n Store insert_data now w interest selectors name in
      let (response, running) = get_process n Store insert_data w' name in
      ground (
        arith,
        put-is_active w' name (record response { insert_num = w'.size }, running),
        watch_on-Bounded now w interest selectors name pos_max bound,
      )

  step-Bounded :
      (w : WatchHandle n Store insert_data) (name : n.Name) (e : Event)
      → 0 < w.max_interest_num
      → w.interest_num ≤ w.max_interest_num
      → let (w', es) = step w name e in Bounded w name w' es
  unfolding step on_timeout on_data_validated on_data_validation_failed
  step-Bounded w name (unanswered now interest) pos_max bound = ground (
    arith,
    touched-is_active w name,
    watch_on-Bounded now (touched n Store insert_data w name) interest
        (same_selectors n Store insert_data interest) name pos_max bound,
  )
  step-Bounded w name (arrived now interest d) pos_max bound =
      let (inserted, store) = insert_data d w.store in
      let w1 = record (touched n Store insert_data w name) { store = store } in
      ground (
        arith,
        touched-is_active w name,
        taken-Bounded now (record w1 { size = w1.size + 1 }) interest d name pos_max bound,
      )
  step-Bounded w name (rejected now interest d) pos_max bound = ground (
    arith,
    touched-is_active w name,
    watch_on-Bounded now (touched n Store insert_data w name) interest
        (next_selectors n Store insert_data interest d) name pos_max bound,
  )

  stopped-run :
      (events : List Event) (w : WatchHandle n Store insert_data) (name : n.Name)
      → is_active n Store insert_data w name ≡ false
      → let (w', es) = run w name events in
        (is_active n Store insert_data w' name ≡ false) × (fetches es ≡ 0)
  unfolding run
  stopped-run [] w name h = (h, refl)
  stopped-run (e ∷ events) w name h =
      let (w1, es) = step w name e in
      let (w2, fs) = run w1 name events in
      let (off, none_sent) = stopped-step w name e h in
      let (off', none_sent') = stopped-run events w1 name off in
      (off', fetches-append es fs ∙ omega arith)

  -- However a watch is answered, the Interests that it sends from here on stay within its maximum,
  -- if it has one and has not exceeded it.
  pub watch_is_bounded :
      (events : List Event) (w : WatchHandle n Store insert_data) (name : n.Name)
      → 0 < w.max_interest_num
      → w.interest_num ≤ w.max_interest_num
      → let (w', es) = run w name events in w.interest_num + fetches es ≤ w.max_interest_num
  unfolding run
  watch_is_bounded [] w name pos_max bound = omega arith
  watch_is_bounded (e ∷ events) w name pos_max bound =
      let (w1, es) = step w name e in
      let (w2, fs) = run w1 name events in
      elim (step-Bounded w name e pos_max bound) [
        | inl (off, none_sent) ↦
            let (off', none_sent') = stopped-run events w1 name off in
            omega (arith, fetches-append es fs)
        | inr (same, counted, within) ↦
            let rest = watch_is_bounded events w1 name (omega arith) (omega arith) in
            omega (arith, fetches-append es fs)
      ]

  -- After a stop command nothing more is sent for the name, whatever still comes back.
  pub stop_is_final :
      (now : ℕ) (w : WatchHandle n Store insert_data) (parameter : Parameter n.Name n.Selectors)
      (events : List Event)
      → let (w1, replies) = on_stop_validated n Store insert_data now w (some parameter) in
        let (w2, es) = run w1 parameter.name events in
        (is_active n Store insert_data w2 parameter.name ≡ false) × (fetches es ≡ 0)
  unfolding on_stop_validated
  stop_is_final now w parameter events =
      stopped-run events (watch_stop n Store insert_data now w parameter.name) parameter.name
        (watch_stop-is_active now w parameter.name)

  abbrev pub all_unanswered : List (ℕ × Interest n Store insert_data) → List Event
  all_unanswered [] = []
  all_unanswered ((now, interest) ∷ rest) = unanswered now interest ∷ all_unanswered rest

  unlimited-run :
      (answers : List (ℕ × Interest n Store insert_data)) (w : WatchHandle n Store insert_data)
      (name : n.Name)
      → is_active n Store insert_data w name ≡ true
      → w.max_interest_num ≡ 0
      → w.watch_timeout ≡ 0
      → let (w', es) = run w name (all_unanswered answers) in fetches es ≡ length answers
  unfolding run step on_timeout watch_on on_running is_over
  unlimited-run [] w name active no_max no_timeout = omega arith
  unlimited-run ((now, interest) ∷ rest) w name active no_max no_timeout = ground (
    arith,
    touched-is_active w name,
    unlimited-run rest
        (record (touched n Store insert_data w name) { interest_num = w.interest_num + 1 }) name
        (touched-is_active w name ∙ active) no_max no_timeout,
  )

  -- The limits stand in the handler, not in the process: when a watch of one name is stopped, a
  -- watch of another name that is active has none left, and each timeout sends an Interest again.
  pub stop_unbounds_others :
      (now : ℕ) (w : WatchHandle n Store insert_data) (name other : n.Name)
      (answers : List (ℕ × Interest n Store insert_data))
      → is_active n Store insert_data w other ≡ true
      → name ≢ other
      → let (w', es) =
          run (watch_stop n Store insert_data now w name) other (all_unanswered answers) in
        fetches es ≡ length answers
  unfolding watch_stop
  stop_unbounds_others now w name other answers active differs =
      let (response, running) = get_process n Store insert_data w name in
      unlimited-run answers (watch_stop n Store insert_data now w name) other
        (ap (λ o. let (r, b) = or_made n Store insert_data o in b)
            (find-insert n.name_discrete name other (response, false) w.processes
              ∙ if_neg (n.name_discrete name other) differs _ _)
          ∙ active)
        refl refl
