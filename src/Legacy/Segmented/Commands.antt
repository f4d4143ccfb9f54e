-- ===== src/Legacy/Segmented/Commands.antt =====
-- The callbacks of the segmented `WriteHandle`: commands, checks, packets and timeouts, over the
-- map of its processes. `insertData` of the storage is a parameter: it is not among the sources.
use fast_repo.Prelude.{
  ℕ, Bool, ◌||◌, ◌&&◌, not, Option, none, some, [], ◌∷◌, if◌then◌else◌, ltb, ◌==◌, is_some,
  ℕ_discrete,
}
use fast_repo.Prelude.StdMap
use fast_repo.Prelude.StdMap.{Map}
use fast_repo.Legacy.Messages.{
  Parameter, Response, replied, fetched, deletion_scheduled, negative_reply,
}
use fast_repo.Legacy.Segmented.Defs.{
  ProcessInfo, new_process, Effects, seg_init, data_control, timeout_control, receive,
  extend_no_end_time,
}

module _ (Name Selectors Data Store : Type 0) (insert_data : Data → Store → Bool × Store) where
  pub record WriteHandle : Type 0 where
    pub store : Store
    pub processes : Map ℕ ProcessInfo
    pub interest_lifetime : ℕ

  -- The constructor; the lifetime is DEFAULT_INTEREST_LIFETIME, and the other constants that it copies
  -- are those of `Defs`.
  abbrev pub construct : Store → WriteHandle
  construct store = record { store = store; processes = []; interest_lifetime = 4000 }

  abbrev put_process : WriteHandle → ℕ → ProcessInfo → WriteHandle
  put_process w id p = record w { processes = StdMap.insert ℕ_discrete id p w.processes }

  -- `deleteProcess`, and `onTimeout` of a single fetch
  unfoldable pub delete_process : WriteHandle → ℕ → WriteHandle
  delete_process w id = record w { processes = StdMap.erase ℕ_discrete id w.processes }

  abbrev or_new : Option ProcessInfo → ProcessInfo
  or_new none = new_process
  or_new (some p) = p

  -- `m_processes[processId]`
  abbrev get_process : WriteHandle → ℕ → ProcessInfo
  get_process w id = or_new (StdMap.find ℕ_discrete id w.processes)

  -- A new process: its first reply has status 100, and the entry then has status 300.
  abbrev replied_100 : ℕ → Response → Response
  replied_100 id response = record response {
    status_code = 100;
    process_id = some id;
    insert_num = 0;
  }

  abbrev entered : Response → ProcessInfo → ProcessInfo
  entered response p = record p { response = record response { status_code = 300 } }

  -- `processSingleInsertCommand`
  unfoldable pub process_single_insert_command :
      WriteHandle → Parameter Name Selectors → ℕ → WriteHandle × Effects Name Selectors
  process_single_insert_command w parameter id =
      let p = get_process w id in
      let response = replied_100 id p.response in
      (
        put_process w id (entered response p),
        replied response ∷ fetched (parameter.name, parameter.selectors) id ∷ [],
      )

  abbrev start_segments :
      ℕ → WriteHandle → Name → ℕ → Response → ℕ → Option ℕ → WriteHandle × Effects Name Selectors
  start_segments now w name id response start end =
      let (p, es) =
        seg_init Name Selectors now name id start end (entered response (get_process w id)) in
      (put_process w id p, replied response ∷ es)

  abbrev or_zero : Option ℕ → ℕ
  or_zero none = 0
  or_zero (some x) = x

  abbrev segmented_to :
      ℕ
      → WriteHandle
      → Parameter Name Selectors
      → ℕ
      → Option ℕ
      → WriteHandle × Effects Name Selectors
  segmented_to now w parameter id (some end) =
      let start = or_zero parameter.start_block_id in
      if ltb end start
      then (w, negative_reply 403)
      else start_segments now w parameter.name id
          (record (replied_100 id (get_process w id).response) {
            start_block_id = some start;
            end_block_id = some end;
          })
          start (some end)
  segmented_to now w parameter id none =
      let start = or_zero parameter.start_block_id in
      start_segments now w parameter.name id
        (record (replied_100 id (get_process w id).response) { start_block_id = some start }) start
        none

  -- `processSegmentedInsertCommand`. Without an end the parameter has a start: the caller tests it.
  unfoldable pub process_segmented_insert_command :
      ℕ → WriteHandle → Parameter Name Selectors → ℕ → WriteHandle × Effects Name Selectors
  process_segmented_insert_command now w parameter id =
      segmented_to now w parameter id parameter.end_block_id

  abbrev keep_lifetime :
      Option ℕ → WriteHandle × Effects Name Selectors → WriteHandle × Effects Name Selectors
  keep_lifetime none (w, es) = (w, es)
  keep_lifetime (some lifetime) (w, es) = (record w { interest_lifetime = lifetime }, es)

  -- `onValidated` after `extractParameter`, whose failure is `none`
  unfoldable pub on_validated :
      ℕ → WriteHandle → Option (Parameter Name Selectors) → ℕ → WriteHandle × Effects Name Selectors
  on_validated now w none id = (w, negative_reply 403)
  on_validated now w (some parameter) id =
      if is_some parameter.start_block_id || is_some parameter.end_block_id
      then (if is_some parameter.selectors
          then (w, negative_reply 402)
          else keep_lifetime parameter.interest_lifetime
              (process_segmented_insert_command now w parameter id))
      else keep_lifetime parameter.interest_lifetime (process_single_insert_command w parameter id)

  -- `onValidationFailed` and `onCheckValidationFailed`
  unfoldable pub on_validation_failed : WriteHandle → WriteHandle × Effects Name Selectors
  on_validation_failed w = (w, negative_reply 401)

  abbrev single_arrived :
      WriteHandle → Data → ℕ → Option ProcessInfo → WriteHandle × Effects Name Selectors
  single_arrived w d id none = (w, [])
  single_arrived w d id (some p) =
      let (_, store) = insert_data d w.store in
      (
        if p.response.insert_num == 0
            then put_process (record w { store = store }) id
                (record p { response = record p.response { insert_num = 1 } })
            else w,
        deletion_scheduled id ∷ [],
      )

  -- `onDataValidated`
  unfoldable pub on_data_validated : WriteHandle → Data → ℕ → WriteHandle × Effects Name Selectors
  on_data_validated w d id = single_arrived w d id (StdMap.find ℕ_discrete id w.processes)

  abbrev controlled :
      WriteHandle
      → ℕ
      → Option (ProcessInfo × Effects Name Selectors)
      → Option (WriteHandle × Effects Name Selectors)
  controlled w id none = none
  controlled w id (some (p, es)) = some (put_process w id p, es)

  abbrev segment_arrived :
      ℕ
      → WriteHandle
      → Data
      → Option ℕ
      → Name
      → ℕ
      → ℕ
      → Option ProcessInfo
      → Option (WriteHandle × Effects Name Selectors)
  segment_arrived now w d final prefix segment id none = some (w, [])
  segment_arrived now w d final prefix segment id (some p) =
      let (inserted, store) = insert_data d w.store in
      controlled (record w { store = store }) id
        (data_control Name Selectors now prefix id segment
          (receive Name Selectors final inserted p))

  -- `onSegmentDataValidated` for the Interest of a segment; `final` is the packet's FinalBlockId.
  unfoldable pub on_segment_data_validated :
      ℕ
      → WriteHandle
      → Data
      → Option ℕ
      → Name
      → ℕ
      → ℕ
      → Option (WriteHandle × Effects Name Selectors)
  on_segment_data_validated now w d final prefix segment id =
      segment_arrived now w d final prefix segment id (StdMap.find ℕ_discrete id w.processes)

  abbrev timed :
      WriteHandle
      → ℕ
      → Option (Option ProcessInfo × Effects Name Selectors)
      → Option (WriteHandle × Effects Name Selectors)
  timed w id none = none
  timed w id (some (none, es)) = some (delete_process w id, es)
  timed w id (some (some p, es)) = some (put_process w id p, es)

  abbrev segment_timed_out :
      WriteHandle
      → Name
      → ℕ
      → ℕ
      → Option ProcessInfo
      → Option (WriteHandle × Effects Name Selectors)
  segment_timed_out w prefix segment id none = some (w, [])
  segment_timed_out w prefix segment id (some p) =
      timed w id (timeout_control Name Selectors prefix id segment p)

  -- `onSegmentTimeout`
  unfoldable pub on_segment_timeout :
      WriteHandle → Name → ℕ → ℕ → Option (WriteHandle × Effects Name Selectors)
  on_segment_timeout w prefix segment id =
      segment_timed_out w prefix segment id (StdMap.find ℕ_discrete id w.processes)

  abbrev checked : ℕ → WriteHandle → ℕ → Option ProcessInfo → WriteHandle × Effects Name Selectors
  checked now w id none = (w, negative_reply 404)
  checked now w id (some p) =
      if is_some p.response.start_block_id && not (is_some p.response.end_block_id)
      then (let p' = extend_no_end_time Name Selectors now p in
          (put_process w id p', replied p'.response ∷ []))
      else (w, replied p.response ∷ [])

  abbrev check_process : ℕ → WriteHandle → Option ℕ → WriteHandle × Effects Name Selectors
  check_process now w none = (w, negative_reply 403)
  check_process now w (some id) = checked now w id (StdMap.find ℕ_discrete id w.processes)

  -- `onCheckValidated` after `extractParameter`
  unfoldable pub on_check_validated :
      ℕ → WriteHandle → Option (Parameter Name Selectors) → WriteHandle × Effects Name Selectors
  on_check_validated now w none = (w, negative_reply 403)
  on_check_validated now w (some parameter) = check_process now w parameter.process_id
