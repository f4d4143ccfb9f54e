-- ===== src/Legacy/Segmented/Dispatch.antt =====
-- The segmented `WriteHandle` as what comes to it: commands, checks and packets with the verdict
-- of the validator, timeouts, and the timer of `deferredDeleteProcess`.
use fast_repo.Prelude.{
  ℕ, zero, suc, ◌+◌, ◌≡◌, refl, ap, sym, ◌∙◌, inl, inr, Option-cases, Bool, true, false, Option,
  none, some, List, [], ◌∷◌, arith,
}
use fast_repo.Prelude.Bytes.{Bytes}
use fast_repo.Legacy.Messages.{Parameter, replied}
use fast_repo.Legacy.Segmented.Defs.{
  ProcessInfo, Effects, send_first, seg_init, data_control, send_queued, send_next, timeout_control,
}
use fast_repo.Legacy.Segmented.Commands.{
  WriteHandle, delete_process, process_single_insert_command, process_segmented_insert_command,
  on_validated, on_validation_failed, on_data_validated, on_segment_data_validated,
  on_segment_timeout, on_check_validated,
}

-- "insert" and "insert check"
abbrev insert_word : Bytes
insert_word = b'i' ∷ b'n' ∷ b's' ∷ b'e' ∷ b'r' ∷ b't' ∷ []

abbrev insert_check_word : Bytes
insert_check_word =
    b'i' ∷ b'n' ∷ b's' ∷ b'e' ∷ b'r' ∷ b't' ∷ 32 ∷ b'c' ∷ b'h' ∷ b'e' ∷ b'c' ∷ b'k' ∷ []

-- `listen`: the names of the two Interest filters
unfoldable pub filters : {Name : Type 0} → (Name → Bytes → Name) → Name → List Name
filters append prefix = append prefix insert_word ∷ append prefix insert_check_word ∷ []

module _ (Name Selectors Data Store : Type 0) (insert_data : Data → Store → Bool × Store) where
  abbrev W : Type 0
  W = WriteHandle Name Selectors Data Store insert_data

  -- A first argument says whether the validator accepts; the parameter is what `extractParameter`
  -- gives, and the number of a command the process id that it would get.
  pub data Event : Type 0 where
    command : Bool → ℕ → Option (Parameter Name Selectors) → ℕ → Event
    check : Bool → ℕ → Option (Parameter Name Selectors) → Event
    arrival : Bool → Data → ℕ → Event
    segment_arrival : Bool → ℕ → Data → Option ℕ → Name → ℕ → ℕ → Event
    timeout deletion : ℕ → Event
    segment_timeout : Name → ℕ → ℕ → Event

  -- `onInterest` and `onCheckInterest`: a first argument is the verdict of the validator.
  abbrev pub on_interest :
      Bool → ℕ → W → Option (Parameter Name Selectors) → ℕ → W × Effects Name Selectors
  on_interest true now w parameter id =
      on_validated Name Selectors Data Store insert_data now w parameter id
  on_interest false now w parameter id =
      on_validation_failed Name Selectors Data Store insert_data w

  abbrev pub on_check_interest :
      Bool → ℕ → W → Option (Parameter Name Selectors) → W × Effects Name Selectors
  on_check_interest true now w parameter =
      on_check_validated Name Selectors Data Store insert_data now w parameter
  on_check_interest false now w parameter =
      on_validation_failed Name Selectors Data Store insert_data w

  -- `onDataValidationFailed` changes nothing.
  abbrev pub on_data : Bool → W → Data → ℕ → W × Effects Name Selectors
  on_data true w d id = on_data_validated Name Selectors Data Store insert_data w d id
  on_data false w d id = (w, [])

  abbrev pub on_segment_data :
      Bool → ℕ → W → Data → Option ℕ → Name → ℕ → ℕ → Option (W × Effects Name Selectors)
  on_segment_data true now w d final prefix segment id =
      on_segment_data_validated Name Selectors Data Store insert_data now w d final prefix segment
        id
  on_segment_data false now w d final prefix segment id = some (w, [])

  unfoldable pub step : W → Event → Option (W × Effects Name Selectors)
  step w (command valid now parameter id) = some (on_interest valid now w parameter id)
  step w (check valid now parameter) = some (on_check_interest valid now w parameter)
  step w (arrival valid d id) = some (on_data valid w d id)
  step w (segment_arrival valid now d final prefix segment id) =
      on_segment_data valid now w d final prefix segment id
  step w (timeout id) = some (delete_process Name Selectors Data Store insert_data w id, [])
  step w (deletion id) = some (delete_process Name Selectors Data Store insert_data w id, [])
  step w (segment_timeout prefix segment id) =
      on_segment_timeout Name Selectors Data Store insert_data w prefix segment id

  abbrev pub replies : Effects Name Selectors → ℕ
  replies [] = 0
  replies (replied response ∷ es) = suc (replies es)
  replies (_ ∷ es) = replies es

  -- How many replies an event calls for.
  abbrev pub due : Event → ℕ
  due (command valid now parameter id) = 1
  due (check valid now parameter) = 1
  due _ = 0

  send_first_silent :
      (rounds : ℕ) (name : Name) (id segment : ℕ) (p : ProcessInfo)
      → replies (send_first Name Selectors rounds name id segment p).1 ≡ 0
  unfolding send_first
  send_first_silent zero name id segment p = refl
  send_first_silent (suc rounds) name id segment p =
      send_first_silent rounds name id (segment + 1) _

  seg_init_silent :
      (now : ℕ) (name : Name) (id start : ℕ) (end : Option ℕ) (p : ProcessInfo)
      → replies (seg_init Name Selectors now name id start end p).1 ≡ 0
  unfolding seg_init
  seg_init_silent now name id start end p = send_first_silent _ name id start _

  segmented_replies :
      (w : W) (now : ℕ) (parameter : Parameter Name Selectors) (id : ℕ)
      → replies
          (process_segmented_insert_command Name Selectors Data Store insert_data now w parameter
            id).1
        ≡ 1
  unfolding process_segmented_insert_command
  segmented_replies w now parameter id = elim (Option-cases parameter.end_block_id) [
    | inl e ↦ rw e (ap suc (seg_init_silent now parameter.name id _ none _))
    | inr (end, e) ↦ rw e (grind (arith, seg_init_silent))
  ]

  command_replies :
      (w : W) (now : ℕ) (parameter : Option (Parameter Name Selectors)) (id : ℕ)
      → replies (on_validated Name Selectors Data Store insert_data now w parameter id).1 ≡ 1
  unfolding on_validated process_single_insert_command
  command_replies w now none id = refl
  command_replies w now (some parameter) id = ground (arith, segmented_replies w now parameter id)

  check_replies :
      (w : W) (now : ℕ) (parameter : Option (Parameter Name Selectors))
      → replies (on_check_validated Name Selectors Data Store insert_data now w parameter).1 ≡ 1
  unfolding on_check_validated
  check_replies w now parameter = ground arith

  control_silent :
      (now : ℕ) (prefix : Name) (id got : ℕ) (p p' : ProcessInfo) (es : Effects Name Selectors)
      → data_control Name Selectors now prefix id got p ≡ some (p', es)
      → replies es ≡ 0
  unfolding data_control send_queued send_next
  control_silent now prefix id got p p' es e = ground arith

  segment_silent :
      (w w' : W) (now : ℕ) (d : Data) (final : Option ℕ) (prefix : Name) (segment id : ℕ)
      (es : Effects Name Selectors)
      → on_segment_data_validated Name Selectors Data Store insert_data now w d final prefix segment
          id
        ≡ some (w', es)
      → replies es ≡ 0
  unfolding on_segment_data_validated
  segment_silent w w' now d final prefix segment id es e = grind (arith, control_silent)

  timeout_silent :
      (w w' : W) (prefix : Name) (segment id : ℕ) (es : Effects Name Selectors)
      → on_segment_timeout Name Selectors Data Store insert_data w prefix segment id ≡ some (w', es)
      → replies es ≡ 0
  unfolding on_segment_timeout timeout_control
  timeout_silent w w' prefix segment id es e = ground arith

  same_replies :
      (result : W × Effects Name Selectors) (w' : W) (es : Effects Name Selectors)
      → ◌≡◌ {A = Option (W × Effects Name Selectors)} (some result) (some (w', es))
      → replies result.1 ≡ 1
      → replies es ≡ 1
  same_replies result w' es e one =
      ap (λ (y : W × Effects Name Selectors). replies y.1) (sym (pair_eq e)) ∙ one
    where
      pair_eq :
          {x y : W × Effects Name Selectors}
          → ◌≡◌ {A = Option (W × Effects Name Selectors)} (some x) (some y)
          → x ≡ y
      pair_eq e = cc

  -- Whatever comes to the handle, unless an assertion fails: a command or a check gets exactly one
  -- reply, whether the validator accepts it or not, and nothing else gets one.
  pub step-replies :
      (w w' : W) (event : Event) (es : Effects Name Selectors)
      → step w event ≡ some (w', es)
      → replies es ≡ due event
  unfolding step on_validation_failed on_data_validated
  step-replies w w' (command true now parameter id) es e =
      same_replies _ w' es e (command_replies w now parameter id)
  step-replies w w' (command false now parameter id) es e = ground arith
  step-replies w w' (check true now parameter) es e =
      same_replies _ w' es e (check_replies w now parameter)
  step-replies w w' (check false now parameter) es e = ground arith
  step-replies w w' (arrival true d id) es e = ground arith
  step-replies w w' (arrival false d id) es e = ground arith
  step-replies w w' (segment_arrival true now d final prefix segment id) es e =
      segment_silent w w' now d final prefix segment id es e
  step-replies w w' (segment_arrival false now d final prefix segment id) es e = ground arith
  step-replies w w' (timeout id) es e = ground arith
  step-replies w w' (deletion id) es e = ground arith
  step-replies w w' (segment_timeout prefix segment id) es e =
      timeout_silent w w' prefix segment id es e
