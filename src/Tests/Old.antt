-- ===== src/Tests/Old.antt =====
-- The theorems on the handlers of the repo-ng code at concrete commands, packets and timeouts.
use fast_repo.Prelude.{
  ℕ, ◌+◌, ◌-◌, ◌%◌, ◌≤◌, ◌≡◌, if◌then◌else◌, ◌==◌, ◌⊎◌, refl, Bool, true, false, Option, none, some,
  List, [], ◌∷◌, ℕ_discrete, arith,
}
use fast_repo.Prelude.Int.{ℤ, pos, negsuc}
use fast_repo.Prelude.StdMap
use fast_repo.Legacy.Messages.{Parameter, new_response, replied}
use fast_repo.Legacy.Segmented.Defs.{ProcessInfo, new_process}
use fast_repo.Legacy.Segmented.Commands
use fast_repo.Legacy.Segmented.Retries.{again, timeouts, retries_end}
use fast_repo.Legacy.Segmented.Dispatch
use fast_repo.Legacy.Segmented.Dispatch.{step-replies}
use fast_repo.Legacy.Watch.Dispatch as WatchDispatch
use fast_repo.Legacy.Watch.Dispatch.{watch_step_replies}
use fast_repo.Legacy.Watch.Defs.{
  NdnSelectors, WatchHandle, construct, is_active, watch_stop, on_stop_validated, Interest,
}
use fast_repo.Legacy.Watch.Runs
use fast_repo.Legacy.Watch.Runs.{
  Event, unanswered, arrived, run, all_unanswered, watch_is_bounded, stop_is_final,
  stop_unbounds_others,
}
use fast_repo.Legacy.Delete
use fast_repo.Legacy.Delete.{failed_segments_count}
use fast_repo.Legacy.Deleted.{DeletionLaws, held, segments_are_deleted}

-- Names, packets and selectors are numbers.
abbrev numbers : NdnSelectors
numbers = record {
  Name = ℕ;
  name_discrete = ℕ_discrete;
  size = λ name. name;
  Component = ℕ;
  component_at = λ name i. name - i;
  Data = ℕ;
  data_name = λ d. d;
  Selectors = ℕ;
  no_selectors = 0;
  set_child_selector = λ i s. s;
  set_min_suffix_components = λ i s. s;
  Exclude = ℕ;
  no_exclude = 0;
  is_empty_exclude = λ e. true;
  exclude_before = λ c e. c;
  get_exclude = λ s. s;
  set_exclude = λ e s. e;
}

abbrev take_all : ℕ → List ℕ → Bool × List ℕ
take_all d s = (true, d ∷ s)

abbrev watching : WatchHandle numbers (List ℕ) take_all
watching = record (construct numbers (List ℕ) take_all 0 []) {
  processes = (4, (new_response, true)) ∷ (5, (new_response, true)) ∷ [];
  interest_num = 1;
  max_interest_num = 3;
}

abbrev answers : List (Event numbers (List ℕ) take_all)
answers = unanswered 10 (4, 0, 4000) ∷ arrived 20 (4, 0, 4000) 6 ∷ unanswered 30 (4, 0, 4000) ∷ []

watch_is_bounded_example :
    let (w', es) = run numbers (List ℕ) take_all watching 4 answers in
    1 + Runs.fetches numbers (List ℕ) take_all es ≤ 3
watch_is_bounded_example =
    watch_is_bounded numbers (List ℕ) take_all answers watching 4 (omega arith) (omega arith)

abbrev about : ℕ → Option ℕ → Option ℕ → Parameter ℕ ℕ
about name start end = record {
  name = name;
  has_name = true;
  selectors = none;
  start_block_id = start;
  end_block_id = end;
  process_id = some 7;
  max_interest_num = none;
  watch_timeout = none;
  interest_lifetime = none;
}

stop_is_final_example :
    let w1 = watch_stop numbers (List ℕ) take_all 5 watching 4 in
    let (w2, es) = run numbers (List ℕ) take_all w1 4 answers in
    (is_active numbers (List ℕ) take_all w2 4 ≡ false)
    × (Runs.fetches numbers (List ℕ) take_all es ≡ 0)
unfolding watch_stop on_stop_validated
stop_is_final_example =
    stop_is_final numbers (List ℕ) take_all 5 watching (about 4 none none) answers

abbrev two_timeouts : List (ℕ × Interest numbers (List ℕ) take_all)
two_timeouts = (10, (5, 0, 4000)) ∷ (20, (5, 0, 4000)) ∷ []

stop_unbounds_others_example :
    let w1 = watch_stop numbers (List ℕ) take_all 5 watching 4 in
    let events = all_unanswered numbers (List ℕ) take_all two_timeouts in
    let (w', es) = run numbers (List ℕ) take_all w1 5 events in
    Runs.fetches numbers (List ℕ) take_all es ≡ 2
unfolding StdMap.find ℕ_discrete
stop_unbounds_others_example =
    stop_unbounds_others numbers (List ℕ) take_all 5 watching 4 5 two_timeouts refl
      (λ h. omega arith)

abbrev failing : ℕ → List ℕ → ℤ × List ℕ
failing name s = (negsuc 0, s)

abbrev none_match : ℕ → ℕ → List ℕ → ℤ × List ℕ
none_match name selectors s = (pos 0, s)

-- A storage that says of each name whether it holds a packet.
abbrev deleting : ℕ → (ℕ → Bool) → ℤ × (ℕ → Bool)
deleting name s = (if s name then pos 1 else pos 0, λ k. if k == name then false else s k)

abbrev deletes_none : ℕ → ℕ → (ℕ → Bool) → ℤ × (ℕ → Bool)
deletes_none name selectors s = (pos 0, s)

abbrev holding : ℕ → (ℕ → Bool) → Bool
holding name s = s name

deletion_laws : DeletionLaws ℕ ℕ (ℕ → Bool) ◌+◌ deleting deletes_none holding
deletion_laws = record {
  deleted_held = λ name s h. ground arith;
  deleted_missing = λ name s h. ground arith;
  holds_deleted = λ name s. ground arith;
  holds_other = λ name other s ne. ground arith;
  segments_differ = λ prefix i j h e. omega arith;
}

abbrev even : ℕ → Bool
even k = k % 2 == 0

segments_are_deleted_example :
    (s' : ℕ → Bool) × (Delete.on_validated ℕ ℕ
        (ℕ → Bool)
        ◌+◌
        deleting
        deletes_none
        (some (about 4 none (some 2)))
        even
      ≡ some (
        s',
        replied (record new_response { process_id = some 7; status_code = 200; delete_num = 2 })
            ∷ [],
      ))
    × (s' 6 ≡ false)
    × (s' 8 ≡ true)
unfolding held
segments_are_deleted_example =
    segments_are_deleted ℕ ℕ (ℕ → Bool) ◌+◌ deleting deletes_none holding deletion_laws
      (about 4 none (some 2)) even 7 2 2 8 refl refl refl (omega arith) (omega arith) (omega arith)
      (omega arith) (λ k low high e. omega arith)

failed_segments_count_example :
    Delete.on_validated ℕ ℕ
      (List ℕ)
      ◌+◌
      failing
      none_match
      (some (about 4 (some 2) (some 5)))
      (9 ∷ [])
    ≡ some (
      9 ∷ [],
      replied (record new_response { process_id = some 7; status_code = 200; delete_num = 4 }) ∷ [],
    )
failed_segments_count_example =
    failed_segments_count ℕ ℕ (List ℕ) ◌+◌ failing none_match (about 4 (some 2) (some 5)) (9 ∷ []) 7
      2 5 (λ name t. refl) refl refl refl refl (omega arith) (omega arith)

-- A process that waits for segment 3; segment 6 is in its queue.
abbrev fetching : ProcessInfo
fetching = record new_process {
  next_segment_queue = 6 ∷ [];
  next_segment = 6;
  retry_counts = (3, 0) ∷ [];
  no_end_time = 1000;
}

abbrev advanced : ProcessInfo
advanced = record fetching {
  next_segment_queue = 7 ∷ [];
  next_segment = 7;
  retry_counts = (6, 0) ∷ [];
}

abbrev one_process : Commands.WriteHandle ℕ ℕ ℕ (List ℕ) take_all
one_process = record (Commands.construct ℕ ℕ ℕ (List ℕ) take_all []) {
  processes = (7, fetching) ∷ [];
}

retries_end_example :
    (w' : Commands.WriteHandle ℕ ℕ ℕ (List ℕ) take_all) × (timeouts ℕ ℕ ℕ
        (List ℕ)
        take_all
        5
        one_process
        4
        3
        7
      ≡ some (w', again ℕ ℕ ℕ (List ℕ) take_all 3 4 3 7))
    × (StdMap.find ℕ_discrete 7 w'.processes ≡ none ⊎ 5 ≤ 3)
unfolding StdMap.find ℕ_discrete
retries_end_example = retries_end ℕ ℕ ℕ (List ℕ) take_all 5 one_process 4 3 7 fetching refl refl

abbrev parameter_7 : Parameter ℕ ℕ
parameter_7 = record {
  name = 4;
  has_name = true;
  selectors = none;
  start_block_id = none;
  end_block_id = none;
  process_id = some 7;
  max_interest_num = none;
  watch_timeout = none;
  interest_lifetime = none;
}

step-replies_example : Dispatch.replies ℕ ℕ ℕ (List ℕ) take_all (replied fetching.response ∷ []) ≡ 1
unfolding Dispatch.step Commands.on_check_validated StdMap.find ℕ_discrete
step-replies_example =
    step-replies ℕ ℕ ℕ (List ℕ) take_all one_process one_process
      (Dispatch.check true 0 (some parameter_7)) (replied fetching.response ∷ []) refl

watch_step_replies_example :
    WatchDispatch.all_replies numbers
      (List ℕ)
      take_all
      (WatchDispatch.step numbers
        (List ℕ)
        take_all
        watching
        (WatchDispatch.check true (some (record parameter_7 { name = 4 })))).1
    ≡ 1
watch_step_replies_example =
    watch_step_replies numbers (List ℕ) take_all watching
      (WatchDispatch.check true (some (record parameter_7 { name = 4 })))
