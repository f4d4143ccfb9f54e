-- ===== src/Legacy/Watch/Dispatch.antt =====
-- `WatchHandle` as what comes to it: its three commands and the packets with the verdict of the
-- validator, timeouts, and the timer of `deferredDeleteProcess`.
use fast_repo.Prelude.{
  ℕ, suc, ◌≡◌, refl, Bool, true, false, Option, none, some, List, [], ◌∷◌, arith,
}
use fast_repo.Prelude.Bytes.{Bytes}
use fast_repo.Legacy.Messages.{Parameter, replied, negative_reply}
use fast_repo.Legacy.Watch.Defs.{
  NdnSelectors, Interest, Effects, WatchHandle, delete_process, on_running, watch_on, on_timeout,
  on_data_validated, on_data_validation_failed, process_watch_command, on_validated,
  on_stop_validated, on_check_validated,
}

abbrev watch_word : Bytes
watch_word = b'w' ∷ b'a' ∷ b't' ∷ b'c' ∷ b'h' ∷ []

abbrev start_word : Bytes
start_word = b's' ∷ b't' ∷ b'a' ∷ b'r' ∷ b't' ∷ []

abbrev check_word : Bytes
check_word = b'c' ∷ b'h' ∷ b'e' ∷ b'c' ∷ b'k' ∷ []

abbrev stop_word : Bytes
stop_word = b's' ∷ b't' ∷ b'o' ∷ b'p' ∷ []

-- `listen`: the names of the three Interest filters
unfoldable pub watch_filters : {Name : Type 0} → (Name → Bytes → Name) → Name → List Name
watch_filters append prefix =
    append (append prefix watch_word) start_word
    ∷ append (append prefix watch_word) check_word
    ∷ append (append prefix watch_word) stop_word
    ∷ []

module _ (n : NdnSelectors) (Store : Type 0) (insert_data : n.Data → Store → Bool × Store) where
  abbrev W : Type 0
  W = WatchHandle n Store insert_data

  -- A first argument says whether the validator accepts; the parameter is what `extractParameter`
  -- gives. A packet and a timeout come for an Interest and the name that is watched.
  pub data Event : Type 0 where
    command stop_command : Bool → ℕ → Option (Parameter n.Name n.Selectors) → Event
    check : Bool → Option (Parameter n.Name n.Selectors) → Event
    arrival : Bool → ℕ → Interest n Store insert_data → n.Data → n.Name → Event
    timeout : ℕ → Interest n Store insert_data → n.Name → Event
    deletion : n.Name → Event

  abbrev refused : W → W × Option (Effects n Store insert_data)
  refused w = (w, some (negative_reply 401))

  abbrev without_exception :
      W × Effects n Store insert_data → W × Option (Effects n Store insert_data)
  without_exception (w, es) = (w, some es)

  -- `onInterest`, `onStopInterest` and `onCheckInterest`: a first argument is the verdict of the
  -- validator.
  abbrev pub on_interest :
      Bool
      → ℕ
      → W
      → Option (Parameter n.Name n.Selectors)
      → W × Option (Effects n Store insert_data)
  on_interest true now w parameter =
      without_exception (on_validated n Store insert_data now w parameter)
  on_interest false now w parameter = refused w

  abbrev pub on_stop_interest :
      Bool
      → ℕ
      → W
      → Option (Parameter n.Name n.Selectors)
      → W × Option (Effects n Store insert_data)
  on_stop_interest true now w parameter =
      without_exception (on_stop_validated n Store insert_data now w parameter)
  on_stop_interest false now w parameter = refused w

  abbrev pub on_check_interest :
      Bool → W → Option (Parameter n.Name n.Selectors) → W × Option (Effects n Store insert_data)
  on_check_interest true w parameter =
      without_exception (on_check_validated n Store insert_data w parameter)
  on_check_interest false w parameter = refused w

  abbrev pub on_data :
      Bool
      → ℕ
      → W
      → Interest n Store insert_data
      → n.Data
      → n.Name
      → W × Option (Effects n Store insert_data)
  on_data true now w interest d name = on_data_validated n Store insert_data now w interest d name
  on_data false now w interest d name =
      without_exception (on_data_validation_failed n Store insert_data now w interest d name)

  -- No effects stand for the exception of a packet that the storage does not take.
  unfoldable pub step : W → Event → W × Option (Effects n Store insert_data)
  step w (command valid now parameter) = on_interest valid now w parameter
  step w (stop_command valid now parameter) = on_stop_interest valid now w parameter
  step w (check valid parameter) = on_check_interest valid w parameter
  step w (arrival valid now interest d name) = on_data valid now w interest d name
  step w (timeout now interest name) =
      without_exception (on_timeout n Store insert_data now w interest name)
  step w (deletion name) = (delete_process n Store insert_data w name, some [])

  abbrev pub replies : Effects n Store insert_data → ℕ
  replies [] = 0
  replies (replied response ∷ es) = suc (replies es)
  replies (_ ∷ es) = replies es

  abbrev pub all_replies : Option (Effects n Store insert_data) → ℕ
  all_replies none = 0
  all_replies (some es) = replies es

  -- How many replies an event calls for.
  abbrev pub due : Event → ℕ
  due (command valid now parameter) = 1
  due (stop_command valid now parameter) = 1
  due (check valid parameter) = 1
  due _ = 0

  watch_on_silent :
      (now : ℕ) (w : W) (interest : Interest n Store insert_data) (selectors : n.Selectors)
      (name : n.Name)
      → replies (watch_on n Store insert_data now w interest selectors name).1 ≡ 0
  unfolding watch_on on_running
  watch_on_silent now w interest selectors name = ground arith

  arrival_silent :
      (now : ℕ) (w : W) (interest : Interest n Store insert_data) (d : n.Data) (name : n.Name)
      → all_replies (on_data_validated n Store insert_data now w interest d name).1 ≡ 0
  unfolding on_data_validated watch_on on_running
  arrival_silent now w interest d name = ground arith

  -- Whatever comes to the handle: each of its commands gets exactly one reply, whether the
  -- validator accepts it or not, and nothing else gets one.
  pub watch_step_replies : (w : W) (event : Event) → all_replies (step w event).1 ≡ due event
  unfolding step on_validated process_watch_command on_stop_validated on_check_validated on_timeout
      on_data_validation_failed
  watch_step_replies w (command true now parameter) = ground arith
  watch_step_replies w (command false now parameter) = refl
  watch_step_replies w (stop_command true now parameter) = ground arith
  watch_step_replies w (stop_command false now parameter) = refl
  watch_step_replies w (check true parameter) = ground arith
  watch_step_replies w (check false parameter) = refl
  watch_step_replies w (arrival true now interest d name) = arrival_silent now w interest d name
  watch_step_replies w (arrival false now interest d name) = grind (arith, watch_on_silent)
  watch_step_replies w (timeout now interest name) = grind (arith, watch_on_silent)
  watch_step_replies w (deletion name) = refl
