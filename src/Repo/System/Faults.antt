-- ===== src/Repo/System/Faults.antt =====
-- How a callback of the system can end in an exception or on freed memory.
use fast_repo.Prelude.{ℕ, ◌≡◌, ◌⊎◌, Bool, true, false, Option, none, some, List, ℕ_discrete}
use fast_repo.Prelude.StdMap
use fast_repo.Prelude.StdMap.{Map}
use fast_repo.Prelude.Bytes.{Bytes}
use fast_repo.Ndn.{Ndn, Rocks}
use fast_repo.Storage.Engine
use fast_repo.Storage.Engine.{Engine, bad_packet}
use fast_repo.Handles.Base.{Parameter}
use fast_repo.Handles.Read
use fast_repo.Handles.Write.Defs
use fast_repo.Handles.Write.Runs
use fast_repo.Patterns.Fetch.{Build, Pattern, counter_pattern, ndnrtc_pattern, gobj_pattern}
use fast_repo.Patterns.Handle
use fast_repo.Patterns.Handle.{Fault, storage_error, use_after_free, no_callback}
use fast_repo.Repo.System.Defs.{System, Event, reading, writing, fetching}

module _ (n : Ndn) (r : Rocks) where
  module _ (decode : n.Component → Option Parameter) where
    module _ (build : Build n.Name) (decode_name : Bytes → Option (List Bytes)) where
      -- Whether the object at an address is of the class whose callbacks are bound to addresses.
      abbrev is_counter : Pattern n → Bool
      is_counter (counter_pattern p) = true
      is_counter (ndnrtc_pattern recorder) = false
      is_counter gobj_pattern = false

      -- How a callback for an address can fault: nothing stands there any more, or an object for which
      -- there is no such callback.
      abbrev pub NoCounter : Map ℕ (Pattern n) → ℕ → Fault → Type 0
      NoCounter objects address x =
          ((StdMap.find ℕ_discrete address objects ≡ none) × (x ≡ use_after_free))
          ⊎ ((p : Pattern n) × (StdMap.find ℕ_discrete address objects ≡ some p)
              × (is_counter p ≡ false)
              × (x ≡ no_callback))

      -- How an event of the pattern handle can fault.
      abbrev pub PatternFaults :
          Map ℕ (Pattern n) → Handle.Event n r build decode decode_name → Fault → Type 0
      PatternFaults objects (Handle.fetch_command interest prefix memory) x = ⊥
      PatternFaults objects (Handle.cancel_command interest prefix) x = ⊥
      PatternFaults objects (Handle.timer address) x = NoCounter objects address x
      PatternFaults objects (Handle.packet d address) x = NoCounter objects address x
      PatternFaults objects (Handle.recorded d) x = ⊥
      PatternFaults objects (Handle.removal prefix) x = ⊥

      -- How an event of the repository can fault.
      abbrev pub Faults :
          System n r build decode decode_name → Event n r build decode decode_name → Fault → Type 0
      Faults s (reading i) x = x ≡ storage_error bad_packet
      Faults s (writing event) x = ⊥
      Faults s (fetching event) x = PatternFaults s.objects event x
