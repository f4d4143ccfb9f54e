-- ===== src/Patterns/Handle.antt =====
-- `PatternHandle` of src/handles/pattern-handle.cpp, with the pattern objects on an explicit heap:
-- a handle's map owns them, and the callbacks of a counter pattern are bound to its bare address.
use fast_repo.Prelude.{ℕ, suc, Option, none, some, List, [], ◌∷◌, ◌++◌, ℕ_discrete}
use fast_repo.Prelude.Bytes.{Bytes}
use fast_repo.Prelude.StdMap
use fast_repo.Prelude.StdMap.{Map}
use fast_repo.Ndn.{Ndn, Rocks}
use fast_repo.Storage.Engine
use fast_repo.Storage.Engine.{Engine, Result, ok, err}
use fast_repo.Handles.Base.{
  Parameter, Effects, inserted, extract_parameter, negative_reply, append_components,
}
use fast_repo.Patterns.Fetch
use fast_repo.Patterns.Fetch.{
  Build, Pattern, CounterPattern, counter_pattern, ndnrtc_pattern, gobj_pattern,
}

-- An exception of the storage, or a callback on an object that is gone. The third is of the model: it
-- marks an event that no run of the program has, a callback that no object of that class ever binds.
pub data Fault : Type 0 where
  storage_error : Engine.Error → Fault
  use_after_free : Fault
  no_callback : Fault

pub data Outcome (A : Type 0) : Type 0 where
  done : A → Outcome A
  fault : Fault → Outcome A

-- `decode` and `decode_name` are `ProtobufTlv::decode` into a command parameter and into a name.
module _ (n : Ndn) (r : Rocks) (build : Build n.Name) (decode : n.Component → Option Parameter)
    (decode_name : Bytes → Option (List Bytes)) where
  open n use {Name, Data}

  pub record PatternHandle : Type 0 where
    pub storage : Engine n r
    pub patterns : Map Name ℕ
    pub objects : Map ℕ (Pattern n)
    -- the address of the next object
    pub next : ℕ

  -- `decodeNames`; `none` is its `false`
  abbrev decode_both : Option (List Bytes) → Option (List Bytes) → Option (Name × Name)
  decode_both (some pattern) (some prefix) =
      some (append_components n n.empty_name pattern, append_components n n.empty_name prefix)
  decode_both _ _ = none

  unfoldable pub decode_names : List Bytes → Option (Name × Name)
  decode_names (pattern ∷ prefix ∷ []) = decode_both (decode_name pattern) (decode_name prefix)
  decode_names _ = none

  -- `pattern->fetch(fetchPrefix)`, the entry of the map, the signal and the reply
  unfoldable pub start :
      PatternHandle → Name → Name → Option (Pattern n) → PatternHandle × Effects n
  start h interest fetch_prefix none = (h, negative_reply n interest 404)
  start h interest fetch_prefix (some pattern) =
      let (pattern', es) = Fetch.fetch n build h.next fetch_prefix pattern in
      (
        record h {
          patterns = StdMap.insert n.name_discrete fetch_prefix h.next h.patterns;
          objects = StdMap.insert ℕ_discrete h.next pattern' h.objects;
          next = suc h.next;
        },
        es
            ++ inserted (n.append (n.of_uri h.storage.rename_prefix) fetch_prefix)
              ∷ negative_reply n interest 100,
      )

  abbrev pub unless_active :
      PatternHandle → Name → ℕ → Name → Name → Option ℕ → PatternHandle × Effects n
  unless_active h interest memory pattern_name fetch_prefix none =
      start h interest fetch_prefix (Fetch.create n build memory pattern_name)
  unless_active h interest memory pattern_name fetch_prefix (some address) =
      (h, negative_reply n interest 402)

  abbrev pub with_names :
      PatternHandle → Name → ℕ → Option (Name × Name) → PatternHandle × Effects n
  with_names h interest memory none = (h, negative_reply n interest 403)
  with_names h interest memory (some (pattern_name, fetch_prefix)) =
      unless_active h interest memory pattern_name fetch_prefix
        (StdMap.find n.name_discrete fetch_prefix h.patterns)

  abbrev pub with_parameter :
      PatternHandle → Name → ℕ → Option Parameter → PatternHandle × Effects n
  with_parameter h interest memory none = (h, negative_reply n interest 403)
  with_parameter h interest memory (some parameter) =
      with_names h interest memory (decode_names parameter.name)

  -- `memory` is what the memory of a new object held.
  unfoldable pub on_interest : PatternHandle → Name → Name → ℕ → PatternHandle × Effects n
  on_interest h interest prefix memory =
      with_parameter h interest memory (extract_parameter n decode interest prefix)

  abbrev pub effects_of_cancel : Option (Pattern n) → Effects n
  effects_of_cancel none = []
  effects_of_cancel (some pattern) = (Fetch.cancel n pattern).1

  -- `cancel()` of the object, and its entry erased: the map held the last reference, so the object
  -- is destroyed.
  unfoldable pub discard : PatternHandle → Name → ℕ → PatternHandle × Effects n
  discard h fetch_prefix address = (
    record h {
      patterns = StdMap.erase n.name_discrete fetch_prefix h.patterns;
      objects = StdMap.erase ℕ_discrete address h.objects;
    },
    effects_of_cancel (StdMap.find ℕ_discrete address h.objects),
  )

  abbrev pub removed : PatternHandle → Name → Option ℕ → PatternHandle × Effects n
  removed h fetch_prefix none = (h, [])
  removed h fetch_prefix (some address) = discard h fetch_prefix address

  unfoldable pub remove_pattern : PatternHandle → Name → PatternHandle × Effects n
  remove_pattern h fetch_prefix =
      removed h fetch_prefix (StdMap.find n.name_discrete fetch_prefix h.patterns)

  abbrev pub if_active : PatternHandle → Name → Name → Option ℕ → PatternHandle × Effects n
  if_active h interest fetch_prefix none = (h, negative_reply n interest 402)
  if_active h interest fetch_prefix (some address) =
      let (h', es) = discard h fetch_prefix address in (h', es ++ negative_reply n interest 101)

  abbrev pub to_cancel : PatternHandle → Name → Option Parameter → PatternHandle × Effects n
  to_cancel h interest none = (h, negative_reply n interest 403)
  to_cancel h interest (some parameter) =
      let fetch_prefix = append_components n n.empty_name parameter.name in
      if_active h interest fetch_prefix (StdMap.find n.name_discrete fetch_prefix h.patterns)

  unfoldable pub on_cancel_request : PatternHandle → Name → Name → PatternHandle × Effects n
  on_cancel_request h interest prefix =
      to_cancel h interest (extract_parameter n decode interest prefix)

  -- The timer's callback: `doFetch` of the counter pattern at the address, if it still stands. Only
  -- counter patterns set timers and express Interests themselves.
  abbrev pub timer_at : PatternHandle → ℕ → Option (Pattern n) → Outcome (PatternHandle × Effects n)
  timer_at h address (some (counter_pattern p)) = done (h, Fetch.do_fetch n address p)
  timer_at h address (some (ndnrtc_pattern recorder)) = fault no_callback
  timer_at h address (some gobj_pattern) = fault no_callback
  timer_at h address none = fault use_after_free

  unfoldable pub on_timer : PatternHandle → ℕ → Outcome (PatternHandle × Effects n)
  on_timer h address = timer_at h address (StdMap.find ℕ_discrete address h.objects)

  abbrev pub stored :
      PatternHandle
      → ℕ
      → CounterPattern n
      → Result (Name × Engine n r)
      → Outcome (PatternHandle × Effects n)
  stored h address p (err x) = fault (storage_error x)
  stored h address p (ok (name, storage)) =
      let (p', es) = Fetch.count n address p in
      done (
        record h {
          storage = storage;
          objects = StdMap.insert ℕ_discrete address (counter_pattern p') h.objects;
        },
        es,
      )

  abbrev pub data_at :
      PatternHandle → Data → ℕ → Option (Pattern n) → Outcome (PatternHandle × Effects n)
  data_at h d address (some (counter_pattern p)) = stored h address p (Engine.put n r h.storage d)
  data_at h d address (some (ndnrtc_pattern recorder)) = fault no_callback
  data_at h d address (some gobj_pattern) = fault no_callback
  data_at h d address none = fault use_after_free

  -- `CounterPattern::onData`
  unfoldable pub on_data : PatternHandle → Data → ℕ → Outcome (PatternHandle × Effects n)
  on_data h d address = data_at h d address (StdMap.find ℕ_discrete address h.objects)

  abbrev pub recorded_put :
      PatternHandle → Result (Name × Engine n r) → Outcome (PatternHandle × Effects n)
  recorded_put h (err x) = fault (storage_error x)
  recorded_put h (ok (name, storage)) = done (record h { storage = storage }, [])

  -- The function that `NdnrtcPattern::fetch` gives to the recorder, `storeFun(*d)`. It is bound to the
  -- storage alone, so it stores also when the pattern is gone.
  unfoldable pub on_recorded : PatternHandle → Data → Outcome (PatternHandle × Effects n)
  on_recorded h d = recorded_put h (Engine.put n r h.storage d)

  -- What calls the handle: its two command filters, a timer, a packet of a counter pattern, a packet of
  -- a recorder of ndnrtc, whichever and whenever, and `removePattern`.
  pub data Event : Type 0 where
    fetch_command : Name → Name → ℕ → Event
    cancel_command : Name → Name → Event
    timer : ℕ → Event
    packet : Data → ℕ → Event
    recorded : Data → Event
    removal : Name → Event

  unfoldable pub step : PatternHandle → Event → Outcome (PatternHandle × Effects n)
  step h (fetch_command interest prefix memory) = done (on_interest h interest prefix memory)
  step h (cancel_command interest prefix) = done (on_cancel_request h interest prefix)
  step h (timer address) = on_timer h address
  step h (packet d address) = on_data h d address
  step h (recorded d) = on_recorded h d
  step h (removal fetch_prefix) = done (remove_pattern h fetch_prefix)
