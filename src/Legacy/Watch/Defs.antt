-- ===== src/Legacy/Watch/Defs.antt =====
-- The callbacks of `WatchHandle`. Selectors and the storage's `insertData` are parameters: ndn-cxx
-- and repo-ng's storage are not among the sources. A callback reads the clock once here.
use fast_repo.Prelude.{
  ℕ, ◌+◌, ◌-◌, ◌^◌, Bool, true, false, ◌||◌, ◌&&◌, not, Option, none, some, List, [], ◌∷◌,
  if◌then◌else◌, ltb, leb, ◌==◌,
}
use fast_repo.Prelude.StdMap
use fast_repo.Prelude.StdMap.{Map}
use fast_repo.Legacy.Messages.{
  Parameter, Response, new_response, Effect, replied, fetched, deletion_scheduled, negative_reply,
}

-- What the handler calls of ndn-cxx: names, selectors and their `Exclude`.
pub record NdnSelectors : Type 1 where
  pub Name : Type 0
  pub name_discrete : Discrete Name
  pub size : Name → ℕ
  pub Component : Type 0
  pub component_at : Name → ℕ → Component
  pub Data : Type 0
  pub data_name : Data → Name
  pub Selectors : Type 0
  pub no_selectors : Selectors
  pub set_child_selector : ℕ → Selectors → Selectors
  pub set_min_suffix_components : ℕ → Selectors → Selectors
  pub Exclude : Type 0
  pub no_exclude : Exclude
  pub is_empty_exclude : Exclude → Bool
  pub exclude_before : Component → Exclude → Exclude
  pub get_exclude : Selectors → Exclude
  pub set_exclude : Exclude → Selectors → Selectors

abbrev default_interest_lifetime : ℕ
default_interest_lifetime = 4000

module _ (n : NdnSelectors) (Store : Type 0) (insert_data : n.Data → Store → Bool × Store) where
  -- An Interest: its name, its selectors and its lifetime.
  abbrev pub Interest : Type 0
  Interest = n.Name × n.Selectors × ℕ

  abbrev pub Effects : Type 0
  Effects = List (Effect n.Name Interest n.Name)

  pub record WatchHandle : Type 0 where
    pub store : Store
    pub processes : Map n.Name (Response × Bool)
    pub interest_num : ℕ
    pub max_interest_num : ℕ
    pub interest_lifetime : ℕ
    pub watch_timeout : ℕ
    pub start_time : ℕ
    pub size : ℕ

  -- The constructor, at the time `now`.
  abbrev pub construct : ℕ → Store → WatchHandle
  construct now store = record {
    store = store;
    processes = [];
    interest_num = 0;
    max_interest_num = 0;
    interest_lifetime = default_interest_lifetime;
    watch_timeout = 0;
    start_time = now;
    size = 0;
  }

  abbrev pub or_made : Option (Response × Bool) → Response × Bool
  or_made none = (new_response, false)
  or_made (some p) = p

  -- `m_processes[name]`; the map then holds the entry.
  abbrev pub get_process : WatchHandle → n.Name → Response × Bool
  get_process w name = or_made (StdMap.find n.name_discrete name w.processes)

  abbrev pub put_process : WatchHandle → n.Name → Response × Bool → WatchHandle
  put_process w name p = record w { processes = StdMap.insert n.name_discrete name p w.processes }

  -- The handle after `m_processes[name]` is read.
  abbrev pub touched : WatchHandle → n.Name → WatchHandle
  touched w name = put_process w name (get_process w name)

  abbrev pub is_active : WatchHandle → n.Name → Bool
  is_active w name = let (response, running) = get_process w name in running

  unfoldable pub delete_process : WatchHandle → n.Name → WatchHandle
  delete_process w name = record w { processes = StdMap.erase n.name_discrete name w.processes }

  unfoldable pub watch_stop : ℕ → WatchHandle → n.Name → WatchHandle
  watch_stop now w name =
      let (response, running) = get_process w name in
      record (put_process w name (response, false)) {
        max_interest_num = 0;
        interest_num = 0;
        start_time = now;
        watch_timeout = 0;
        interest_lifetime = default_interest_lifetime;
        size = 0;
      }

  -- `isTimeout || isMaxInterest`; the maximum is a `uint64_t` that is read as an `int64_t`.
  unfoldable pub is_over : ℕ → WatchHandle → Bool
  is_over now w =
      (not (w.watch_timeout == 0) && ltb w.watch_timeout (now - w.start_time))
      || (leb (2 ^ 63) w.max_interest_num || leb w.max_interest_num w.interest_num)
        && not (w.max_interest_num == 0)

  unfoldable pub on_running : ℕ → WatchHandle → n.Name → Bool × WatchHandle × Effects
  on_running now w name =
      if is_over now w
      then (false, watch_stop now w name, deletion_scheduled name ∷ [])
      else (true, w, [])

  abbrev refetch : WatchHandle → Interest → n.Selectors → n.Name → WatchHandle × Effects
  refetch w interest selectors name =
      let (interest_name, old_selectors, lifetime) = interest in
      (
        record w { interest_num = w.interest_num + 1 },
        fetched (interest_name, selectors, w.interest_lifetime) name ∷ [],
      )

  -- The selectors of the next Interest after a packet.
  unfoldable pub next_selectors : Interest → n.Data → n.Selectors
  next_selectors (name, selectors, lifetime) d =
      let child = n.set_child_selector 1 selectors in
      if n.size (n.data_name d) == n.size name
      then n.set_min_suffix_components 2 child
      else n.set_exclude
          (n.exclude_before (n.component_at (n.data_name d) (n.size name)) (
            if n.is_empty_exclude (n.get_exclude selectors)
            then n.no_exclude
            else n.get_exclude selectors))
          child

  abbrev pub same_selectors : Interest → n.Selectors
  same_selectors (name, selectors, lifetime) = n.set_child_selector 1 selectors

  -- From the call of `onRunning` on: the next Interest unless the watch is over.
  unfoldable pub watch_on :
      ℕ → WatchHandle → Interest → n.Selectors → n.Name → WatchHandle × Effects
  watch_on now w interest selectors name =
      let (running, w', es) = on_running now w name in
      if running then refetch w' interest selectors name else (w', es)

  unfoldable pub on_timeout : ℕ → WatchHandle → Interest → n.Name → WatchHandle × Effects
  on_timeout now w interest name =
      if is_active w name
      then watch_on now (touched w name) interest (same_selectors interest) name
      else (touched w name, [])

  unfoldable pub on_data_validation_failed :
      ℕ → WatchHandle → Interest → n.Data → n.Name → WatchHandle × Effects
  on_data_validation_failed now w interest d name =
      if is_active w name
      then watch_on now (touched w name) interest (next_selectors interest d) name
      else (touched w name, [])

  abbrev pub set_insert_num : WatchHandle → n.Name → WatchHandle
  set_insert_num w name =
      let (response, running) = get_process w name in
      put_process w name (record response { insert_num = w.size }, running)

  -- A packet that the storage took.
  abbrev pub taken : ℕ → WatchHandle → Interest → n.Data → n.Name → WatchHandle × Effects
  taken now w interest d name =
      if is_over now w
      then watch_on now w interest (next_selectors interest d) name
      else (let (w', es) = watch_on now w interest (next_selectors interest d) name in
          (set_insert_num w' name, es))

  -- `onDataValidated`; no effects is the exception of a packet that the storage did not take.
  unfoldable pub on_data_validated :
      ℕ → WatchHandle → Interest → n.Data → n.Name → WatchHandle × Option Effects
  on_data_validated now w interest d name =
      if is_active w name
      then (let (inserted, store) = insert_data d w.store in
          let w1 = record (touched w name) { store = store } in
          if inserted
          then (let (w2, es) = taken now (record w1 { size = w1.size + 1 }) interest d name in
              (w2, some es))
          else (w1, none))
      else (touched w name, some [])

  abbrev or_zero : Option ℕ → ℕ
  or_zero none = 0
  or_zero (some x) = x

  abbrev or_else : {A : Type 0} → A → Option A → A
  or_else x none = x
  or_else x (some y) = y

  unfoldable pub process_watch_command :
      ℕ → WatchHandle → Parameter n.Name n.Selectors → WatchHandle × Effects
  process_watch_command now w parameter =
      let lifetime = or_else w.interest_lifetime parameter.interest_lifetime in
      (
        record (put_process w parameter.name (record new_response { status_code = 300 }, true)) {
          watch_timeout = or_zero parameter.watch_timeout;
          max_interest_num = or_zero parameter.max_interest_num;
          interest_lifetime = lifetime;
          start_time = now;
          interest_num = w.interest_num + 1;
        },
        replied (record new_response { status_code = 100 })
            ∷ fetched
                (
                  parameter.name,
                  n.set_child_selector 1 (or_else n.no_selectors parameter.selectors),
                  lifetime,
                )
                parameter.name
            ∷ [],
      )

  -- `onValidated` after `extractParameter`, whose failure is `none`
  unfoldable pub on_validated :
      ℕ → WatchHandle → Option (Parameter n.Name n.Selectors) → WatchHandle × Effects
  on_validated now w none = (w, negative_reply 403)
  on_validated now w (some parameter) = process_watch_command now w parameter

  -- `onStopValidated` after `extractParameter`
  unfoldable pub on_stop_validated :
      ℕ → WatchHandle → Option (Parameter n.Name n.Selectors) → WatchHandle × Effects
  on_stop_validated now w none = (w, negative_reply 403)
  on_stop_validated now w (some parameter) = (watch_stop now w parameter.name, negative_reply 101)

  abbrev checked : WatchHandle → n.Name → Option (Response × Bool) → WatchHandle × Effects
  checked w name none = (w, negative_reply 404)
  checked w name (some (response, running)) = if running then (w, replied response ∷ []) else (
    put_process w name (record response { status_code = 101 }, running),
    replied (record response { status_code = 101 }) ∷ [],
  )

  -- `onCheckValidated` after `extractParameter`
  unfoldable pub on_check_validated :
      WatchHandle → Option (Parameter n.Name n.Selectors) → WatchHandle × Effects
  on_check_validated w none = (w, negative_reply 403)
  on_check_validated w (some parameter) =
      if parameter.has_name
      then checked w parameter.name (StdMap.find n.name_discrete parameter.name w.processes)
      else (w, negative_reply 403)
