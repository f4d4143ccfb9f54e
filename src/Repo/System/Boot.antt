-- ===== src/Repo/System/Boot.antt =====
-- From the configuration to the running repository: the constructors of `FastRepo` and
-- `FastRepoImpl`, `initializeStorage`, and the end of `main`.
use fast_repo.Prelude.{
  map, Bool-cases, true, false, inl, inr, arith, ℕ, ◌≡◌, refl, ap, sym, ◌∙◌, subst, Option, none,
  some, List, [], ◌∷◌, ◌++◌, if◌then◌else◌, is_some,
}
use fast_repo.Prelude.Bytes.{Bytes}
use fast_repo.Prelude.StdMap
use fast_repo.Ndn.{Ndn, Rocks}
use fast_repo.Storage.Trie
use fast_repo.Storage.Engine
use fast_repo.Storage.Engine.{
  Engine, Result, ok, err, construct, scan, scan_for_longest_prefixes, build_key_trie,
}
use fast_repo.Handles.Base.{Parameter, Effects}
use fast_repo.Patterns.Fetch.{Build}
use fast_repo.Patterns.Handle.{done}
use fast_repo.Repo.Config.{Config, listens}
use fast_repo.Repo.Prefixes.{enable_listening, on_scanned}
use fast_repo.Repo.System.Defs.{System, Event, run}
use fast_repo.Repo.System.Runs.{run_cons, run_nil}
use fast_repo.Repo.System.Sound.{IsOpen, IsSound, step-IsSound}

module _ (n : Ndn) (r : Rocks) (build : Build n.Name) (decode : n.Component → Option Parameter)
    (decode_name : Bytes → Option (List Bytes)) where
  abbrev S : Type 0
  S = System n r build decode decode_name

  -- `if (!repoConfig.readOnly) repoInstance.enableListening()`
  abbrev listening : Config n → Effects n × List n.Name × ℕ
  listening c = if listens n c then enable_listening n r c.repo_prefixes else ([], [], 0)

  abbrev system_of : Engine n r → List n.Name → ℕ → S
  system_of e data_prefixes slots = record {
    engine = e;
    data_prefixes = data_prefixes;
    slots = slots;
    processes = [];
    patterns = [];
    objects = [];
    next = 0;
  }

  abbrev scanned :
      Config n → Result (List n.Name × Engine n r) → Result (S × Effects n × List n.Name)
  scanned c (err x) = err x
  scanned c (ok (prefixes, e)) =
      let (es, filters, slots) = listening c in
      let (all, gs) = on_scanned n r c.data_prefixes prefixes in
      ok (system_of e all slots, es ++ gs, filters)

  abbrev constructed :
      (Bytes → List Bytes) → Config n → Result (Engine n r) → Result (S × Effects n × List n.Name)
  constructed split c (err x) = err x
  constructed split c (ok e) = scanned c (scan_for_longest_prefixes n r split e)

  -- The repository once the scan, which the constructor hands to the event loop before anything
  -- else, is over; with what was registered and the Interest filters that were set. `opened` is
  -- the store that RocksDB opened, and the two numbers are what the memory of `stats_` held.
  unfoldable pub start_up :
      (Bytes → List Bytes)
      → Config n
      → Option r.Store
      → ℕ
      → ℕ
      → Result (S × Effects n × List n.Name)
  start_up split c opened n_keys value_size_bytes =
      constructed split c (construct n r c.rename_prefix n_keys value_size_bytes opened)

  scan-db :
      (split : Bytes → List Bytes) (entries : List (Bytes × Bytes)) (e : Engine n r)
      → (scan n r split entries e).db ≡ e.db
  unfolding scan Engine.visit
  scan-db split [] e = refl
  scan-db split (entry ∷ entries) e = scan-db split entries _

  -- What the scan leaves of an open engine is made into a sound repository.
  scanned-IsSound :
      (c : Config n) (prefixes : List n.Name) (e : Engine n r)
      → IsOpen n r e
      → (s : S) × (es : Effects n) × (filters : List n.Name) × (scanned c (ok (prefixes, e))
          ≡ ok (s, es, filters))
        × IsSound n r build decode decode_name s
  unfolding on_scanned StdMap.find
  scanned-IsSound c prefixes e opened = (
    _,
    _,
    _,
    refl,
    record {
      opened = opened;
      pending = record { at = λ j x found. cc };
      linked = record { live = λ p a h. cc; below = λ a h. cc; unique = λ p q a h k. cc };
    },
  )

  -- Where RocksDB opens the store and reads all of it without an error, `main` gets a sound repository.
  pub start_up-IsSound :
      (split : Bytes → List Bytes) (c : Config n) (store : r.Store) (n_keys value_size_bytes : ℕ)
      → r.scan_ok store ≡ true
      → (s : S) × (es : Effects n) × (filters : List n.Name) × (start_up split c
            (some store)
            n_keys
            value_size_bytes
          ≡ ok (s, es, filters))
        × IsSound n r build decode decode_name s
  unfolding start_up construct scan_for_longest_prefixes build_key_trie
  start_up-IsSound split c store n_keys value_size_bytes read_all =
      let fresh : Engine n r = record {
        db = some store;
        rename_prefix = c.rename_prefix;
        keys_trie_built = false;
        keys_trie = Trie.new_node;
        n_keys = 0;
        value_size_bytes = 0;
      } in
      let e = scan n r split (r.seek_to_first store) fresh in
      let (s, es, filters, made, sound) =
        scanned-IsSound c (map (Engine.to_name n r) (Trie.get_longest_prefixes e.keys_trie))
          (record e { keys_trie_built = true })
          (ap is_some (scan-db split (r.seek_to_first store) fresh)) in
      (s, es, filters, rw read_all made, sound)

  run_from :
      (s s' : S) (events : List (Event n r build decode decode_name)) (es : Effects n)
      → run n r build decode decode_name s events ≡ done (s', es)
      → IsSound n r build decode decode_name s
      → IsSound n r build decode decode_name s'
  run_from s s' [] es e sound =
      subst (λ (x : S × Effects n). IsSound n r build decode decode_name x.0)
        (run_nil n r build decode decode_name s s' es e) sound
  run_from s s' (event ∷ events) es e sound =
      let (s1, fs, gs, first, rest, split) =
        run_cons n r build decode decode_name s s' event events es e in
      run_from s1 s' events gs rest
        (step-IsSound n r build decode decode_name s s1 event fs first sound)

  not_opened :
      {A : Type 0} (split : Bytes → List Bytes) (c : Config n) (n_keys value_size_bytes : ℕ)
      (result : S × Effects n × List n.Name)
      → start_up split c none n_keys value_size_bytes ≡ ok result
      → A
  unfolding start_up construct
  not_opened split c n_keys value_size_bytes result booted = cc

  not_read :
      {A : Type 0} (split : Bytes → List Bytes) (c : Config n) (store : r.Store)
      (n_keys value_size_bytes : ℕ) (result : S × Effects n × List n.Name)
      → r.scan_ok store ≡ false
      → start_up split c (some store) n_keys value_size_bytes ≡ ok result
      → A
  unfolding start_up construct scan_for_longest_prefixes build_key_trie
  not_read split c store n_keys value_size_bytes result failed booted =
      absurd (ground (arith, failed, booted))

  result_eq :
      {x y : S × Effects n × List n.Name}
      → ◌≡◌ {A = Result (S × Effects n × List n.Name)} (ok x) (ok y)
      → x ≡ y
  result_eq e = cc

  -- Whatever reaches a repository that `main` has started, with whatever configuration, and does not
  -- fault leaves the whole of it sound: the shared engine open, each entry of the write handle
  -- pending, each pattern linked to a live object of its own.
  pub started-IsSound :
      (split : Bytes → List Bytes) (c : Config n) (opened : Option r.Store)
      (n_keys value_size_bytes : ℕ) (s s' : S) (es fs : Effects n) (filters : List n.Name)
      (events : List (Event n r build decode decode_name))
      → start_up split c opened n_keys value_size_bytes ≡ ok (s, es, filters)
      → run n r build decode decode_name s events ≡ done (s', fs)
      → IsSound n r build decode decode_name s'
  started-IsSound split c none n_keys value_size_bytes s s' es fs filters events booted e =
      not_opened split c n_keys value_size_bytes (s, es, filters) booted
  started-IsSound split c (some store) n_keys value_size_bytes s s' es fs filters events booted e =
      elim (Bool-cases (r.scan_ok store)) [
        | inl read_all ↦
            let (s0, es0, filters0, started, sound) =
              start_up-IsSound split c store n_keys value_size_bytes read_all in
            run_from s s' events fs e (
              subst (λ (x : S × Effects n × List n.Name). IsSound n r build decode decode_name x.0)
                (result_eq (sym started ∙ booted)) sound)
        | inr failed ↦ not_read split c store n_keys value_size_bytes (s, es, filters) failed booted
      ]
