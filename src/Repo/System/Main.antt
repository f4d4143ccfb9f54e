-- ===== src/Repo/System/Main.antt =====
-- `main` and `terminate` of src/main.cpp: the configuration, the repository, and the event loop until
-- a signal stops it. The options are those of docopt, `file` is the property tree of a configuration
-- file, and `opened` the store that RocksDB opens for a path and a mode.
use fast_repo.Prelude.{
  ℕ, ◌≡◌, refl, ap, ◌∙◌, sym, Bool, true, false, not, ◌&&◌, ◌||◌, ◌==◌, Option, none, some, List,
  [], ◌∷◌, ◌++◌, map, if◌then◌else◌,
}
use fast_repo.Prelude.Bytes.{Bytes}
use mathlib.Core.Path.{fun_ext}
use fast_repo.Prelude.Int.{ℤ}
use fast_repo.Ndn.{Ndn, Rocks}
use fast_repo.Storage.Engine
use fast_repo.Storage.Engine.{Result, ok, err}
use fast_repo.Handles.Base.{Parameter, Effects}
use fast_repo.Patterns.Fetch.{Build}
use fast_repo.Patterns.Handle.{Outcome, done, fault, Fault}
use fast_repo.Repo.Config
use fast_repo.Repo.Config.{Config, Options, Tree, default_config, parse_config, override}
use fast_repo.Repo.System.Defs.{System, Event, step, run, go_on}
use fast_repo.Repo.System.Sound.{IsSound}
use fast_repo.Repo.System.Boot.{start_up, started-IsSound}

-- What `terminate` does: whether it stops the event loop, and whether it prints the frames of the
-- stack. SIGABRT and SIGSEGV are numbers of the platform.
pub record Termination : Type 0 where
  pub stops : Bool
  pub prints_frames : Bool

unfoldable pub terminate : ℕ → ℕ → Bool → ℕ → Termination
terminate sigabrt sigsegv error signal_no =
    if error
    then record { stops = false; prints_frames = false }
    else record { stops = true; prints_frames = (signal_no == sigabrt) || (signal_no == sigsegv) }

module _ (n : Ndn) (r : Rocks) (build : Build n.Name) (decode : n.Component → Option Parameter)
    (decode_name : Bytes → Option (List Bytes)) (sigabrt sigsegv : ℕ) where
  abbrev S : Type 0
  S = System n r build decode decode_name

  -- What the event loop runs: the wait for a signal is over, with an error or with a signal, or
  -- something reaches the repository.
  pub data Happening : Type 0 where
    caught : Bool → ℕ → Happening
    event : Event n r build decode decode_name → Happening

  abbrev then_serve :
      Outcome (S × Effects n) → (S → Outcome (S × Effects n)) → Outcome (S × Effects n)
  then_serve first rest = go_on n r build decode decode_name first rest

  -- `ioService.run()`. The set of signals is waited for once: after a wait that failed no signal is
  -- handled any more.
  unfoldable pub serve : Bool → S → List Happening → Outcome (S × Effects n)
  serve waits s [] = done (s, [])
  serve waits s (caught error signal_no ∷ rest) =
      let served = serve false s rest in
      if waits && (terminate sigabrt sigsegv error signal_no).stops then done (s, []) else served
  serve waits s (event e ∷ rest) =
      then_serve (step n r build decode decode_name s e) (λ s'. serve waits s' rest)

  -- The events that the loop comes to: all, or those before the first signal. A wait that fails is the
  -- last one.
  unfoldable pub heard : Bool → List Happening → List (Event n r build decode decode_name)
  heard waits [] = []
  heard waits (event e ∷ rest) = e ∷ heard waits rest
  heard waits (caught error signal_no ∷ rest) =
      let later = heard false rest in if waits && not error then [] else later

  serve_lem :
      (happenings : List Happening) (waits : Bool) (s : S)
      → serve waits s happenings ≡ run n r build decode decode_name s (heard waits happenings)
  unfolding serve heard run terminate
  serve_lem [] waits s = refl
  serve_lem (caught true signal_no ∷ rest) true s = serve_lem rest false s
  serve_lem (caught false signal_no ∷ rest) true s = refl
  serve_lem (caught error signal_no ∷ rest) false s = serve_lem rest false s
  serve_lem (event e ∷ rest) waits s =
      ap (go_on n r build decode decode_name (step n r build decode decode_name s e))
        (fun_ext (λ s'. serve_lem rest waits s'))

  heard_until_signal :
      (before : List (Event n r build decode decode_name)) (signal_no : ℕ) (later : List Happening)
      → heard true (map event before ++ caught false signal_no ∷ later) ≡ before
  unfolding heard
  heard_until_signal [] signal_no later = refl
  heard_until_signal (e ∷ before) signal_no later =
      ap (λ es. e ∷ es) (heard_until_signal before signal_no later)

  pub data Exit : Type 0 where
    config_error : Config.Error → Exit
    storage_failed : Engine.Error → Exit
    faulted : Fault → Exit
    served : S → Effects n → Exit

  abbrev ended : Effects n → Outcome (S × Effects n) → Exit
  ended es (fault x) = faulted x
  ended es (done (s, fs)) = served s (es ++ fs)

  abbrev with_repo : List Happening → Result (S × Effects n × List n.Name) → Exit
  with_repo happenings (err x) = storage_failed x
  with_repo happenings (ok (s, es, filters)) = ended es (serve true s happenings)

  abbrev configured :
      (Bytes → Option ℤ)
      → (Bytes → Option (Option (Option Tree)))
      → Option Bytes
      → Config.Result (Config n)
  configured to_int file none = Config.ok (default_config n)
  configured to_int file (some path) = parse_config n to_int path (file path)

  module _ (split : Bytes → List Bytes) (to_int : Bytes → Option ℤ)
      (file : Bytes → Option (Option (Option Tree))) (opened : Bytes → Bool → Option r.Store)
      (n_keys value_size_bytes : ℕ) where
    abbrev started : Config n → List Happening → Exit
    started c happenings = with_repo happenings (
        start_up n r build decode decode_name split c (opened c.db_path c.read_only) n_keys
          value_size_bytes)

    abbrev with_config : Options n → List Happening → Config.Result (Config n) → Exit
    with_config o happenings (Config.err x) = config_error x
    with_config o happenings (Config.ok c) = started (override n o c) happenings

    unfoldable pub main : Options n → List Happening → Exit
    main o happenings = with_config o happenings (configured to_int file o.config)

    -- The first signal ends the program: what comes after it changes nothing, and the repository has
    -- done what reached it before.
    signal_ends_main :
        (c : Config n) (s : S) (es : Effects n) (filters : List n.Name)
        (before : List (Event n r build decode decode_name)) (signal_no : ℕ)
        (later : List Happening)
        → start_up n r build decode decode_name split c
            (opened c.db_path c.read_only)
            n_keys
            value_size_bytes
          ≡ ok (s, es, filters)
        → started c (map event before ++ caught false signal_no ∷ later)
          ≡ ended es (run n r build decode decode_name s before)
    signal_ends_main c s es filters before signal_no later booted =
        ap (with_repo (map event before ++ caught false signal_no ∷ later)) booted
        ∙ ap (ended es) (
            serve_lem (map event before ++ caught false signal_no ∷ later) true s
            ∙ ap (run n r build decode decode_name s) (heard_until_signal before signal_no later))

    ended_served :
        (es fs : Effects n) (s : S) (result : Outcome (S × Effects n))
        → ended es result ≡ served s fs
        → (gs : Effects n) × (result ≡ done (s, gs))
    ended_served es fs s (fault x) e = cc
    ended_served es fs s (done (s', gs)) e = (gs, cc)

    started_main :
        (c : Config n) (happenings : List Happening) (s : S) (fs : Effects n)
        (result : Result (S × Effects n × List n.Name))
        → start_up n r build decode decode_name split c
            (opened c.db_path c.read_only)
            n_keys
            value_size_bytes
          ≡ result
        → with_repo happenings result ≡ served s fs
        → IsSound n r build decode decode_name s
    started_main c happenings s fs (err x) booted e = cc
    started_main c happenings s fs (ok (s0, es, filters)) booted e =
        let (gs, ran) = ended_served es fs s _ e in
        started-IsSound n r build decode decode_name split c (opened c.db_path c.read_only) n_keys
          value_size_bytes s0 s es gs filters (heard true happenings) booted
          (sym (serve_lem happenings true s0) ∙ ran)

    with_config_main :
        (o : Options n) (happenings : List Happening) (s : S) (fs : Effects n)
        (result : Config.Result (Config n))
        → with_config o happenings result ≡ served s fs
        → IsSound n r build decode decode_name s
    with_config_main o happenings s fs (Config.err x) e = cc
    with_config_main o happenings s fs (Config.ok c) e =
        started_main (override n o c) happenings s fs _ refl e

    -- Whatever the command line, the configuration file and the store, whatever then reaches the
    -- repository and whichever signals come: where `main` comes to its end, not to an exception nor to
    -- a fault, the repository is sound at that point: the shared engine open, each entry of the write
    -- handle pending, each pattern linked to a live object of its own.
    pub main-IsSound :
        (o : Options n) (happenings : List Happening) (s : S) (es : Effects n)
        → main o happenings ≡ served s es
        → IsSound n r build decode decode_name s
    unfolding main
    main-IsSound o happenings s es e = with_config_main o happenings s es _ e
