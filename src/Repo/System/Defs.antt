-- ===== src/Repo/System/Defs.antt =====
-- The state of `FastRepoImpl` of src/repo/fast-repo.cpp, and what reaches it: a handle's callback
-- runs on the shared engine, and each signal that it fires runs the slots that `enableListening`
-- connected.
use fast_repo.Prelude.{ℕ, Option, List, [], ◌∷◌, ◌++◌}
use fast_repo.Prelude.Bytes.{Bytes}
use fast_repo.Prelude.StdMap.{Map}
use fast_repo.Ndn.{Ndn, Rocks, Interest}
use fast_repo.Storage.Engine.{Engine, Result, ok, err}
use fast_repo.Handles.Base.{Parameter, Response, Effects, inserted}
use fast_repo.Handles.Read
use fast_repo.Handles.Write.Defs.{WriteHandle}
use fast_repo.Handles.Write.Runs
use fast_repo.Patterns.Fetch.{Build, Pattern}
use fast_repo.Patterns.Handle
use fast_repo.Patterns.Handle.{PatternHandle, Outcome, done, fault, storage_error}
use fast_repo.Repo.Prefixes.{fire}

module _ (n : Ndn) (r : Rocks) where
  open n use {Name}

  -- The effects of a callback with each signal followed by what its slots do.
  unfoldable pub signalled : ℕ → List Name → Effects n → List Name × Effects n
  signalled slots ps [] = (ps, [])
  signalled slots ps (inserted name ∷ es) =
      let (qs, fs) = fire n r slots ps name in
      let (rs, gs) = signalled slots qs es in (rs, inserted name ∷ (fs ++ gs))
  signalled slots ps (e ∷ es) = let (rs, gs) = signalled slots ps es in (rs, e ∷ gs)

module _ (n : Ndn) (r : Rocks) (build : Build n.Name) (decode : n.Component → Option Parameter)
    (decode_name : Bytes → Option (List Bytes)) where
  open n use {Name, Data}

  -- `slots` counts the connections of each signal; the handles' storage references are `engine`.
  pub record System : Type 0 where
    pub engine : Engine n r
    pub data_prefixes : List Name
    pub slots : ℕ
    pub processes : Map ℕ Response
    pub patterns : Map Name ℕ
    pub objects : Map ℕ (Pattern n)
    pub next : ℕ

  abbrev pub writer : System → WriteHandle n r decode
  writer s = record { storage = s.engine; processes = s.processes }

  abbrev pub patterner : System → PatternHandle n r build decode decode_name
  patterner s = record {
    storage = s.engine;
    patterns = s.patterns;
    objects = s.objects;
    next = s.next;
  }

  -- An Interest under a data prefix, a callback of the write handle, one of the pattern handle.
  pub data Event : Type 0 where
    reading : Interest Name → Event
    writing : Runs.Event n → Event
    fetching : Handle.Event n r build decode decode_name → Event

  abbrev pub read : System → Result (Effects n) → Outcome (System × Effects n)
  read s (err x) = fault (storage_error x)
  read s (ok es) = done (s, es)

  abbrev pub written :
      System → Result (WriteHandle n r decode × Effects n) → Outcome (System × Effects n)
  written s (err x) = fault (storage_error x)
  written s (ok (w, es)) =
      let (ps, fs) = signalled n r s.slots s.data_prefixes es in
      done (record s { engine = w.storage; processes = w.processes; data_prefixes = ps }, fs)

  abbrev pub handled :
      System
      → Outcome (PatternHandle n r build decode decode_name × Effects n)
      → Outcome (System × Effects n)
  handled s (fault x) = fault x
  handled s (done (h, es)) =
      let (ps, fs) = signalled n r s.slots s.data_prefixes es in
      done (
        record s {
          engine = h.storage;
          patterns = h.patterns;
          objects = h.objects;
          next = h.next;
          data_prefixes = ps;
        },
        fs,
      )

  unfoldable pub step : System → Event → Outcome (System × Effects n)
  step s (reading i) = read s (Read.on_interest n r s.engine i)
  step s (writing e) = written s (Runs.step n r decode (writer s) e)
  step s (fetching e) = handled s (Handle.step n r build decode decode_name (patterner s) e)

  abbrev pub after : Effects n → Outcome (System × Effects n) → Outcome (System × Effects n)
  after es (fault x) = fault x
  after es (done (s, fs)) = done (s, es ++ fs)

  abbrev pub go_on :
      Outcome (System × Effects n)
      → (System → Outcome (System × Effects n))
      → Outcome (System × Effects n)
  go_on (fault x) rest = fault x
  go_on (done (s, es)) rest = after es (rest s)

  unfoldable pub run : System → List Event → Outcome (System × Effects n)
  run s [] = done (s, [])
  run s (e ∷ es) = go_on (step s e) (λ s'. run s' es)
