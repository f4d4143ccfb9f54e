-- ===== src/Repo/System/Served.antt =====
-- From an insert command to the answer of an Interest, whatever else reaches the repository between.
use fast_repo.Prelude.{
  ℕ, ◌≡◌, refl, ap, sym, ◌∙◌, subst, inl, inr, false, Option, some, List, [], ◌∷◌, All, In,
  In-append_left, arith, ℕ_discrete,
}
use fast_repo.Prelude.Bytes.{Bytes}
use fast_repo.Prelude.StdMap
use fast_repo.Prelude.StdMap.{find-insert_same}
use fast_repo.Ndn.{Ndn, Rocks, Interest, WriteLaws}
use fast_repo.Storage.Engine
use fast_repo.Storage.Engine.{Engine, Result, ok, err, get, stored_packet}
use fast_repo.Storage.Written.{PacketLaws, Accepted}
use fast_repo.Handles.Base.{
  Parameter, Response, Effects, expressed, replied, put_data, extract_parameter, append_components,
  reply,
}
use fast_repo.Handles.Read
use fast_repo.Handles.Write.Defs.{WriteHandle, on_interest, process_single_insert_command, started}
use fast_repo.Handles.Write.Runs
use fast_repo.Handles.Write.Counts.{on_data-get}
use fast_repo.Patterns.Fetch.{Build}
use fast_repo.Patterns.Handle.{done}
use fast_repo.Repo.System.Defs.{System, writer, signalled, Event, reading, writing, read, step, run}
use fast_repo.Repo.System.Runs.{done_eq, run_cons, run_nil}
use fast_repo.Repo.System.Sound.{IsSound, step-IsSound}
use fast_repo.Repo.System.Kept.{write_step-WriteStores}
use fast_repo.Repo.System.Stays.{
  written_done, Puts-rename, Misses, Misses-eq, SparesProcess, step-find, step-Same,
}

module _ (n : Ndn) (r : Rocks) where
  exact_answer :
      (e : Engine n r) (i : Interest n.Name) (d : n.Data)
      → get n r e i.name ≡ ok (some d)
      → i.can_be_prefix ≡ false
      → i.must_be_fresh ≡ false
      → Read.on_interest n r e i ≡ ok (put_data d ∷ [])
  unfolding Read.on_interest Engine.read
  exact_answer e i d found exact stale = ground arith

module _ (n : Ndn) (r : Rocks) (build : Build n.Name) (decode : n.Component → Option Parameter)
    (decode_name : Bytes → Option (List Bytes)) where
  abbrev S : Type 0
  S = System n r build decode decode_name

  abbrev pub fetched_for : Parameter → n.Name
  fetched_for parameter = append_components n n.empty_name parameter.name

  -- A well-formed insert command makes its process and asks for the packet.
  command_lem :
      (s s' : S) (interest prefix : n.Name) (process_id : ℕ) (parameter : Parameter)
      (es : Effects n)
      → extract_parameter n decode interest prefix ≡ some parameter
      → step n r build decode decode_name s (writing (Runs.command interest prefix process_id))
        ≡ done (s', es)
      → ((x : Response) × (StdMap.find ℕ_discrete process_id s'.processes ≡ some x))
        × In (expressed (fetched_for parameter) process_id) es
  unfolding step Runs.step on_interest process_single_insert_command reply signalled
  command_lem s s' interest prefix process_id parameter es extracted e =
      let x = started n r decode (writer n r build decode decode_name s) process_id in
      let x' = record x { status_code = 300 } in
      let s1 = record s { processes = StdMap.insert ℕ_discrete process_id x' s.processes } in
      let made : done (s1, replied interest x ∷ expressed (fetched_for parameter) process_id ∷ [])
          ≡ done (s', es) =
        ground arith in
      let q = done_eq n r build decode decode_name made in
      (
        (
          x',
          ap (λ (y : S × Effects n). StdMap.find ℕ_discrete process_id y.0.processes) (sym q)
              ∙ find-insert_same ℕ_discrete process_id x' s.processes,
        ),
        subst (λ (y : S × Effects n). In (expressed (fetched_for parameter) process_id) y.1) q
            (inr (inl refl)),
      )

  run-find :
      (s s' : S) (events : List (Event n r build decode decode_name)) (es : Effects n)
      (process_id : ℕ)
      → run n r build decode decode_name s events ≡ done (s', es)
      → All (SparesProcess n r build decode decode_name process_id) events
      → IsSound n r build decode decode_name s
      → IsSound n r build decode decode_name s'
        × (StdMap.find ℕ_discrete process_id s'.processes
            ≡ StdMap.find ℕ_discrete process_id s.processes)
  run-find s s' [] es process_id e spares sound =
      let q = ap (λ (y : S × Effects n). y.0) (run_nil n r build decode decode_name s s' es e) in
      (
        subst (IsSound n r build decode decode_name) q sound,
        ap (λ y. StdMap.find ℕ_discrete process_id y.processes) (sym q),
      )
  run-find s s' (event ∷ events) es process_id e spares sound =
      let (s1, gs, hs, first, rest, split) =
        run_cons n r build decode decode_name s s' event events es e in
      let (sound', same) =
        run-find s1 s' events hs process_id rest spares.1
          (step-IsSound n r build decode decode_name s s1 event gs first sound) in
      (
        sound',
        same ∙ step-find n r build decode decode_name s s1 event gs process_id first spares.0,
      )

  module _ (writes : WriteLaws r) where
    run-Same :
        (s s' : S) (events : List (Event n r build decode decode_name)) (es : Effects n)
        (name : n.Name) (e0 : Engine n r)
        → run n r build decode decode_name s events ≡ done (s', es)
        → All (Misses n r build decode decode_name name e0) events
        → s.engine.rename_prefix ≡ e0.rename_prefix
        → get n r s'.engine name ≡ get n r s.engine name
    run-Same s s' [] es name e0 e misses renames =
        ap (λ (y : S × Effects n). get n r y.0.engine name)
          (sym (run_nil n r build decode decode_name s s' es e))
    run-Same s s' (event ∷ events) es name e0 e misses renames =
        let (s1, gs, hs, first, rest, split) =
          run_cons n r build decode decode_name s s' event events es e in
        let (same, renames1) =
          step-Same n r build decode decode_name writes s s1 event gs name first
            (Misses-eq n r build decode decode_name name e0 s.engine event renames misses.0) in
        run-Same s1 s' events hs name e0 rest misses.1 (renames1 ∙ renames) ∙ same

  first_eq :
      {w w' : WriteHandle n r decode} {es fs : Effects n}
      → ◌≡◌ {A = Result (WriteHandle n r decode × Effects n)} (ok (w, es)) (ok (w', fs))
      → w ≡ w'
  first_eq e = cc

  arrival_lem :
      (packets : PacketLaws n) (writes : WriteLaws r) (s s' : S) (store : r.Store) (d : n.Data)
      (process_id : ℕ) (x : Response) (es : Effects n)
      → IsSound n r build decode decode_name s
      → StdMap.find ℕ_discrete process_id s.processes ≡ some x
      → s.engine.db ≡ some store
      → Accepted n r s.engine d store
      → step n r build decode decode_name s (writing (Runs.arrival d process_id)) ≡ done (s', es)
      → (get n r s'.engine (n.data_name (stored_packet n r s.engine d))
          ≡ ok (some (stored_packet n r s.engine d)))
        × (s'.engine.rename_prefix ≡ s.engine.rename_prefix)
  unfolding step Runs.step
  arrival_lem packets writes s s' store d process_id x es sound found opened accepted e =
      let (w, stored, erased, read_back) =
        on_data-get n r decode packets writes (writer n r build decode decode_name s) store d
          process_id x sound.pending found opened accepted in
      let (w1, fs, q, engine, processes) = written_done n r build decode decode_name s s' _ es e in
      let same : w1 ≡ w = first_eq (sym q ∙ stored) in
      let at : s'.engine ≡ w.storage = engine ∙ ap (λ y. y.storage) same in
      (
        ap (λ y. get n r y (n.data_name (stored_packet n r s.engine d))) at ∙ read_back,
        ap (λ y. y.rename_prefix) engine
            ∙ Puts-rename n r s.engine w1.storage d (
                write_step-WriteStores n r decode (writer n r build decode decode_name s) w1
                  (Runs.arrival d process_id) fs q),
      )

  -- While RocksDB reads back what it wrote and touches no other key, and ndn-cpp decodes what it
  -- encoded: a well-formed insert command, given to a sound system, asks for its packet; whatever
  -- else reaches the repository without a fault, if no event is about the process, a packet that
  -- then comes for it and that RocksDB accepts is stored; and whatever reaches the repository after
  -- that without a fault, if nothing is stored under the same URI, an Interest for exactly the
  -- stored packet's name that need not be fresh is answered with that packet.
  pub insert_is_served :
      (packets : PacketLaws n) (writes : WriteLaws r) (s s1 s2 : S) (interest prefix : n.Name)
      (process_id : ℕ) (parameter : Parameter) (d : n.Data) (store : r.Store)
      (waiting later : List (Event n r build decode decode_name)) (es fs : Effects n)
      (i : Interest n.Name)
      → IsSound n r build decode decode_name s
      → extract_parameter n decode interest prefix ≡ some parameter
      → run n r build decode decode_name s
          (writing (Runs.command interest prefix process_id) ∷ waiting)
        ≡ done (s1, es)
      → All (SparesProcess n r build decode decode_name process_id) waiting
      → s1.engine.db ≡ some store
      → Accepted n r s1.engine d store
      → run n r build decode decode_name s1 (writing (Runs.arrival d process_id) ∷ later)
        ≡ done (s2, fs)
      → All
          (Misses n r build decode decode_name
            (n.data_name (stored_packet n r s1.engine d))
            s1.engine)
          later
      → i.name ≡ n.data_name (stored_packet n r s1.engine d)
      → i.can_be_prefix ≡ false
      → i.must_be_fresh ≡ false
      → In (expressed (fetched_for parameter) process_id) es
        × (step n r build decode decode_name s2 (reading i)
            ≡ done (s2, put_data (stored_packet n r s1.engine d) ∷ []))
  unfolding step
  insert_is_served packets writes s s1 s2 interest prefix process_id parameter d store waiting later
        es fs i sound extracted before spares opened accepted after misses named exact stale =
      let (a, gs, hs, commanded, waited, split) =
        run_cons n r build decode decode_name s s1
          (writing (Runs.command interest prefix process_id)) waiting es before in
      let ((x, found), asked) =
        command_lem s a interest prefix process_id parameter gs extracted commanded in
      let (sound1, same) = run-find a s1 waiting hs process_id waited spares (
        step-IsSound n r build decode decode_name s a
          (writing (Runs.command interest prefix process_id)) gs commanded sound) in
      let (b, ks, ls, arrived, passed, split') =
        run_cons n r build decode decode_name s1 s2 (writing (Runs.arrival d process_id)) later fs
          after in
      let (there, renames) =
        arrival_lem packets writes s1 b store d process_id x ks sound1 (same ∙ found) opened
          accepted arrived in
      let kept =
        run-Same writes b s2 later ls (n.data_name (stored_packet n r s1.engine d)) s1.engine passed
          misses renames in
      (
        subst (In (expressed (fetched_for parameter) process_id)) (sym split)
            (In-append_left _ gs hs asked),
        ap (read n r build decode decode_name s2) (
            exact_answer n r s2.engine i (stored_packet n r s1.engine d)
              (ap (get n r s2.engine) named ∙ kept ∙ there) exact stale),
      )
