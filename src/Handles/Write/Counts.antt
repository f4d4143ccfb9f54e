-- ===== src/Handles/Write/Counts.antt =====
-- Packets stored against fetches made, for each process over whole histories; and what an arrival stores.
use fast_repo.Prelude.{
  ℕ, ◌+◌, ◌≤◌, ◌≡◌, refl, ap, sym, ◌∙◌, subst, ◌⊎◌, inl, inr, Option, some, List, [], ◌∷◌, ◌++◌,
  map, arith, ℕ_discrete, length, Within, Within-skip, if◌then◌else◌, ◌==◌, Option-cases,
}
use fast_repo.Prelude.StdMap
use fast_repo.Prelude.StdMap.{Map, find-insert, find-erase}
use fast_repo.Ndn.{Ndn, Rocks, WriteLaws}
use fast_repo.Storage.Engine
use fast_repo.Storage.Engine.{Engine, Result, ok, err, stored_packet}
use fast_repo.Storage.Written.{PacketLaws, Accepted, get-put, put_eq}
use fast_repo.Storage.Histories.{puts, go_on}
use fast_repo.Handles.Base.{Response, Parameter, Effects, inserted, reply, negative_reply}
use fast_repo.Handles.Write.Defs.{
  WriteHandle, started, process_single_insert_command, on_interest, on_timeout, stored, on_data,
}
use fast_repo.Handles.Write.Tallies.{
  insertions, insertions-append, fetches_for, fetches_for-append, packets_for, waiting_for,
}
use fast_repo.Handles.Write.Pending.{IsPending}
use fast_repo.Handles.Write.Runs.{Event, command, arrival, timeout, step, run, run_cons}

module _ (n : Ndn) (r : Rocks) (decode : n.Component → Option Parameter) where
  abbrev W : Type 0
  W = WriteHandle n r decode

  -- The packets that come, each with the process that it comes for.
  unfoldable pub arrivals : List (Event n) → List (n.Data × ℕ)
  arrivals [] = []
  arrivals (arrival d process_id ∷ events) = (d, process_id) ∷ arrivals events
  arrivals (command interest prefix process_id ∷ events) = arrivals events
  arrivals (timeout process_id ∷ events) = arrivals events

  -- An event that stores nothing, and one that stores the packet that it brings.
  abbrev Quiet : W → W → Effects n → Type 0
  Quiet w v gs =
      (v.storage ≡ w.storage)
      × (insertions gs ≡ 0)
      × ((j : ℕ) → waiting_for j v.processes ≤ fetches_for j gs + waiting_for j w.processes)

  abbrev Stores : W → W → n.Data → ℕ → Effects n → Type 0
  Stores w v d process_id gs =
      (name : n.Name) × (Engine.put n r w.storage d ≡ ok (name, v.storage))
      × (insertions gs ≡ 1)
      × ((j : ℕ)
          → (if process_id == j then 1 else 0) + waiting_for j v.processes
            ≤ fetches_for j gs + waiting_for j w.processes)

  on_interest-Quiet :
      (w : W) (interest prefix : n.Name) (process_id : ℕ)
      → let (v, gs) = on_interest n r decode w interest prefix process_id in Quiet w v gs
  unfolding on_interest process_single_insert_command reply negative_reply
  on_interest-Quiet w interest prefix process_id = (
    ground arith,
    ground arith,
    λ j. ground (
      arith,
      find-insert ℕ_discrete process_id j
          (record (started n r decode w process_id) { status_code = 300 }) w.processes,
    ),
  )

  on_timeout-Quiet : (w : W) (process_id : ℕ) → Quiet w (on_timeout n r decode w process_id) []
  unfolding on_timeout
  on_timeout-Quiet w process_id =
      (refl, refl, λ j. ground (arith, find-erase ℕ_discrete process_id j w.processes))

  Result_eq : {A : Type 0} {x y : A} → ◌≡◌ {A = Result A} (ok x) (ok y) → x ≡ y
  Result_eq e = cc

  stored-Stores :
      (w v : W) (d : n.Data) (process_id : ℕ) (gs : Effects n) (response : Response)
      (result : Result (n.Name × Engine n r))
      → StdMap.find ℕ_discrete process_id w.processes ≡ some response
      → Engine.put n r w.storage d ≡ result
      → stored n r decode w process_id result ≡ ok (v, gs)
      → Stores w v d process_id gs
  unfolding stored
  stored-Stores w v d process_id gs response (err x) found q e = cc
  stored-Stores w v d process_id gs response (ok (name, storage)) found q e =
      subst (λ (y : W × Effects n). Stores w y.0 d process_id y.1) (Result_eq e)
        (name, q, refl, λ j. ground (arith, found, find-erase ℕ_discrete process_id j w.processes))

  on_data_cases :
      (w v : W) (d : n.Data) (process_id : ℕ) (gs : Effects n)
      → on_data n r decode w d process_id ≡ ok (v, gs)
      → Quiet w v gs ⊎ Stores w v d process_id gs
  unfolding on_data
  on_data_cases w v d process_id gs e =
      elim (Option-cases (StdMap.find ℕ_discrete process_id w.processes)) [
        | inl none_there ↦
            inl (as_quiet w (ground (arith, none_there, e)) (refl, refl, λ j. omega arith))
        | inr (response, found) ↦ elim (ℕ_discrete response.insert_num 0) [
          | yes fresh ↦ inr (
              stored-Stores w v d process_id gs response _ found refl
                (ground (arith, found, fresh, e)))
          | no other ↦ inl (
              as_quiet (on_timeout n r decode w process_id) (ground (arith, found, other, e))
                (on_timeout-Quiet w process_id))
        ]
      ]
    where
      as_quiet :
          (v' : W)
          → ◌≡◌ {A = Result (W × Effects n)} (ok (v', [])) (ok (v, gs))
          → Quiet w v' []
          → Quiet w v gs
      as_quiet v' same quiet = subst (λ (y : W × Effects n). Quiet w y.0 y.1) (Result_eq same) quiet

  -- What the events of a run store, packet by packet and process by process.
  abbrev Covers : W → W → List (Event n) → Effects n → Type 0
  Covers w w' events es =
      (ds : List (n.Data × ℕ)) × Within ds (arrivals events)
      × (puts n r w.storage (map (λ x. x.0) ds) ≡ ok w'.storage)
      × (insertions es ≡ length ds)
      × ((j : ℕ)
          → packets_for j ds + waiting_for j w'.processes
            ≤ fetches_for j es + waiting_for j w.processes)

  Quiet-Covers :
      (w v w' : W) (events : List (Event n)) (gs hs : Effects n)
      → Quiet w v gs
      → Covers v w' events hs
      → Covers w w' events (gs ++ hs)
  Quiet-Covers w v w' events gs hs (same, silent, kept) (ds, within, stored_all, told, covered) = (
    ds,
    within,
    ap (λ x. puts n r x (map (λ x. x.0) ds)) (sym same) ∙ stored_all,
    omega (arith, insertions-append gs hs, silent, told),
    λ j. omega (arith, fetches_for-append j gs hs, kept j, covered j),
  )

  Stores-Covers :
      (w v w' : W) (d : n.Data) (process_id : ℕ) (events : List (Event n)) (gs hs : Effects n)
      → Stores w v d process_id gs
      → Covers v w' events hs
      → Covers w w' (arrival d process_id ∷ events) (gs ++ hs)
  unfolding arrivals puts
  Stores-Covers w v w' d process_id events gs hs (name, q, one, kept)
        (ds, within, stored_all, told, covered) =
      (
        (d, process_id) ∷ ds,
        inl (refl, within),
        ap (λ x. go_on n r x (λ e. puts n r e (map (λ x. x.0) ds))) q ∙ stored_all,
        omega (arith, insertions-append gs hs, one, told),
        λ j. omega (arith, fetches_for-append j gs hs, kept j, covered j),
      )

  Covers-skip :
      (w w' : W) (d : n.Data) (process_id : ℕ) (events : List (Event n)) (es : Effects n)
      → Covers w w' events es
      → Covers w w' (arrival d process_id ∷ events) es
  unfolding arrivals
  Covers-skip w w' d process_id events es (ds, within, stored_all, told, covered) =
      (ds, Within-skip ds (d, process_id) (arrivals events) within, stored_all, told, covered)

  step-Covers :
      (w v w' : W) (event : Event n) (events : List (Event n)) (gs hs : Effects n)
      → step n r decode w event ≡ ok (v, gs)
      → Covers v w' events hs
      → Covers w w' (event ∷ events) (gs ++ hs)
  unfolding step arrivals
  step-Covers w v w' (command interest prefix process_id) events gs hs e c =
      Quiet-Covers w v w' events gs hs
        (subst (λ (y : W × Effects n). Quiet w y.0 y.1) (Result_eq e)
          (on_interest-Quiet w interest prefix process_id))
        c
  step-Covers w v w' (timeout process_id) events gs hs e c =
      Quiet-Covers w v w' events gs hs
        (subst (λ (y : W × Effects n). Quiet w y.0 y.1) (Result_eq e)
          (on_timeout-Quiet w process_id))
        c
  step-Covers w v w' (arrival d process_id) events gs hs e c =
      elim (on_data_cases w v d process_id gs e) [
        | inl quiet ↦
            Covers-skip w w' d process_id events (gs ++ hs)
              (Quiet-Covers w v w' events gs hs quiet c)
        | inr stores ↦ Stores-Covers w v w' d process_id events gs hs stores c
      ]

  -- Over any history without an exception there is a list of packets, some of those that came, each with
  -- the process that it came for, in their order: the storage is afterwards as if just these had been
  -- put into it, as many names are announced as there are packets, and for each process the packets
  -- among them, with one more if it still waits, are no more than the fetches made for it, with one
  -- more if it waited before. So no process stores a packet that no command made it fetch, and none
  -- stores two for one command.
  pub run-covers :
      (w w' : W) (events : List (Event n)) (es : Effects n)
      → run n r decode w events ≡ ok (w', es)
      → (ds : List (n.Data × ℕ)) × Within ds (arrivals events)
        × (puts n r w.storage (map (λ x. x.0) ds) ≡ ok w'.storage)
        × (insertions es ≡ length ds)
        × ((j : ℕ)
            → packets_for j ds + waiting_for j w'.processes
              ≤ fetches_for j es + waiting_for j w.processes)
  unfolding run puts
  run-covers w w' [] es e =
      subst (λ (y : W × Effects n). Covers w y.0 [] y.1) (Result_eq e)
        ([], tt, refl, refl, λ j. omega arith)
  run-covers w w' (event ∷ events) es e =
      let (v, gs, hs, first, rest, q) = run_cons n r decode w w' event events es e in
      subst (Covers w w' (event ∷ events)) (sym q)
        (step-Covers w v w' event events gs hs first (run-covers v w' events hs rest))

  -- Where RocksDB accepts this write and reads back what it wrote, and ndn-cpp decodes what it
  -- encoded, a packet that comes for a process of the map, while the entries are pending and the
  -- engine is open, is stored: its process ends, its name is announced once, and `get` finds the
  -- packet under that name.
  pub on_data-get :
      (packets : PacketLaws n) (writes : WriteLaws r) (w : WriteHandle n r decode) (s : r.Store)
      (d : n.Data) (process_id : ℕ) (response : Response)
      → IsPending n r decode w
      → StdMap.find ℕ_discrete process_id w.processes ≡ some response
      → w.storage.db ≡ some s
      → Accepted n r w.storage d s
      → (w' : WriteHandle n r decode) × (on_data n r decode w d process_id
          ≡ ok (w', inserted (n.data_name (stored_packet n r w.storage d)) ∷ []))
        × (w'.processes ≡ StdMap.erase ℕ_discrete process_id w.processes)
        × (Engine.get n r w'.storage (n.data_name (stored_packet n r w.storage d))
            ≡ ok (some (stored_packet n r w.storage d)))
  unfolding on_data stored
  on_data-get packets writes w s d process_id response pending found open_db accepted =
      let (name, storage) = Engine.put_packet n r w.storage s (stored_packet n r w.storage d) in
      let put = put_eq n r w.storage s d open_db in
      let (named, read_back) =
        get-put n r packets writes w.storage storage s d name open_db accepted put in
      (
        record w { storage = storage; processes = StdMap.erase ℕ_discrete process_id w.processes },
        ground (arith, pending.at process_id response found),
        refl,
        rw (← named) read_back,
      )
