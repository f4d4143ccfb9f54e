-- ===== src/Tests/Origins.antt =====
-- The theorems on where stored and served packets come from, at one packet that comes for a process.
use fast_repo.Prelude.{Within, ◌≡◌, refl, ◌⊎◌, inl, some, false, List, [], ◌∷◌, In, ℕ_discrete}
use fast_repo.Prelude.Bytes.{Bytes, bytes_discrete}
use fast_repo.Prelude.StdMap
use fast_repo.Storage.Engine
use fast_repo.Storage.Engine.{get, stored_packet}
use fast_repo.Storage.Histories.{puts}
use fast_repo.Handles.Base.{inserted, registered, put_data}
use fast_repo.Handles.Read
use fast_repo.Handles.Write.Defs.{on_data, stored}
use fast_repo.Handles.Write.Runs
use fast_repo.Patterns.Handle.{done}
use fast_repo.Repo.Prefixes.{is_covered, fire, on_data_insertion}
use fast_repo.Repo.System.Defs.{Event, signalled, writing, step, run}
use fast_repo.Repo.System.Stored.{arrived_in, run_stores}
use fast_repo.Repo.System.Provenance.{served_has_arrived}
use fast_repo.Tests.Store.{sorted_store, write_laws, empty_store, find, insert}
use fast_repo.Tests.Names.{list_names, packet_laws}
use fast_repo.Tests.Storing.{packet, engine, below_a}
use fast_repo.Tests.Handling.{decode, name_b}
use fast_repo.Tests.Serving.{build, decode_name}
use fast_repo.Tests.Whole.{waiting, filled}

abbrev events : List (Event list_names sorted_store build decode decode_name)
events = writing (Runs.arrival (packet name_b) 7) ∷ writing (Runs.arrival (packet name_b) 7) ∷ []

run_eq :
    run list_names sorted_store build decode decode_name waiting events
    ≡ done (filled, inserted name_b ∷ registered name_b ∷ [])
unfolding run step Runs.step on_data stored Engine.put Engine.put_packet Engine.stored_packet
    signalled fire on_data_insertion is_covered Read.listen StdMap.find StdMap.erase bytes_discrete
    ℕ_discrete
run_eq = refl

run_stores_example :
    (ds : List Bytes) × Within ds (packet name_b ∷ packet name_b ∷ [])
    × (puts list_names sorted_store (engine empty_store) ds ≡ Engine.ok filled.engine)
unfolding arrived_in
run_stores_example =
    run_stores list_names sorted_store build decode decode_name events waiting filled
      (inserted name_b ∷ registered name_b ∷ []) run_eq

served_has_arrived_example :
    ((name : List Bytes) × (get list_names sorted_store (engine empty_store) name
        ≡ Engine.ok (some (packet name_b))))
    ⊎ ((d : Bytes) × In d (packet name_b ∷ packet name_b ∷ [])
        × (packet name_b ≡ stored_packet list_names sorted_store (engine empty_store) d))
unfolding arrived_in step Read.on_interest Engine.read Engine.get find insert bytes_discrete
    ℕ_discrete
served_has_arrived_example =
    served_has_arrived list_names sorted_store build decode decode_name packet_laws write_laws
      (λ k v s. refl) waiting filled filled empty_store events
      (inserted name_b ∷ registered name_b ∷ []) (put_data (packet name_b) ∷ [])
      (record below_a { name = name_b; can_be_prefix = false }) (packet name_b) refl run_eq refl
      (inl refl)
