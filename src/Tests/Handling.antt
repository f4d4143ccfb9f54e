-- ===== src/Tests/Handling.antt =====
-- The theorems on the write and the read handle, at one command and its packet.
use fast_repo.Prelude.{
  Within, map, ℕ, ◌+◌, ◌≤◌, ◌≡◌, refl, Option, some, List, [], ◌∷◌, length, ℕ_discrete,
}
use fast_repo.Prelude.Bytes.{Bytes, bytes_discrete}
use fast_repo.Prelude.StdMap
use fast_repo.Storage.Engine
use fast_repo.Storage.Engine.{Result, ok, stored_packet}
use fast_repo.Handles.Base.{
  Parameter, Response, new_response, Effects, replied, expressed, inserted, extract_parameter,
  append_components, reply,
}
use fast_repo.Handles.Write.Defs.{
  WriteHandle, on_interest, on_data, started, process_single_insert_command, stored,
}
use fast_repo.Handles.Write.Runs.{Event, command, arrival, step, run}
use fast_repo.Handles.Write.Counts.{arrivals, run-covers, on_data-get}
use fast_repo.Handles.Write.Tallies.{insertions, fetches_for, packets_for, waiting_for}
use fast_repo.Storage.Histories.{puts}
use fast_repo.Handles.Write.Pending.{IsPending, step-IsPending}
use fast_repo.Tests.Store.{sorted_store, write_laws, empty_store}
use fast_repo.Tests.Names.{ListName, list_names, packet_laws}
use fast_repo.Tests.Storing.{name_a, name_ab, comp_b, packet, engine}

abbrev pub parameter_of : Bytes → Parameter
parameter_of c = record {
  name = c ∷ [];
  start_block_id = 0;
  end_block_id = 0;
  process_id = 0;
  max_interest_num = 0;
  watch_timeout = 0;
  watch_status = 0;
  interest_lifetime = 0;
}

abbrev pub decode : Bytes → Option Parameter
decode c = some (parameter_of c)

abbrev pub name_b : ListName
name_b = comp_b ∷ []

abbrev pub idle : WriteHandle list_names sorted_store decode
idle = record { storage = engine empty_store; processes = [] }

abbrev pub response_7 : ℕ → Response
response_7 status = record new_response { status_code = status; process_id = 7 }

abbrev waiting : WriteHandle list_names sorted_store decode
waiting = record idle { processes = (7, response_7 300) ∷ [] }

abbrev stored_b : WriteHandle list_names sorted_store decode
stored_b = record idle {
  storage = engine (sorted_store.put (list_names.to_uri name_b) (packet name_b) empty_store).1;
}

abbrev one_command : List (Event list_names)
one_command = command name_ab name_a 7 ∷ arrival (packet name_b) 7 ∷ []

abbrev one_trace : Effects list_names
one_trace = replied name_ab (response_7 100) ∷ expressed name_b 7 ∷ inserted name_b ∷ []

pub idle-IsPending : IsPending list_names sorted_store decode idle
unfolding StdMap.find
idle-IsPending = record { at = λ j x found. cc }

waiting-IsPending : IsPending list_names sorted_store decode waiting
unfolding step on_interest process_single_insert_command started extract_parameter append_components
    reply StdMap.insert StdMap.find StdMap.erase
waiting-IsPending =
    step-IsPending list_names sorted_store decode idle waiting (command name_ab name_a 7)
      (replied name_ab (response_7 100) ∷ expressed name_b 7 ∷ []) refl idle-IsPending

run-covers_example :
    (ds : List (Bytes × ℕ)) × Within ds (arrivals list_names sorted_store decode one_command)
    × (puts list_names sorted_store idle.storage (map (λ x. x.0) ds) ≡ ok stored_b.storage)
    × (insertions one_trace ≡ length ds)
    × ((j : ℕ)
        → packets_for j ds + waiting_for j stored_b.processes
          ≤ fetches_for j one_trace + waiting_for j idle.processes)
unfolding run step on_interest on_data process_single_insert_command started stored
    extract_parameter append_components reply Engine.put Engine.stored_packet StdMap.insert
    StdMap.find StdMap.erase bytes_discrete ℕ_discrete
run-covers_example =
    run-covers list_names sorted_store decode idle stored_b one_command one_trace refl

on_data-get_example :
    (w' : WriteHandle list_names sorted_store decode) × (on_data list_names sorted_store decode
        waiting
        (packet name_b)
        7
      ≡ ok (w', inserted name_b ∷ []))
    × (w'.processes ≡ StdMap.erase ℕ_discrete 7 waiting.processes)
    × (Engine.get list_names sorted_store w'.storage name_b ≡ ok (some (packet name_b)))
unfolding Engine.stored_packet StdMap.find ℕ_discrete
on_data-get_example =
    on_data-get list_names sorted_store decode packet_laws write_laws waiting empty_store
      (packet name_b) 7 (response_7 300) waiting-IsPending refl refl refl
