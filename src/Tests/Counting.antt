-- ===== src/Tests/Counting.antt =====
-- The theorems on histories of the pattern handle, at a counter pattern that asks for its first packet,
-- gets it, and asks for the second.
use fast_repo.Prelude.{
  ℕ, ◌≡◌, ◌≢◌, refl, arith, true, Option, some, List, [], ◌∷◌, ◌++◌, ℕ_discrete,
}
use fast_repo.Prelude.Bytes.{Bytes, bytes_discrete}
use fast_repo.Prelude.StdMap
use fast_repo.Storage.Engine
use fast_repo.Storage.Histories.{puts}
use fast_repo.Handles.Base.{
  expressed, call_later, Effects, Parameter, extract_parameter, append_components,
}
use fast_repo.Patterns.Fetch.{
  CounterPattern, counter_pattern, do_fetch, count, to_string, fetch, counter_keyword, create,
  construct, supported,
}
use fast_repo.Patterns.Handle.{
  PatternHandle, Event, start, done, timer, packet, step, on_timer, on_data, on_interest,
  decode_names,
}
use fast_repo.Patterns.Decimal.{ComponentLaws, do_fetch-distinct}
use fast_repo.Patterns.Histories.{run, arrived, run-puts}
use fast_repo.Patterns.Trace.{asked, schedule, packets, with_count}
use fast_repo.Patterns.Counting.{started-schedule}
use fast_repo.Patterns.Linked.{IsLinked}
use fast_repo.Patterns.Completes.{Completes, counter-Completes}
use fast_repo.Tests.Store.{sorted_store, empty_store}
use fast_repo.Tests.Names.{ListName, list_names, list_name_discrete}
use fast_repo.Tests.Storing as Storing
use fast_repo.Tests.Storing.{name_a, name_ab, comp_b}
use fast_repo.Tests.Handling.{decode, name_b, parameter_of}
use fast_repo.Tests.Serving.{build, decode_name, no_patterns, no_patterns-IsLinked, stopped}

abbrev H : Type 0
H = PatternHandle list_names sorted_store build decode decode_name

abbrev counting : H
counting =
    (start list_names sorted_store build decode decode_name no_patterns name_ab name_b
      (some (counter_pattern stopped))).0

abbrev events : List (Event list_names sorted_store build decode decode_name)
events = timer 0 ∷ packet (Storing.packet name_ab) 0 ∷ timer 0 ∷ []

abbrev counted : H
counted = record counting {
  storage =
      Storing.engine
        (sorted_store.put (list_names.to_uri name_ab) (Storing.packet name_ab) empty_store).1;
  objects = (0, with_count list_names name_b 1) ∷ [];
}

abbrev asked_for : Effects list_names
asked_for =
    expressed (name_b ++ to_string 0 ∷ []) 0
    ∷ call_later 2000 0
    ∷ expressed (name_b ++ to_string 1 ∷ []) 0
    ∷ []

run_eq :
    run list_names sorted_store build decode decode_name counting events ≡ done (counted, asked_for)
unfolding run step start fetch on_timer on_data do_fetch count Engine.put Engine.put_packet
    Engine.stored_packet StdMap.find StdMap.insert StdMap.erase ℕ_discrete
run_eq = refl

run-puts_example :
    puts list_names sorted_store counting.storage (Storing.packet name_ab ∷ [])
    ≡ Engine.ok counted.storage
unfolding arrived
run-puts_example =
    run-puts list_names sorted_store build decode decode_name events counting counted asked_for
      run_eq

started-schedule_example :
    (StdMap.find ℕ_discrete 0 counted.objects
      ≡ some (
          with_count list_names name_b
            (packets list_names sorted_store build decode decode_name 0 events)))
    × (asked list_names 0 asked_for
        ≡ schedule list_names sorted_store build decode decode_name 0 name_b 0 events)
unfolding StdMap.find ℕ_discrete
started-schedule_example =
    started-schedule list_names sorted_store build decode decode_name no_patterns counted name_ab
      name_b stopped events asked_for no_patterns-IsLinked run_eq refl

last_component : (p : ListName) (c d : Bytes) → p ++ c ∷ [] ≡ p ++ d ∷ [] → c ≡ d
last_component [] c d e = cc
last_component (x ∷ p) c d e = last_component p c d (tail_eq e)
  where
    tail_eq : {a b : ListName} → ◌≡◌ {A = ListName} (x ∷ a) (x ∷ b) → a ≡ b
    tail_eq h = cc

component_laws : ComponentLaws list_names
component_laws = record {
  append_component_injective = last_component;
  component_injective = λ s t e. e;
}

abbrev at_round : ℕ → CounterPattern list_names
at_round k = record { running = true; counter = k; fetch_prefix = name_a }

do_fetch-distinct_example : do_fetch list_names 0 (at_round 1) ≢ do_fetch list_names 0 (at_round 10)
do_fetch-distinct_example =
    do_fetch-distinct list_names component_laws 0 (at_round 1) (at_round 10) refl refl refl
      (λ e. omega arith)

-- A command that asks for a counter pattern.
abbrev decode_counter : Bytes → Option Parameter
decode_counter c = some (record (parameter_of c) { name = counter_keyword ∷ c ∷ [] })

abbrev idle : PatternHandle list_names sorted_store build decode_counter decode_name
idle = record { storage = Storing.engine empty_store; patterns = []; objects = []; next = 0 }

idle-IsLinked : IsLinked list_names sorted_store build decode_counter decode_name idle
unfolding StdMap.find
idle-IsLinked = record { live = λ p a h. cc; below = λ a h. cc; unique = λ p q a h k. cc }

counter-Completes_example :
    Completes list_names sorted_store build decode_counter decode_name 0 name_b
      (Storing.packet name_ab ∷ Storing.packet name_a ∷ [])
      (on_interest list_names sorted_store build decode_counter decode_name idle name_ab name_a 0).0
unfolding extract_parameter append_components decode_names StdMap.find create construct supported
    StdMap.insert StdMap.erase list_name_discrete bytes_discrete ℕ_discrete
counter-Completes_example =
    counter-Completes list_names sorted_store build decode_counter decode_name idle name_ab name_a
      (counter_keyword ∷ []) name_b 0
      (record (parameter_of comp_b) { name = counter_keyword ∷ comp_b ∷ [] }) stopped empty_store
      (Storing.packet name_ab ∷ Storing.packet name_a ∷ []) idle-IsLinked refl refl refl refl refl
      (omega arith)
