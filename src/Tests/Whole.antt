-- ===== src/Tests/Whole.antt =====
-- The theorems on the whole repository, at one insert command, its packet and what follows.
use fast_repo.Prelude.{
  ◌≡◌, refl, true, false, none, some, List, [], ◌∷◌, ◌++◌, All, In, arith, ℕ_discrete,
}
use fast_repo.Prelude.Bytes.{Bytes, bytes_discrete}
use fast_repo.Prelude.StdMap
use fast_repo.Ndn.{Rocks}
use fast_repo.Storage.Engine
use fast_repo.Storage.Engine.{
  construct, scan, scan_for_longest_prefixes, build_key_trie, Engine, stored_packet,
}
use fast_repo.Handles.Base.{
  Effects, replied, expressed, inserted, registered, put_data, extract_parameter, append_components,
  reply,
}
use fast_repo.Handles.Read
use fast_repo.Handles.Write.Defs.{
  on_interest, on_data, started, process_single_insert_command, stored,
}
use fast_repo.Handles.Write.Runs
use fast_repo.Patterns.Handle
use fast_repo.Patterns.Handle.{done, fault}
use fast_repo.Repo.Prefixes.{
  enable_listening, filters, on_scanned, is_covered, fire, on_data_insertion,
}
use fast_repo.Repo.System.Defs.{System, signalled, reading, writing, step, run}
use fast_repo.Repo.System.Sound.{IsSound}
use fast_repo.Repo.System.Boot.{start_up}
use fast_repo.Repo.System.Main.{main, serve, terminate, event, caught, main-IsSound}
use fast_repo.Repo.Config.{Options, override, Config, listens}
use fast_repo.Storage.Trie.{get_longest_prefixes}
use fast_repo.Repo.System.Faults.{Faults}
use fast_repo.Repo.System.Announced.{announced, announced_covered}
use fast_repo.Repo.System.Served.{insert_is_served}
use fast_repo.Repo.System.Lost.{PrefixLaws, refused_write_takes_all}
use fast_repo.Tests.Store.{sorted_store, write_laws, empty_store}
use fast_repo.Tests.Names.{split, list_names, packet_laws, begins_refl}
use fast_repo.Tests.Storing.{name_a, name_ab, comp_b, packet, engine, below_a}
use fast_repo.Tests.Handling.{decode, parameter_of, response_7, name_b}
use fast_repo.Tests.Serving.{config, build, decode_name}

abbrev pub Sys : Type 0
Sys = System list_names sorted_store build decode decode_name

abbrev pub resting : Sys
resting = record {
  engine = engine empty_store;
  data_prefixes = [];
  slots = 1;
  processes = [];
  patterns = [];
  objects = [];
  next = 0;
}

abbrev pub waiting : Sys
waiting = record resting { processes = (7, response_7 300) ∷ [] }

abbrev pub filled : Sys
filled = record resting {
  engine = engine (sorted_store.put (list_names.to_uri name_b) (packet name_b) empty_store).1;
  data_prefixes = name_b ∷ [];
}

abbrev commanded : Effects list_names
commanded = replied name_ab (response_7 100) ∷ expressed name_b 7 ∷ []

resting-IsSound : IsSound list_names sorted_store build decode decode_name resting
unfolding StdMap.find
resting-IsSound = record {
  opened = refl;
  pending = record { at = λ j x found. cc };
  linked = record { live = λ p a h. cc; below = λ a h. cc; unique = λ p q a h k. cc };
}

abbrev started_config : Config list_names
started_config = record config { read_only = false; repo_prefixes = name_a ∷ [] }

abbrev booted : Sys
booted = record resting {
  engine = record (engine empty_store) { keys_trie_built = true };
  data_prefixes = name_a ∷ [];
}

abbrev booted_effects : Effects list_names
booted_effects = registered name_a ∷ registered name_a ∷ []

abbrev options : Options list_names
options = record {
  config = none;
  command_prefix = some (list_names.to_uri name_a);
  db_path = [];
  readonly = false;
  rename_prefix = none;
}

main-IsSound_example :
    IsSound list_names sorted_store build decode decode_name
      (record booted { data_prefixes = []; processes = (7, response_7 300) ∷ [] })
unfolding main override serve terminate start_up construct scan_for_longest_prefixes build_key_trie
    scan get_longest_prefixes enable_listening filters listens on_scanned run step Runs.step
    on_interest process_single_insert_command started extract_parameter append_components reply
    signalled StdMap.insert StdMap.find StdMap.erase Read.listen
main-IsSound_example =
    main-IsSound list_names sorted_store build decode decode_name 6 11 split (λ s. none)
      (λ path. none) (λ path read_only. some empty_store) 0 0 options
      (event (writing (Runs.command name_ab name_a 7))
        ∷ caught false 2
        ∷ event (writing (Runs.arrival (packet name_b) 7))
        ∷ [])
      (record booted { data_prefixes = []; processes = (7, response_7 300) ∷ [] })
      (registered name_a ∷ commanded) refl

announced_covered_example :
    All
      (λ name. is_covered list_names sorted_store filled.data_prefixes name ≡ true)
      (announced {Data = Bytes} (inserted name_b ∷ registered name_b ∷ []))
    × ((p : List Bytes)
        → is_covered list_names sorted_store [] p ≡ true
        → is_covered list_names sorted_store filled.data_prefixes p ≡ true)
unfolding run step Runs.step on_data stored Engine.put Engine.put_packet Engine.stored_packet
    signalled fire on_data_insertion is_covered Read.listen StdMap.find StdMap.erase bytes_discrete
    ℕ_discrete
announced_covered_example =
    announced_covered list_names sorted_store begins_refl build decode decode_name waiting filled
      (writing (Runs.arrival (packet name_b) 7) ∷ []) (inserted name_b ∷ registered name_b ∷ [])
      (omega arith) refl

insert_is_served_example :
    In (expressed name_b 7) commanded
    × (step list_names sorted_store build decode decode_name filled
          (reading (record below_a { name = name_b; can_be_prefix = false }))
        ≡ done (
          filled,
          put_data (stored_packet list_names sorted_store (engine empty_store) (packet name_b))
              ∷ [],
        ))
unfolding run step Runs.step on_interest process_single_insert_command started extract_parameter
    append_components reply on_data stored Engine.put Engine.put_packet Engine.stored_packet
    signalled fire on_data_insertion is_covered Read.listen StdMap.insert StdMap.find StdMap.erase
    bytes_discrete ℕ_discrete
insert_is_served_example =
    insert_is_served list_names sorted_store build decode decode_name packet_laws write_laws resting
      waiting filled name_ab name_a 7 (parameter_of comp_b) (packet name_b) empty_store [] []
      commanded (inserted name_b ∷ registered name_b ∷ [])
      (record below_a { name = name_b; can_be_prefix = false }) resting-IsSound refl refl tt refl
      refl refl tt refl refl refl

-- A store that refuses every write.
abbrev full_store : Rocks
full_store = record sorted_store { put = λ k v s. (false, s) }

abbrev full : System list_names full_store build decode decode_name
full = record {
  engine = record {
    db = some empty_store;
    rename_prefix = [];
    keys_trie_built = false;
    keys_trie = (engine empty_store).keys_trie;
    n_keys = 0;
    value_size_bytes = 0;
  };
  data_prefixes = name_a ∷ [];
  slots = 1;
  processes = (7, response_7 300) ∷ [];
  patterns = [];
  objects = [];
  next = 0;
}

abbrev taken : System list_names full_store build decode decode_name
taken = record full { data_prefixes = name_a ∷ [] ∷ []; processes = [] }

prefix_laws : PrefixLaws list_names
prefix_laws = record { is_prefix_refl = begins_refl; empty_is_prefix = λ p. refl }

full-IsSound : IsSound list_names full_store build decode decode_name full
unfolding StdMap.find
full-IsSound = record {
  opened = refl;
  pending = record { at = λ j x found. ground arith };
  linked = record { live = λ p a h. cc; below = λ a h. cc; unique = λ p q a h k. cc };
}

refused_write_takes_all_example :
    (taken.data_prefixes ≡ full.data_prefixes ++ [] ∷ [])
    × ((fs : Effects list_names) × (inserted [] ∷ registered [] ∷ []
          ≡ inserted [] ∷ registered [] ∷ fs))
unfolding run step Runs.step on_data stored Engine.put Engine.put_packet Engine.stored_packet
    signalled fire on_data_insertion is_covered Read.listen StdMap.find StdMap.erase bytes_discrete
    ℕ_discrete
refused_write_takes_all_example =
    refused_write_takes_all list_names full_store build decode decode_name prefix_laws full taken
      (packet name_b) 7 (response_7 300) empty_store [] (inserted [] ∷ registered [] ∷ [])
      full-IsSound (omega arith) refl refl refl refl refl
