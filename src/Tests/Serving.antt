-- ===== src/Tests/Serving.antt =====
-- The theorems on the pattern handle, the registered prefixes and the configuration, at one
-- pattern, two names and one configuration file.
use fast_repo.Prelude.{◌≡◌, refl, true, false, ◌⊎◌, Option, none, some, List, [], ◌∷◌, In}
use fast_repo.Prelude.Bytes.{Bytes}
use fast_repo.Prelude.StdMap
use fast_repo.Handles.Base.{call_later, extract_parameter, append_components}
use fast_repo.Patterns.Fetch.{Build, CounterPattern, counter_pattern}
use fast_repo.Patterns.Handle.{
  PatternHandle, start, on_interest, on_cancel_request, on_timer, step, removal, remove_pattern,
  fault, use_after_free,
}
use fast_repo.Patterns.Linked.{IsLinked, step-IsLinked}
use fast_repo.Patterns.Lifetime.{cancelled_timer}
use fast_repo.Patterns.Replies.{Started, Active, Malformed, Unknown, on_interest_replies}
use fast_repo.Patterns.Cancels.{Cancelled, NotActive, NotDecoded, on_cancel_request_replies}
use fast_repo.Repo.Prefixes.{Registers, insertions, insertions_lem}
use fast_repo.Repo.Config.{Tree, Config, parse_tree, prefix_key, rocksdb_method, read_only_mode}
use fast_repo.Repo.Described.{accepted, described, parse_tree_lem}
use fast_repo.Tests.Store.{sorted_store, empty_store}
use fast_repo.Tests.Names.{ListName, list_names, begins_refl}
use fast_repo.Tests.Storing.{name_a, name_ab, comp_b, engine}
use fast_repo.Tests.Handling.{decode}

abbrev pub build : Build ListName
build = record {
  have_ndnrtc = false;
  have_cnl = false;
  name_api_version = [];
  extract_info = λ name. false;
}

abbrev pub decode_name : Bytes → Option (List Bytes)
decode_name s = some (s ∷ [])

abbrev pub no_patterns : PatternHandle list_names sorted_store build decode decode_name
no_patterns = record { storage = engine empty_store; patterns = []; objects = []; next = 0 }

abbrev name_b : ListName
name_b = comp_b ∷ []

abbrev pub stopped : CounterPattern list_names
stopped = record { running = false; counter = 0; fetch_prefix = [] }

abbrev pub one_pattern : PatternHandle list_names sorted_store build decode decode_name
one_pattern = record no_patterns {
  patterns = (name_b, 0) ∷ [];
  objects = (0, counter_pattern (record stopped { running = true; fetch_prefix = name_b })) ∷ [];
  next = 1;
}

pub no_patterns-IsLinked : IsLinked list_names sorted_store build decode decode_name no_patterns
unfolding StdMap.find
no_patterns-IsLinked = record { live = λ p a h. cc; below = λ a h. cc; unique = λ p q a h k. cc }

step-IsLinked_example : IsLinked list_names sorted_store build decode decode_name no_patterns
unfolding step remove_pattern StdMap.find
step-IsLinked_example =
    step-IsLinked list_names sorted_store build decode decode_name no_patterns no_patterns
      (removal name_b) [] refl no_patterns-IsLinked

cancelled_timer_example :
    let (h', es) =
      start list_names sorted_store build decode decode_name no_patterns name_ab name_b
        (some (counter_pattern stopped)) in
    In (call_later 1 0) es
    × (on_timer list_names sorted_store build decode decode_name
          (on_cancel_request list_names sorted_store build decode decode_name h' name_ab name_a).0
          0
        ≡ fault use_after_free)
unfolding extract_parameter append_components
cancelled_timer_example =
    cancelled_timer list_names sorted_store build decode decode_name no_patterns name_ab name_b
      stopped name_ab name_a
      (record {
        name = comp_b ∷ [];
        start_block_id = 0;
        end_block_id = 0;
        process_id = 0;
        max_interest_num = 0;
        watch_timeout = 0;
        watch_status = 0;
        interest_lifetime = 0;
      })
      refl refl

on_interest_replies_example :
    let result =
      on_interest list_names sorted_store build decode decode_name one_pattern name_ab name_a 0 in
    Started list_names sorted_store build decode decode_name one_pattern name_ab name_a 0 result
    ⊎ Active list_names sorted_store build decode decode_name one_pattern name_ab name_a result
    ⊎ Malformed list_names sorted_store build decode decode_name one_pattern name_ab name_a result
    ⊎ Unknown list_names sorted_store build decode decode_name one_pattern name_ab name_a 0 result
on_interest_replies_example =
    on_interest_replies list_names sorted_store build decode decode_name one_pattern name_ab name_a
      0

on_cancel_request_replies_example :
    let result =
      on_cancel_request list_names sorted_store build decode decode_name one_pattern name_ab
        name_a in
    Cancelled list_names sorted_store build decode decode_name one_pattern name_ab name_a result
    ⊎ NotActive list_names sorted_store build decode decode_name one_pattern name_ab name_a result
    ⊎ NotDecoded list_names sorted_store build decode decode_name one_pattern name_ab name_a result
on_cancel_request_replies_example =
    on_cancel_request_replies list_names sorted_store build decode decode_name one_pattern name_ab
      name_a

insertions_lem_example :
    Registers list_names sorted_store begins_refl []
      (name_ab ∷ name_a ∷ [])
      (insertions list_names sorted_store [] (name_ab ∷ name_a ∷ []))
insertions_lem_example =
    insertions_lem list_names sorted_store begins_refl [] (name_ab ∷ name_a ∷ [])

abbrev slash_a : Bytes
slash_a = b'/' ∷ b'a' ∷ []

abbrev tree : Tree
tree = record {
  data_section = some ((prefix_key, slash_a) ∷ []);
  command_section = some ((prefix_key, slash_a) ∷ []);
  storage_method = some rocksdb_method;
  storage_mode = some read_only_mode;
  storage_path = some slash_a;
  has_validator = some tt;
}

abbrev pub config : Config list_names
config = record {
  read_only = true;
  repo_config_path = [];
  db_path = slash_a;
  rename_prefix = [];
  data_prefixes = name_a ∷ [];
  registration_subset = 18446744073709551615;
  repo_prefixes = name_a ∷ [];
}

parse_tree_lem_example :
    accepted list_names (λ s. none) (parse_tree list_names (λ s. none) [] (some tree))
    ≡ described list_names (λ s. none) [] tree
parse_tree_lem_example = parse_tree_lem list_names (λ s. none) [] tree
