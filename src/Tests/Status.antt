-- ===== src/Tests/Status.antt =====
-- The theorems on the status, with JSON values as functions from paths of keys to texts.
use fast_repo.Prelude.{
  ℕ, ◌≡◌, length, ◌≢◌, refl, inl, true, false, Option, some, none, List, [], ◌∷◌, arith, ite,
  if◌then◌else◌, ℕ_discrete,
}
use fast_repo.Prelude.Bytes.{Bytes, bytes_discrete, is_prefix}
use fast_repo.Prelude.StdMap
use mathlib.Core.Path.{fun_ext}
use fast_repo.Patterns.Fetch.{Pattern, counter_pattern, to_string}
use fast_repo.Status.Json.{Json, GrammarLaws, ObjectLaws}
use fast_repo.Status.Words.{repo_word, pattern_handle_word}
use fast_repo.Status.Reports.{
  Stats, not_available_text, reported, json_call, repo_report, pattern_handle_report,
}
use fast_repo.Status.Publish.{sources, publish_status, publish_once}
use fast_repo.Status.Listen.{
  construct, enabled, listen, add_status_report_source, needed, last_prefix_only,
}
use fast_repo.Status.Broken.{Escapes, status_breaks}
use fast_repo.Tests.Store.{sorted_store, empty_store}
use fast_repo.Tests.Names.{ListName, list_names}
use fast_repo.Tests.Storing.{name_a, engine}

abbrev Leaves : Type 0
Leaves = List Bytes → Option Bytes

abbrev set : Bytes → Leaves → Leaves → Leaves
set k x v [] = none
set k x v (a ∷ path) = ite (bytes_discrete a k) (x path) (v (a ∷ path))

abbrev leaf : Bytes → Leaves
leaf s [] = some s
leaf s (a ∷ path) = none

-- A text under the key "repo", or an empty one.
abbrev or_empty : Option Bytes → Bytes
or_empty none = []
or_empty (some s) = s

abbrev parse : Bytes → Option Leaves
parse s =
    let value = some (leaf s) in
    if is_prefix (b'{' ∷ 39 ∷ []) s
    then none
    else ite (bytes_discrete s not_available_text) none value

abbrev leaves : Json
leaves = record {
  Value = Leaves;
  null = λ path. none;
  of_text = leaf;
  of_number = λ i. leaf (to_string i);
  push_back = λ x v. set [] x v;
  set = set;
  get = λ k v path. v (k ∷ path);
  dump = λ v. some (or_empty (v (repo_word ∷ [])));
  parse = parse;
}

set-set_at :
    (k : Bytes) (x y v : Leaves) (path : List Bytes) → set k x (set k y v) path ≡ set k x v path
set-set_at k x y v [] = refl
set-set_at k x y v (a ∷ path) = ground arith

set_comm_at :
    (k l : Bytes) (x y v : Leaves)
    → k ≢ l
    → (path : List Bytes) → set k x (set l y v) path ≡ set l y (set k x v) path
set_comm_at k l x y v differ [] = refl
set_comm_at k l x y v differ (a ∷ path) = ground arith

grammar : GrammarLaws leaves
unfolding is_prefix bytes_discrete ℕ_discrete
grammar = record { single_quote = λ s. refl; not_available = refl }

object_laws : ObjectLaws leaves
object_laws = record {
  set-set = λ k x y v. fun_ext (set-set_at k x y v);
  set_comm = λ k l x y v differ. fun_ext (set_comm_at k l x y v differ);
}

-- "1"
abbrev one_text : Bytes
one_text = b'1' ∷ []

publish_once_example :
    publish_status leaves
      (sources leaves 2 (reported (repo_word, one_text)) (reported (pattern_handle_word, one_text)))
    ≡ json_call (
        leaves.dump
          (set pattern_handle_word (leaf one_text) (set repo_word (leaf one_text) leaves.null)))
unfolding is_prefix bytes_discrete ℕ_discrete
publish_once_example =
    publish_once leaves object_laws repo_word pattern_handle_word (λ e. cc) (leaf one_text)
      (leaf one_text) one_text one_text refl refl 1

abbrev stats : ListName → Stats
stats name = record {
  manifests_stored = 0;
  stream_meta_stored = 0;
  thread_meta_stored = 0;
  latest_key_requested = 0;
  latest_key_fetched = 0;
  key_stored = 0;
  key_failed = 0;
  latest_delta_requested = 0;
  latest_delta_fetched = 0;
  delta_stored = 0;
  delta_failed = 0;
  pending_frames = 0;
}

abbrev objects : List (ℕ × Pattern list_names)
objects = (0, counter_pattern (record { running = true; counter = 3; fetch_prefix = name_a })) ∷ []

status_breaks_example : Escapes (
    publish_status leaves (
      sources leaves 1
        (repo_report leaves list_names sorted_store (engine empty_store) (name_a ∷ []) [] false)
        (pattern_handle_report leaves list_names stats [] objects ((name_a, 0) ∷ []))))
unfolding StdMap.find ℕ_discrete
status_breaks_example =
    status_breaks leaves list_names stats grammar sorted_store (engine empty_store) [] (name_a ∷ [])
      [] false 0 objects ((name_a, 0) ∷ []) name_a 0 (inl refl) tt

last_prefix_only_example :
    let h =
      enabled list_names leaves
        (reported (repo_word, one_text))
        (reported (pattern_handle_word, one_text))
        (name_a ∷ name_a ∷ [])
        (construct list_names leaves) in
    (length h.namespaces ≡ 2) × (needed list_names leaves h 0 5 ≡ reported none)
unfolding enabled listen add_status_report_source
last_prefix_only_example =
    last_prefix_only list_names leaves (reported (repo_word, one_text))
      (reported (pattern_handle_word, one_text)) (name_a ∷ []) name_a 0 5
