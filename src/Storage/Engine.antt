-- ===== src/Storage/Engine.antt =====
-- `StorageEngineImpl` of src/storage/storage-engine.cpp, built with RocksDB, over an abstract store
-- and abstract names and packets. `db` is `none` while `db_` is null.
use fast_repo.Prelude.{
  ℕ, ◌+◌, ◌%◌, ◌^◌, ◌-◌, Bool, true, false, not, ◌&&◌, ◌||◌, Option, none, some, List, [], ◌∷◌, map,
  if◌then◌else◌, length, replicate,
}
use fast_repo.Prelude.Bytes.{Bytes, is_empty}
use fast_repo.Prelude.Int.{ℤ, negsuc, leb_ℤ, eqb_ℤ, to_int32}
use fast_repo.Ndn.{Ndn, Rocks, Interest}
use fast_repo.Storage.Trie.{Trie, new_node, insert, get_longest_prefixes}

-- `runtime_error("DB is not open")`, the exception of `wireDecode`, a call through a null `db_`, and
-- the failure of `open`, and the failed assertion of `buildKeyTrie`
pub data Error : Type 0 where
  db_not_open bad_packet null_db open_failed scan_failed : Error

pub data Result (A : Type 0) : Type 0 where
  err : Error → Result A
  ok : A → Result A

-- A `size_t`.
abbrev wrap64 : ℕ → ℕ
wrap64 x = x % 2 ^ 64

module _ (n : Ndn) (r : Rocks) where
  open n use {Name, Data}

  pub record Engine : Type 0 where
    pub db : Option r.Store
    pub rename_prefix : Bytes
    pub keys_trie_built : Bool
    pub keys_trie : Trie
    pub n_keys : ℕ
    pub value_size_bytes : ℕ

  -- `open`; `opened` is the store of an ok status of `DB::Open` or `DB::OpenForReadOnly`.
  abbrev open_db : Option r.Store → Result r.Store
  open_db none = err open_failed
  open_db (some store) = ok store

  -- The constructor of `StorageEngineImpl` with the store that `open` leaves in `db_`; `stats_` starts
  -- with whatever its memory held.
  abbrev constructed : Bytes → ℕ → ℕ → Result r.Store → Result Engine
  constructed rename_prefix n_keys value_size_bytes (err x) = err x
  constructed rename_prefix n_keys value_size_bytes (ok store) = ok (record {
    db = some store;
    rename_prefix = rename_prefix;
    keys_trie_built = false;
    keys_trie = new_node;
    n_keys = n_keys;
    value_size_bytes = value_size_bytes;
  })

  -- The constructor of `StorageEngine`. Its exception is that of `open`, with the path in its text.
  unfoldable pub construct : Bytes → ℕ → ℕ → Option r.Store → Result Engine
  construct rename_prefix n_keys value_size_bytes opened =
      constructed rename_prefix n_keys value_size_bytes (open_db opened)

  -- `close()`
  unfoldable pub close : Engine → Engine
  close e = record e { db = none }

  -- The packet that `put` stores: the one given, or its copy under the rename prefix with a digest
  -- of zeros for a signature.
  unfoldable pub stored_packet : Engine → Data → Data
  stored_packet e d =
      if is_empty e.rename_prefix
      then d
      else n.make_data (n.append (n.of_uri e.rename_prefix) (n.data_name d)) (n.meta_info d)
          (n.content d) (n.digest_signature (replicate n.digest_size 0))

  -- `db_->Put` of a packet under its name's URI; `Name()` if the status is not ok.
  unfoldable pub put_packet : Engine → r.Store → Data → Name × Engine
  put_packet e store d =
      let (s_ok, store') = r.put (n.to_uri (n.data_name d)) (n.wire_encode d) store in
      (if s_ok then n.data_name d else n.empty_name, record e { db = some store' })

  -- `if (!db_) throw …`, or the null dereference where the code makes no such test
  abbrev pub with_db : {A : Type 0} → Option r.Store → Error → (r.Store → Result A) → Result A
  with_db none x use_db = err x
  with_db (some store) x use_db = use_db store

  unfoldable pub put : Engine → Data → Result (Name × Engine)
  unfolding put_packet
  put e d = with_db e.db db_not_open λ store. ok (put_packet e store (stored_packet e d))

  abbrev decoded : Option Data → Result (Option Data)
  decoded none = err bad_packet
  decoded (some d) = ok (some d)

  -- the branches of `get` on the status of `db_->Get`
  abbrev pub fetched : Option Bytes → Result (Option Data)
  fetched none = ok none
  fetched (some data_string) = decoded (n.wire_decode data_string)

  unfoldable pub get : Engine → Name → Result (Option Data)
  get e data_name = with_db e.db db_not_open λ store. fetched (r.get (n.to_uri data_name) store)

  -- `keyName.size() - prefix.size()`, as an `int`
  unfoldable pub suffix_components : Name → Bytes → ℤ
  suffix_components prefix key = to_int32 (wrap64 (n.size (n.of_uri key) + 2 ^ 64 - n.size prefix))

  abbrev pub check_max_suffix_components : Interest Name → Bool
  check_max_suffix_components i = not (eqb_ℤ i.max_suffix_components (negsuc 0))

  abbrev pub check_min_suffix_components : Interest Name → Bool
  check_min_suffix_components i = not (eqb_ℤ i.min_suffix_components (negsuc 0))

  -- Whether the loop of `read` takes a key that begins with the prefix.
  unfoldable pub takes : Interest Name → Bytes → Bool
  takes i key =
      if check_max_suffix_components i || check_min_suffix_components i
      then (check_max_suffix_components i
          && leb_ℤ (suffix_components i.name key) i.max_suffix_components)
        || (check_min_suffix_components i
            && leb_ℤ i.min_suffix_components (suffix_components i.name key))
      else true

  -- The loop of `read` over the entries from `Seek` on: it ends at the first key that does not
  -- begin with the prefix, and `key` keeps the last key taken.
  unfoldable pub find_key : Interest Name → List (Bytes × Bytes) → Bytes → Bytes
  find_key i [] key = key
  find_key i ((k, v) ∷ es) key =
      let rest = find_key i es (if takes i k then k else key) in
      if r.starts_with k (n.to_uri i.name) then rest else key

  unfoldable pub read : Engine → Interest Name → Result (Option Data)
  unfolding get
  read e i =
      if i.can_be_prefix
      then (with_db e.db null_db λ store.
          let key = find_key i (r.seek (n.to_uri i.name) store) [] in
          if is_empty key then ok none else get e (n.of_uri key))
      else get e i.name

  -- One round of the loop of `buildKeyTrie`; `split` is `boost::split` at "/".
  unfoldable pub visit : (Bytes → List Bytes) → Bytes × Bytes → Engine → Engine
  visit split (k, v) e = record e {
    keys_trie = insert (split k) e.keys_trie;
    n_keys = wrap64 (e.n_keys + 1);
    value_size_bytes = wrap64 (e.value_size_bytes + length v);
  }

  unfoldable pub scan : (Bytes → List Bytes) → List (Bytes × Bytes) → Engine → Engine
  unfolding visit
  scan split [] e = e
  scan split (entry ∷ es) e = scan split es (visit split entry e)

  -- The assertion on the iterator's status comes after the loop.
  unfoldable pub build_key_trie : (Bytes → List Bytes) → Engine → Result Engine
  unfolding scan
  build_key_trie split e = with_db e.db null_db λ store.
      let e' = scan split (r.seek_to_first store) (record e { n_keys = 0; value_size_bytes = 0 }) in
      if r.scan_ok store then ok e' else err scan_failed

  unfoldable pub append_all : Name → List Bytes → Name
  append_all name [] = name
  append_all name (c ∷ cs) = append_all (n.append_component name (n.from_escaped_string c)) cs

  -- `Name n(cIt.first)` and the `append`s of the loop
  unfoldable pub to_name : List Bytes → Name
  unfolding append_all
  to_name [] = n.empty_name
  to_name (c ∷ cs) = append_all (n.of_uri c) cs

  -- The job that `getLongestPrefixes` dispatches, with the names it hands to the callback.
  abbrev hand_over : Result Engine → Result (List Name × Engine)
  hand_over (err x) = err x
  hand_over (ok e) =
      ok (map to_name (get_longest_prefixes e.keys_trie), record e { keys_trie_built = true })

  unfoldable pub scan_for_longest_prefixes :
      (Bytes → List Bytes) → Engine → Result (List Name × Engine)
  unfolding build_key_trie
  scan_for_longest_prefixes split e = hand_over (build_key_trie split e)
