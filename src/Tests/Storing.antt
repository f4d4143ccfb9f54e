-- ===== src/Tests/Storing.antt =====
-- The theorems on the storage engine at concrete stores, packets and Interests.
use fast_repo.Prelude.{
  arith, inl, ◌≢◌, ◌≡◌, refl, true, false, ◌||◌, none, some, List, [], ◌∷◌, ◌++◌, any, length, In,
  ◌%◌, ◌^◌, ℕ_discrete,
}
use fast_repo.Prelude.Bytes.{Bytes, bytes_discrete, bytes_le, is_prefix}
use fast_repo.Prelude.Int.{pos, negsuc}
use fast_repo.Ndn.{Interest}
use fast_repo.Storage.Trie.{Trie, new_node, get_longest_prefixes}
use fast_repo.Storage.Trie
use fast_repo.Storage.Engine.{
  Engine, ok, get, put, read, stored_packet, takes, build_key_trie, scan,
}
use fast_repo.Storage.Read.{read_greatest, read-none, takes_everything, found_key}
use fast_repo.Storage.Facade
use fast_repo.Storage.Facade.{announced_under_the_old_name}
use fast_repo.Storage.Histories.{puts, newest, get-puts}
use fast_repo.Storage.Scan.{build_key_trie_lem, payload}
use fast_repo.Storage.Sound.{insert_all, get_longest_prefixes-begins}
use fast_repo.Storage.Prefixes.{
  has_path, begins, kept, get_longest_prefixes-covers, shorter_key_is_lost,
}
use fast_repo.Tests.Store.{
  Sorted, sorted_store, iterator_laws, write_laws, empty_store, find, insert,
}
use fast_repo.Tests.Names.{ListName, list_names, split, uri, packet_laws}

-- "a" and "b" as components, and the names /a and /a/b
abbrev pub comp_a : Bytes
comp_a = b'a' ∷ []

abbrev pub comp_b : Bytes
comp_b = b'b' ∷ []

abbrev pub name_a : ListName
name_a = comp_a ∷ []

abbrev pub name_ab : ListName
name_ab = comp_a ∷ comp_b ∷ []

abbrev pub packet : ListName → Bytes
packet name = uri name ++ 0 ∷ b'x' ∷ []

abbrev pub two_packets : Sorted
two_packets =
    (sorted_store.put (uri name_a) (packet name_a)
      (sorted_store.put (uri name_ab) (packet name_ab) empty_store).1).1

abbrev pub engine : Sorted → Engine list_names sorted_store
engine s = record {
  db = some s;
  rename_prefix = [];
  keys_trie_built = false;
  keys_trie = new_node;
  n_keys = 0;
  value_size_bytes = 0;
}

abbrev pub below_a : Interest ListName
below_a = record {
  name = name_a;
  can_be_prefix = true;
  must_be_fresh = false;
  min_suffix_components = negsuc 0;
  max_suffix_components = negsuc 0;
}

abbrev bounded : Interest ListName
bounded = record below_a { min_suffix_components = pos 1; max_suffix_components = pos 1 }

printed :
    (key w : Bytes)
    → sorted_store.get key two_packets ≡ some w
    → list_names.to_uri (list_names.of_uri key) ≡ key
unfolding find insert bytes_discrete ℕ_discrete
printed key w h = elim (bytes_discrete key (uri name_a)) [
  | yes e ↦ rw e refl
  | no ne ↦ elim (bytes_discrete key (uri name_ab)) [
    | yes e ↦ rw e refl
    | no ne' ↦ absurd (ground (arith, ne, ne', h))
  ]
]

read_greatest_example :
    let key = found_key list_names sorted_store iterator_laws below_a two_packets in
    (w : Bytes) × (x : Bytes) × (read list_names sorted_store (engine two_packets) below_a
      ≡ ok (some x))
    × (sorted_store.get key two_packets ≡ some w)
    × (some w ≡ some x)
    × ((is_prefix (uri name_a) key ≡ true) × (takes list_names sorted_store below_a key ≡ true))
    × (bytes_le (uri name_a) key ≡ true)
unfolding find insert takes is_prefix bytes_le bytes_discrete ℕ_discrete
read_greatest_example =
    read_greatest list_names sorted_store iterator_laws below_a (engine two_packets) two_packets
      (uri name_a) (packet name_a) refl refl refl (refl, refl) (λ h. cc) printed
      (λ key w h. (w, refl))

read-none_example : read list_names sorted_store (engine empty_store) below_a ≡ ok none
unfolding find
read-none_example =
    read-none list_names sorted_store iterator_laws below_a (engine empty_store) empty_store refl
      refl (λ k v h el. cc)

takes_everything_example : takes list_names sorted_store bounded (uri name_ab) ≡ true
takes_everything_example =
    takes_everything list_names sorted_store bounded (uri name_ab) refl refl refl

-- /a is stored, then /a/b, then /a again with other content.
abbrev three_puts : List Bytes
three_puts = packet name_a ∷ packet name_ab ∷ (uri name_a ++ 0 ∷ b'y' ∷ []) ∷ []

get-puts_example :
    (e' : Engine list_names sorted_store) × (puts list_names sorted_store
        (engine empty_store)
        three_puts
      ≡ ok e')
    × (get list_names sorted_store e' name_a ≡ ok (some (uri name_a ++ 0 ∷ b'y' ∷ [])))
unfolding newest stored_packet bytes_discrete ℕ_discrete
get-puts_example =
    get-puts list_names sorted_store packet_laws write_laws (λ k v s. refl) three_puts
      (engine empty_store) empty_store name_a refl

build_key_trie_lem_example :
    let es = sorted_store.seek_to_first two_packets in
    let e' = scan list_names sorted_store split es (engine two_packets) in
    (build_key_trie list_names sorted_store split (engine two_packets) ≡ ok e')
    × (e'.n_keys ≡ length es % 2 ^ 64)
    × (e'.value_size_bytes ≡ payload es % 2 ^ 64)
    × ((p : List Bytes)
        → has_path p e'.keys_trie
          ≡ (has_path p new_node || any (λ entry. begins p (kept (split entry.0))) es))
build_key_trie_lem_example =
    build_key_trie_lem list_names sorted_store split (engine two_packets) two_packets refl

abbrev small_trie : Trie
small_trie = Trie.insert name_ab new_node

get_longest_prefixes-covers_example :
    (q : List Bytes) × In q (get_longest_prefixes small_trie) × (begins q name_ab ≡ true)
unfolding has_path Trie.insert bytes_discrete ℕ_discrete
get_longest_prefixes-covers_example =
    get_longest_prefixes-covers name_ab small_trie (λ h. cc) refl (λ c. refl)

shorter_key_is_lost_example :
    (get_longest_prefixes (Trie.insert name_ab (Trie.insert name_a new_node)) ≡ name_ab ∷ [])
    × (begins name_ab name_a ≡ false)
shorter_key_is_lost_example =
    shorter_key_is_lost comp_a [] (comp_b ∷ []) (refl, tt) (refl, tt) (λ h. cc)

get_longest_prefixes-begins_example :
    (any (λ k. begins name_ab (kept k)) (name_ab ∷ name_a ∷ []) ≡ true) × (name_ab ≢ [])
unfolding insert_all get_longest_prefixes Trie.insert bytes_discrete ℕ_discrete
get_longest_prefixes-begins_example =
    get_longest_prefixes-begins (name_ab ∷ name_a ∷ []) name_ab (inl refl)

abbrev renaming : Engine list_names sorted_store
renaming = record (engine two_packets) { rename_prefix = b'/' ∷ comp_b }

abbrev renamed : Bytes
renamed = stored_packet list_names sorted_store renaming (packet name_a)

abbrev renamed_engine : Engine list_names sorted_store
renamed_engine = record renaming {
  db = some (sorted_store.put (uri (comp_b ∷ name_a)) renamed two_packets).1;
}

announced_under_the_old_name_example :
    (comp_b ∷ name_a ≡ list_names.data_name renamed)
    × (get list_names sorted_store renamed_engine (comp_b ∷ name_a) ≡ ok (some renamed))
    × (name_a ∷ []
        ≡ Facade.after_data_insertion list_names sorted_store ListName
            ((λ name. name ∷ []) ∷ [])
            name_a)
    × (get list_names sorted_store renamed_engine name_a
        ≡ get list_names sorted_store renaming name_a)
unfolding Facade.put Facade.after_data_insertion put stored_packet
announced_under_the_old_name_example =
    announced_under_the_old_name list_names sorted_store ListName packet_laws write_laws renaming _
      two_packets ((λ name. name ∷ []) ∷ []) (packet name_a) (comp_b ∷ name_a) (name_a ∷ []) refl
      refl (λ h. cc) refl
