-- ===== src/Ndn.antt =====
-- The libraries that the program calls and that are not in the repository: ndn-cpp (names, data
-- packets, TLV) and RocksDB. Each is a record of the operations the program uses; what the program
-- relies on is a record of laws beside it, taken as a hypothesis where a theorem needs it.
use fast_repo.Prelude.{ℕ, Bool, true, ◌≡◌, Option, some, List, [], ◌∷◌, In, All}
use fast_repo.Prelude.Bytes.{Bytes, bytes_le, is_prefix}
use fast_repo.Prelude.Int.{ℤ}

pub record Ndn : Type 1 where
  pub Name : Type 0
  pub Component : Type 0
  pub Data : Type 0
  pub MetaInfo : Type 0
  pub Content : Type 0
  pub Signature : Type 0
  -- equality of the keys of `std::map<ndn::Name, …>`
  pub name_discrete : Discrete Name
  -- `Name()`, `Name(uri)`, `toUri()`, `size()`, `append(…)`, `get(i)` (which throws), `isPrefixOf`
  pub empty_name : Name
  pub of_uri : Bytes → Name
  pub to_uri : Name → Bytes
  pub size : Name → ℕ
  pub append : Name → Name → Name
  pub append_component : Name → Component → Name
  pub get : Name → ℕ → Option Component
  pub is_prefix_of : Name → Name → Bool
  -- `Name::Component(bytes)`, `Name::fromEscapedString`
  pub component : Bytes → Component
  pub from_escaped_string : Bytes → Component
  -- `Data(name)` with the meta info, the content and the signature that are then set
  pub make_data : Name → MetaInfo → Content → Signature → Data
  pub data_name : Data → Name
  pub meta_info : Data → MetaInfo
  pub content : Data → Content
  -- `DigestSha256Signature` with the given bits, and ndn_SHA256_DIGEST_SIZE
  pub digest_signature : Bytes → Signature
  pub digest_size : ℕ
  pub wire_encode : Data → Bytes
  -- throws on bytes that are no packet
  pub wire_decode : Bytes → Option Data

-- A RocksDB (or LevelDB) handle. An iterator is the list of entries that it would still visit.
pub record Rocks : Type 1 where
  pub Store : Type 0
  -- `Put`: whether the status is ok, and the store afterwards
  pub put : Bytes → Bytes → Store → Bool × Store
  -- `Get`: a value if the status is ok
  pub get : Bytes → Store → Option Bytes
  -- `Seek(target)` and `SeekToFirst()`
  pub seek : Bytes → Store → List (Bytes × Bytes)
  pub seek_to_first : Store → List (Bytes × Bytes)
  -- `status().ok()` of an iterator that has visited the entries of `SeekToFirst()`
  pub scan_ok : Store → Bool
  -- `key.starts_with(prefix)`, the key first
  pub starts_with : Bytes → Bytes → Bool

-- Each key is at most the keys behind it.
abbrev pub Ascending : List (Bytes × Bytes) → Type 0
Ascending [] = Unit
Ascending (e ∷ es) = All (λ f. bytes_le e.0 f.0 ≡ true) es × Ascending es

-- What the documentation of RocksDB says of an iterator under the default comparator.
pub record IteratorLaws (r : Rocks) : Type 0 where
  pub starts_with_lem : (k p : Bytes) → r.starts_with k p ≡ is_prefix p k
  pub seek_above : (t : Bytes) (s : r.Store) → All (λ e. bytes_le t e.0 ≡ true) (r.seek t s)
  pub seek_ascending : (t : Bytes) (s : r.Store) → Ascending (r.seek t s)
  pub seek_sound : (t : Bytes) (s : r.Store) → All (λ e. r.get e.0 s ≡ some e.1) (r.seek t s)
  pub seek_complete :
      (t k v : Bytes) (s : r.Store)
      → r.get k s ≡ some v
      → bytes_le t k ≡ true
      → In (k, v) (r.seek t s)

-- A write with an ok status is read back, and touches no other key.
pub record WriteLaws (r : Rocks) : Type 0 where
  pub get_written :
      (k v : Bytes) (s : r.Store) → (r.put k v s).0 ≡ true → r.get k (r.put k v s).1 ≡ some v
  pub get_other : (k j v : Bytes) (s : r.Store) → ¬ (k ≡ j) → r.get j (r.put k v s).1 ≡ r.get j s

-- What the program reads of an Interest: its getters' values.
pub record Interest (Name : Type 0) : Type 0 where
  pub name : Name
  pub can_be_prefix : Bool
  pub must_be_fresh : Bool
  -- -1 stands for "not set"
  pub min_suffix_components : ℤ
  pub max_suffix_components : ℤ
