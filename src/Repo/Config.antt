-- ===== src/Repo/Config.antt =====
-- `parseConfig` of src/repo/fast-repo.cpp and the part of `main` in src/main.cpp that puts the
-- options together. The property tree is boost's: the model starts from what is read of it.
use fast_repo.Prelude.{
  ℕ, ◌-◌, ◌^◌, ◌≡◌, refl, Bool, true, false, not, Option, none, some, List, [], ◌∷◌, ◌++◌,
  if◌then◌else◌, ite,
}
use fast_repo.Prelude.Bytes.{Bytes, bytes_discrete}
use fast_repo.Prelude.Int.{ℤ, pos, negsuc}
use fast_repo.Ndn.{Ndn}

-- A file that does not open or parse, a missing child or value, an unknown key of a section, a
-- value that is no number, and a method other than "rocksdb".
pub data Error : Type 0 where
  cannot_open cannot_read missing unrecognized bad_value not_rocksdb : Error

pub data Result (A : Type 0) : Type 0 where
  err : Error → Result A
  ok : A → Result A

infixl 5 ◌>>=◌
abbrev pub ◌>>=◌ : {A B : Type 0} → Result A → (A → Result B) → Result B
err x >>= next = err x
ok value >>= next = next value

-- What a chain that went well has passed through.
pub bind_ok :
    {A B : Type 0} {last : B} (next : A → Result B) (first : Result A)
    → (first >>= next) ≡ ok last
    → (middle : A) × (first ≡ ok middle) × (next middle ≡ ok last)
bind_ok next (err x) went_well = cc
bind_ok next (ok middle) went_well = (middle, refl, went_well)

-- `get_child` and `get`, which throw on a missing path
abbrev pub required : {A : Type 0} → Option A → Result A
required none = err missing
required (some a) = ok a

-- What is read below `repo`: the sections `data` and `command` as keys with their text, and the
-- values under `storage`.
pub record Tree : Type 0 where
  pub data_section : Option (List (Bytes × Bytes))
  pub command_section : Option (List (Bytes × Bytes))
  pub storage_method : Option Bytes
  pub storage_mode : Option Bytes
  pub storage_path : Option Bytes
  pub has_validator : Option (Unit {0})

abbrev pub prefix_key : Bytes
prefix_key = b'p' ∷ b'r' ∷ b'e' ∷ b'f' ∷ b'i' ∷ b'x' ∷ []

abbrev pub subset_key : Bytes
subset_key =
    b'r' ∷ b'e' ∷ b'g' ∷ b'i' ∷ b's' ∷ b't' ∷ b'r' ∷ b'a' ∷ b't' ∷ b'i' ∷ b'o' ∷ b'n' ∷ b'-' ∷ b's'
    ∷ b'u' ∷ b'b' ∷ b's' ∷ b'e' ∷ b't' ∷ []

abbrev pub rocksdb_method : Bytes
rocksdb_method = b'r' ∷ b'o' ∷ b'c' ∷ b'k' ∷ b's' ∷ b'd' ∷ b'b' ∷ []

abbrev pub read_only_mode : Bytes
read_only_mode = b'r' ∷ b'e' ∷ b'a' ∷ b'd' ∷ b'_' ∷ b'o' ∷ b'n' ∷ b'l' ∷ b'y' ∷ []

abbrev pub is_word : Bytes → Bytes → Bool
is_word word s = ite (bytes_discrete s word) true false

module _ (n : Ndn) where
  open n use {Name}

  -- `validatorNode` is copied from the tree and never read, so it is left out.
  pub record Config : Type 0 where
    pub read_only : Bool
    pub repo_config_path : Bytes
    pub db_path : Bytes
    pub rename_prefix : Bytes
    pub data_prefixes : List Name
    pub registration_subset : ℕ
    pub repo_prefixes : List Name

  -- `Config()`; DISABLED_SUBSET_LENGTH is -1 as a `size_t`.
  abbrev pub default_config : Config
  default_config = record {
    read_only = false;
    repo_config_path = [];
    db_path = [];
    rename_prefix = [];
    data_prefixes = [];
    registration_subset = 2 ^ 64 - 1;
    repo_prefixes = [];
  }

  -- an `int` that is assigned to a `size_t`
  abbrev pub to_size : ℤ → ℕ
  to_size (pos x) = x
  to_size (negsuc x) = 2 ^ 64 - 1 - x

  abbrev set_subset : Config → Option ℤ → Result Config
  set_subset c none = err bad_value
  set_subset c (some x) = ok (record c { registration_subset = to_size x })

  -- One round of the loop over the section `data`; `to_int` is `get_value<int>`.
  unfoldable pub data_entry : (Bytes → Option ℤ) → Bytes → Bytes → Config → Result Config
  data_entry to_int key value c =
      if is_word prefix_key key
      then ok (record c { data_prefixes = c.data_prefixes ++ n.of_uri value ∷ [] })
      else if is_word subset_key key
      then set_subset c (to_int value)
      else err unrecognized

  unfoldable pub parse_data : (Bytes → Option ℤ) → List (Bytes × Bytes) → Config → Result Config
  parse_data to_int [] c = ok c
  parse_data to_int ((key, value) ∷ rest) c =
      data_entry to_int key value c >>= λ c'. parse_data to_int rest c'

  -- One round of the loop over the section `command`.
  unfoldable pub command_entry : Bytes → Bytes → Config → Result Config
  command_entry key value c =
      if is_word prefix_key key
      then ok (record c { repo_prefixes = c.repo_prefixes ++ n.of_uri value ∷ [] })
      else err unrecognized

  unfoldable pub parse_command : List (Bytes × Bytes) → Config → Result Config
  parse_command [] c = ok c
  parse_command ((key, value) ∷ rest) c = command_entry key value c >>= λ c'. parse_command rest c'

  -- The end of `parseConfig`, from the test of the storage method on.
  unfoldable pub parse_storage : Tree → Config → Result Config
  parse_storage t c = do
    method ← required t.storage_method
    if is_word rocksdb_method method
        then (do
          mode ← required t.storage_mode
          db_path ← required t.storage_path
          validator ← required t.has_validator
          ok (record c { read_only = is_word read_only_mode mode; db_path = db_path }))
        else err not_rocksdb

  -- `parseConfig` behind `read_info`: the tree below `repo`, if there is such a child.
  unfoldable pub parse_tree : (Bytes → Option ℤ) → Bytes → Option Tree → Result Config
  parse_tree to_int path repo = do
    t ← required repo
    data_conf ← required t.data_section
    c1 ← parse_data to_int data_conf (record default_config { repo_config_path = path })
    command_conf ← required t.command_section
    c2 ← parse_command command_conf c1
    parse_storage t c2

  -- `file` is the open file's property tree, `none` where it cannot be opened or read.
  unfoldable pub parse_config :
      (Bytes → Option ℤ) → Bytes → Option (Option (Option Tree)) → Result Config
  parse_config to_int path none = err cannot_open
  parse_config to_int path (some none) = err cannot_read
  parse_config to_int path (some (some repo)) = parse_tree to_int path repo

  -- The command line as docopt returns it.
  pub record Options : Type 0 where
    pub config : Option Bytes
    pub command_prefix : Option Bytes
    pub db_path : Bytes
    pub readonly : Bool
    pub rename_prefix : Option Bytes

  abbrev with_command_prefix : Options → Config → Config
  with_command_prefix o c = elim o.command_prefix [
    | none ↦ c
    | some prefix ↦ record c {
      repo_prefixes = c.repo_prefixes ++ n.of_uri prefix ∷ [];
      db_path = o.db_path;
    }
  ]

  abbrev with_rename_prefix : Options → Config → Config
  with_rename_prefix o c = elim o.rename_prefix [
    | none ↦ c
    | some prefix ↦ record c { rename_prefix = prefix }
  ]

  -- `main` from the configuration file's result, or the default one, to the configuration that the
  -- repository gets.
  unfoldable pub override : Options → Config → Config
  override o c =
      let c1 = with_command_prefix o c in
      let c2 = if o.readonly then record c1 { read_only = true } else c1 in with_rename_prefix o c2

  -- whether `main` calls `enableListening`
  unfoldable pub listens : Config → Bool
  listens c = not c.read_only
