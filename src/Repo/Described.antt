-- ===== src/Repo/Described.antt =====
-- `parseConfig` against a plain description of the configuration that a property tree stands for.
use fast_repo.Prelude.{
  ℕ, ◌-◌, ◌^◌, ◌≡◌, refl, ap, ◌∙◌, sym, inl, inr, Bool, true, false, ◌||◌, ◌&&◌, Option, none, some,
  List, [], ◌∷◌, ◌++◌, arith, if◌then◌else◌, is_some, Bool-cases,
}
use mathlib.Core.List.{append_assoc, append-nil}
use mathlib.Core.Path.{fun_ext}
use fast_repo.Prelude.Bytes.{Bytes}
use fast_repo.Prelude.Int.{ℤ}
use fast_repo.Ndn.{Ndn}
use fast_repo.Repo.Config.{
  ◌>>=◌, Config, Error, command_entry, Result, required, data_entry, command_entry, ok, err, Tree,
  is_word, prefix_key, subset_key, rocksdb_method, read_only_mode, default_config, parse_data,
  parse_command, parse_storage, parse_tree, to_size,
}
use fast_repo.Repo.Parsed.{prefix_values, prefix_values-cons}

unfoldable pub all : {A : Type 0} → (A → Bool) → List A → Bool
all p [] = true
all p (x ∷ xs) = p x && all p xs

module _ (n : Ndn) (to_int : Bytes → Option ℤ) where
  -- The section `data` knows two keys, the second with a number.
  abbrev is_data : Bytes × Bytes → Bool
  is_data (key, value) =
      is_word prefix_key key || (is_word subset_key key && is_some (to_int value))

  abbrev is_command : Bytes × Bytes → Bool
  is_command (key, value) = is_word prefix_key key

  abbrev or_before : ℕ → Option ℤ → ℕ
  or_before before none = before
  or_before before (some x) = to_size n x

  -- The last number under the key "registration-subset", if there is one.
  unfoldable pub subset_of : List (Bytes × Bytes) → ℕ → ℕ
  subset_of [] before = before
  subset_of ((key, value) ∷ es) before = subset_of es (
      if is_word prefix_key key
      then before
      else if is_word subset_key key
      then or_before before (to_int value)
      else before)

  abbrev with_data : List (Bytes × Bytes) → Config n → Config n
  with_data es c = record c {
    data_prefixes = c.data_prefixes ++ prefix_values n es;
    registration_subset = subset_of es c.registration_subset;
  }

  abbrev with_commands : List (Bytes × Bytes) → Config n → Config n
  with_commands es c = record c { repo_prefixes = c.repo_prefixes ++ prefix_values n es }

  data_entry_good :
      (e : Bytes × Bytes) (c : Config n)
      → is_data e ≡ true
      → data_entry n to_int e.0 e.1 c ≡ ok (with_data (e ∷ []) c)
  unfolding data_entry subset_of
  data_entry_good (key, value) c good = ground (arith, append-nil c.data_prefixes)

  data_entry_bad :
      (e : Bytes × Bytes) (c : Config n)
      → is_data e ≡ false
      → (x : Error) × (data_entry n to_int e.0 e.1 c ≡ err x)
  unfolding data_entry
  data_entry_bad (key, value) c bad = elim (Bool-cases (is_word subset_key key)) [
    | inl subset ↦ (Error.bad_value, ground (arith, bad, subset))
    | inr other ↦ (Error.unrecognized, ground (arith, bad, other))
  ]

  -- The configuration of a result without its error.
  abbrev pub accepted : Result (Config n) → Option (Config n)
  accepted (err x) = none
  accepted (ok c) = some c

  abbrev only_if : Bool → Config n → Option (Config n)
  only_if b c = if b then some c else none

  with_data-cons :
      (e : Bytes × Bytes) (es : List (Bytes × Bytes)) (c : Config n)
      → with_data es (with_data (e ∷ []) c) ≡ with_data (e ∷ es) c
  unfolding subset_of
  with_data-cons (key, value) es c =
      ap
        (λ names. record c {
          data_prefixes = names;
          registration_subset = subset_of ((key, value) ∷ es) c.registration_subset;
        })
        (append_assoc c.data_prefixes (prefix_values n ((key, value) ∷ [])) (prefix_values n es)
          ∙ ap (λ names. c.data_prefixes ++ names) (prefix_values-cons n (key, value) es))

  accepted-parse_data :
      (es : List (Bytes × Bytes)) (c : Config n)
      → accepted (parse_data n to_int es c) ≡ only_if (all is_data es) (with_data es c)
  unfolding parse_data all subset_of
  accepted-parse_data [] c = ground (arith, append-nil c.data_prefixes)
  accepted-parse_data (e ∷ es) c = elim (Bool-cases (is_data e)) [
    | inl good ↦
        rw (data_entry_good e c good, good)
          (accepted-parse_data es (with_data (e ∷ []) c)
            ∙ ap (only_if (all is_data es)) (with_data-cons e es c))
    | inr bad ↦ let (x, failed) = data_entry_bad e c bad in rw (failed, bad) refl
  ]

  command_entry_good :
      (e : Bytes × Bytes) (c : Config n)
      → is_command e ≡ true
      → command_entry n e.0 e.1 c ≡ ok (with_commands (e ∷ []) c)
  unfolding command_entry
  command_entry_good (key, value) c good = ground (arith, good)

  command_entry_bad :
      (e : Bytes × Bytes) (c : Config n)
      → is_command e ≡ false
      → command_entry n e.0 e.1 c ≡ err Error.unrecognized
  unfolding command_entry
  command_entry_bad (key, value) c bad = ground (arith, bad)

  accepted-parse_command :
      (es : List (Bytes × Bytes)) (c : Config n)
      → accepted (parse_command n es c) ≡ only_if (all is_command es) (with_commands es c)
  unfolding parse_command all
  accepted-parse_command [] c = ground (arith, append-nil c.repo_prefixes)
  accepted-parse_command (e ∷ es) c = elim (Bool-cases (is_command e)) [
    | inl good ↦
        ap (λ x. accepted (x >>= λ c'. parse_command n es c')) (command_entry_good e c good)
        ∙ accepted-parse_command es (with_commands (e ∷ []) c)
        ∙ ap (λ names. only_if (all is_command es) (record c { repo_prefixes = names }))
            (append_assoc c.repo_prefixes (prefix_values n (e ∷ [])) (prefix_values n es)
              ∙ ap (λ names. c.repo_prefixes ++ names) (prefix_values-cons n e es))
        ∙ ap (λ b. only_if (b && all is_command es) (with_commands (e ∷ es) c)) (sym good)
    | inr bad ↦ rw (command_entry_bad e c bad, bad) refl
  ]

  abbrev when : {A B : Type 0} → Option A → (A → Option B) → Option B
  when none next = none
  when (some a) next = next a

  -- The values of the section `storage` must be there, and the method be "rocksdb"; the repository is
  -- read-only just if the mode is "read_only".
  abbrev with_storage : Tree → Config n → Option (Config n)
  with_storage t c = when t.storage_method λ method. when t.storage_mode λ mode.
      when t.storage_path λ db_path. when t.has_validator λ validator.
        only_if (is_word rocksdb_method method)
          (record c { read_only = is_word read_only_mode mode; db_path = db_path })

  -- Both sections of names must be there with known keys; the configuration has their names and the last
  -- number of the section `data`.
  unfoldable pub described : Bytes → Tree → Option (Config n)
  described path t = when t.data_section λ data_conf. when t.command_section λ command_conf.
      if all is_data data_conf && all is_command command_conf
      then with_storage t (record {
        read_only = false;
        repo_config_path = path;
        db_path = [];
        rename_prefix = [];
        data_prefixes = prefix_values n data_conf;
        registration_subset = subset_of data_conf (2 ^ 64 - 1);
        repo_prefixes = prefix_values n command_conf;
      })
      else none

  accepted-bind :
      (first : Result (Config n)) (next : Config n → Result (Config n))
      → accepted (first >>= next) ≡ when (accepted first) (λ c. accepted (next c))
  accepted-bind (err x) next = refl
  accepted-bind (ok c) next = refl

  accepted-parse_storage :
      (t : Tree) (c : Config n) → accepted (parse_storage n t c) ≡ with_storage t c
  unfolding parse_storage
  accepted-parse_storage t c = ground arith

  both_sections :
      (t : Tree) (data_good commands_good : Bool) (c : Config n) (commands : Config n → Config n)
      → when
          (only_if data_good c)
          (λ c1. when (only_if commands_good (commands c1)) (with_storage t))
        ≡ (if data_good && commands_good then with_storage t (commands c) else none)
  both_sections t true true c commands = refl
  both_sections t true false c commands = refl
  both_sections t false commands_good c commands = refl

  parse_commands :
      (t : Tree) (es : List (Bytes × Bytes)) (c : Config n)
      → accepted (parse_command n es c >>= λ c2. parse_storage n t c2)
        ≡ when (only_if (all is_command es) (with_commands es c)) (with_storage t)
  parse_commands t es c =
      accepted-bind (parse_command n es c) _
      ∙ rw (accepted-parse_command es c) (
          ap (when (only_if (all is_command es) (with_commands es c)))
            (fun_ext (accepted-parse_storage t)))

  never : (first : Result (Config n)) → accepted (first >>= λ c. err Error.missing) ≡ none
  never (err x) = refl
  never (ok c) = refl

  abbrev initial : Bytes → Config n
  initial path = record (default_config n) { repo_config_path = path }

  by_sections :
      (path : Bytes) (t : Tree) (data_section command_section : Option (List (Bytes × Bytes)))
      → accepted (
          required data_section >>= λ data_conf.
          parse_data n to_int data_conf (initial path) >>= λ c1.
          required command_section >>= λ command_conf.
          parse_command n command_conf c1 >>= λ c2. parse_storage n t c2)
        ≡ when data_section (λ data_conf. when command_section λ command_conf.
          if all is_data data_conf && all is_command command_conf
          then with_storage t (with_commands command_conf (with_data data_conf (initial path)))
          else none)
  by_sections path t none command_section = refl
  by_sections path t (some ds) none = never (parse_data n to_int ds (initial path))
  by_sections path t (some ds) (some cs) =
      accepted-bind (parse_data n to_int ds (initial path)) _
      ∙ ap (λ o. when o (λ c1. accepted (parse_command n cs c1 >>= λ c2. parse_storage n t c2)))
          (accepted-parse_data ds (initial path))
      ∙ ap (when (only_if (all is_data ds) (with_data ds (initial path))))
          (fun_ext (parse_commands t cs))
      ∙ both_sections t (all is_data ds) (all is_command cs) (with_data ds (initial path))
          (with_commands cs)

  -- `parseConfig` accepts a tree just if it has every section and value, known keys and the method
  -- "rocksdb", and then gives the configuration that the description gives.
  pub parse_tree_lem :
      (path : Bytes) (t : Tree) → accepted (parse_tree n to_int path (some t)) ≡ described path t
  unfolding parse_tree described
  parse_tree_lem path t = by_sections path t t.data_section t.command_section
