-- ===== src/Repo/Parsed.antt =====
-- What an accepted configuration holds, and when the repository listens for commands.
use fast_repo.Prelude.{
  ◌≡◌, ap, ◌∙◌, true, ◌||◌, ◌&&◌, not, Option, none, some, List, [], ◌∷◌, ◌++◌, arith, All,
  if◌then◌else◌,
}
use mathlib.Core.List.{append_assoc, append-nil}
use fast_repo.Prelude.Bytes.{Bytes}
use fast_repo.Prelude.Int.{ℤ}
use fast_repo.Ndn.{Ndn}
use fast_repo.Repo.Config.{
  Config, bind_ok, required, data_entry, command_entry, ok, Tree, Options, is_word, prefix_key,
  subset_key, rocksdb_method, parse_data, parse_command, parse_storage, parse_tree, override,
  listens,
}

module _ (n : Ndn) where
  -- The names under the keys "prefix" of a section, in order.
  abbrev pub prefix_values : List (Bytes × Bytes) → List n.Name
  prefix_values [] = []
  prefix_values ((key, value) ∷ es) =
      if is_word prefix_key key then n.of_uri value ∷ prefix_values es else prefix_values es

  abbrev pub DataKey : Bytes × Bytes → Type 0
  DataKey e = (is_word prefix_key e.0 || is_word subset_key e.0) ≡ true

  abbrev pub CommandKey : Bytes × Bytes → Type 0
  CommandKey e = is_word prefix_key e.0 ≡ true

  data_entry_ok :
      (to_int : Bytes → Option ℤ) (key value : Bytes) (c c' : Config n)
      → data_entry n to_int key value c ≡ ok c'
      → DataKey (key, value)
        × (c'.data_prefixes ≡ c.data_prefixes ++ prefix_values ((key, value) ∷ []))
        × (c'.repo_prefixes ≡ c.repo_prefixes)
  unfolding data_entry
  data_entry_ok to_int key value c c' e = ground (arith, append-nil c.data_prefixes)

  pub prefix_values-cons :
      (e : Bytes × Bytes) (es : List (Bytes × Bytes))
      → prefix_values (e ∷ []) ++ prefix_values es ≡ prefix_values (e ∷ es)
  prefix_values-cons (key, value) es = ground arith

  parse_data_ok :
      (to_int : Bytes → Option ℤ) (es : List (Bytes × Bytes)) (c c' : Config n)
      → parse_data n to_int es c ≡ ok c'
      → All DataKey es
        × (c'.data_prefixes ≡ c.data_prefixes ++ prefix_values es)
        × (c'.repo_prefixes ≡ c.repo_prefixes)
  unfolding parse_data
  parse_data_ok to_int [] c c' e = ground (arith, append-nil c.data_prefixes)
  parse_data_ok to_int ((key, value) ∷ es) c c' e =
      let (c1, first, rest) = bind_ok _ (data_entry n to_int key value c) e in
      let (known, values, same) = data_entry_ok to_int key value c c1 first in
      let (all, more, kept) = parse_data_ok to_int es c1 c' rest in
      (
        (known, all),
        more
            ∙ ap (λ x. x ++ prefix_values es) values
            ∙ append_assoc c.data_prefixes (prefix_values ((key, value) ∷ [])) (prefix_values es)
            ∙ ap (λ x. c.data_prefixes ++ x) (prefix_values-cons (key, value) es),
        kept ∙ same,
      )

  command_entry_ok :
      (key value : Bytes) (c c' : Config n)
      → command_entry n key value c ≡ ok c'
      → CommandKey (key, value)
        × (c'.repo_prefixes ≡ c.repo_prefixes ++ prefix_values ((key, value) ∷ []))
        × (c'.data_prefixes ≡ c.data_prefixes)
  unfolding command_entry
  command_entry_ok key value c c' e = ground arith

  parse_command_ok :
      (es : List (Bytes × Bytes)) (c c' : Config n)
      → parse_command n es c ≡ ok c'
      → All CommandKey es
        × (c'.repo_prefixes ≡ c.repo_prefixes ++ prefix_values es)
        × (c'.data_prefixes ≡ c.data_prefixes)
  unfolding parse_command
  parse_command_ok [] c c' e = ground (arith, append-nil c.repo_prefixes)
  parse_command_ok ((key, value) ∷ es) c c' e =
      let (c1, first, rest) = bind_ok _ (command_entry n key value c) e in
      let (known, values, same) = command_entry_ok key value c c1 first in
      let (all, more, kept) = parse_command_ok es c1 c' rest in
      (
        (known, all),
        more
            ∙ ap (λ x. x ++ prefix_values es) values
            ∙ append_assoc c.repo_prefixes (prefix_values ((key, value) ∷ [])) (prefix_values es)
            ∙ ap (λ x. c.repo_prefixes ++ x) (prefix_values-cons (key, value) es),
        kept ∙ same,
      )

  required_ok : {A : Type 0} {o : Option A} {a : A} → required o ≡ ok a → o ≡ some a
  required_ok {o = none} h = cc
  required_ok {o = some b} h = ground arith

  parse_storage_ok :
      (t : Tree) (c c' : Config n)
      → parse_storage n t c ≡ ok c'
      → (t.storage_method ≡ some rocksdb_method)
        × (c'.data_prefixes ≡ c.data_prefixes)
        × (c'.repo_prefixes ≡ c.repo_prefixes)
  unfolding parse_storage
  parse_storage_ok t c c' e = ground arith

  -- A tree that is accepted has the sections `data` and `command`, names only known keys in them,
  -- and has the storage method "rocksdb". The configuration has the prefixes of the section `data`
  -- as its data prefixes and those of the section `command` as its command prefixes, in order.
  pub parse_tree_ok :
      (to_int : Bytes → Option ℤ) (path : Bytes) (t : Tree) (c : Config n)
      → parse_tree n to_int path (some t) ≡ ok c
      → (data_conf : List (Bytes × Bytes)) × (command_conf : List (Bytes × Bytes)) × (t.data_section
          ≡ some data_conf)
        × (t.command_section ≡ some command_conf)
        × All DataKey data_conf
        × All CommandKey command_conf
        × (t.storage_method ≡ some rocksdb_method)
        × (c.data_prefixes ≡ prefix_values data_conf)
        × (c.repo_prefixes ≡ prefix_values command_conf)
  unfolding parse_tree
  parse_tree_ok to_int path t c e =
      let (ds, q1, e1) = bind_ok _ (required t.data_section) e in
      let (c1, q2, e2) = bind_ok _ (parse_data n to_int ds _) e1 in
      let (cs, q3, e3) = bind_ok _ (required t.command_section) e2 in
      let (c2, q4, e4) = bind_ok _ (parse_command n cs c1) e3 in
      let (known, values, no_commands) = parse_data_ok to_int ds _ c1 q2 in
      let (known', values', same) = parse_command_ok cs c1 c2 q4 in
      let (method, same', same'') = parse_storage_ok t c2 c e4 in
      (
        ds,
        cs,
        required_ok q1,
        required_ok q3,
        known,
        known',
        method,
        same' ∙ same ∙ values,
        same'' ∙ values' ∙ ap (λ x. x ++ prefix_values cs) no_commands,
      )

  -- The repository listens for commands exactly when neither the option `--readonly` is given nor
  -- the configuration says so; a command prefix given as an option comes last of its
  -- prefixes, with the database path given beside it.
  pub listens-override :
      (o : Options n) (c : Config n) (prefix : Bytes)
      → o.command_prefix ≡ some prefix
      → (listens n (override n o c) ≡ (not o.readonly && not c.read_only))
        × ((override n o c).repo_prefixes ≡ c.repo_prefixes ++ n.of_uri prefix ∷ [])
        × ((override n o c).db_path ≡ o.db_path)
  unfolding listens override
  listens-override o c prefix q = ground arith
