-- ===== src/Storage/Facade.antt =====
-- `StorageEngine` of src/storage/storage-engine.hpp and src/storage/storage-engine.cpp: what the rest
-- of the program sees of the engine, with the signal `afterDataInsertion` that `put` fires.
use fast_repo.Prelude.{ℕ, ◌≡◌, ◌≢◌, some, List, [], ◌∷◌, ◌++◌}
use fast_repo.Prelude.Bytes.{Bytes}
use fast_repo.Ndn.{Ndn, Rocks, WriteLaws}
use fast_repo.Storage.Engine
use fast_repo.Storage.Engine.{Engine, Result, ok, err, stored_packet}
use fast_repo.Storage.Written.{PacketLaws, Accepted, get-put, get-put_ne}

module _ (n : Ndn) (r : Rocks) (A : Type 0) where
  open n use {Name, Data}

  -- The slots of the signal, each with what it does of the kind `A`.
  abbrev pub Slots : Type 0
  Slots = List (Name → List A)

  unfoldable pub after_data_insertion : Slots → Name → List A
  after_data_insertion [] name = []
  after_data_insertion (slot ∷ slots) name = slot name ++ after_data_insertion slots name

  abbrev pub announced :
      Slots → Data → Result (Name × Engine n r) → Result (Name × Engine n r × List A)
  announced slots d (err x) = err x
  announced slots d (ok (name, e)) = ok (name, e, after_data_insertion slots (n.data_name d))

  -- Both overloads of `put`.
  unfoldable pub put : Engine n r → Slots → Data → Result (Name × Engine n r × List A)
  put e slots d = announced slots d (Engine.put n r e d)

  announced_ok :
      (slots : Slots) (d : Data) (result : Result (Name × Engine n r)) (name : Name)
      (e' : Engine n r) (done : List A)
      → announced slots d result ≡ ok (name, e', done)
      → (result ≡ ok (name, e')) × (done ≡ after_data_insertion slots (n.data_name d))
  announced_ok slots d (err x) name e' done e = cc
  announced_ok slots d (ok (name', e1)) name e' done e = (cc, cc)

  -- Where RocksDB accepts this write, reads back what it wrote and touches no other key, and ndn-cpp
  -- decodes what it encoded, a `put` that renames the packet to another URI returns the new name, and
  -- the packet is then found under that name. The signal that follows carries the name that the packet
  -- came with, and under that name the storage holds what it held before.
  pub announced_under_the_old_name :
      (packets : PacketLaws n) (writes : WriteLaws r) (e e' : Engine n r) (s : r.Store)
      (slots : Slots) (d : Data) (name : Name) (done : List A)
      → e.db ≡ some s
      → Accepted n r e d s
      → n.to_uri (n.data_name (stored_packet n r e d)) ≢ n.to_uri (n.data_name d)
      → put e slots d ≡ ok (name, e', done)
      → (name ≡ n.data_name (stored_packet n r e d))
        × (Engine.get n r e' name ≡ ok (some (stored_packet n r e d)))
        × (done ≡ after_data_insertion slots (n.data_name d))
        × (Engine.get n r e' (n.data_name d) ≡ Engine.get n r e (n.data_name d))
  unfolding put
  announced_under_the_old_name packets writes e e' s slots d name done open_db accepted renamed
        stored =
      let (put_ok, told) = announced_ok slots d _ name e' done stored in
      let (named, found) = get-put n r packets writes e e' s d name open_db accepted put_ok in
      (
        named,
        found,
        told,
        get-put_ne n r writes e e' s d name (n.data_name d) open_db put_ok renamed,
      )

module _ (n : Ndn) (r : Rocks) where
  -- `getPayloadSize`, `getKeysNum`, `getRenamePrefix`
  abbrev pub get_payload_size : Engine n r → ℕ
  get_payload_size e = e.value_size_bytes

  abbrev pub get_keys_num : Engine n r → ℕ
  get_keys_num e = e.n_keys

  abbrev pub get_rename_prefix : Engine n r → Bytes
  get_rename_prefix e = e.rename_prefix
