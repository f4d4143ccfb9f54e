-- ===== src/Handles/Read.antt =====
-- src/handles/read-handle.cpp: the Interests that the repository answers from its storage.
use fast_repo.Prelude.{
  ℕ, zero, suc, ◌∙◌, ap, ◌++◌, ◌≡◌, refl, false, Option, none, some, [], ◌∷◌, if◌then◌else◌,
}
use fast_repo.Ndn.{Ndn, Rocks, WriteLaws, Interest}
use fast_repo.Storage.Engine
use fast_repo.Storage.Engine.{Engine, Result, ok, err, stored_packet}
use fast_repo.Storage.Written.{PacketLaws, Accepted, get-put}
use fast_repo.Storage.Facade
use fast_repo.Storage.Facade.{Slots, after_data_insertion}
use fast_repo.Handles.Base.{Effect, Effects, put_data, registered, shut_down}

module _ (n : Ndn) (r : Rocks) where
  open n use {Name, Data}

  abbrev pub answer : Result (Option Data) → Result (Effects n)
  answer (err x) = err x
  answer (ok none) = ok []
  answer (ok (some d)) = ok (put_data d ∷ [])

  -- An Interest that must be fresh is ignored.
  unfoldable pub on_interest : Engine n r → Interest Name → Result (Effects n)
  on_interest e i = if i.must_be_fresh then ok [] else answer (Engine.read n r e i)

  unfoldable pub on_register_failed : Effects n
  on_register_failed = shut_down ∷ []

  unfoldable pub listen : Name → Effects n
  listen prefix = registered prefix ∷ []

  -- Where RocksDB accepts this write and reads back what it wrote, and ndn-cpp decodes what it
  -- encoded, a packet put into an open engine answers the next Interest for exactly the name that
  -- `put` returned, unless that Interest can be a prefix or must be fresh.
  pub on_interest-put :
      (packets : PacketLaws n) (writes : WriteLaws r) (e e' : Engine n r) (s : r.Store) (d : Data)
      (name : Name) (i : Interest Name)
      → e.db ≡ some s
      → Accepted n r e d s
      → Engine.put n r e d ≡ ok (name, e')
      → i.name ≡ name
      → i.can_be_prefix ≡ false
      → i.must_be_fresh ≡ false
      → on_interest e' i ≡ ok (put_data (stored_packet n r e d) ∷ [])
  unfolding on_interest Engine.read
  on_interest-put packets writes e e' s d name i open_db accepted put named exact stale =
      simp (stale, exact, named, (get-put n r packets writes e e' s d name open_db accepted put).1)

  -- The slot of the storage's signal; the line that would listen is commented out.
  unfoldable pub on_data_inserted : Name → Effects n
  on_data_inserted name = []

  unfoldable pub connect_auto_listen : Slots n r (Effect Name Data) → Slots n r (Effect Name Data)
  connect_auto_listen slots = slots ++ on_data_inserted ∷ []

  -- after as many read handles as a number says have connected to the signal
  abbrev auto_listeners : ℕ → Slots n r (Effect Name Data)
  auto_listeners zero = []
  auto_listeners (suc k) = connect_auto_listen (auto_listeners k)

  after_data_insertion-append :
      (slots : Slots n r (Effect Name Data)) (name : Name)
      → after_data_insertion n r (Effect Name Data) (slots ++ on_data_inserted ∷ []) name
        ≡ after_data_insertion n r (Effect Name Data) slots name
  unfolding after_data_insertion on_data_inserted
  after_data_insertion-append [] name = refl
  after_data_insertion-append (slot ∷ slots) name =
      ap (λ es. slot name ++ es) (after_data_insertion-append slots name)

  quiet_listeners :
      (k : ℕ) (name : Name)
      → after_data_insertion n r (Effect Name Data) (auto_listeners k) name ≡ []
  unfolding after_data_insertion connect_auto_listen
  quiet_listeners zero name = refl
  quiet_listeners (suc k) name =
      after_data_insertion-append (auto_listeners k) name ∙ quiet_listeners k name

  abbrev without_effects : Result (Name × Engine n r) → Result (Name × Engine n r × Effects n)
  without_effects (err x) = err x
  without_effects (ok (name, e)) = ok (name, e, [])

  -- However many read handles connect to the storage's signal, `put` does what it does without them:
  -- nothing is registered for the packets that are stored.
  auto_listeners_lem :
      (k : ℕ) (e : Engine n r) (d : Data)
      → Facade.put n r (Effect Name Data) e (auto_listeners k) d
        ≡ without_effects (Engine.put n r e d)
  unfolding Facade.put
  auto_listeners_lem k e d = answers (Engine.put n r e d)
    where
      answers :
          (result : Result (Name × Engine n r))
          → Facade.announced n r (Effect Name Data) (auto_listeners k) d result
            ≡ without_effects result
      answers (err x) = refl
      answers (ok (name, e')) = ap (λ es. ok (name, e', es)) (quiet_listeners k (n.data_name d))
