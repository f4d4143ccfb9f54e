-- ===== src/Patterns/Objects.antt =====
-- The callback for a generalized object in src/handles/patterns/gobj-pattern.cpp, which `fetch` makes and
-- does not set: the lines that would are commented out.
use fast_repo.Prelude.{◌≡◌, refl, ap, ◌∙◌, if_pos, none, some, List}
use fast_repo.Prelude.StdMap
use fast_repo.Prelude.StdMap.{Map, find-erase}
use fast_repo.Ndn.{Ndn, Rocks, WriteLaws}
use fast_repo.Storage.Engine.{Engine, Result, ok, err, get}
use fast_repo.Storage.Written.{PacketLaws}
use fast_repo.Storage.Histories.{puts, newest, AcceptsAll, get-puts}

-- `Namespace` is the CNL library's; the map has the objects that are being fetched.
module _ (n : Ndn) (r : Rocks) (Namespace : Type 0) where
  abbrev erased :
      Map n.Name Namespace
      → n.Name
      → Result (Engine n r)
      → Result (Engine n r × Map n.Name Namespace)
  erased namespaces name (err x) = err x
  erased namespaces name (ok e) = ok (e, StdMap.erase n.name_discrete name namespaces)

  -- `onObject` for an object of a name with all its packets, each of which `storePacketFun_` puts into
  -- the storage.
  unfoldable pub on_object :
      Engine n r
      → Map n.Name Namespace
      → n.Name
      → List n.Data
      → Result (Engine n r × Map n.Name Namespace)
  on_object e namespaces name packets = erased namespaces name (puts n r e packets)

  -- Where RocksDB accepts every write and reads back what it wrote, and ndn-cpp decodes what it encoded:
  -- once an object has come to an open storage, nothing is pending under its name, and `get` finds under
  -- each name the last of the object's packets with that URI, or else what it found before.
  on_object_lem :
      (packet_laws : PacketLaws n) (writes : WriteLaws r) (accepts : AcceptsAll n r)
      (e : Engine n r) (s : r.Store) (namespaces : Map n.Name Namespace) (name other : n.Name)
      (packets : List n.Data)
      → e.db ≡ some s
      → (e' : Engine n r) × (rest : Map n.Name Namespace) × (on_object e namespaces name packets
          ≡ ok (e', rest))
        × (StdMap.find n.name_discrete name rest ≡ none)
        × (get n r e' other ≡ newest n r e packets other (get n r e other))
  unfolding on_object
  on_object_lem packet_laws writes accepts e s namespaces name other packets open_db =
      let (e', stored, found) = get-puts n r packet_laws writes accepts packets e s other open_db in
      (
        e',
        StdMap.erase n.name_discrete name namespaces,
        ap (erased namespaces name) stored,
        find-erase n.name_discrete name name namespaces
            ∙ if_pos (n.name_discrete name name) refl _ _,
        found,
      )
