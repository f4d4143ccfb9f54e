-- ===== src/Storage/Histories.antt =====
-- Sequences of `put` against what the storage promises: a map from URIs to packets.
use fast_repo.Prelude.{
  ◌≡◌, refl, ap, sym, ◌∙◌, true, Option, some, List, [], ◌∷◌, ite, if_pos, if_neg,
}
use fast_repo.Prelude.Bytes.{Bytes, bytes_discrete}
use fast_repo.Ndn.{Ndn, Rocks, WriteLaws}
use fast_repo.Storage.Engine.{Engine, Result, ok, err, put, get, put_packet, stored_packet}
use fast_repo.Storage.Written.{PacketLaws, put_eq, get-put, get-put_ne}

module _ (n : Ndn) (r : Rocks) where
  -- The packets given to `put` one after another; an exception ends the sequence.
  abbrev pub go_on :
      Result (n.Name × Engine n r) → (Engine n r → Result (Engine n r)) → Result (Engine n r)
  go_on (err x) rest = err x
  go_on (ok (name, e)) rest = rest e

  unfoldable pub puts : Engine n r → List n.Data → Result (Engine n r)
  puts e [] = ok e
  puts e (d ∷ ds) = go_on (put n r e d) (λ e'. puts e' ds)

  abbrev pub uri_of : Engine n r → n.Data → Bytes
  uri_of e d = n.to_uri (n.data_name (stored_packet n r e d))

  -- The map after as many updates: the last packet whose URI is the name's, else what was there.
  unfoldable pub newest :
      Engine n r → List n.Data → n.Name → Result (Option n.Data) → Result (Option n.Data)
  newest e [] name old = old
  newest e (d ∷ ds) name old =
      newest e ds name
        (ite (bytes_discrete (uri_of e d) (n.to_uri name)) (ok (some (stored_packet n r e d))) old)

  abbrev pub AcceptsAll : Type 0
  AcceptsAll = (k v : Bytes) (s : r.Store) → (r.put k v s).0 ≡ true

  get_same_uri :
      (e : Engine n r) (a b : n.Name) → n.to_uri a ≡ n.to_uri b → get n r e a ≡ get n r e b
  unfolding get
  get_same_uri e a b h = rw h

  after_put :
      (packets : PacketLaws n) (writes : WriteLaws r) (accepts : AcceptsAll) (e : Engine n r)
      (s : r.Store) (d : n.Data) (name : n.Name)
      → e.db ≡ some s
      → get n r (put_packet n r e s (stored_packet n r e d)).1 name
        ≡ ite
            (bytes_discrete (uri_of e d) (n.to_uri name))
            (ok (some (stored_packet n r e d)))
            (get n r e name)
  after_put packets writes accepts e s d name q =
      let (named, e') = put_packet n r e s (stored_packet n r e d) in
      elim (bytes_discrete (uri_of e d) (n.to_uri name)) [
        | yes same ↦
            let (is_name, there) =
              get-put n r packets writes e e' s d named q (accepts _ _ s) (put_eq n r e s d q) in
            get_same_uri e' name (n.data_name (stored_packet n r e d)) (sym same)
            ∙ ap (get n r e') (sym is_name)
            ∙ there
            ∙ sym (if_pos (bytes_discrete (uri_of e d) (n.to_uri name)) same _ (get n r e name))
        | no other ↦
            get-put_ne n r writes e e' s d named name q (put_eq n r e s d q) other
            ∙ sym (
                if_neg (bytes_discrete (uri_of e d) (n.to_uri name)) other
                  (ok (some (stored_packet n r e d))) _)
      ]

  -- Where RocksDB accepts every write and reads back what it wrote, and ndn-cpp decodes what it
  -- encoded, any sequence of packets is stored in an open engine without an exception, and then
  -- `get` finds, under each name, the last of them whose URI (with the rename prefix) is the
  -- name's; where there is none, it finds what it found before.
  pub get-puts :
      (packets : PacketLaws n) (writes : WriteLaws r) (accepts : AcceptsAll) (ds : List n.Data)
      (e : Engine n r) (s : r.Store) (name : n.Name)
      → e.db ≡ some s
      → (e' : Engine n r) × (puts e ds ≡ ok e')
        × (get n r e' name ≡ newest e ds name (get n r e name))
  unfolding puts newest put_packet stored_packet
  get-puts packets writes accepts [] e s name q = (e, refl, refl)
  get-puts packets writes accepts (d ∷ ds) e s name q =
      let (named, e1) = put_packet n r e s (stored_packet n r e d) in
      let (e', stored, found) =
        get-puts packets writes accepts ds e1
          (r.put (uri_of e d) (n.wire_encode (stored_packet n r e d)) s).1 name refl in
      (
        e',
        ap (λ x. go_on x (λ e2. puts e2 ds)) (put_eq n r e s d q) ∙ stored,
        found ∙ ap (newest e ds name) (after_put packets writes accepts e s d name q),
      )
