-- ===== src/Storage/Written.antt =====
-- What `put` stores and `get` reads back.
use fast_repo.Prelude.{true, ◌≡◌, ap, sym, ◌∙◌, ◌≢◌, some}
use fast_repo.Ndn.{Ndn, Rocks, WriteLaws}
use fast_repo.Storage.Engine.{Engine, ok, put, get, put_packet, stored_packet, fetched}

-- What ndn-cpp says of its packets: decoding undoes encoding.
pub record PacketLaws (n : Ndn) : Type 0 where
  pub decode_encode : (d : n.Data) → n.wire_decode (n.wire_encode d) ≡ some d

ok_injective : {A : Type 0} {a b : A} → ok a ≡ ok b → a ≡ b
ok_injective h = cc

module _ (n : Ndn) (r : Rocks) where
  -- `Put` has an ok status for the packet that `put` stores.
  abbrev pub Accepted : Engine n r → n.Data → r.Store → Type 0
  Accepted e d s =
      let p = stored_packet n r e d in
      (r.put (n.to_uri (n.data_name p)) (n.wire_encode p) s).0 ≡ true

  pub get_eq :
      (e : Engine n r) (s : r.Store) (name : n.Name)
      → e.db ≡ some s
      → get n r e name ≡ fetched n r (r.get (n.to_uri name) s)
  unfolding get
  get_eq e s name q = simp q

  pub put_eq :
      (e : Engine n r) (s : r.Store) (d : n.Data)
      → e.db ≡ some s
      → put n r e d ≡ ok (put_packet n r e s (stored_packet n r e d))
  unfolding put
  put_eq e s d q = simp q

  -- Where RocksDB accepts this write and reads back what it wrote, and ndn-cpp decodes what it
  -- encoded, `put` in an open engine returns the name of the packet that it stores (renamed, if
  -- there is a rename prefix), and `get` under that name then returns just that packet.
  pub get-put :
      (packets : PacketLaws n) (writes : WriteLaws r) (e e' : Engine n r) (s : r.Store) (d : n.Data)
      (name : n.Name)
      → e.db ≡ some s
      → Accepted e d s
      → put n r e d ≡ ok (name, e')
      → (name ≡ n.data_name (stored_packet n r e d))
        × (get n r e' name ≡ ok (some (stored_packet n r e d)))
  unfolding put_packet
  get-put packets writes e e' s d name q a h =
      let p = stored_packet n r e d in
      let f = ok_injective (sym h ∙ put_eq e s d q) in
      let g = ap (λ (x : n.Name × Engine n r). x.0) f ∙ rw a in
      let there = writes.get_written (n.to_uri (n.data_name p)) (n.wire_encode p) s a in
      (
        g,
        rw g (
            get_eq e' _ (n.data_name p) (ap (λ (x : n.Name × Engine n r). x.1.db) f)
            ∙ rw (there, packets.decode_encode p)),
      )

  -- Where a write to RocksDB touches no other key, a `put` in an open engine, also one whose write
  -- fails, leaves what `get` finds under all other URIs as it was.
  pub get-put_ne :
      (writes : WriteLaws r) (e e' : Engine n r) (s : r.Store) (d : n.Data) (name other : n.Name)
      → e.db ≡ some s
      → put n r e d ≡ ok (name, e')
      → n.to_uri (n.data_name (stored_packet n r e d)) ≢ n.to_uri other
      → get n r e' other ≡ get n r e other
  unfolding put_packet
  get-put_ne writes e e' s d name other q h ne =
      let p = stored_packet n r e d in
      let f = ok_injective (sym h ∙ put_eq e s d q) in
      get_eq e' _ other (ap (λ (x : n.Name × Engine n r). x.1.db) f)
      ∙ ap (fetched n r)
          (writes.get_other (n.to_uri (n.data_name p)) (n.to_uri other) (n.wire_encode p) s ne)
      ∙ sym (get_eq e s other q)
