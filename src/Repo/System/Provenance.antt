-- ===== src/Repo/System/Provenance.antt =====
-- Where the packets come from that the repository serves.
use fast_repo.Prelude.{
  In-Within, ◌≡◌, refl, ap, sym, ◌∙◌, subst, ◌⊎◌, inl, inr, Option, none, some, List, [], ◌∷◌, In,
  arith, ite, if_pos, if_neg, Bool-cases, Option-cases,
}
use fast_repo.Prelude.Bytes.{Bytes, bytes_discrete}
use fast_repo.Ndn.{Ndn, Rocks, Interest, WriteLaws}
use fast_repo.Storage.Engine
use fast_repo.Storage.Engine.{
  Engine, Result, ok, err, get, put, put_packet, stored_packet, find_key,
}
use fast_repo.Storage.Written.{PacketLaws}
use fast_repo.Storage.Histories.{newest, uri_of, AcceptsAll, get-puts}
use fast_repo.Handles.Base.{Parameter, Effect, Effects, put_data}
use fast_repo.Handles.Read
use fast_repo.Patterns.Fetch.{Build}
use fast_repo.Patterns.Handle.{done}
use fast_repo.Repo.System.Defs.{System, Event, reading, step, run, read}
use fast_repo.Repo.System.Runs.{done_eq}
use fast_repo.Repo.System.Stored.{arrived_in, run_stores}

module _ (n : Ndn) (r : Rocks) where
  -- What is found after a sequence of packets is one of them, or what was found before.
  newest_cases :
      (e : Engine n r) (ds : List n.Data) (name : n.Name) (old : Result (Option n.Data))
      → (newest n r e ds name old ≡ old)
        ⊎ ((d : n.Data) × In d ds × (newest n r e ds name old ≡ ok (some (stored_packet n r e d))))
  unfolding newest
  newest_cases e [] name old = inl refl
  newest_cases e (d ∷ ds) name old =
      let mine = ok (some (stored_packet n r e d)) in
      elim (newest_cases e ds name
        (ite (bytes_discrete (uri_of n r e d) (n.to_uri name)) mine old)) [
          | inr (d', i, q) ↦ inr (d', inr i, q)
          | inl q ↦ elim (bytes_discrete (uri_of n r e d) (n.to_uri name)) [
            | yes p ↦ inr (d, inl refl, q ∙ if_pos _ p mine old)
            | no np ↦ inl (q ∙ if_neg _ np mine old)
          ]
        ]

  effects_eq : {es fs : Effects n} → ◌≡◌ {A = Result (Effects n)} (ok es) (ok fs) → es ≡ fs
  effects_eq e = cc

  packet_eq : {x y : n.Data} → ◌≡◌ {A = Effect n.Name n.Data} (put_data x) (put_data y) → x ≡ y
  packet_eq e = cc

  -- Whatever the Interest, `read` returns what `get` finds under some name.
  read_found :
      (e : Engine n r) (i : Interest n.Name) (x : n.Data)
      → Engine.read n r e i ≡ ok (some x)
      → (name : n.Name) × (get n r e name ≡ ok (some x))
  unfolding Engine.read
  read_found e i x q = elim (Bool-cases i.can_be_prefix) [
    | inl prefix ↦ elim (Option-cases e.db) [
      | inl closed ↦ absurd (ground (arith, prefix, closed, q))
      | inr (store, opened) ↦
          let key = find_key n r i (r.seek (n.to_uri i.name) store) [] in
          (n.of_uri key, ground (arith, prefix, opened, q))
    ]
    | inr exact ↦ (i.name, ground (arith, exact, q))
  ]

  answered :
      (result : Result (Option n.Data)) (es : Effects n) (x : n.Data)
      → Read.answer n r result ≡ ok es
      → In (put_data x) es
      → result ≡ ok (some x)
  answered (err y) es x q there = cc
  answered (ok none) es x q there = absurd (subst (In (put_data x)) (sym (effects_eq q)) there)
  answered (ok (some d)) es x q there = elim (subst (In (put_data x)) (sym (effects_eq q)) there) [
    | inl same ↦ ap (λ y. ok (some y)) (sym (packet_eq same))
    | inr never ↦ absurd never
  ]

  -- An answer is the packet that the engine has under some name.
  answer_found :
      (e : Engine n r) (i : Interest n.Name) (es : Effects n) (x : n.Data)
      → Read.on_interest n r e i ≡ ok es
      → In (put_data x) es
      → (name : n.Name) × (get n r e name ≡ ok (some x))
  unfolding Read.on_interest
  answer_found e i es x q there = elim (Bool-cases i.must_be_fresh) [
    | inl fresh ↦ absurd (subst (In (put_data x)) (sym (effects_eq (simp fresh at q))) there)
    | inr stale ↦ read_found e i x (answered (Engine.read n r e i) es x (simp stale at q) there)
  ]

module _ (n : Ndn) (r : Rocks) (build : Build n.Name) (decode : n.Component → Option Parameter)
    (decode_name : Bytes → Option (List Bytes)) where
  abbrev S : Type 0
  S = System n r build decode decode_name

  read_answers :
      (s s' : S) (result : Result (Effects n)) (es : Effects n)
      → read n r build decode decode_name s result ≡ done (s', es)
      → result ≡ ok es
  read_answers s s' (err x) es e = cc
  read_answers s s' (ok fs) es e =
      ap (λ (y : S × Effects n). ok y.1) (done_eq n r build decode decode_name e)

  -- Where RocksDB accepts every write and reads back what it wrote, and ndn-cpp decodes what it encoded:
  -- whatever reaches a repository with an open storage without a fault, each packet with which it then
  -- answers an Interest, of whatever kind, was in its storage before, or is one that came since to the
  -- write handle, to a counter pattern or to a recorder of ndnrtc, renamed if there is a rename prefix.
  -- Nothing else is served.
  pub served_has_arrived :
      (packets : PacketLaws n) (writes : WriteLaws r) (accepts : AcceptsAll n r) (s s1 s2 : S)
      (store : r.Store) (events : List (Event n r build decode decode_name)) (es fs : Effects n)
      (i : Interest n.Name) (x : n.Data)
      → s.engine.db ≡ some store
      → run n r build decode decode_name s events ≡ done (s1, es)
      → step n r build decode decode_name s1 (reading i) ≡ done (s2, fs)
      → In (put_data x) fs
      → ((name : n.Name) × (get n r s.engine name ≡ ok (some x)))
        ⊎ ((d : n.Data) × In d (arrived_in n r build decode decode_name events)
            × (x ≡ stored_packet n r s.engine d))
  unfolding step
  served_has_arrived packets writes accepts s s1 s2 store events es fs i x opened ran answered_it
        there =
      let (name, found) =
        answer_found n r s1.engine i fs x (read_answers s1 s2 _ fs answered_it) there in
      let (ds, some_of, stored) = run_stores n r build decode decode_name events s s1 es ran in
      let (e', stored', here) = get-puts n r packets writes accepts ds s.engine store name opened in
      let same = ok_eq (sym stored' ∙ stored) in
      let at_last = sym here ∙ ap (λ e. get n r e name) same ∙ found in
      elim (newest_cases n r s.engine ds name (get n r s.engine name)) [
        | inl before ↦ inl (name, sym before ∙ at_last)
        | inr (d, among, new) ↦ inr (
          d,
          In-Within d ds (arrived_in n r build decode decode_name events) some_of among,
          found_eq (sym at_last ∙ new),
        )
      ]
    where
      ok_eq : {a b : Engine n r} → ◌≡◌ {A = Result (Engine n r)} (ok a) (ok b) → a ≡ b
      ok_eq e = cc

      found_eq :
          {a b : n.Data} → ◌≡◌ {A = Result (Option n.Data)} (ok (some a)) (ok (some b)) → a ≡ b
      found_eq e = cc
