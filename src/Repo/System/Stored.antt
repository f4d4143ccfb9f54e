-- ===== src/Repo/System/Stored.antt =====
-- What the repository stores: packets that came, each at most once.
use fast_repo.Prelude.{
  Within, Within-skip, ◌≡◌, refl, ap, sym, ◌∙◌, subst, ◌⊎◌, inl, inr, Option, List, [], ◌∷◌,
}
use fast_repo.Prelude.Bytes.{Bytes}
use fast_repo.Ndn.{Ndn, Rocks}
use fast_repo.Storage.Engine.{Engine, ok, put, put_packet, stored_packet}
use fast_repo.Storage.Written.{put_eq}
use fast_repo.Storage.Histories.{puts, go_on}
use fast_repo.Handles.Base.{Parameter, Effects}
use fast_repo.Handles.Write.Runs
use fast_repo.Patterns.Fetch.{Build}
use fast_repo.Patterns.Handle
use fast_repo.Patterns.Handle.{Outcome, done}
use fast_repo.Repo.System.Defs.{
  System, writer, patterner, Event, reading, writing, fetching, step, run,
}
use fast_repo.Repo.System.Runs.{run_cons, run_nil}
use fast_repo.Repo.System.Kept.{
  Puts, WriteStores, write_step-WriteStores, PatternStores, pattern_step-PatternStores,
}
use fast_repo.Repo.System.Stays.{written_done, handled_done, read_done}

module _ (n : Ndn) (r : Rocks) where
  -- The engine as it was, or after `put` of a packet.
  abbrev MayPut : Engine n r → Engine n r → n.Data → Type 0
  MayPut e e' d = (e' ≡ e) ⊎ ((name : n.Name) × (put n r e d ≡ ok (name, e')))

  Puts-MayPut : (e e' : Engine n r) (d : n.Data) → Puts n r e e' d → MayPut e e' d
  Puts-MayPut e e' d (inl same) = inl same
  Puts-MayPut e e' d (inr (s, q, new)) = inr (
    (put_packet n r e s (stored_packet n r e d)).0,
    put_eq n r e s d q ∙ ap (λ x. ok ((put_packet n r e s (stored_packet n r e d)).0, x)) (sym new),
  )

module _ (n : Ndn) (r : Rocks) (build : Build n.Name) (decode : n.Component → Option Parameter)
    (decode_name : Bytes → Option (List Bytes)) where
  abbrev S : Type 0
  S = System n r build decode decode_name

  -- The packets that come to the write handle, to a counter pattern or to a recorder of ndnrtc.
  unfoldable pub arrived_in : List (Event n r build decode decode_name) → List n.Data
  arrived_in [] = []
  arrived_in (writing (Runs.arrival d j) ∷ events) = d ∷ arrived_in events
  arrived_in (writing (Runs.command interest prefix j) ∷ events) = arrived_in events
  arrived_in (writing (Runs.timeout j) ∷ events) = arrived_in events
  arrived_in (fetching (Handle.packet d address) ∷ events) = d ∷ arrived_in events
  arrived_in (fetching (Handle.fetch_command interest prefix memory) ∷ events) = arrived_in events
  arrived_in (fetching (Handle.cancel_command interest prefix) ∷ events) = arrived_in events
  arrived_in (fetching (Handle.timer address) ∷ events) = arrived_in events
  arrived_in (fetching (Handle.recorded d) ∷ events) = d ∷ arrived_in events
  arrived_in (fetching (Handle.removal prefix) ∷ events) = arrived_in events
  arrived_in (reading i ∷ events) = arrived_in events

  -- The storage is as if some of the packets that came had been put into it.
  abbrev Stores : S → S → List (Event n r build decode decode_name) → Type 0
  Stores s s' events =
      (ds : List n.Data) × Within ds (arrived_in events) × (puts n r s.engine ds ≡ ok s'.engine)

  one_put :
      (e e1 e' : Engine n r) (d : n.Data) (ds ys : List n.Data)
      → MayPut n r e e1 d
      → Within ds ys
      → puts n r e1 ds ≡ ok e'
      → (ds' : List n.Data) × Within ds' (d ∷ ys) × (puts n r e ds' ≡ ok e')
  unfolding puts
  one_put e e1 e' d ds ys (inl same) h q =
      (ds, Within-skip ds d ys h, ap (λ x. puts n r x ds) (sym same) ∙ q)
  one_put e e1 e' d ds ys (inr (name, new)) h q =
      (d ∷ ds, inl (refl, h), ap (λ x. go_on n r x (λ e2. puts n r e2 ds)) new ∙ q)

  no_put :
      (e e1 e' : Engine n r) (ds : List n.Data)
      → e1 ≡ e
      → puts n r e1 ds ≡ ok e'
      → puts n r e ds ≡ ok e'
  no_put e e1 e' ds same q = ap (λ x. puts n r x ds) (sym same) ∙ q

  step_stores :
      (s s1 : S) (event : Event n r build decode decode_name)
      (events : List (Event n r build decode decode_name)) (es : Effects n) (e' : Engine n r)
      (ds : List n.Data)
      → step n r build decode decode_name s event ≡ done (s1, es)
      → Within ds (arrived_in events)
      → puts n r s1.engine ds ≡ ok e'
      → (ds' : List n.Data) × Within ds' (arrived_in (event ∷ events))
        × (puts n r s.engine ds' ≡ ok e')
  unfolding step arrived_in
  step_stores s s1 (reading i) events es e' ds e h q = (
    ds,
    h,
    no_put s.engine s1.engine e' ds
        (ap (λ x. x.engine) (read_done n r build decode decode_name s s1 _ es e)) q,
  )
  step_stores s s1 (writing event) events es e' ds e h q =
      let (w, fs, p, engine, processes) = written_done n r build decode decode_name s s1 _ es e in
      by_write event (
        subst (λ x. WriteStores n r decode s.engine x event) (sym engine)
          (write_step-WriteStores n r decode (writer n r build decode decode_name s) w event fs p))
    where
      by_write :
          (ev : Runs.Event n)
          → WriteStores n r decode s.engine s1.engine ev
          → (ds' : List n.Data) × Within ds' (arrived_in (writing ev ∷ events))
            × (puts n r s.engine ds' ≡ ok e')
      by_write (Runs.arrival d j) stores =
          one_put s.engine s1.engine e' d ds _ (Puts-MayPut n r s.engine s1.engine d stores) h q
      by_write (Runs.command interest prefix j) stores =
          (ds, h, no_put s.engine s1.engine e' ds stores q)
      by_write (Runs.timeout j) stores = (ds, h, no_put s.engine s1.engine e' ds stores q)
  step_stores s s1 (fetching event) events es e' ds e h q =
      let (p, fs, ran, engine, processes) = handled_done n r build decode decode_name s s1 _ es e in
      by_pattern event (
        subst (λ x. PatternStores n r decode build decode_name s.engine x event) (sym engine)
          (pattern_step-PatternStores n r decode build decode_name
            (patterner n r build decode decode_name s) p event fs ran))
    where
      by_pattern :
          (ev : Handle.Event n r build decode decode_name)
          → PatternStores n r decode build decode_name s.engine s1.engine ev
          → (ds' : List n.Data) × Within ds' (arrived_in (fetching ev ∷ events))
            × (puts n r s.engine ds' ≡ ok e')
      by_pattern (Handle.packet d address) stores =
          one_put s.engine s1.engine e' d ds _ (Puts-MayPut n r s.engine s1.engine d stores) h q
      by_pattern (Handle.fetch_command interest prefix memory) stores =
          (ds, h, no_put s.engine s1.engine e' ds stores q)
      by_pattern (Handle.cancel_command interest prefix) stores =
          (ds, h, no_put s.engine s1.engine e' ds stores q)
      by_pattern (Handle.timer address) stores = (ds, h, no_put s.engine s1.engine e' ds stores q)
      by_pattern (Handle.recorded d) stores =
          one_put s.engine s1.engine e' d ds _ (Puts-MayPut n r s.engine s1.engine d stores) h q
      by_pattern (Handle.removal prefix) stores = (ds, h, no_put s.engine s1.engine e' ds stores q)

  -- Whatever reaches the repository without a fault, its storage is afterwards as if some of the packets
  -- that came to the write handle, to a counter pattern or to a recorder of ndnrtc had been put into
  -- it, each once and in their order, and nothing else: the other events store nothing.
  pub run_stores :
      (events : List (Event n r build decode decode_name)) (s s' : S) (es : Effects n)
      → run n r build decode decode_name s events ≡ done (s', es)
      → (ds : List n.Data) × Within ds (arrived_in events) × (puts n r s.engine ds ≡ ok s'.engine)
  unfolding puts arrived_in
  run_stores [] s s' es e = (
    [],
    tt,
    ap (λ (y : S × Effects n). ok y.0.engine) (run_nil n r build decode decode_name s s' es e),
  )
  run_stores (event ∷ events) s s' es e =
      let (s1, gs, hs, first, rest, split) =
        run_cons n r build decode decode_name s s' event events es e in
      let (ds, h, q) = run_stores events s1 s' hs rest in
      step_stores s s1 event events gs s'.engine ds first h q
