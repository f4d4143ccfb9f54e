-- ===== src/Repo/System/Sound.antt =====
-- What holds of the whole system between two callbacks.
use fast_repo.Prelude.{◌≡◌, refl, subst, true, Option, List, is_some, arith}
use fast_repo.Prelude.Bytes.{Bytes}
use fast_repo.Ndn.{Ndn, Rocks}
use fast_repo.Storage.Engine
use fast_repo.Storage.Engine.{Engine, Result, ok, err, bad_packet}
use fast_repo.Handles.Base.{Parameter, Effects}
use fast_repo.Handles.Write.Defs
use fast_repo.Handles.Write.Defs.{WriteHandle}
use fast_repo.Handles.Write.Runs
use fast_repo.Handles.Write.Pending.{IsPending, step-IsPending}
use fast_repo.Patterns.Fetch.{Build}
use fast_repo.Patterns.Handle
use fast_repo.Patterns.Handle.{
  PatternHandle, Outcome, done, fault, Fault, storage_error, use_after_free,
}
use fast_repo.Patterns.Linked.{IsLinked, step-IsLinked}
use fast_repo.Repo.System.Defs.{
  System, writer, patterner, Event, reading, writing, fetching, read, written, handled, step,
}

module _ (n : Ndn) (r : Rocks) where
  -- `db_` is not null.
  abbrev pub IsOpen : Engine n r → Type 0
  IsOpen e = is_some e.db ≡ true

  put-IsOpen :
      (e e' : Engine n r) (d : n.Data) (name : n.Name)
      → Engine.put n r e d ≡ ok (name, e')
      → IsOpen e'
  unfolding Engine.put Engine.put_packet
  put-IsOpen e e' d name h = ground arith

  module _ (decode : n.Component → Option Parameter) where
    write_step-IsOpen :
        (w w' : WriteHandle n r decode) (event : Runs.Event n) (es : Effects n)
        → Runs.step n r decode w event ≡ ok (w', es)
        → IsOpen w.storage
        → IsOpen w'.storage
    unfolding Runs.step Defs.on_timeout Defs.on_interest Defs.process_single_insert_command
        Defs.on_data Defs.stored Engine.put Engine.put_packet
    write_step-IsOpen w w' (Runs.command interest prefix process_id) es h o = ground arith
    write_step-IsOpen w w' (Runs.arrival d process_id) es h o = ground arith
    write_step-IsOpen w w' (Runs.timeout process_id) es h o = ground arith

    module _ (build : Build n.Name) (decode_name : Bytes → Option (List Bytes)) where
      pattern_step-IsOpen :
          (h h' : PatternHandle n r build decode decode_name)
          (event : Handle.Event n r build decode decode_name) (es : Effects n)
          → Handle.step n r build decode decode_name h event ≡ done (h', es)
          → IsOpen h.storage
          → IsOpen h'.storage
      unfolding Handle.step Handle.on_interest Handle.on_cancel_request Handle.on_timer
          Handle.on_data Handle.on_recorded Handle.remove_pattern Handle.start Handle.discard
          Engine.put Engine.put_packet
      pattern_step-IsOpen h h' (Handle.fetch_command interest prefix memory) es e o = ground arith
      pattern_step-IsOpen h h' (Handle.cancel_command interest prefix) es e o = ground arith
      pattern_step-IsOpen h h' (Handle.timer address) es e o = ground arith
      pattern_step-IsOpen h h' (Handle.packet d address) es e o = ground arith
      pattern_step-IsOpen h h' (Handle.recorded d) es e o = ground arith
      pattern_step-IsOpen h h' (Handle.removal prefix) es e o = ground arith

module _ (n : Ndn) (r : Rocks) (build : Build n.Name) (decode : n.Component → Option Parameter)
    (decode_name : Bytes → Option (List Bytes)) where
  -- The engine is open, the write handle's entries are pending, the pattern handle's are linked.
  pub record IsSound (s : System n r build decode decode_name) : Type 0 where
    pub opened : IsOpen n r s.engine
    pub pending : IsPending n r decode (writer n r build decode decode_name s)
    pub linked : IsLinked n r build decode decode_name (patterner n r build decode decode_name s)

  state_eq :
      {s s' : System n r build decode decode_name} {es fs : Effects n}
      → ◌≡◌ {A = Outcome (System n r build decode decode_name × Effects n)}
          (done (s, es))
          (done (s', fs))
      → s ≡ s'
  state_eq e = cc

  read-IsSound :
      (s s' : System n r build decode decode_name) (result : Result (Effects n)) (es : Effects n)
      → read n r build decode decode_name s result ≡ done (s', es)
      → IsSound s
      → IsSound s'
  read-IsSound s s' (err x) es e h = cc
  read-IsSound s s' (ok fs) es e h = subst IsSound (state_eq e) h

  written-IsSound :
      (s s' : System n r build decode decode_name) (event : Runs.Event n)
      (result : Result (WriteHandle n r decode × Effects n)) (es : Effects n)
      → Runs.step n r decode (writer n r build decode decode_name s) event ≡ result
      → written n r build decode decode_name s result ≡ done (s', es)
      → IsSound s
      → IsSound s'
  written-IsSound s s' event (err x) es q e h = cc
  written-IsSound s s' event (ok (w, fs)) es q e h =
      let before = writer n r build decode decode_name s in
      let pending = step-IsPending n r decode before w event fs q h.pending in
      subst IsSound (state_eq e) (record {
        opened = write_step-IsOpen n r decode before w event fs q h.opened;
        pending = record { at = λ j x found. pending.at j x found };
        linked = record { live = h.linked.live; below = h.linked.below; unique = h.linked.unique };
      })

  handled-IsSound :
      (s s' : System n r build decode decode_name)
      (event : Handle.Event n r build decode decode_name)
      (result : Outcome (PatternHandle n r build decode decode_name × Effects n)) (es : Effects n)
      → Handle.step n r build decode decode_name (patterner n r build decode decode_name s) event
        ≡ result
      → handled n r build decode decode_name s result ≡ done (s', es)
      → IsSound s
      → IsSound s'
  handled-IsSound s s' event (fault x) es q e h = cc
  handled-IsSound s s' event (done (p, fs)) es q e h =
      let before = patterner n r build decode decode_name s in
      let linked = step-IsLinked n r build decode decode_name before p event fs q h.linked in
      subst IsSound (state_eq e) (record {
        opened = pattern_step-IsOpen n r decode build decode_name before p event fs q h.opened;
        pending = record { at = λ j x found. h.pending.at j x found };
        linked = record { live = linked.live; below = linked.below; unique = linked.unique };
      })

  -- Whatever reaches the repository, a callback that does not fault keeps the whole of it sound: the
  -- shared engine open, each entry of the write handle pending, each pattern linked to a live object.
  pub step-IsSound :
      (s s' : System n r build decode decode_name) (event : Event n r build decode decode_name)
      (es : Effects n)
      → step n r build decode decode_name s event ≡ done (s', es)
      → IsSound s
      → IsSound s'
  unfolding step
  step-IsSound s s' (reading i) es e h = read-IsSound s s' _ es e h
  step-IsSound s s' (writing event) es e h = written-IsSound s s' event _ es refl e h
  step-IsSound s s' (fetching event) es e h = handled-IsSound s s' event _ es refl e h
