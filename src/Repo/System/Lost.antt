-- ===== src/Repo/System/Lost.antt =====
-- A write that RocksDB refuses: `put` returns `Name()`, which the write handle announces.
use fast_repo.Prelude.{
  ℕ, zero, suc, ◌<◌, ◌-◌, ◌≡◌, refl, ap, sym, ◌∙◌, subst, true, false, Option, some, List, [], ◌∷◌,
  ◌++◌, arith, ℕ_discrete,
}
use fast_repo.Prelude.Bytes.{Bytes}
use fast_repo.Prelude.StdMap
use fast_repo.Ndn.{Ndn, Rocks}
use fast_repo.Storage.Engine.{Engine, Result, ok, err, put_packet, stored_packet}
use fast_repo.Storage.Written.{put_eq}
use fast_repo.Handles.Base.{Parameter, Response, Effects, inserted, registered}
use fast_repo.Handles.Read
use fast_repo.Handles.Write.Defs
use fast_repo.Handles.Write.Defs.{WriteHandle}
use fast_repo.Handles.Write.Runs
use fast_repo.Handles.Write.Pending.{IsPending}
use fast_repo.Patterns.Fetch.{Build}
use fast_repo.Patterns.Handle.{PatternHandle, Outcome, done, fault}
use fast_repo.Repo.Prefixes.{is_covered, is_covered-append, on_data_insertion, fire, fire_once}
use fast_repo.Repo.System.Runs.{done_eq, run_cons, run_nil}
use fast_repo.Repo.System.Sound.{IsSound}
use fast_repo.Repo.System.Defs.{
  System, writer, signalled, Event, reading, writing, fetching, read, written, handled, step, run,
}

-- What ndn-cpp says of `isPrefixOf`: a name is a prefix of itself, and `Name()` of every name.
pub record PrefixLaws (n : Ndn) : Type 0 where
  pub is_prefix_refl : (p : n.Name) → n.is_prefix_of p p ≡ true
  pub empty_is_prefix : (p : n.Name) → n.is_prefix_of n.empty_name p ≡ true

module _ (n : Ndn) (r : Rocks) where
  open n use {Name}

  -- The data prefixes cover every name.
  abbrev CoversAll : List Name → Type 0
  CoversAll ps = (p : Name) → is_covered n r ps p ≡ true

  fire-CoversAll :
      (slots : ℕ) (ps : List Name) (name : Name) → CoversAll ps → fire n r slots ps name ≡ (ps, [])
  unfolding fire on_data_insertion
  fire-CoversAll zero ps name all = refl
  fire-CoversAll (suc slots) ps name all = rw (all name, fire-CoversAll slots ps name all) refl

  signalled-CoversAll :
      (slots : ℕ) (ps : List Name) (es : Effects n)
      → CoversAll ps
      → (signalled n r slots ps es).0 ≡ ps
  unfolding signalled
  signalled-CoversAll slots ps [] all = refl
  signalled-CoversAll slots ps (inserted name ∷ es) all =
      rw (fire-CoversAll slots ps name all) (signalled-CoversAll slots ps es all)
  signalled-CoversAll slots ps (_ ∷ es) all = signalled-CoversAll slots ps es all

  module _ (laws : PrefixLaws n) where
    empty-CoversAll : (ps : List Name) → CoversAll (ps ++ n.empty_name ∷ [])
    unfolding is_covered
    empty-CoversAll ps p =
        is_covered-append n r ps (n.empty_name ∷ []) p ∙ ground (arith, laws.empty_is_prefix p)

    fire_empty :
        (slots : ℕ) (ps : List Name)
        → is_covered n r ps n.empty_name ≡ false
        → fire n r (suc slots) ps n.empty_name
          ≡ (ps ++ n.empty_name ∷ [], registered n.empty_name ∷ [])
    unfolding on_data_insertion Read.listen
    fire_empty slots ps new = fire_once n r laws.is_prefix_refl slots ps n.empty_name ∙ rw new refl

  module _ (build : Build n.Name) (decode : n.Component → Option Parameter)
      (decode_name : Bytes → Option (List Bytes)) where
    abbrev S : Type 0
    S = System n r build decode decode_name

    read_prefixes :
        (s s' : S) (result : Result (Effects n)) (es : Effects n)
        → read n r build decode decode_name s result ≡ done (s', es)
        → s'.data_prefixes ≡ s.data_prefixes
    read_prefixes s s' (err x) es e = cc
    read_prefixes s s' (ok fs) es e =
        ap (λ (x : S × Effects n). x.0.data_prefixes) (sym (done_eq n r build decode decode_name e))

    written_prefixes :
        (s s' : S) (result : Result (WriteHandle n r decode × Effects n)) (es : Effects n)
        → CoversAll s.data_prefixes
        → written n r build decode decode_name s result ≡ done (s', es)
        → s'.data_prefixes ≡ s.data_prefixes
    written_prefixes s s' (err x) es all e = cc
    written_prefixes s s' (ok (w, fs)) es all e =
        ap (λ (x : S × Effects n). x.0.data_prefixes) (sym (done_eq n r build decode decode_name e))
        ∙ signalled-CoversAll s.slots s.data_prefixes fs all

    handled_prefixes :
        (s s' : S) (result : Outcome (PatternHandle n r build decode decode_name × Effects n))
        (es : Effects n)
        → CoversAll s.data_prefixes
        → handled n r build decode decode_name s result ≡ done (s', es)
        → s'.data_prefixes ≡ s.data_prefixes
    handled_prefixes s s' (fault x) es all e = cc
    handled_prefixes s s' (done (h, fs)) es all e =
        ap (λ (x : S × Effects n). x.0.data_prefixes) (sym (done_eq n r build decode decode_name e))
        ∙ signalled-CoversAll s.slots s.data_prefixes fs all

    step_prefixes :
        (s s' : S) (event : Event n r build decode decode_name) (es : Effects n)
        → CoversAll s.data_prefixes
        → step n r build decode decode_name s event ≡ done (s', es)
        → s'.data_prefixes ≡ s.data_prefixes
    unfolding step
    step_prefixes s s' (reading i) es all e = read_prefixes s s' _ es e
    step_prefixes s s' (writing event) es all e = written_prefixes s s' _ es all e
    step_prefixes s s' (fetching event) es all e = handled_prefixes s s' _ es all e

    run_prefixes :
        (s s' : S) (events : List (Event n r build decode decode_name)) (es : Effects n)
        → CoversAll s.data_prefixes
        → run n r build decode decode_name s events ≡ done (s', es)
        → s'.data_prefixes ≡ s.data_prefixes
    run_prefixes s s' [] es all e =
        ap (λ (x : S × Effects n). x.0.data_prefixes)
          (sym (run_nil n r build decode decode_name s s' es e))
    run_prefixes s s' (event ∷ events) es all e =
        let (s1, fs, gs, first, rest, split) =
          run_cons n r build decode decode_name s s' event events es e in
        let same = step_prefixes s s1 event fs all first in
        run_prefixes s1 s' events gs (subst CoversAll (sym same) all) rest ∙ same

    abbrev Rejected : Engine n r → n.Data → r.Store → Type 0
    Rejected e d store =
        let p = stored_packet n r e d in
        (r.put (n.to_uri (n.data_name p)) (n.wire_encode p) store).0 ≡ false

    on_data_refused :
        (w : WriteHandle n r decode) (store : r.Store) (d : n.Data) (process_id : ℕ) (x : Response)
        → IsPending n r decode w
        → StdMap.find ℕ_discrete process_id w.processes ≡ some x
        → w.storage.db ≡ some store
        → Rejected w.storage d store
        → (w' : WriteHandle n r decode) × (Defs.on_data n r decode w d process_id
            ≡ ok (w', inserted n.empty_name ∷ []))
    unfolding Defs.on_data Defs.stored put_packet
    on_data_refused w store d process_id x pending found opened refused =
        let e' = (put_packet n r w.storage store (stored_packet n r w.storage d)).1 in
        (
          record w { storage = e'; processes = StdMap.erase ℕ_discrete process_id w.processes },
          ground (arith, pending.at process_id x found, put_eq n r w.storage store d opened),
        )

    written_empty :
        (laws : PrefixLaws n) (k : ℕ) (s : S) (w : WriteHandle n r decode)
        → s.slots ≡ suc k
        → is_covered n r s.data_prefixes n.empty_name ≡ false
        → (s1 : S) × (s1.data_prefixes ≡ s.data_prefixes ++ n.empty_name ∷ [])
          × (written n r build decode decode_name s (ok (w, inserted n.empty_name ∷ []))
              ≡ done (s1, inserted n.empty_name ∷ registered n.empty_name ∷ []))
    unfolding signalled
    written_empty laws k s w connected new = (
      record s {
        engine = w.storage;
        processes = w.processes;
        data_prefixes = s.data_prefixes ++ n.empty_name ∷ [];
      },
      refl,
      rw (connected, fire_empty laws k s.data_prefixes new) refl,
    )

    step_lost :
        (laws : PrefixLaws n) (s : S) (d : n.Data) (process_id : ℕ) (x : Response) (store : r.Store)
        → IsSound n r build decode decode_name s
        → 0 < s.slots
        → StdMap.find ℕ_discrete process_id s.processes ≡ some x
        → s.engine.db ≡ some store
        → Rejected s.engine d store
        → is_covered n r s.data_prefixes n.empty_name ≡ false
        → (s1 : S) × (s1.data_prefixes ≡ s.data_prefixes ++ n.empty_name ∷ [])
          × (step n r build decode decode_name s (writing (Runs.arrival d process_id))
              ≡ done (s1, inserted n.empty_name ∷ registered n.empty_name ∷ []))
    unfolding step Runs.step
    step_lost laws s d process_id x store sound connected found opened refused new =
        let (w, q) =
          on_data_refused (writer n r build decode decode_name s) store d process_id x sound.pending
            found opened refused in
        let (s1, grown, e) = written_empty laws (s.slots - 1) s w (omega arith) new in
        (s1, grown, ap (written n r build decode decode_name s) q ∙ e)

    -- Where each name is a prefix of itself and `Name()` of every name, in a sound system with the
    -- signals connected and a process under way, no data prefix covering `Name()`: when RocksDB
    -- refuses to write the process's packet, `Name()` is announced and registered as a data prefix,
    -- and whatever reaches the repository after that without a fault, no data prefix is added.
    pub refused_write_takes_all :
        (laws : PrefixLaws n) (s s' : S) (d : n.Data) (process_id : ℕ) (x : Response)
        (store : r.Store) (later : List (Event n r build decode decode_name)) (es : Effects n)
        → IsSound n r build decode decode_name s
        → 0 < s.slots
        → StdMap.find ℕ_discrete process_id s.processes ≡ some x
        → s.engine.db ≡ some store
        → Rejected s.engine d store
        → is_covered n r s.data_prefixes n.empty_name ≡ false
        → run n r build decode decode_name s (writing (Runs.arrival d process_id) ∷ later)
          ≡ done (s', es)
        → (s'.data_prefixes ≡ s.data_prefixes ++ n.empty_name ∷ [])
          × ((fs : Effects n) × (es ≡ inserted n.empty_name ∷ registered n.empty_name ∷ fs))
    refused_write_takes_all laws s s' d process_id x store later es sound connected found opened
          refused new e =
        let (s0, grown, first) =
          step_lost laws s d process_id x store sound connected found opened refused new in
        let (s1, gs, hs, q, rest, split) =
          run_cons n r build decode decode_name s s' (writing (Runs.arrival d process_id)) later es
            e in
        let same = done_eq n r build decode decode_name (sym q ∙ first) in
        let at : s1.data_prefixes ≡ s.data_prefixes ++ n.empty_name ∷ [] =
          ap (λ (y : S × Effects n). y.0.data_prefixes) same ∙ grown in
        (
          run_prefixes s1 s' later hs
                (subst CoversAll (sym at) (empty-CoversAll laws s.data_prefixes)) rest
              ∙ at,
          (hs, split ∙ ap (λ (y : S × Effects n). y.1 ++ hs) same),
        )
