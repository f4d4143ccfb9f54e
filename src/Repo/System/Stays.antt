-- ===== src/Repo/System/Stays.antt =====
-- What a step of the system leaves as it was, unless it is about it: a process, a stored packet.
use fast_repo.Prelude.{ℕ, ◌≡◌, ◌≢◌, refl, ap, sym, ◌∙◌, subst, inl, inr, Option, List, ℕ_discrete}
use fast_repo.Prelude.Bytes.{Bytes}
use fast_repo.Prelude.StdMap
use fast_repo.Prelude.StdMap.{find-insert_same}
use fast_repo.Ndn.{Ndn, Rocks, WriteLaws}
use fast_repo.Storage.Engine.{Engine, Result, ok, err, get, put_packet, stored_packet}
use fast_repo.Storage.Written.{put_eq, get-put_ne}
use fast_repo.Handles.Base.{Parameter, Effects}
use fast_repo.Handles.Write.Defs.{WriteHandle}
use fast_repo.Handles.Write.Runs
use fast_repo.Patterns.Fetch.{Build}
use fast_repo.Patterns.Handle
use fast_repo.Patterns.Handle.{PatternHandle, Outcome, done, fault}
use fast_repo.Repo.System.Defs.{
  System, writer, patterner, Event, reading, writing, fetching, read, written, handled, step,
}
use fast_repo.Repo.System.Kept.{
  Puts, Spares, write_step-find, WriteStores, write_step-WriteStores, PatternStores,
  pattern_step-PatternStores,
}

module _ (n : Ndn) (r : Rocks) where
  -- The engine finds the same under a name, and renames as before.
  abbrev pub Same : n.Name → Engine n r → Engine n r → Type 0
  Same name e e' = (get n r e' name ≡ get n r e name) × (e'.rename_prefix ≡ e.rename_prefix)

  -- A packet is stored under another URI.
  abbrev pub Elsewhere : n.Name → Engine n r → n.Data → Type 0
  Elsewhere name e d = n.to_uri (n.data_name (stored_packet n r e d)) ≢ n.to_uri name

  Elsewhere-eq :
      (name : n.Name) (e e' : Engine n r) (d : n.Data)
      → e'.rename_prefix ≡ e.rename_prefix
      → Elsewhere name e d
      → Elsewhere name e' d
  unfolding stored_packet
  Elsewhere-eq name e e' d same h = rw same h

  pub Puts-rename :
      (e e' : Engine n r) (d : n.Data) → Puts n r e e' d → e'.rename_prefix ≡ e.rename_prefix
  unfolding put_packet
  Puts-rename e e' d (inl same) = rw same refl
  Puts-rename e e' d (inr (s, q, new)) = rw new refl

  module _ (writes : WriteLaws r) where
    Puts-Same :
        (name : n.Name) (e e' : Engine n r) (d : n.Data)
        → Elsewhere name e d
        → Puts n r e e' d
        → Same name e e'
    unfolding put_packet
    Puts-Same name e e' d other (inl same) = rw same (refl, refl)
    Puts-Same name e e' d other (inr (s, q, new)) = subst (Same name e) (sym new) (
      get-put_ne n r writes e (put_packet n r e s (stored_packet n r e d)).1 s d
          (put_packet n r e s (stored_packet n r e d)).0 name q (put_eq n r e s d q) other,
      refl,
    )

  eq-Same : (name : n.Name) (e e' : Engine n r) → e' ≡ e → Same name e e'
  eq-Same name e e' q = subst (Same name e) (sym q) (refl, refl)

module _ (n : Ndn) (r : Rocks) (build : Build n.Name) (decode : n.Component → Option Parameter)
    (decode_name : Bytes → Option (List Bytes)) where
  abbrev S : Type 0
  S = System n r build decode decode_name

  pub written_done :
      (s s' : S) (result : Result (WriteHandle n r decode × Effects n)) (es : Effects n)
      → written n r build decode decode_name s result ≡ done (s', es)
      → (w : WriteHandle n r decode) × (fs : Effects n) × (result ≡ ok (w, fs))
        × (s'.engine ≡ w.storage)
        × (s'.processes ≡ w.processes)
  written_done s s' (err x) es e = cc
  written_done s s' (ok (w, fs)) es e = (w, fs, refl, cc, cc)

  pub handled_done :
      (s s' : S) (result : Outcome (PatternHandle n r build decode decode_name × Effects n))
      (es : Effects n)
      → handled n r build decode decode_name s result ≡ done (s', es)
      → (h : PatternHandle n r build decode decode_name) × (fs : Effects n) × (result
          ≡ done (h, fs))
        × (s'.engine ≡ h.storage)
        × (s'.processes ≡ s.processes)
  handled_done s s' (fault x) es e = cc
  handled_done s s' (done (h, fs)) es e = (h, fs, refl, cc, cc)

  pub read_done :
      (s s' : S) (result : Result (Effects n)) (es : Effects n)
      → read n r build decode decode_name s result ≡ done (s', es)
      → s' ≡ s
  read_done s s' (err x) es e = cc
  read_done s s' (ok fs) es e = cc

  -- An event of another process.
  abbrev pub SparesProcess : ℕ → Event n r build decode decode_name → Type 0
  SparesProcess process_id (reading i) = Unit
  SparesProcess process_id (writing event) = Spares n r decode process_id event
  SparesProcess process_id (fetching event) = Unit

  pub step-find :
      (s s' : S) (event : Event n r build decode decode_name) (es : Effects n) (process_id : ℕ)
      → step n r build decode decode_name s event ≡ done (s', es)
      → SparesProcess process_id event
      → StdMap.find ℕ_discrete process_id s'.processes
        ≡ StdMap.find ℕ_discrete process_id s.processes
  unfolding step
  step-find s s' (reading i) es process_id e spares =
      ap (λ x. StdMap.find ℕ_discrete process_id x.processes) (read_done s s' _ es e)
  step-find s s' (writing event) es process_id e spares =
      let (w, fs, q, engine, processes) = written_done s s' _ es e in
      ap (StdMap.find ℕ_discrete process_id) processes
      ∙ write_step-find n r decode (writer n r build decode decode_name s) w event fs process_id q
          spares
  step-find s s' (fetching event) es process_id e spares =
      let (h, fs, q, engine, processes) = handled_done s s' _ es e in
      ap (StdMap.find ℕ_discrete process_id) processes

  -- An event that stores nothing under the name's URI.
  abbrev pub Misses : n.Name → Engine n r → Event n r build decode decode_name → Type 0
  Misses name e (reading i) = Unit
  Misses name e (writing (Runs.arrival d j)) = Elsewhere n r name e d
  Misses name e (writing (Runs.command interest prefix j)) = Unit
  Misses name e (writing (Runs.timeout j)) = Unit
  Misses name e (fetching (Handle.packet d address)) = Elsewhere n r name e d
  Misses name e (fetching (Handle.fetch_command interest prefix memory)) = Unit
  Misses name e (fetching (Handle.cancel_command interest prefix)) = Unit
  Misses name e (fetching (Handle.timer address)) = Unit
  Misses name e (fetching (Handle.recorded d)) = Elsewhere n r name e d
  Misses name e (fetching (Handle.removal prefix)) = Unit

  pub Misses-eq :
      (name : n.Name) (e e' : Engine n r) (event : Event n r build decode decode_name)
      → e'.rename_prefix ≡ e.rename_prefix
      → Misses name e event
      → Misses name e' event
  Misses-eq name e e' (reading i) same m = tt
  Misses-eq name e e' (writing (Runs.arrival d j)) same m = Elsewhere-eq n r name e e' d same m
  Misses-eq name e e' (writing (Runs.command interest prefix j)) same m = tt
  Misses-eq name e e' (writing (Runs.timeout j)) same m = tt
  Misses-eq name e e' (fetching (Handle.packet d address)) same m =
      Elsewhere-eq n r name e e' d same m
  Misses-eq name e e' (fetching (Handle.fetch_command interest prefix memory)) same m = tt
  Misses-eq name e e' (fetching (Handle.cancel_command interest prefix)) same m = tt
  Misses-eq name e e' (fetching (Handle.timer address)) same m = tt
  Misses-eq name e e' (fetching (Handle.recorded d)) same m = Elsewhere-eq n r name e e' d same m
  Misses-eq name e e' (fetching (Handle.removal prefix)) same m = tt

  module _ (writes : WriteLaws r) where
    write-Same :
        (name : n.Name) (e e' : Engine n r) (event : Runs.Event n)
        → WriteStores n r decode e e' event
        → Misses name e (writing event)
        → Same n r name e e'
    write-Same name e e' (Runs.command interest prefix j) q m = eq-Same n r name e e' q
    write-Same name e e' (Runs.arrival d j) q m = Puts-Same n r writes name e e' d m q
    write-Same name e e' (Runs.timeout j) q m = eq-Same n r name e e' q

    pattern-Same :
        (name : n.Name) (e e' : Engine n r) (event : Handle.Event n r build decode decode_name)
        → PatternStores n r decode build decode_name e e' event
        → Misses name e (fetching event)
        → Same n r name e e'
    pattern-Same name e e' (Handle.fetch_command interest prefix memory) q m =
        eq-Same n r name e e' q
    pattern-Same name e e' (Handle.cancel_command interest prefix) q m = eq-Same n r name e e' q
    pattern-Same name e e' (Handle.timer address) q m = eq-Same n r name e e' q
    pattern-Same name e e' (Handle.packet d address) q m = Puts-Same n r writes name e e' d m q
    pattern-Same name e e' (Handle.recorded d) q m = Puts-Same n r writes name e e' d m q
    pattern-Same name e e' (Handle.removal prefix) q m = eq-Same n r name e e' q

    pub step-Same :
        (s s' : S) (event : Event n r build decode decode_name) (es : Effects n) (name : n.Name)
        → step n r build decode decode_name s event ≡ done (s', es)
        → Misses name s.engine event
        → Same n r name s.engine s'.engine
    unfolding step
    step-Same s s' (reading i) es name e m =
        eq-Same n r name s.engine s'.engine (ap (λ x. x.engine) (read_done s s' _ es e))
    step-Same s s' (writing event) es name e m =
        let (w, fs, q, engine, processes) = written_done s s' _ es e in
        subst (Same n r name s.engine) (sym engine) (
          write-Same name s.engine w.storage event
            (write_step-WriteStores n r decode (writer n r build decode decode_name s) w event fs q)
            m)
    step-Same s s' (fetching event) es name e m =
        let (h, fs, q, engine, processes) = handled_done s s' _ es e in
        subst (Same n r name s.engine) (sym engine) (
          pattern-Same name s.engine h.storage event
            (pattern_step-PatternStores n r decode build decode_name
              (patterner n r build decode decode_name s) h event fs q)
            m)
