-- ===== src/Repo/System/Kept.antt =====
-- What one callback of the system leaves as it was: the other processes, the other packets.
use fast_repo.Prelude.{
  ℕ, ◌≡◌, ◌≢◌, refl, ap, sym, ◌∙◌, ◌⊎◌, inl, inr, Option, some, List, arith, ℕ_discrete,
  Option-cases,
}
use fast_repo.Prelude.Bytes.{Bytes}
use fast_repo.Prelude.StdMap
use fast_repo.Prelude.StdMap.{find-insert, find-erase}
use fast_repo.Ndn.{Ndn, Rocks}
use fast_repo.Storage.Engine
use fast_repo.Storage.Engine.{Engine, Result, ok, err, put, get, put_packet, stored_packet}
use fast_repo.Handles.Base.{Parameter, Effects}
use fast_repo.Handles.Write.Defs
use fast_repo.Handles.Write.Defs.{WriteHandle}
use fast_repo.Handles.Write.Runs
use fast_repo.Patterns.Fetch.{Build}
use fast_repo.Patterns.Handle
use fast_repo.Patterns.Handle.{PatternHandle, Outcome, done, fault}

Result-cases :
    {A : Type 0} (x : Result A) → ((a : A) × (x ≡ ok a)) ⊎ ((y : Engine.Error) × (x ≡ err y))
Result-cases (ok a) = inl (a, refl)
Result-cases (err y) = inr (y, refl)

module _ (n : Ndn) (r : Rocks) where
  -- The engine as it was, or after the `put` of one packet.
  abbrev pub Puts : Engine n r → Engine n r → n.Data → Type 0
  Puts e e' d =
      (e' ≡ e)
      ⊎ ((s : r.Store) × (e.db ≡ some s) × (e' ≡ (put_packet n r e s (stored_packet n r e d)).1))

  put-Puts :
      (e e' : Engine n r) (d : n.Data) (name : n.Name) → put n r e d ≡ ok (name, e') → Puts e e' d
  unfolding put
  put-Puts e e' d name h = elim (Option-cases e.db) [
    | inl q ↦ inl (ground arith)
    | inr (s, q) ↦ inr (s, q, ground arith)
  ]

  module _ (decode : n.Component → Option Parameter) where
    -- Whether a callback is about another process.
    abbrev pub Spares : ℕ → Runs.Event n → Type 0
    Spares process_id (Runs.command interest prefix j) = j ≢ process_id
    Spares process_id (Runs.arrival d j) = j ≢ process_id
    Spares process_id (Runs.timeout j) = j ≢ process_id

    pub write_step-find :
        (w w' : WriteHandle n r decode) (event : Runs.Event n) (es : Effects n) (process_id : ℕ)
        → Runs.step n r decode w event ≡ ok (w', es)
        → Spares process_id event
        → StdMap.find ℕ_discrete process_id w'.processes
          ≡ StdMap.find ℕ_discrete process_id w.processes
    unfolding Runs.step Defs.on_interest Defs.process_single_insert_command Defs.on_timeout
        Defs.on_data Defs.stored
    write_step-find w w' (Runs.command interest prefix j) es process_id h ne = ground (
      arith,
      find-insert ℕ_discrete j process_id
          (record (Defs.started n r decode w j) { status_code = 300 }) w.processes,
    )
    write_step-find w w' (Runs.arrival d j) es process_id h ne =
        ground (arith, find-erase ℕ_discrete j process_id w.processes)
    write_step-find w w' (Runs.timeout j) es process_id h ne =
        ground (arith, find-erase ℕ_discrete j process_id w.processes)

    -- What a callback of the write handle does to the engine.
    abbrev pub WriteStores : Engine n r → Engine n r → Runs.Event n → Type 0
    WriteStores e e' (Runs.command interest prefix j) = e' ≡ e
    WriteStores e e' (Runs.arrival d j) = Puts e e' d
    WriteStores e e' (Runs.timeout j) = e' ≡ e

    same_or_put :
        (w w' : WriteHandle n r decode) (d : n.Data) (j : ℕ) (es : Effects n) (name : n.Name)
        (e' : Engine n r)
        → Defs.on_data n r decode w d j ≡ ok (w', es)
        → put n r w.storage d ≡ ok (name, e')
        → (w'.storage ≡ w.storage) ⊎ (w'.storage ≡ e')
    unfolding Defs.on_data Defs.stored Defs.on_timeout
    same_or_put w w' d j es name e' h q = ground arith

    put_if_new :
        (w w' : WriteHandle n r decode) (d : n.Data) (j : ℕ) (es : Effects n)
        → Defs.on_data n r decode w d j ≡ ok (w', es)
        → (w'.storage ≡ w.storage)
          ⊎ ((name : n.Name) × (put n r w.storage d ≡ ok (name, w'.storage)))
    unfolding Defs.on_data Defs.stored Defs.on_timeout
    put_if_new w w' d j es h = elim (Result-cases (put n r w.storage d)) [
      | inl ((name, e'), q) ↦ elim (same_or_put w w' d j es name e' h q) [
        | inl same ↦ inl same
        | inr new ↦ inr (name, q ∙ ap (λ x. ok (name, x)) (sym new))
      ]
      | inr (x, q) ↦ inl (ground arith)
    ]

    pub write_step-WriteStores :
        (w w' : WriteHandle n r decode) (event : Runs.Event n) (es : Effects n)
        → Runs.step n r decode w event ≡ ok (w', es)
        → WriteStores w.storage w'.storage event
    unfolding Runs.step Defs.on_interest Defs.process_single_insert_command Defs.on_timeout
    write_step-WriteStores w w' (Runs.command interest prefix j) es h = ground arith
    write_step-WriteStores w w' (Runs.arrival d j) es h = elim (put_if_new w w' d j es h) [
      | inl same ↦ inl same
      | inr (name, q) ↦ put-Puts w.storage w'.storage d name q
    ]
    write_step-WriteStores w w' (Runs.timeout j) es h = ground arith

    module _ (build : Build n.Name) (decode_name : Bytes → Option (List Bytes)) where
      -- What a callback of the pattern handle does to the engine.
      abbrev pub PatternStores :
          Engine n r → Engine n r → Handle.Event n r build decode decode_name → Type 0
      PatternStores e e' (Handle.fetch_command interest prefix memory) = e' ≡ e
      PatternStores e e' (Handle.cancel_command interest prefix) = e' ≡ e
      PatternStores e e' (Handle.timer address) = e' ≡ e
      PatternStores e e' (Handle.packet d address) = Puts e e' d
      PatternStores e e' (Handle.recorded d) = Puts e e' d
      PatternStores e e' (Handle.removal fetch_prefix) = e' ≡ e

      packet_put :
          (h h' : PatternHandle n r build decode decode_name) (d : n.Data) (address : ℕ)
          (es : Effects n) (name : n.Name) (e' : Engine n r)
          → Handle.on_data n r build decode decode_name h d address ≡ done (h', es)
          → put n r h.storage d ≡ ok (name, e')
          → h'.storage ≡ e'
      unfolding Handle.on_data
      packet_put h h' d address es name e' q p = ground arith

      packet_error :
          (h h' : PatternHandle n r build decode decode_name) (d : n.Data) (address : ℕ)
          (es : Effects n) (x : Engine.Error)
          → Handle.on_data n r build decode decode_name h d address ≡ done (h', es)
          → ¬ (put n r h.storage d ≡ err x)
      unfolding Handle.on_data
      packet_error h h' d address es x q p = ground arith

      packet-Puts :
          (h h' : PatternHandle n r build decode decode_name) (d : n.Data) (address : ℕ)
          (es : Effects n)
          → Handle.on_data n r build decode decode_name h d address ≡ done (h', es)
          → Puts h.storage h'.storage d
      packet-Puts h h' d address es q = elim (Result-cases (put n r h.storage d)) [
        | inl ((name, e'), p) ↦
            put-Puts h.storage h'.storage d name
              (p ∙ ap (λ x. ok (name, x)) (sym (packet_put h h' d address es name e' q p)))
        | inr (x, p) ↦ absurd (packet_error h h' d address es x q p)
      ]

      recorded-Puts :
          (h h' : PatternHandle n r build decode decode_name) (d : n.Data) (es : Effects n)
          (result : Result (n.Name × Engine n r))
          → put n r h.storage d ≡ result
          → Handle.recorded_put n r build decode decode_name h result ≡ done (h', es)
          → Puts h.storage h'.storage d
      recorded-Puts h h' d es (err x) p e = cc
      recorded-Puts h h' d es (ok (name, storage)) p e =
          put-Puts h.storage h'.storage d name (ground (arith, p, e))

      pub pattern_step-PatternStores :
          (h h' : PatternHandle n r build decode decode_name)
          (event : Handle.Event n r build decode decode_name) (es : Effects n)
          → Handle.step n r build decode decode_name h event ≡ done (h', es)
          → PatternStores h.storage h'.storage event
      unfolding Handle.step Handle.on_interest Handle.on_cancel_request Handle.on_timer
          Handle.on_recorded Handle.remove_pattern Handle.start Handle.discard
      pattern_step-PatternStores h h' (Handle.fetch_command interest prefix memory) es e =
          ground arith
      pattern_step-PatternStores h h' (Handle.cancel_command interest prefix) es e = ground arith
      pattern_step-PatternStores h h' (Handle.timer address) es e = ground arith
      pattern_step-PatternStores h h' (Handle.packet d address) es e =
          packet-Puts h h' d address es e
      pattern_step-PatternStores h h' (Handle.recorded d) es e = recorded-Puts h h' d es _ refl e
      pattern_step-PatternStores h h' (Handle.removal prefix) es e = ground arith
