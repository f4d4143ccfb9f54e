-- ===== src/Handles/Write/Pending.antt =====
-- The processes of the write handle while they wait for their packet.
use fast_repo.Prelude.{
  ℕ, ◌≡◌, refl, ◌∙◌, subst, inl, inr, Option, none, some, [], arith, ℕ_discrete, Option-cases,
  if_pos,
}
use fast_repo.Prelude.StdMap
use fast_repo.Prelude.StdMap.{find-insert, find-erase}
use fast_repo.Ndn.{Ndn, Rocks}
use fast_repo.Storage.Engine.{Result, ok}
use fast_repo.Handles.Base.{Response, Parameter, Effects, extract_parameter}
use fast_repo.Handles.Write.Defs.{
  WriteHandle, started, process_single_insert_command, on_interest, on_timeout, on_data,
}
use fast_repo.Handles.Write.Runs.{Event, command, arrival, timeout, step}

module _ (n : Ndn) (r : Rocks) (decode : n.Component → Option Parameter) where
  -- What `onDataValidated` and a check can rely on of each entry of `m_processes`.
  pub record IsPending (w : WriteHandle n r decode) : Type 0 where
    pub at :
        (process_id : ℕ) (response : Response)
        → StdMap.find ℕ_discrete process_id w.processes ≡ some response
        → (response.status_code ≡ 300)
          × (response.process_id ≡ process_id)
          × (response.insert_num ≡ 0)

  state_eq :
      {w w' : WriteHandle n r decode} {es fs : Effects n}
      → ◌≡◌ {A = Result (WriteHandle n r decode × Effects n)} (ok (w, es)) (ok (w', fs))
      → w ≡ w'
  state_eq e = cc

  process_single-IsPending :
      (w : WriteHandle n r decode) (interest : n.Name) (parameter : Parameter) (process_id : ℕ)
      → IsPending w
      → IsPending (process_single_insert_command n r decode w interest parameter process_id).0
  unfolding process_single_insert_command
  process_single-IsPending w interest parameter process_id h = record {
    at = λ j x found. ground (
      arith,
      h.at j x,
      find-insert ℕ_discrete process_id j
          (record (started n r decode w process_id) { status_code = 300 }) w.processes,
    );
  }

  on_interest-IsPending :
      (w : WriteHandle n r decode) (interest prefix : n.Name) (process_id : ℕ)
      → IsPending w
      → IsPending (on_interest n r decode w interest prefix process_id).0
  unfolding on_interest
  on_interest-IsPending w interest prefix process_id h =
      elim (Option-cases (extract_parameter n decode interest prefix)) [
        | inl e ↦ rw e h
        | inr (p, e) ↦ rw e (process_single-IsPending w interest p process_id h)
      ]

  on_timeout-IsPending :
      (w : WriteHandle n r decode) (process_id : ℕ)
      → IsPending w
      → IsPending (on_timeout n r decode w process_id)
  unfolding on_timeout
  on_timeout-IsPending w process_id h = record {
    at = λ j x found. ground (arith, h.at j x, find-erase ℕ_discrete process_id j w.processes);
  }

  on_data-IsPending :
      (w w' : WriteHandle n r decode) (d : n.Data) (process_id : ℕ) (es : Effects n)
      → on_data n r decode w d process_id ≡ ok (w', es)
      → IsPending w
      → IsPending w'
  unfolding on_data on_timeout
  on_data-IsPending w w' d process_id es e h = record {
    at = λ j x found. ground (arith, h.at j x, find-erase ℕ_discrete process_id j w.processes);
  }

  -- Every callback that throws nothing keeps the entries pending: status 300, their own id, and
  -- nothing inserted.
  pub step-IsPending :
      (w w' : WriteHandle n r decode) (event : Event n) (es : Effects n)
      → step n r decode w event ≡ ok (w', es)
      → IsPending w
      → IsPending w'
  unfolding step
  step-IsPending w w' (command interest prefix process_id) es e h =
      subst IsPending (state_eq e) (on_interest-IsPending w interest prefix process_id h)
  step-IsPending w w' (arrival d process_id) es e h = on_data-IsPending w w' d process_id es e h
  step-IsPending w w' (timeout process_id) es e h =
      subst IsPending (state_eq e) (on_timeout-IsPending w process_id h)

  on_data_ends :
      (w w' : WriteHandle n r decode) (d : n.Data) (process_id : ℕ) (es : Effects n)
      → on_data n r decode w d process_id ≡ ok (w', es)
      → StdMap.find ℕ_discrete process_id w'.processes ≡ none
  unfolding on_data on_timeout
  on_data_ends w w' d process_id es e =
      ground (arith, find-erase ℕ_discrete process_id process_id w.processes)

  no_process :
      (w : WriteHandle n r decode) (d : n.Data) (process_id : ℕ)
      → StdMap.find ℕ_discrete process_id w.processes ≡ none
      → on_data n r decode w d process_id ≡ ok (w, [])
  unfolding on_data
  no_process w d process_id e = simp e

  -- When a packet for a process has been handled, whichever it is, any further packet for that
  -- process is dropped: the state stays and nothing is announced.
  on_data_once :
      (w w' : WriteHandle n r decode) (d d' : n.Data) (process_id : ℕ) (es : Effects n)
      → on_data n r decode w d process_id ≡ ok (w', es)
      → on_data n r decode w' d' process_id ≡ ok (w', [])
  on_data_once w w' d d' process_id es e =
      no_process w' d' process_id (on_data_ends w w' d process_id es e)

  -- A packet that comes after its process has timed out is dropped.
  pub on_data-on_timeout :
      (w : WriteHandle n r decode) (d : n.Data) (process_id : ℕ)
      → let w' = on_timeout n r decode w process_id in
        on_data n r decode w' d process_id ≡ ok (w', [])
  on_data-on_timeout w d process_id = no_process (on_timeout n r decode w process_id) d process_id (
      unfold on_timeout in
      find-erase ℕ_discrete process_id process_id w.processes ∙ rw (if_pos _ refl))
