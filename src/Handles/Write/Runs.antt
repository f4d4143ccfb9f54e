-- ===== src/Handles/Write/Runs.antt =====
-- Histories of the write handle: the calls that the face makes, one after another. A history ends at
-- an exception of a callback: what ndn-cpp then makes of it is not in the repository.
use fast_repo.Prelude.{ℕ, ◌≡◌, refl, arith, Option, List, [], ◌∷◌, ◌++◌}
use fast_repo.Ndn.{Ndn, Rocks}
use fast_repo.Storage.Engine.{Result, ok, err}
use fast_repo.Handles.Base.{Parameter, Effects}
use fast_repo.Handles.Write.Defs.{WriteHandle, on_interest, on_timeout, on_data}

module _ (n : Ndn) where
  -- A command (the Interest's name, the registered prefix, the random process id), a packet that
  -- came for a process, a timeout or Nack of its fetch.
  pub data Event : Type 0 where
    command : n.Name → n.Name → ℕ → Event
    arrival : n.Data → ℕ → Event
    timeout : ℕ → Event

module _ (n : Ndn) (r : Rocks) (decode : n.Component → Option Parameter) where
  unfoldable pub step :
      WriteHandle n r decode → Event n → Result (WriteHandle n r decode × Effects n)
  step w (command interest prefix process_id) =
      ok (on_interest n r decode w interest prefix process_id)
  step w (arrival d process_id) = on_data n r decode w d process_id
  step w (timeout process_id) = ok (on_timeout n r decode w process_id, [])

  abbrev after :
      Effects n
      → Result (WriteHandle n r decode × Effects n)
      → Result (WriteHandle n r decode × Effects n)
  after es (err x) = err x
  after es (ok (w, fs)) = ok (w, es ++ fs)

  abbrev go_on :
      Result (WriteHandle n r decode × Effects n)
      → (WriteHandle n r decode → Result (WriteHandle n r decode × Effects n))
      → Result (WriteHandle n r decode × Effects n)
  go_on (err x) rest = err x
  go_on (ok (w, es)) rest = after es (rest w)

  unfoldable pub run :
      WriteHandle n r decode → List (Event n) → Result (WriteHandle n r decode × Effects n)
  run w [] = ok (w, [])
  run w (e ∷ es) = go_on (step w e) (λ w'. run w' es)

  after_ok :
      (gs : Effects n) (m : Result (WriteHandle n r decode × Effects n))
      (w : WriteHandle n r decode) (fs : Effects n)
      → after gs m ≡ ok (w, fs)
      → (hs : Effects n) × (m ≡ ok (w, hs)) × (fs ≡ gs ++ hs)
  after_ok gs (err x) w fs e = cc
  after_ok gs (ok (v, hs)) w fs e = (hs, ground arith, ground arith)

  go_on_ok :
      (m : Result (WriteHandle n r decode × Effects n))
      (rest : WriteHandle n r decode → Result (WriteHandle n r decode × Effects n))
      (w : WriteHandle n r decode) (fs : Effects n)
      → go_on m rest ≡ ok (w, fs)
      → (v : WriteHandle n r decode) × (gs : Effects n) × (hs : Effects n) × (m ≡ ok (v, gs))
        × (rest v ≡ ok (w, hs))
        × (fs ≡ gs ++ hs)
  go_on_ok (err x) rest w fs e = cc
  go_on_ok (ok (v, gs)) rest w fs e =
      let (hs, p, q) = after_ok gs (rest v) w fs e in (v, gs, hs, refl, p, q)

  -- A run that ends well made a first step and then a run.
  pub run_cons :
      (w w' : WriteHandle n r decode) (event : Event n) (events : List (Event n)) (fs : Effects n)
      → run w (event ∷ events) ≡ ok (w', fs)
      → (v : WriteHandle n r decode) × (gs : Effects n) × (hs : Effects n) × (step w event
          ≡ ok (v, gs))
        × (run v events ≡ ok (w', hs))
        × (fs ≡ gs ++ hs)
  unfolding run
  run_cons w w' event events fs e = go_on_ok (step w event) (λ v. run v events) w' fs e
