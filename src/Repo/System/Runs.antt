-- ===== src/Repo/System/Runs.antt =====
-- Runs of the system, taken apart at their first event.
use fast_repo.Prelude.{◌≡◌, refl, Option, List, [], ◌∷◌, ◌++◌}
use fast_repo.Prelude.Bytes.{Bytes}
use fast_repo.Ndn.{Ndn, Rocks}
use fast_repo.Handles.Base.{Parameter, Effects}
use fast_repo.Patterns.Fetch.{Build}
use fast_repo.Patterns.Handle.{Outcome, done, fault}
use fast_repo.Repo.System.Defs.{System, Event, step, run, after, go_on}

module _ (n : Ndn) (r : Rocks) (build : Build n.Name) (decode : n.Component → Option Parameter)
    (decode_name : Bytes → Option (List Bytes)) where
  abbrev Ends :
      Outcome (System n r build decode decode_name × Effects n)
      → System n r build decode decode_name
      → Effects n
      → Type 0
  Ends result s es = result ≡ done (s, es)

  pub done_eq :
      {x y : System n r build decode decode_name × Effects n}
      → ◌≡◌ {A = Outcome (System n r build decode decode_name × Effects n)} (done x) (done y)
      → x ≡ y
  done_eq e = cc

  after_done :
      (gs : Effects n) (rest : Outcome (System n r build decode decode_name × Effects n))
      (s : System n r build decode decode_name) (es : Effects n)
      → Ends (after n r build decode decode_name gs rest) s es
      → (hs : Effects n) × Ends rest s hs × (es ≡ gs ++ hs)
  after_done gs (fault x) s es e = cc
  after_done gs (done (s', hs)) s es e = (hs, cc, cc)

  go_on_done :
      (first : Outcome (System n r build decode decode_name × Effects n))
      (rest : System n r build decode decode_name
        → Outcome (System n r build decode decode_name × Effects n))
      (s : System n r build decode decode_name) (es : Effects n)
      → Ends (go_on n r build decode decode_name first rest) s es
      → (s1 : System n r build decode decode_name) × (gs : Effects n) × (hs : Effects n) × Ends
          first s1 gs
        × Ends (rest s1) s hs
        × (es ≡ gs ++ hs)
  go_on_done (fault x) rest s es e = cc
  go_on_done (done (s1, gs)) rest s es e =
      let (hs, ended, split) = after_done gs (rest s1) s es e in (s1, gs, hs, refl, ended, split)

  pub run_cons :
      (s s' : System n r build decode decode_name) (event : Event n r build decode decode_name)
      (events : List (Event n r build decode decode_name)) (es : Effects n)
      → run n r build decode decode_name s (event ∷ events) ≡ done (s', es)
      → (s1 : System n r build decode decode_name) × (gs : Effects n) × (hs : Effects n) × (step n r
            build decode decode_name s event
          ≡ done (s1, gs))
        × (run n r build decode decode_name s1 events ≡ done (s', hs))
        × (es ≡ gs ++ hs)
  unfolding run
  run_cons s s' event events es e = go_on_done (step n r build decode decode_name s event) _ s' es e

  pub run_nil :
      (s s' : System n r build decode decode_name) (es : Effects n)
      → run n r build decode decode_name s [] ≡ done (s', es)
      → ◌≡◌ {A = System n r build decode decode_name × Effects n} (s, []) (s', es)
  unfolding run
  run_nil s s' es e = done_eq e
