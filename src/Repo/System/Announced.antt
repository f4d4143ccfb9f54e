-- ===== src/Repo/System/Announced.antt =====
-- The names that the handles announce, and the data prefixes that the repository then listens to.
use fast_repo.Prelude.{
  ℕ, zero, suc, ◌<◌, ◌-◌, ◌≡◌, refl, ap, sym, ◌∙◌, subst, true, Option, List, [], ◌∷◌, ◌++◌, All,
  arith,
}
use fast_repo.Prelude.Bytes.{Bytes}
use fast_repo.Ndn.{Ndn, Rocks, Interest}
use fast_repo.Storage.Engine.{Engine, Result, ok, err}
use fast_repo.Handles.Base.{Parameter, Effects, Effect, inserted}
use fast_repo.Handles.Read
use fast_repo.Handles.Write.Defs.{WriteHandle}
use fast_repo.Patterns.Fetch.{Build}
use fast_repo.Patterns.Handle.{PatternHandle, Outcome, done, fault}
use fast_repo.Repo.Prefixes.{
  is_covered, is_covered-append, on_data_insertion, fire, fire_once, covered_self,
}
use fast_repo.Repo.System.Runs.{done_eq, run_cons, run_nil}
use fast_repo.Repo.System.Defs.{
  System, signalled, Event, reading, writing, fetching, read, written, handled, step, run,
}

module _ {Name Data : Type 0} where
  abbrev pub announced : List (Effect Name Data) → List Name
  announced [] = []
  announced (inserted name ∷ es) = name ∷ announced es
  announced (_ ∷ es) = announced es

  All-announced :
      (P : Name → Type 0) (es fs : List (Effect Name Data))
      → All P (announced es)
      → All P (announced fs)
      → All P (announced (es ++ fs))
  All-announced P [] fs a b = b
  All-announced P (inserted name ∷ es) fs a b = (a.0, All-announced P es fs a.1 b)
  All-announced P (_ ∷ es) fs a b = All-announced P es fs a b

module _ {Name : Type 0} where
  All-weaken :
      (P Q : Name → Type 0) (weaken : (x : Name) → P x → Q x) (xs : List Name) → All P xs → All Q xs
  All-weaken P Q weaken [] a = tt
  All-weaken P Q weaken (x ∷ xs) a = (weaken x a.0, All-weaken P Q weaken xs a.1)

module _ (n : Ndn) (r : Rocks) (is_prefix_refl : (p : n.Name) → n.is_prefix_of p p ≡ true) where
  open n use {Name}

  abbrev Covered : List Name → Name → Type 0
  Covered ps p = is_covered n r ps p ≡ true

  on_data_insertion-grows :
      (ps : List Name) (name p : Name) → Covered ps p → Covered (on_data_insertion n r ps name).0 p
  unfolding on_data_insertion
  on_data_insertion-grows ps name p h = ground (arith, is_covered-append n r ps (name ∷ []) p)

  on_data_insertion-covers :
      (ps : List Name) (name : Name) → Covered (on_data_insertion n r ps name).0 name
  unfolding on_data_insertion
  on_data_insertion-covers ps name = ground (arith, covered_self n r is_prefix_refl ps name)

  on_data_insertion_silent :
      (ps : List Name) (name : Name) → announced (on_data_insertion n r ps name).1 ≡ []
  unfolding on_data_insertion Read.listen
  on_data_insertion_silent ps name = ground arith

  fire-grows :
      (slots : ℕ) (ps : List Name) (name p : Name)
      → Covered ps p
      → Covered (fire n r slots ps name).0 p
  unfolding fire
  fire-grows zero ps name p h = h
  fire-grows (suc slots) ps name p h =
      fire-grows slots (on_data_insertion n r ps name).0 name p
        (on_data_insertion-grows ps name p h)

  signalled-grows :
      (slots : ℕ) (es : Effects n) (ps : List Name) (p : Name)
      → Covered ps p
      → Covered (signalled n r slots ps es).0 p
  unfolding signalled
  signalled-grows slots [] ps p h = h
  signalled-grows slots (inserted name ∷ es) ps p h =
      signalled-grows slots es (fire n r slots ps name).0 p (fire-grows slots ps name p h)
  signalled-grows slots (_ ∷ es) ps p h = signalled-grows slots es ps p h

  fire-covers :
      (slots : ℕ) (ps : List Name) (name : Name) → Covered (fire n r (suc slots) ps name).0 name
  fire-covers slots ps name =
      subst (λ (x : List Name × Effects n). Covered x.0 name)
        (sym (fire_once n r is_prefix_refl slots ps name)) (on_data_insertion-covers ps name)

  fire_silent :
      (slots : ℕ) (ps : List Name) (name : Name) → announced (fire n r (suc slots) ps name).1 ≡ []
  fire_silent slots ps name =
      ap (λ (x : List Name × Effects n). announced x.1) (fire_once n r is_prefix_refl slots ps name)
      ∙ on_data_insertion_silent ps name

  -- What is announced on the way is covered by the prefixes at the end.
  signalled-covers :
      (slots : ℕ) (es : Effects n) (ps : List Name)
      → All
          (Covered (signalled n r (suc slots) ps es).0)
          (announced (signalled n r (suc slots) ps es).1)
  unfolding signalled
  signalled-covers slots [] ps = tt
  signalled-covers slots (inserted name ∷ es) ps =
      let qs = (fire n r (suc slots) ps name).0 in
      let P = Covered (signalled n r (suc slots) qs es).0 in
      (
        signalled-grows (suc slots) es qs name (fire-covers slots ps name),
        All-announced P (fire n r (suc slots) ps name).1 _
            (subst (All P) (sym (fire_silent slots ps name)) tt) (signalled-covers slots es qs),
      )
  signalled-covers slots (_ ∷ es) ps = signalled-covers slots es ps

  module _ (build : Build n.Name) (decode : n.Component → Option Parameter)
      (decode_name : Bytes → Option (List Bytes)) where
    abbrev S : Type 0
    S = System n r build decode decode_name

    -- The prefixes of a later state cover what the earlier ones cover, and what was announced.
    abbrev Announces : S → S → Effects n → Type 0
    Announces s s' es =
        All (Covered s'.data_prefixes) (announced es)
        × (s'.slots ≡ s.slots)
        × ((p : Name) → Covered s.data_prefixes p → Covered s'.data_prefixes p)

    signalled-Announces :
        (k : ℕ) (s s' : S) (es : Effects n)
        → s.slots ≡ suc k
        → s'.slots ≡ s.slots
        → s'.data_prefixes ≡ (signalled n r s.slots s.data_prefixes es).0
        → Announces s s' (signalled n r s.slots s.data_prefixes es).1
    signalled-Announces k s s' es connected same grown = (
      subst (λ m. All (Covered s'.data_prefixes) (announced (signalled n r m s.data_prefixes es).1))
          (sym connected)
          (subst (λ ps. All (Covered ps) (announced (signalled n r (suc k) s.data_prefixes es).1))
            (sym (grown ∙ ap (λ m. (signalled n r m s.data_prefixes es).0) connected))
            (signalled-covers k es s.data_prefixes)),
      same,
      λ p h.
          subst (λ ps. Covered ps p) (sym grown) (signalled-grows s.slots es s.data_prefixes p h),
    )

    on_interest_silent :
        (e : Engine n r) (i : Interest Name) (es : Effects n)
        → Read.on_interest n r e i ≡ ok es
        → announced es ≡ []
    unfolding Read.on_interest
    on_interest_silent e i es h = ground arith

    read-Announces :
        (s s' : S) (i : Interest Name) (result : Result (Effects n)) (es : Effects n)
        → Read.on_interest n r s.engine i ≡ result
        → read n r build decode decode_name s result ≡ done (s', es)
        → Announces s s' es
    read-Announces s s' i (err x) es q e = cc
    read-Announces s s' i (ok fs) es q e =
        subst (λ (x : S × Effects n). Announces s x.0 x.1) (done_eq n r build decode decode_name e)
          (
            subst (All (Covered s.data_prefixes)) (sym (on_interest_silent s.engine i fs q)) tt,
            refl,
            λ p h. h,
          )

    written-Announces :
        (k : ℕ) (s s' : S) (result : Result (WriteHandle n r decode × Effects n)) (es : Effects n)
        → s.slots ≡ suc k
        → written n r build decode decode_name s result ≡ done (s', es)
        → Announces s s' es
    written-Announces k s s' (err x) es connected e = cc
    written-Announces k s s' (ok (w, fs)) es connected e =
        subst (λ (x : S × Effects n). Announces s x.0 x.1) (done_eq n r build decode decode_name e)
          (signalled-Announces k s
            (record s {
              engine = w.storage;
              processes = w.processes;
              data_prefixes = (signalled n r s.slots s.data_prefixes fs).0;
            })
            fs connected refl refl)

    handled-Announces :
        (k : ℕ) (s s' : S)
        (result : Outcome (PatternHandle n r build decode decode_name × Effects n)) (es : Effects n)
        → s.slots ≡ suc k
        → handled n r build decode decode_name s result ≡ done (s', es)
        → Announces s s' es
    handled-Announces k s s' (fault x) es connected e = cc
    handled-Announces k s s' (done (h, fs)) es connected e =
        subst (λ (x : S × Effects n). Announces s x.0 x.1) (done_eq n r build decode decode_name e)
          (signalled-Announces k s
            (record s {
              engine = h.storage;
              patterns = h.patterns;
              objects = h.objects;
              next = h.next;
              data_prefixes = (signalled n r s.slots s.data_prefixes fs).0;
            })
            fs connected refl refl)

    step-Announces :
        (k : ℕ) (s s' : S) (event : Event n r build decode decode_name) (es : Effects n)
        → s.slots ≡ suc k
        → step n r build decode decode_name s event ≡ done (s', es)
        → Announces s s' es
    unfolding step
    step-Announces k s s' (reading i) es connected e = read-Announces s s' i _ es refl e
    step-Announces k s s' (writing event) es connected e = written-Announces k s s' _ es connected e
    step-Announces k s s' (fetching event) es connected e =
        handled-Announces k s s' _ es connected e

    run-Announces :
        (k : ℕ) (s s' : S) (events : List (Event n r build decode decode_name)) (es : Effects n)
        → s.slots ≡ suc k
        → run n r build decode decode_name s events ≡ done (s', es)
        → Announces s s' es
    run-Announces k s s' [] es connected e =
        subst (λ (x : S × Effects n). Announces s x.0 x.1)
          (run_nil n r build decode decode_name s s' es e) (tt, refl, λ p h. h)
    run-Announces k s s' (event ∷ events) es connected e =
        let (s1, fs, gs, first, rest, split) =
          run_cons n r build decode decode_name s s' event events es e in
        let (all1, same1, grow1) = step-Announces k s s1 event fs connected first in
        let (all2, same2, grow2) = run-Announces k s1 s' events gs (same1 ∙ connected) rest in
        (
          subst (λ x. All (Covered s'.data_prefixes) (announced x)) (sym split)
              (All-announced _ fs gs (All-weaken _ _ grow2 (announced fs) all1) all2),
          same2 ∙ same1,
          λ p h. grow2 p (grow1 p h),
        )

    -- Where each name is a prefix of itself and the signals are connected (at least one command
    -- prefix is listened to): in any run without a fault, each name that the write or the pattern
    -- handle announces is in the end covered by a data prefix, and so is each name that was covered
    -- before.
    pub announced_covered :
        (s s' : System n r build decode decode_name)
        (events : List (Event n r build decode decode_name)) (es : Effects n)
        → 0 < s.slots
        → run n r build decode decode_name s events ≡ done (s', es)
        → All (λ name. is_covered n r s'.data_prefixes name ≡ true) (announced es)
          × ((p : Name)
              → is_covered n r s.data_prefixes p ≡ true
              → is_covered n r s'.data_prefixes p ≡ true)
    announced_covered s s' events es connected e =
        let (all, same, grow) = run-Announces (s.slots - 1) s s' events es (omega arith) e in
        (all, grow)
