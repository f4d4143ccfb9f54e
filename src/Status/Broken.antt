-- ===== src/Status/Broken.antt =====
-- The status while a pattern is active whose report is not JSON.
use fast_repo.Prelude.{
  subst, ℕ, suc, ap, sym, inl, inr, Bool, Option, none, some, List, [], ◌∷◌, In, ℕ_discrete,
}
use fast_repo.Prelude.Bytes.{Bytes}
use fast_repo.Prelude.StdMap
use fast_repo.Prelude.StdMap.{Map}
use fast_repo.Ndn.{Ndn, Rocks}
use fast_repo.Storage.Engine.{Engine}
use fast_repo.Patterns.Fetch.{Pattern, counter_pattern, gobj_pattern, ndnrtc_pattern}
use fast_repo.Status.Json.{Json, GrammarLaws}
use fast_repo.Status.Reports.{
  Report, json_exception, runtime_exception, crash, reported, ◌>>=◌, json_call, Stats,
  pattern_report, report_at, report_active, pattern_handle_report, repo_report,
}
use fast_repo.Status.Publish.{poll, poll_all, publish_status, sources}

-- An exception that `publishStatus` does not catch, or a call through a null pointer.
abbrev pub Escapes : {A : Type 0} → Report A → Type 0
Escapes (reported a) = ⊥
Escapes runtime_exception = ⊥
Escapes json_exception = Unit
Escapes crash = Unit

>>=-Escapes : {A B : Type 0} (m : Report A) (f : A → Report B) → Escapes m → Escapes (m >>= f)
>>=-Escapes (reported a) f h = absurd h
>>=-Escapes runtime_exception f h = absurd h
>>=-Escapes json_exception f h = tt
>>=-Escapes crash f h = tt

-- A report of the JSON library or of a pattern is no `std::runtime_error`.
abbrev NoRuntime : {A : Type 0} → Report A → Type 0
NoRuntime (reported a) = Unit
NoRuntime runtime_exception = ⊥
NoRuntime json_exception = Unit
NoRuntime crash = Unit

next-Escapes :
    {A B : Type 0} (m : Report A) (f : A → Report B)
    → NoRuntime m
    → ((a : A) → Escapes (f a))
    → Escapes (m >>= f)
next-Escapes (reported a) f h g = g a
next-Escapes runtime_exception f h g = absurd h
next-Escapes json_exception f h g = tt
next-Escapes crash f h g = tt

json_call-NoRuntime : {A : Type 0} (o : Option A) → NoRuntime (json_call o)
json_call-NoRuntime none = tt
json_call-NoRuntime (some a) = tt

module _ (j : Json) (n : Ndn) (stats : n.Name → Stats) (laws : GrammarLaws j) where
  report_at-NoRuntime : (o : Option (Pattern n)) → NoRuntime (report_at j n stats o)
  unfolding pattern_report
  report_at-NoRuntime none = tt
  report_at-NoRuntime (some (counter_pattern p)) = tt
  report_at-NoRuntime (some (ndnrtc_pattern none)) = tt
  report_at-NoRuntime (some (ndnrtc_pattern (some name))) = json_call-NoRuntime _
  report_at-NoRuntime (some gobj_pattern) = tt

  -- The patterns whose report is not JSON: counters and generalized objects.
  abbrev pub Unreadable : Option (Pattern n) → Type 0
  Unreadable none = ⊥
  Unreadable (some (counter_pattern p)) = Unit
  Unreadable (some (ndnrtc_pattern recorder)) = ⊥
  Unreadable (some gobj_pattern) = Unit

  read-Escapes :
      (o : Option (Pattern n))
      → Unreadable o
      → (f : j.Value → Report j.Value)
      → Escapes (report_at j n stats o >>= λ text. json_call (j.parse text) >>= f)
  unfolding pattern_report
  read-Escapes none u f = absurd u
  read-Escapes (some (counter_pattern p)) u f =
      subst (λ o. Escapes (json_call o >>= f)) (sym (laws.single_quote _)) tt
  read-Escapes (some (ndnrtc_pattern recorder)) u f = absurd u
  read-Escapes (some gobj_pattern) u f =
      subst (λ o. Escapes (json_call o >>= f)) (sym laws.not_available) tt

  -- One unreadable pattern among the active ones is enough.
  report_active-Escapes :
      (objects : Map ℕ (Pattern n)) (entries : List (n.Name × ℕ)) (v : j.Value) (prefix : n.Name)
      (address : ℕ)
      → In (prefix, address) entries
      → Unreadable (StdMap.find ℕ_discrete address objects)
      → Escapes (report_active j n stats objects entries v)
  unfolding report_active
  report_active-Escapes objects [] v prefix address m u = absurd m
  report_active-Escapes objects ((name, a) ∷ entries) v prefix address (inl e) u =
      read-Escapes (StdMap.find ℕ_discrete a objects)
        (subst (λ k. Unreadable (StdMap.find ℕ_discrete k objects)) (ap (λ pair. pair.1) e) u)
        (λ x. report_active j n stats objects entries _)
  report_active-Escapes objects ((name, a) ∷ entries) v prefix address (inr m) u =
      next-Escapes (report_at j n stats (StdMap.find ℕ_discrete a objects)) _
        (report_at-NoRuntime (StdMap.find ℕ_discrete a objects))
        (λ text.
          next-Escapes (json_call (j.parse text)) _ (json_call-NoRuntime (j.parse text))
            (λ x. report_active-Escapes objects entries _ prefix address m u))

  pattern_handle_report-Escapes :
      (names : List n.Name) (objects : Map ℕ (Pattern n)) (entries : List (n.Name × ℕ))
      (prefix : n.Name) (address : ℕ)
      → In (prefix, address) entries
      → Unreadable (StdMap.find ℕ_discrete address objects)
      → Escapes (pattern_handle_report j n stats names objects entries)
  unfolding pattern_handle_report
  pattern_handle_report-Escapes names objects entries prefix address m u =
      >>=-Escapes (report_active j n stats objects entries _) _
        (report_active-Escapes objects entries _ prefix address m u)

  set-NoRuntime :
      (key : Bytes) (v : j.Value) (o : Option j.Value)
      → NoRuntime (json_call o >>= λ x. reported (j.set key x v))
  set-NoRuntime key v none = tt
  set-NoRuntime key v (some x) = tt

  poll-NoRuntime :
      (report : Report (Bytes × Bytes)) (v : j.Value)
      → NoRuntime report
      → NoRuntime (poll j report v)
  unfolding poll
  poll-NoRuntime (reported (key, text)) v h = set-NoRuntime key v (j.parse text)
  poll-NoRuntime runtime_exception v h = absurd h
  poll-NoRuntime json_exception v h = tt
  poll-NoRuntime crash v h = tt

  poll-Escapes :
      (report : Report (Bytes × Bytes)) (v : j.Value) → Escapes report → Escapes (poll j report v)
  unfolding poll
  poll-Escapes (reported (key, text)) v h = absurd h
  poll-Escapes runtime_exception v h = absurd h
  poll-Escapes json_exception v h = tt
  poll-Escapes crash v h = tt

  text-NoRuntime :
      (key : Bytes) (o : Option Bytes)
      → NoRuntime {A = Bytes × Bytes} (json_call o >>= λ text. reported (key, text))
  text-NoRuntime key none = tt
  text-NoRuntime key (some text) = tt

  module _ (r : Rocks) where
    repo_report-NoRuntime :
        (e : Engine n r) (repo_prefixes data_prefixes : List n.Name) (read_only : Bool)
        → NoRuntime (repo_report j n r e repo_prefixes data_prefixes read_only)
    unfolding repo_report
    repo_report-NoRuntime e repo_prefixes data_prefixes read_only = text-NoRuntime _ (j.dump _)

    -- A counter pattern or a pattern of generalized objects among the entries of the pattern
    -- handle, and at least one command prefix listened to: no status is published, since polling
    -- ends in an exception of the JSON library that is not caught or in a call through a null
    -- pointer. The laws are that a text which begins with "{'" and the text "n/a" are not JSON.
    pub status_breaks :
        (e : Engine n r) (names repo_prefixes data_prefixes : List n.Name) (read_only : Bool)
        (slots : ℕ) (objects : Map ℕ (Pattern n)) (entries : List (n.Name × ℕ)) (prefix : n.Name)
        (address : ℕ)
        → In (prefix, address) entries
        → Unreadable (StdMap.find ℕ_discrete address objects)
        → Escapes (
            publish_status j (
              sources j
                (suc slots)
                (repo_report j n r e repo_prefixes data_prefixes read_only)
                (pattern_handle_report j n stats names objects entries)))
    unfolding publish_status poll_all sources
    status_breaks e names repo_prefixes data_prefixes read_only slots objects entries prefix address
          m u =
        let first = repo_report j n r e repo_prefixes data_prefixes read_only in
        let second = pattern_handle_report j n stats names objects entries in
        >>=-Escapes
          (poll j first j.null >>= λ v. poll_all j (second ∷ sources j slots first second) v) _
          (next-Escapes (poll j first j.null) _
            (poll-NoRuntime first j.null
              (repo_report-NoRuntime e repo_prefixes data_prefixes read_only))
            (λ v. >>=-Escapes (poll j second v) _ (
              poll-Escapes second v
                (pattern_handle_report-Escapes names objects entries prefix address m u))))
