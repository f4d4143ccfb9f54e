-- ===== src/Status/Listen.antt =====
-- The state of `StatusHandle` of src/handles/status-handle.hpp and what the loop of `enableListening`
-- does to it.
use fast_repo.Prelude.{
  ℕ, suc, ◌+◌, ◌≡◌, ap, sym, ◌∙◌, Bool, true, false, Option, none, some, List, [], ◌∷◌, ◌++◌,
  length, length-append, if◌then◌else◌, ◌==◌, arith,
}
use mathlib.Core.List.{append_assoc, append-nil}
use fast_repo.Prelude.Bytes.{Bytes}
use fast_repo.Ndn.{Ndn}
use fast_repo.Status.Json.{Json}
use fast_repo.Status.Reports.{Report, reported}
use fast_repo.Status.Publish.{Published, on_object_needed, sources}

-- "status"
abbrev status_component : Bytes
status_component = b's' ∷ b't' ∷ b'a' ∷ b't' ∷ b'u' ∷ b's' ∷ []

module _ (n : Ndn) (j : Json) where
  -- `status_namespace` is an address; `namespaces` are the names of the objects made, by address. A
  -- source is what it reports.
  pub record StatusHandle : Type 0 where
    pub status_namespace : Option ℕ
    pub namespaces : List n.Name
    pub status_report_sources : List (Report (Bytes × Bytes))

  abbrev pub construct : StatusHandle
  construct = record { status_namespace = none; namespaces = []; status_report_sources = [] }

  unfoldable pub listen : n.Name → StatusHandle → StatusHandle
  listen prefix h = record h {
    status_namespace = some (length h.namespaces);
    namespaces = h.namespaces ++ n.append_component prefix (n.component status_component) ∷ [];
  }

  unfoldable pub add_status_report_source : Report (Bytes × Bytes) → StatusHandle → StatusHandle
  add_status_report_source source h = record h {
    status_report_sources = h.status_report_sources ++ source ∷ [];
  }

  abbrev is_own : Option ℕ → ℕ → Bool
  is_own none address = false
  is_own (some own) address = own == address

  -- `onObjectNeeded` of the namespace at an address: each made by `listen` has the same callback.
  unfoldable pub needed : StatusHandle → ℕ → ℕ → Report (Option Published)
  needed h address now =
      on_object_needed j (is_own h.status_namespace address) now h.status_report_sources

  -- The calls that `enableListening` makes, prefix by prefix, with the two sources' reports.
  unfoldable pub enabled :
      Report (Bytes × Bytes) → Report (Bytes × Bytes) → List n.Name → StatusHandle → StatusHandle
  enabled repo_report pattern_report [] h = h
  enabled repo_report pattern_report (prefix ∷ prefixes) h =
      enabled repo_report pattern_report prefixes (
        listen prefix
          (add_status_report_source pattern_report (add_status_report_source repo_report h)))

  module _ (repo_report pattern_report : Report (Bytes × Bytes)) where
    enabled-sources :
        (prefixes : List n.Name) (h : StatusHandle)
        → (enabled repo_report pattern_report prefixes h).status_report_sources
          ≡ h.status_report_sources ++ sources j (length prefixes) repo_report pattern_report
    unfolding enabled listen add_status_report_source sources
    enabled-sources [] h = sym (append-nil h.status_report_sources)
    enabled-sources (prefix ∷ prefixes) h =
        enabled-sources prefixes _
        ∙ append_assoc (h.status_report_sources ++ repo_report ∷ []) (pattern_report ∷ []) _
        ∙ append_assoc h.status_report_sources (repo_report ∷ []) _

    enabled-namespaces :
        (prefixes : List n.Name) (h : StatusHandle)
        → length (enabled repo_report pattern_report prefixes h).namespaces
          ≡ length h.namespaces + length prefixes
    unfolding enabled listen add_status_report_source
    enabled-namespaces [] h = omega arith
    enabled-namespaces (prefix ∷ prefixes) h =
        enabled-namespaces prefixes _
        ∙ omega (
          arith,
          length-append h.namespaces
              (n.append_component prefix (n.component status_component) ∷ []),
        )

    enabled-own :
        (prefixes : List n.Name) (prefix : n.Name) (h : StatusHandle)
        → (enabled repo_report pattern_report (prefix ∷ prefixes) h).status_namespace
          ≡ some (length h.namespaces + length prefixes)
    unfolding enabled listen add_status_report_source
    enabled-own [] prefix h = ap some (omega arith)
    enabled-own (q ∷ prefixes) prefix h =
        enabled-own prefixes q (
          listen prefix
            (add_status_report_source pattern_report (add_status_report_source repo_report h)))
        ∙ ap some (
            omega (
              arith,
              length-append h.namespaces
                  (n.append_component prefix (n.component status_component) ∷ []),
            ))

    -- Once the handle listens to all command prefixes, each has a status namespace of its own, but a
    -- request is answered only for the last one made, with the reports of both sources, taken
    -- once for each prefix; for any other namespace nothing is published.
    pub last_prefix_only :
        (prefixes : List n.Name) (prefix : n.Name) (address now : ℕ)
        → let h = enabled repo_report pattern_report (prefix ∷ prefixes) construct in
          (length h.namespaces ≡ suc (length prefixes))
          × (needed h address now ≡ (
              if address == length prefixes
              then on_object_needed j true now
                  (sources j (suc (length prefixes)) repo_report pattern_report)
              else reported none))
    unfolding needed on_object_needed
    last_prefix_only prefixes prefix address now = (
      enabled-namespaces (prefix ∷ prefixes) construct ∙ omega arith,
      rw (enabled-own prefixes prefix construct, enabled-sources (prefix ∷ prefixes) construct)
          (ground arith),
    )
