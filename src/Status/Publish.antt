-- ===== src/Status/Publish.antt =====
-- `StatusHandle` of src/handles/status-handle.cpp.
use fast_repo.Prelude.{
  ℕ, zero, suc, ◌≡◌, ◌≢◌, refl, ap, ◌∙◌, Bool, Option, none, some, List, [], ◌∷◌, if◌then◌else◌,
}
use fast_repo.Prelude.Bytes.{Bytes}
use fast_repo.Status.Json.{Json, ObjectLaws}
use fast_repo.Status.Reports.{
  Report, json_exception, runtime_exception, crash, reported, ◌>>=◌, json_call,
}

-- What the handle asks of its namespace: an object under a version, with a freshness period and a
-- content type.
pub record Published : Type 0 where
  pub version : ℕ
  pub freshness : ℕ
  pub content_type : Bytes
  pub text : Bytes

-- "application/json"
abbrev pub json_type : Bytes
json_type =
    b'a' ∷ b'p' ∷ b'p' ∷ b'l' ∷ b'i' ∷ b'c' ∷ b'a' ∷ b't' ∷ b'i' ∷ b'o' ∷ b'n' ∷ b'/' ∷ b'j' ∷ b's'
    ∷ b'o' ∷ b'n' ∷ []

module _ (j : Json) where
  -- One round of the loop of `publishStatus`: only a `std::runtime_error` is caught.
  unfoldable pub poll : Report (Bytes × Bytes) → j.Value → Report j.Value
  poll (reported (key, text)) v = json_call (j.parse text) >>= λ x. reported (j.set key x v)
  poll runtime_exception v = reported v
  poll json_exception v = json_exception
  poll crash v = crash

  unfoldable pub poll_all : List (Report (Bytes × Bytes)) → j.Value → Report j.Value
  poll_all [] v = reported v
  poll_all (report ∷ reports) v = poll report v >>= λ v'. poll_all reports v'

  -- `publishStatus`, with what each source reports when it is polled.
  unfoldable pub publish_status : List (Report (Bytes × Bytes)) → Report Bytes
  publish_status reports = poll_all reports j.null >>= λ v. json_call (j.dump v)

  -- `onObjectNeeded`: for another namespace than the handle's own nothing is published.
  unfoldable pub on_object_needed :
      Bool → ℕ → List (Report (Bytes × Bytes)) → Report (Option Published)
  on_object_needed own now reports =
      if own
      then (publish_status reports >>= λ text.
          reported (
            some
              (record { version = now; freshness = 100; content_type = json_type; text = text })))
      else reported none

  -- `enableListening` adds the two sources once for each command prefix.
  unfoldable pub sources :
      ℕ → Report (Bytes × Bytes) → Report (Bytes × Bytes) → List (Report (Bytes × Bytes))
  sources zero repo_report pattern_report = []
  sources (suc prefixes) repo_report pattern_report =
      repo_report ∷ pattern_report ∷ sources prefixes repo_report pattern_report

  module _ (laws : ObjectLaws j) (k l : Bytes) (differ : k ≢ l) (x y : j.Value) where
    again :
        (v : j.Value) → j.set l y (j.set k x (j.set l y (j.set k x v))) ≡ j.set l y (j.set k x v)
    again v =
        ap (j.set l y) (laws.set_comm k l x y (j.set k x v) differ)
        ∙ laws.set-set l y y (j.set k x (j.set k x v))
        ∙ ap (j.set l y) (laws.set-set k x x v)

    module _ (s t : Bytes) (parsed : j.parse s ≡ some x) (parsed' : j.parse t ≡ some y) where
      poll_round :
          (prefixes : ℕ) (v : j.Value)
          → poll_all (sources (suc prefixes) (reported (k, s)) (reported (l, t))) v
            ≡ poll_all
                (sources prefixes (reported (k, s)) (reported (l, t)))
                (j.set l y (j.set k x v))
      unfolding poll_all poll sources
      poll_round prefixes v = rw (parsed, parsed') refl

      poll_again :
          (prefixes : ℕ) (v : j.Value)
          → poll_all
              (sources prefixes (reported (k, s)) (reported (l, t)))
              (j.set l y (j.set k x v))
            ≡ reported (j.set l y (j.set k x v))
      unfolding poll_all sources
      poll_again zero v = refl
      poll_again (suc prefixes) v =
          poll_round prefixes (j.set l y (j.set k x v))
          ∙ ap (poll_all (sources prefixes (reported (k, s)) (reported (l, t)))) (again v)
          ∙ poll_again prefixes v

      -- Where an object keeps one value for a key and the order of two keys does not show, and both
      -- sources report valid JSON under different keys: however many command prefixes are listened
      -- to, at least one, the status published is that of one.
      pub publish_once :
          (prefixes : ℕ)
          → publish_status (sources (suc prefixes) (reported (k, s)) (reported (l, t)))
            ≡ json_call (j.dump (j.set l y (j.set k x j.null)))
      unfolding publish_status
      publish_once prefixes =
          ap (λ z. z >>= λ v. json_call (j.dump v))
            (poll_round prefixes j.null ∙ poll_again prefixes j.null)
