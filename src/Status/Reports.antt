-- ===== src/Status/Reports.antt =====
-- `getStatusReport` of FastRepoImpl, PatternHandle and the patterns.
use fast_repo.Prelude.{
  ℕ, Bool, Option, none, some, List, [], ◌∷◌, ◌++◌, if◌then◌else◌, map, ℕ_discrete,
}
use fast_repo.Prelude.Bytes.{Bytes}
use fast_repo.Prelude.StdMap
use fast_repo.Prelude.StdMap.{Map}
use fast_repo.Ndn.{Ndn, Rocks}
use fast_repo.Storage.Facade.{get_keys_num, get_payload_size, get_rename_prefix}
use fast_repo.Storage.Engine.{Engine}
use fast_repo.Patterns.Fetch.{Pattern, counter_pattern, ndnrtc_pattern, gobj_pattern, to_string}
use fast_repo.Status.Json.{Json}
use fast_repo.Status.Words.{
  manifests_word, meta_word, stream_word, thread_word, key_word, requested_no_word,
  received_no_word, fetched_word, failed_word, delta_word, frames_pending_word, control_word,
  data_word, storage_word, access_word, read_only_word, read_write_word, n_keys_word, size_word,
  rename_word, repo_word, pattern_handle_word, supported_word, active_word,
}

-- A value, an exception of the JSON library, a `std::runtime_error`, or a call through a null
-- pointer.
pub data Report (A : Type 0) : Type 0 where
  json_exception runtime_exception crash : Report A
  reported : A → Report A

infixl 5 ◌>>=◌
abbrev pub ◌>>=◌ : {A B : Type 0} → Report A → (A → Report B) → Report B
reported value >>= next = next value
json_exception >>= next = json_exception
runtime_exception >>= next = runtime_exception
crash >>= next = crash

-- A throwing call of the JSON library.
abbrev pub json_call : {A : Type 0} → Option A → Report A
json_call none = json_exception
json_call (some a) = reported a

-- What the program reads of `StreamRecorder::Stats`.
pub record Stats : Type 0 where
  pub manifests_stored : ℕ
  pub stream_meta_stored : ℕ
  pub thread_meta_stored : ℕ
  pub latest_key_requested : ℕ
  pub latest_key_fetched : ℕ
  pub key_stored : ℕ
  pub key_failed : ℕ
  pub latest_delta_requested : ℕ
  pub latest_delta_fetched : ℕ
  pub delta_stored : ℕ
  pub delta_failed : ℕ
  pub pending_frames : ℕ

-- "{'counter':" and ";}"
abbrev pub counter_head : Bytes
counter_head = b'{' ∷ 39 ∷ b'c' ∷ b'o' ∷ b'u' ∷ b'n' ∷ b't' ∷ b'e' ∷ b'r' ∷ 39 ∷ b':' ∷ []

abbrev pub counter_tail : Bytes
counter_tail = b';' ∷ b'}' ∷ []

abbrev pub not_available_text : Bytes
not_available_text = b'n' ∷ b'/' ∷ b'a' ∷ []

module _ (j : Json) where
  -- `status[a][b] = x`
  abbrev set_in : Bytes → Bytes → j.Value → j.Value → j.Value
  set_in a b x v = j.set a (j.set b x (j.get a v)) v

  -- `status[key].push_back(x)` for each text
  unfoldable pub push_all : Bytes → List Bytes → j.Value → j.Value
  push_all key [] v = v
  push_all key (s ∷ texts) v =
      push_all key texts (j.set key (j.push_back (j.of_text s) (j.get key v)) v)

  -- `NdnrtcPattern::getStatusReport`; without a recorder it calls through a null pointer.
  unfoldable pub ndnrtc_report : Stats → Option Bytes
  ndnrtc_report s =
      let v0 = j.set manifests_word (j.of_number s.manifests_stored) j.null in
      let v1 = set_in meta_word stream_word (j.of_number s.stream_meta_stored) v0 in
      let v2 = set_in meta_word thread_word (j.of_number s.thread_meta_stored) v1 in
      let v3 = set_in key_word requested_no_word (j.of_number s.latest_key_requested) v2 in
      let v4 = set_in key_word received_no_word (j.of_number s.latest_key_fetched) v3 in
      let v5 = set_in key_word fetched_word (j.of_number s.key_stored) v4 in
      let v6 = set_in key_word failed_word (j.of_number s.key_failed) v5 in
      let v7 = set_in delta_word requested_no_word (j.of_number s.latest_delta_requested) v6 in
      let v8 = set_in delta_word received_no_word (j.of_number s.latest_delta_fetched) v7 in
      let v9 = set_in delta_word fetched_word (j.of_number s.delta_stored) v8 in
      let v10 = set_in delta_word failed_word (j.of_number s.delta_failed) v9 in
      j.dump (j.set frames_pending_word (j.of_number s.pending_frames) v10)

  module _ (n : Ndn) where
    open n use {Name}

    -- `getStatusReport` of a pattern; `stats` is what the recorder of a stream counts.
    unfoldable pub pattern_report : (Name → Stats) → Pattern n → Report Bytes
    pattern_report stats (counter_pattern p) =
        reported (counter_head ++ to_string p.counter ++ counter_tail)
    pattern_report stats (ndnrtc_pattern none) = crash
    pattern_report stats (ndnrtc_pattern (some name)) = json_call (ndnrtc_report (stats name))
    pattern_report stats gobj_pattern = reported not_available_text

    -- An object of the map, by its address.
    abbrev pub report_at : (Name → Stats) → Option (Pattern n) → Report Bytes
    report_at stats none = crash
    report_at stats (some pattern) = pattern_report stats pattern

    -- The loop over `patterns_`, whose entries are in the order of the container.
    unfoldable pub report_active :
        (Name → Stats) → Map ℕ (Pattern n) → List (Name × ℕ) → j.Value → Report j.Value
    report_active stats objects [] v = reported v
    report_active stats objects ((name, address) ∷ entries) v =
        report_at stats (StdMap.find ℕ_discrete address objects) >>= λ text.
        json_call (j.parse text) >>= λ x.
        report_active stats objects entries (set_in active_word (n.to_uri name) x v)

    -- `PatternHandle::getStatusReport`, with the two maps' entries in their containers' order.
    unfoldable pub pattern_handle_report :
        (Name → Stats) → List Name → Map ℕ (Pattern n) → List (Name × ℕ) → Report (Bytes × Bytes)
    pattern_handle_report stats supported_names objects entries =
        report_active stats objects entries
          (push_all supported_word (map n.to_uri supported_names) j.null)
        >>= λ v. json_call (j.dump v) >>= λ text. reported (pattern_handle_word, text)

    module _ (r : Rocks) where
      -- `FastRepoImpl::getStatusReport`
      unfoldable pub repo_report :
          Engine n r → List Name → List Name → Bool → Report (Bytes × Bytes)
      repo_report e repo_prefixes data_prefixes read_only =
          let v0 = push_all control_word (map n.to_uri repo_prefixes) j.null in
          let v1 = push_all data_word (map n.to_uri data_prefixes) v0 in
          let v2 =
            set_in storage_word access_word
              (j.of_text (if read_only then read_only_word else read_write_word)) v1 in
          let v3 = set_in storage_word n_keys_word (j.of_number (get_keys_num n r e)) v2 in
          let v4 = set_in storage_word size_word (j.of_number (get_payload_size n r e)) v3 in
          let v5 = set_in storage_word rename_word (j.of_text (get_rename_prefix n r e)) v4 in
          json_call (j.dump v5) >>= λ text. reported (repo_word, text)
