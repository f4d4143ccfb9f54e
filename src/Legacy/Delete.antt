-- ===== src/Legacy/Delete.antt =====
-- `DeleteHandle` of src/handles/delete-handle.hpp and src/handles/delete-handle.cpp, which stands
-- between `#if 0` and `#endif`. The storage's `deleteData` is a parameter: the number it returns,
-- -1 for a failure, with the storage after it.
use fast_repo.Prelude.{
  ℕ, zero, suc, ◌+◌, ◌-◌, ◌%◌, ◌^◌, ◌<◌, ◌≤◌, ◌≡◌, ◌||◌, Bool, Option, none, some, List, [], ◌∷◌,
  arith, if◌then◌else◌, ltb, ◌==◌, is_some, not, ◌&&◌,
}
use fast_repo.Prelude.Int.{ℤ, pos, negsuc, eqb_ℤ}
use fast_repo.Legacy.Messages.{Parameter, Response, new_response, Effect, replied, negative_reply}

module _ (Name Selectors Store : Type 0) (append_segment : Name → ℕ → Name)
    (delete_data : Name → Store → ℤ × Store)
    (delete_matches : Name → Selectors → Store → ℤ × Store) where
  abbrev pub Effects : Type 0
  Effects = List (Effect Name Name ℕ)

  -- `uint64_t` of an `int64_t`
  abbrev pub to_uint64 : ℤ → ℕ
  to_uint64 (pos x) = x % 2 ^ 64
  to_uint64 (negsuc x) = 2 ^ 64 - 1 - x % 2 ^ 64

  abbrev answered : Option ℕ → ℕ → ℕ → Response
  answered none status deleted = record new_response { status_code = 403 }
  answered (some id) status deleted = record new_response {
    process_id = some id;
    status_code = status;
    delete_num = deleted;
  }

  unfoldable pub positive_reply : Parameter Name Selectors → ℕ → ℕ → Effects
  positive_reply parameter status deleted =
      replied (answered parameter.process_id status deleted) ∷ []

  abbrev deleted_or_failed : Parameter Name Selectors → ℤ × Store → Store × Effects
  deleted_or_failed parameter (deleted, s) = (
    s,
    if eqb_ℤ deleted (negsuc 0)
        then negative_reply 405
        else positive_reply parameter 200 (to_uint64 deleted),
  )

  unfoldable pub process_single_delete_command : Parameter Name Selectors → Store → Store × Effects
  process_single_delete_command parameter s =
      deleted_or_failed parameter (delete_data parameter.name s)

  unfoldable pub process_selector_delete_command :
      Parameter Name Selectors → Selectors → Store → Store × Effects
  process_selector_delete_command parameter selectors s =
      deleted_or_failed parameter (delete_matches parameter.name selectors s)

  -- The loop over the segments, for the rounds that are left, with the count so far.
  unfoldable pub delete_segments : ℕ → Name → ℕ → ℕ → Store → ℕ × Store
  delete_segments zero prefix i deleted s = (deleted, s)
  delete_segments (suc rounds) prefix i deleted s =
      let (result, s') = delete_data (append_segment prefix i) s in
      delete_segments rounds prefix (i + 1) (if eqb_ℤ result (pos 0) then deleted else deleted + 1)
        s'

  abbrev pub or_zero : Option ℕ → ℕ
  or_zero none = 0
  or_zero (some x) = x

  -- `none` is the BOOST_ASSERT of a command without an end, or the loop that does not end since
  -- every `uint64_t` is at most its bound.
  abbrev segments_to : Parameter Name Selectors → Store → Option ℕ → Option (Store × Effects)
  segments_to parameter s none = none
  segments_to parameter s (some end) =
      let start = or_zero parameter.start_block_id in
      if ltb end start
      then some (s, negative_reply 403)
      else if end == 2 ^ 64 - 1
      then none
      else (let (deleted, s') = delete_segments (end + 1 - start) parameter.name start 0 s in
          some (s', positive_reply parameter 200 deleted))

  unfoldable pub process_segment_delete_command :
      Parameter Name Selectors → Store → Option (Store × Effects)
  process_segment_delete_command parameter s = segments_to parameter s parameter.end_block_id

  abbrev chosen : Parameter Name Selectors → Store → Option Selectors → Option (Store × Effects)
  chosen parameter s none =
      if not (is_some parameter.start_block_id) && not (is_some parameter.end_block_id)
      then some (process_single_delete_command parameter s)
      else process_segment_delete_command parameter s
  chosen parameter s (some selectors) =
      if is_some parameter.start_block_id || is_some parameter.end_block_id
      then some (s, negative_reply 402)
      else some (process_selector_delete_command parameter selectors s)

  -- `onValidated` after `extractParameter`, whose failure is `none`
  unfoldable pub on_validated : Option (Parameter Name Selectors) → Store → Option (Store × Effects)
  on_validated none s = some (s, negative_reply 403)
  on_validated (some parameter) s = chosen parameter s parameter.selectors

  -- `onInterest`, with the verdict of the validator and what `extractParameter` gives
  unfoldable pub on_interest :
      Bool → Option (Parameter Name Selectors) → Store → Option (Store × Effects)
  on_interest valid parameter s =
      if valid then on_validated parameter s else some (s, negative_reply 401)

  delete_segments_lem :
      (rounds : ℕ) (prefix : Name) (i deleted : ℕ) (s : Store)
      → ((name : Name) (t : Store) → delete_data name t ≡ (negsuc 0, t))
      → delete_segments rounds prefix i deleted s ≡ (deleted + rounds, s)
  unfolding delete_segments
  delete_segments_lem zero prefix i deleted s fails = ground arith
  delete_segments_lem (suc rounds) prefix i deleted s fails = ground (
    arith,
    fails (append_segment prefix i) s,
    delete_segments_lem rounds prefix (i + 1) (deleted + 1) s fails,
  )

  -- Failures of a segmented deletion are counted as deletions: where every `deleteData` fails with
  -- -1 and changes nothing, a command without selectors and with a process id, for segments in
  -- order and below the last number, is still answered with status 200 and with the number of its
  -- segments as the number of packets deleted.
  pub failed_segments_count :
      (parameter : Parameter Name Selectors) (s : Store) (id start end : ℕ)
      → ((name : Name) (t : Store) → delete_data name t ≡ (negsuc 0, t))
      → parameter.selectors ≡ none
      → parameter.process_id ≡ some id
      → parameter.start_block_id ≡ some start
      → parameter.end_block_id ≡ some end
      → start ≤ end
      → end < 2 ^ 64 - 1
      → on_validated (some parameter) s
        ≡ some (
          s,
          replied (record new_response {
            process_id = some id;
            status_code = 200;
            delete_num = end + 1 - start;
          })
              ∷ [],
        )
  unfolding on_validated process_segment_delete_command positive_reply
  failed_segments_count parameter s id start end fails no_selectors has_id has_start has_end order
        small =
      ground (arith, delete_segments_lem (end + 1 - start) parameter.name start 0 s fails)
