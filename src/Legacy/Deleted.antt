-- ===== src/Legacy/Deleted.antt =====
-- What a segmented deletion does, where `deleteData` removes the packet of a name and returns how many
-- packets that were.
use fast_repo.Prelude.{
  ℕ, zero, suc, ◌+◌, ◌-◌, ◌^◌, ◌<◌, ◌≤◌, ◌≡◌, ◌≢◌, refl, sym, ◌∙◌, ℕ_discrete, Bool, true, false,
  none, some, [], ◌∷◌, arith, if◌then◌else◌,
}
use fast_repo.Prelude.Int.{ℤ, pos, eqb_ℤ}
use fast_repo.Legacy.Messages.{Parameter, new_response, replied}
use fast_repo.Legacy.Delete.{
  delete_segments, on_validated, process_segment_delete_command, positive_reply, or_zero,
}

module _ (Name Selectors Store : Type 0) (append_segment : Name → ℕ → Name)
    (delete_data : Name → Store → ℤ × Store) (delete_matches : Name → Selectors → Store → ℤ × Store)
    (holds : Name → Store → Bool) where
  -- The storage keeps at most one packet under a name.
  pub record DeletionLaws : Type 0 where
    pub deleted_held :
        (name : Name) (s : Store) → holds name s ≡ true → (delete_data name s).0 ≡ pos 1
    pub deleted_missing :
        (name : Name) (s : Store) → holds name s ≡ false → (delete_data name s).0 ≡ pos 0
    pub holds_deleted : (name : Name) (s : Store) → holds name (delete_data name s).1 ≡ false
    pub holds_other :
        (name other : Name) (s : Store)
        → name ≢ other
        → holds other (delete_data name s).1 ≡ holds other s
    pub segments_differ :
        (prefix : Name) (i j : ℕ) → i < j → append_segment prefix i ≢ append_segment prefix j

  -- How many of so many segments are stored, from a number on.
  unfoldable pub held : ℕ → Name → ℕ → Store → ℕ
  held zero prefix i s = 0
  held (suc rounds) prefix i s =
      (if holds (append_segment prefix i) s then 1 else 0) + held rounds prefix (i + 1) s

  module _ (laws : DeletionLaws) (prefix : Name) where
    held-deleted :
        (rounds i j : ℕ) (s : Store)
        → i < j
        → held rounds prefix j (delete_data (append_segment prefix i) s).1 ≡ held rounds prefix j s
    unfolding held
    held-deleted zero i j s h = refl
    held-deleted (suc rounds) i j s h = ground (
      arith,
      laws.holds_other (append_segment prefix i) (append_segment prefix j) s
          (laws.segments_differ prefix i j h),
      held-deleted rounds i (j + 1) s (omega arith),
    )

    one_deleted :
        (name : Name) (s : Store) (deleted : ℕ)
        → (if eqb_ℤ (delete_data name s).0 (pos 0) then deleted else deleted + 1)
          ≡ deleted + (if holds name s then 1 else 0)
    one_deleted name s deleted =
        ground (arith, laws.deleted_held name s, laws.deleted_missing name s)

    abbrev deletion : ℕ → ℕ → ℕ → Store → ℕ × Store
    deletion rounds i deleted s =
        delete_segments Name Selectors Store append_segment delete_data delete_matches rounds prefix
          i deleted s

    deletion_count :
        (rounds i deleted : ℕ) (s : Store)
        → (deletion rounds i deleted s).0 ≡ deleted + held rounds prefix i s
    unfolding delete_segments held
    deletion_count zero i deleted s = omega arith
    deletion_count (suc rounds) i deleted s =
        deletion_count rounds (i + 1) _ (delete_data (append_segment prefix i) s).1
        ∙ omega (
          arith,
          one_deleted (append_segment prefix i) s deleted,
          held-deleted rounds i (i + 1) s (omega arith),
        )

    deletion_keeps :
        (rounds i deleted : ℕ) (s : Store) (other : Name)
        → ((j : ℕ) → i ≤ j → j < i + rounds → append_segment prefix j ≢ other)
        → holds other (deletion rounds i deleted s).1 ≡ holds other s
    unfolding delete_segments
    deletion_keeps zero i deleted s other apart = refl
    deletion_keeps (suc rounds) i deleted s other apart =
        deletion_keeps rounds (i + 1) _ (delete_data (append_segment prefix i) s).1 other
          (λ j above below. apart j (omega (arith, above)) (omega (arith, below)))
        ∙ laws.holds_other (append_segment prefix i) other s (apart i (omega arith) (omega arith))

    deletion_removes :
        (rounds i deleted j : ℕ) (s : Store)
        → i ≤ j
        → j < i + rounds
        → holds (append_segment prefix j) (deletion rounds i deleted s).1 ≡ false
    unfolding delete_segments
    deletion_removes zero i deleted j s above below = absurd (omega (arith, above, below))
    deletion_removes (suc rounds) i deleted j s above below = elim (ℕ_discrete i j) [
      | yes same ↦
          deletion_keeps rounds (i + 1) _ (delete_data (append_segment prefix i) s).1
            (append_segment prefix j)
            (λ k k_above k_below equal.
              laws.segments_differ prefix j k (omega (arith, same, k_above)) (sym equal))
          ∙ rw (sym same) (laws.holds_deleted (append_segment prefix i) s)
      | no other ↦
          deletion_removes rounds (i + 1) _ j (delete_data (append_segment prefix i) s).1
            (omega (arith, above, other)) (omega (arith, below))
    ]

  abbrev start_of : Parameter Name Selectors → ℕ
  start_of parameter =
      or_zero Name Selectors Store append_segment delete_data delete_matches
        parameter.start_block_id

  -- Where the storage keeps at most one packet under a name, and `deleteData` removes just that one and
  -- returns how many there were: a command without selectors and with a process id, for segments in
  -- order and below the last number, from 0 where no start is given, is answered with status 200 and
  -- the number of those segments that were stored. Afterwards no segment `j` of them is stored, and any
  -- other name is stored or not as before.
  pub segments_are_deleted :
      (laws : DeletionLaws) (parameter : Parameter Name Selectors) (s : Store) (id end j : ℕ)
      (other : Name)
      → parameter.selectors ≡ none
      → parameter.process_id ≡ some id
      → parameter.end_block_id ≡ some end
      → start_of parameter ≤ end
      → end < 2 ^ 64 - 1
      → start_of parameter ≤ j
      → j ≤ end
      → ((k : ℕ) → start_of parameter ≤ k → k ≤ end → append_segment parameter.name k ≢ other)
      → (s' : Store) × (on_validated Name Selectors Store append_segment delete_data delete_matches
            (some parameter)
            s
          ≡ some (
            s',
            replied (record new_response {
              process_id = some id;
              status_code = 200;
              delete_num =
                  held (end + 1 - start_of parameter) parameter.name (start_of parameter) s;
            })
                ∷ [],
          ))
        × (holds (append_segment parameter.name j) s' ≡ false)
        × (holds other s' ≡ holds other s)
  unfolding on_validated process_segment_delete_command positive_reply
  segments_are_deleted laws parameter s id end j other no_selectors has_id has_end order small above
        below apart =
      let start = start_of parameter in
      let rounds = end + 1 - start in
      (
        (deletion laws parameter.name rounds start 0 s).1,
        ground (arith, deletion_count laws parameter.name rounds start 0 s),
        deletion_removes laws parameter.name rounds start 0 j s above (omega (arith, order, below)),
        deletion_keeps laws parameter.name rounds start 0 s other
            (λ k k_above k_below. apart k k_above (omega (arith, order, k_below))),
      )
