-- ===== src/Tests/Fetching.antt =====
-- The theorem on a whole segmented fetch, at two segments whose packets come in the wrong order, the
-- first after a timeout.
use fast_repo.Prelude.{
  Option, ◌<◌, ◌≤◌, ◌≡◌, refl, ◌⊎◌, inl, inr, some, none, [], ◌∷◌, In, ℕ, arith, ℕ_discrete,
}
use fast_repo.Prelude.Bytes.{Bytes}
use fast_repo.Prelude.Int.{pos}
use fast_repo.Prelude.StdMap
use fast_repo.Legacy.Messages.{new_response}
use fast_repo.Legacy.Segmented.Defs.{
  ProcessInfo, new_process, seg_init, send_first, data_control, send_queued, send_next, receive,
  timeout_control,
}
use fast_repo.Legacy.Segmented.Kept.{Done}
use fast_repo.Legacy.Segmented.Late.{times}
use fast_repo.Legacy.Segmented.Complete.{Run, begun, arrived, late, fetch_completes}

abbrev asking : ProcessInfo
asking = record new_process {
  response = record new_response {
    start_block_id = some 5;
    end_block_id = some 6;
    status_code = 300;
  };
}

abbrev both_sent : ProcessInfo
both_sent = record asking {
  next_segment_queue = 7 ∷ [];
  next_segment = 7;
  retry_counts = (6, 0) ∷ (5, 0) ∷ [];
}

abbrev asked_again : ProcessInfo
asked_again = record both_sent { retry_counts = (5, 1) ∷ (6, 0) ∷ [] }

abbrev one_left : ProcessInfo
one_left = record asked_again {
  response = record asking.response { insert_num = 1 };
  next_segment_queue = [];
  credit = pos 1;
}

abbrev complete : ProcessInfo
complete = record one_left {
  response = record asking.response { insert_num = 2; status_code = 200 };
  credit = pos 2;
}

wrong_order :
    Run Bytes Unit 5 6
      (omega arith)
      (omega arith)
      []
      3
      both_sent
      (5 ∷ 6 ∷ [])
      (some (some complete))
      (5 ∷ 6 ∷ [])
      (5 ∷ 6 ∷ [])
      (5 ∷ [])
unfolding data_control receive send_queued send_next timeout_control StdMap.find StdMap.insert
    StdMap.erase ℕ_discrete
wrong_order =
    arrived {p = one_left} {sent = 5 ∷ 6 ∷ []} {received = 6 ∷ []} 0 5 none (inl refl)
      (λ i. ground arith) tt
      (arrived {p = asked_again} {sent = 5 ∷ 6 ∷ []} {received = []} 0 6 (some 6) (inr (inl refl))
        (λ i. i) refl
        (late {p = both_sent} {sent = 5 ∷ 6 ∷ []} {received = []} 5 (inl refl) (λ i. i) begun))

fetch_completes_example :
    ((◌≡◌ {A = Option (Option ProcessInfo)} (some (some complete)) (some none))
      × ((x : ℕ) × In x (5 ∷ 6 ∷ []) × (4 ≤ times x (5 ∷ []))))
    ⊎ ((p : ProcessInfo) × (some (some complete) ≡ some (some p))
        × (((2 < 2) × ((x : ℕ) × In x (5 ∷ 6 ∷ []) × (¬ In x (5 ∷ 6 ∷ []))))
            ⊎ Done Bytes Unit 5 6 (omega arith) (omega arith) [] 3 p (5 ∷ 6 ∷ []) (5 ∷ 6 ∷ [])))
unfolding seg_init send_first StdMap.insert StdMap.erase ℕ_discrete
fetch_completes_example =
    fetch_completes Bytes Unit 5 6 (omega arith) (omega arith) 0 [] 3 asking (some (some complete))
      (5 ∷ 6 ∷ []) (5 ∷ 6 ∷ []) (5 ∷ []) (omega arith) refl refl refl refl refl wrong_order
