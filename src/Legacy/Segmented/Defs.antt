-- ===== src/Legacy/Segmented/Defs.antt =====
-- `ProcessInfo`, `segInit` and the two controls of segmented fetching. Segment numbers are
-- `uint64_t`; time is in milliseconds.
use fast_repo.Prelude.{
  ℕ, zero, suc, ◌+◌, ◌-◌, ◌%◌, ◌^◌, min, Bool, false, ◌&&◌, not, Option, none, some, List, [], ◌∷◌,
  ◌++◌, if◌then◌else◌, ltb, leb, is_some, ℕ_discrete,
}
use fast_repo.Prelude.Int.{ℤ, pos, ◌+ℤ◌, ◌-ℤ◌, eqb_ℤ}
use fast_repo.Prelude.StdMap
use fast_repo.Prelude.StdMap.{Map}
use fast_repo.Legacy.Messages.{Response, new_response, Effect, fetched_segment, deletion_scheduled}

abbrev pub retry_timeout : ℕ
retry_timeout = 3

abbrev pub default_credit : ℕ
default_credit = 12

abbrev pub noend_timeout : ℕ
noend_timeout = 10000

abbrev pub wrap64 : ℕ → ℕ
wrap64 x = x % 2 ^ 64

pub record ProcessInfo : Type 0 where
  pub response : Response
  -- the front comes first
  pub next_segment_queue : List ℕ
  pub next_segment : ℕ
  pub retry_counts : Map ℕ ℕ
  pub credit : ℤ
  pub no_end_time : ℕ

-- What `m_processes[processId]` makes; the numbers that it leaves as their memory was read 0.
abbrev pub new_process : ProcessInfo
new_process = record {
  response = new_response;
  next_segment_queue = [];
  next_segment = 0;
  retry_counts = [];
  credit = pos 0;
  no_end_time = 0;
}

module _ (Name Selectors : Type 0) where
  -- A fetch of one packet is for a name, with the selectors of the command if it has some. The
  -- lifetimes of Interests are not part of the effects.
  abbrev pub Effects : Type 0
  Effects = List (Effect Name (Name × Option Selectors) ℕ)

  -- The loop of `segInit` for the rounds that are left, from a segment on.
  unfoldable pub send_first : ℕ → Name → ℕ → ℕ → ProcessInfo → ProcessInfo × Effects × ℕ
  send_first zero name process_id segment p = (p, [], segment)
  send_first (suc rounds) name process_id segment p =
      let (p', es, last) = send_first rounds name process_id (segment + 1) (record p {
        credit = p.credit -ℤ pos 1;
        retry_counts = StdMap.insert ℕ_discrete segment 0 p.retry_counts;
      }) in
      (p', fetched_segment name segment process_id ∷ es, last)

  -- `endBlockId - startBlockId + 1`, in 64 bits
  abbrev pub segments_between : ℕ → ℕ → ℕ
  segments_between start end = wrap64 (wrap64 (end + 2 ^ 64 - start) + 1)

  abbrev pub initial_credit : ℕ → Option ℕ → ℕ
  initial_credit start none = default_credit
  initial_credit start (some end) = min default_credit (segments_between start end)

  -- `segment < startBlockId + initialCredit` bounds the loop; the sum is taken in 64 bits.
  abbrev pub rounds_from : ℕ → ℕ → ℕ
  rounds_from start credit = wrap64 (start + credit) - start

  abbrev pub no_end_time_from : Option ℕ → ℕ → ProcessInfo → ProcessInfo
  no_end_time_from none now p = record p { no_end_time = now + noend_timeout }
  no_end_time_from (some end) now p = p

  -- `segInit` for a parameter with the given name, start and optional end.
  unfoldable pub seg_init : ℕ → Name → ℕ → ℕ → Option ℕ → ProcessInfo → ProcessInfo × Effects
  seg_init now name process_id start end p =
      let credit = initial_credit start end in
      let p0 = no_end_time_from end now p in
      let (p1, es, segment) =
        send_first (rounds_from start credit) name process_id start
          (record p0 { credit = pos credit }) in
      (
        record p1 {
          next_segment = segment;
          next_segment_queue = p1.next_segment_queue ++ segment ∷ [];
        },
        es,
      )

  abbrev pub set_status : ℕ → ProcessInfo → ProcessInfo
  set_status status p = record p { response = record p.response { status_code = status } }

  -- `if (now > noEndTime)` while there is no end
  abbrev pub timed_out : ℕ → ProcessInfo → Bool
  timed_out now p = not (is_some p.response.end_block_id) && ltb p.no_end_time now

  abbrev pub value_or_zero : Option ℕ → ℕ
  value_or_zero none = 0
  value_or_zero (some x) = x

  -- `getInsertNum() >= nSegments` while there is an end
  abbrev pub is_complete : ProcessInfo → Option ℕ → Bool
  is_complete p none = false
  is_complete p (some end) =
      leb (segments_between (value_or_zero p.response.start_block_id) end) p.response.insert_num

  -- Whether a segment lies behind the end, if there is one.
  abbrev pub beyond : ℕ → Option ℕ → Bool
  beyond segment none = false
  beyond segment (some end) = ltb end segment

  abbrev pub retried : Option ℕ → ℕ
  retried none = 0
  retried (some times) = times + 1

  -- the segment that is put into the queue after one is sent, unless the end is reached
  abbrev pub advance : ProcessInfo → ProcessInfo
  advance p = if beyond (wrap64 (p.next_segment + 1)) p.response.end_block_id then p else record p {
    next_segment = wrap64 (p.next_segment + 1);
    next_segment_queue = p.next_segment_queue ++ wrap64 (p.next_segment + 1) ∷ [];
  }

  unfoldable pub send_next : Name → ℕ → ℕ → ℕ → ProcessInfo → ProcessInfo × Effects
  send_next prefix process_id got sending p =
      let retry_counts = StdMap.erase ℕ_discrete got p.retry_counts in
      (
        advance (record p {
          credit = p.credit -ℤ pos 1;
          retry_counts =
              StdMap.insert ℕ_discrete sending
                (retried (StdMap.find ℕ_discrete sending retry_counts)) retry_counts;
        }),
        fetched_segment prefix sending process_id ∷ [],
      )

  -- From the test of the queue on. `none` is a failed BOOST_ASSERT.
  unfoldable pub send_queued : Name → ℕ → ℕ → ProcessInfo → List ℕ → Option (ProcessInfo × Effects)
  send_queued prefix process_id got p [] = some (p, [])
  send_queued prefix process_id got p (sending ∷ rest) =
      let p' = record p { next_segment_queue = rest } in
      if beyond sending p.response.end_block_id
      then some (p', [])
      else if is_some (StdMap.find ℕ_discrete got p.retry_counts)
      then some (send_next prefix process_id got sending p')
      else none

  -- `onSegmentDataControl` for a process that exists; the Interest was for `prefix` with the
  -- segment `got` appended.
  unfoldable pub data_control : ℕ → Name → ℕ → ℕ → ProcessInfo → Option (ProcessInfo × Effects)
  data_control now prefix process_id got p =
      let p1 = record p { credit = p.credit +ℤ pos 1 } in
      if timed_out now p1
      then some (set_status 405 p1, deletion_scheduled process_id ∷ [])
      else if is_complete p1 p1.response.end_block_id
      then some (set_status 200 p1, deletion_scheduled process_id ∷ [])
      else if eqb_ℤ p1.credit (pos 0)
      then some (p1, [])
      else send_queued prefix process_id got p1 p1.next_segment_queue

  abbrev retry_or_fail :
      Name → ℕ → ℕ → ProcessInfo → Option ℕ → Option (Option ProcessInfo × Effects)
  retry_or_fail prefix process_id segment p none = none
  retry_or_fail prefix process_id segment p (some times) =
      if leb retry_timeout times
      then some (none, [])
      else some (
        some (record p {
          retry_counts = StdMap.insert ℕ_discrete segment (times + 1) p.retry_counts;
        }),
        fetched_segment prefix segment process_id ∷ [],
      )

  -- `onSegmentTimeoutControl` for a process that exists: no process is left if it failed, and the
  -- outer `none` is a failed BOOST_ASSERT.
  unfoldable pub timeout_control :
      Name → ℕ → ℕ → ProcessInfo → Option (Option ProcessInfo × Effects)
  timeout_control prefix process_id segment p =
      retry_or_fail prefix process_id segment p (StdMap.find ℕ_discrete segment p.retry_counts)

  abbrev lowered_end : ℕ → Option ℕ → Option ℕ
  lowered_end final none = some final
  lowered_end final (some end) = if ltb final end then some final else some end

  abbrev refreshed_end : Option ℕ → Option ℕ → Option ℕ
  refreshed_end none end = end
  refreshed_end (some final) end = lowered_end final end

  -- What `onSegmentDataValidated` does to the response: the end from a FinalBlockId, and the count
  -- if the storage took the packet.
  unfoldable pub receive : Option ℕ → Bool → ProcessInfo → ProcessInfo
  receive final inserted p = record p {
    response = record p.response {
      end_block_id = refreshed_end final p.response.end_block_id;
      insert_num = if inserted then p.response.insert_num + 1 else p.response.insert_num;
    };
  }

  -- `extendNoEndTime`
  unfoldable pub extend_no_end_time : ℕ → ProcessInfo → ProcessInfo
  extend_no_end_time now p =
      if ltb p.no_end_time now
      then set_status 405 p
      else record p { no_end_time = now + noend_timeout }
