-- ===== src/Patterns/Trace.antt =====
-- One counter pattern among everything else that reaches the pattern handle, against a plain
-- description of it: a number that grows with each of its packets.
use fast_repo.Prelude.{
  ℕ, ◌+◌, ◌<◌, ◌≡◌, refl, ◌∙◌, ◌⊎◌, inl, inr, Option, none, some, List, [], ◌∷◌, ◌++◌, ltb, ◌==◌,
  if◌then◌else◌, ℕ_discrete, arith,
}
use fast_repo.Prelude.Bytes.{Bytes}
use fast_repo.Prelude.StdMap
use fast_repo.Prelude.StdMap.{find-insert, find-erase}
use fast_repo.Ndn.{Ndn, Rocks}
use fast_repo.Handles.Base.{
  Parameter, Effects, replied, expressed, inserted, put_data, registered, call_later,
  recorder_started, recorder_stopped, shut_down, negative_reply, reply,
}
use fast_repo.Patterns.Fetch
use fast_repo.Patterns.Fetch.{
  Build, Pattern, CounterPattern, counter_pattern, ndnrtc_pattern, gobj_pattern, to_string,
}
use fast_repo.Patterns.Handle
use fast_repo.Patterns.Handle.{
  PatternHandle, Outcome, done, fault, start, on_interest, discard, on_cancel_request, on_timer,
  on_data, remove_pattern, removed, stored, data_at, timer_at, Event, fetch_command, cancel_command,
  timer, packet, recorded, removal, step,
}
use fast_repo.Patterns.Cases.{on_interest_cases, on_cancel_request_cases}
use fast_repo.Patterns.Linked.{IsLinked}

module _ (n : Ndn) where
  -- The names of the Interests that are expressed for one pattern.
  unfoldable pub asked : ℕ → Effects n → List n.Name
  asked a [] = []
  asked a (expressed name address ∷ es) =
      let rest = asked a es in if address == a then name ∷ rest else rest
  asked a (replied name response ∷ es) = asked a es
  asked a (inserted name ∷ es) = asked a es
  asked a (put_data d ∷ es) = asked a es
  asked a (registered name ∷ es) = asked a es
  asked a (call_later delay address ∷ es) = asked a es
  asked a (recorder_started name ∷ es) = asked a es
  asked a (recorder_stopped name ∷ es) = asked a es
  asked a (shut_down ∷ es) = asked a es

  pub asked-append : (a : ℕ) (es fs : Effects n) → asked a (es ++ fs) ≡ asked a es ++ asked a fs
  unfolding asked
  asked-append a [] fs = refl
  asked-append a (expressed name address ∷ es) fs = ground (arith, asked-append a es fs)
  asked-append a (replied name response ∷ es) fs = asked-append a es fs
  asked-append a (inserted name ∷ es) fs = asked-append a es fs
  asked-append a (put_data d ∷ es) fs = asked-append a es fs
  asked-append a (registered name ∷ es) fs = asked-append a es fs
  asked-append a (call_later delay address ∷ es) fs = asked-append a es fs
  asked-append a (recorder_started name ∷ es) fs = asked-append a es fs
  asked-append a (recorder_stopped name ∷ es) fs = asked-append a es fs
  asked-append a (shut_down ∷ es) fs = asked-append a es fs

  -- A counter pattern told to fetch, after some packets.
  abbrev pub with_count : n.Name → ℕ → Pattern n
  with_count prefix k =
      counter_pattern (record { running = ltb k 10; counter = k; fetch_prefix = prefix })

module _ (n : Ndn) (r : Rocks) (build : Build n.Name) (decode : n.Component → Option Parameter)
    (decode_name : Bytes → Option (List Bytes)) where
  abbrev H : Type 0
  H = PatternHandle n r build decode decode_name

  abbrev E : Type 0
  E = Event n r build decode decode_name

  -- The packets of the pattern at an address, among the events.
  unfoldable pub packets_at : ℕ → E → ℕ
  packets_at a (packet d address) = if address == a then 1 else 0
  packets_at a (fetch_command interest prefix memory) = 0
  packets_at a (cancel_command interest prefix) = 0
  packets_at a (timer address) = 0
  packets_at a (recorded d) = 0
  packets_at a (removal prefix) = 0

  unfoldable pub packets : ℕ → List E → ℕ
  packets a [] = 0
  packets a (event ∷ events) = packets_at a event + packets a events

  -- What a pattern with that many packets asks for when its timer fires.
  unfoldable pub asks : ℕ → n.Name → ℕ → E → List n.Name
  asks a prefix k (timer address) =
      if address == a
      then if ltb k 10 then n.append_component prefix (n.component (to_string k)) ∷ [] else []
      else []
  asks a prefix k (packet d address) = []
  asks a prefix k (fetch_command interest prefix' memory) = []
  asks a prefix k (cancel_command interest prefix') = []
  asks a prefix k (recorded d) = []
  asks a prefix k (removal prefix') = []

  unfoldable pub schedule : ℕ → n.Name → ℕ → List E → List n.Name
  schedule a prefix k [] = []
  schedule a prefix k (event ∷ events) =
      asks a prefix k event ++ schedule a prefix (k + packets_at a event) events

  abbrev pub at : ℕ → H → Option (Pattern n)
  at a h = StdMap.find ℕ_discrete a h.objects

  -- No object stands at the address, and none will.
  abbrev pub IsGone : ℕ → H → Type 0
  IsGone a h = (at a h ≡ none) × (a < h.next)

  -- After an event the pattern is gone, or it is as described and asked as described.
  abbrev pub Follows : ℕ → Pattern n → List n.Name → H × Effects n → Type 0
  Follows a x names (h', es) = IsGone a h' ⊎ ((at a h' ≡ some x) × (asked n a es ≡ names))

  module _ (a : ℕ) (h : H) (x : Pattern n) (there : at a h ≡ some x)
      (linked : IsLinked n r build decode decode_name h) where
    here : a < h.next
    here = linked.below a (rw there)

    asked-fetch :
        (address : ℕ) (fetch_prefix : n.Name) (pattern : Pattern n)
        → asked n a (Fetch.fetch n build address fetch_prefix pattern).1 ≡ []
    unfolding asked Fetch.fetch
    asked-fetch address fetch_prefix (counter_pattern p) = refl
    asked-fetch address fetch_prefix (ndnrtc_pattern recorder) = ground arith
    asked-fetch address fetch_prefix gobj_pattern = refl

    asked-cancel : (pattern : Pattern n) → asked n a (Fetch.cancel n pattern).1 ≡ []
    unfolding asked Fetch.cancel
    asked-cancel (counter_pattern p) = refl
    asked-cancel (ndnrtc_pattern none) = refl
    asked-cancel (ndnrtc_pattern (some stream)) = refl
    asked-cancel gobj_pattern = refl

    start-Follows :
        (interest fetch_prefix : n.Name) (pattern : Option (Pattern n))
        → Follows a x [] (start n r build decode decode_name h interest fetch_prefix pattern)
    unfolding start asked negative_reply reply
    start-Follows interest fetch_prefix none = inr (there, refl)
    start-Follows interest fetch_prefix (some y) = inr (
      ground (
        arith,
        there,
        here,
        find-insert ℕ_discrete h.next a (Fetch.fetch n build h.next fetch_prefix y).0 h.objects,
      ),
      asked-append n a (Fetch.fetch n build h.next fetch_prefix y).1 _
          ∙ rw (asked-fetch h.next fetch_prefix y) refl,
    )

    asked-cancelled :
        (o : Option (Pattern n))
        → asked n a (Handle.effects_of_cancel n r build decode decode_name o) ≡ []
    unfolding asked
    asked-cancelled none = refl
    asked-cancelled (some y) = asked-cancel y

    discard-Follows :
        (fetch_prefix : n.Name) (address : ℕ) (fs : Effects n)
        → asked n a fs ≡ []
        → let (h', es) = discard n r build decode decode_name h fetch_prefix address in
          Follows a x [] (h', es ++ fs)
    unfolding discard
    discard-Follows fetch_prefix address fs quiet = elim (ℕ_discrete address a) [
      | yes same ↦ inl (ground (arith, same, find-erase ℕ_discrete address a h.objects), here)
      | no other ↦ inr (
        ground (arith, other, there, find-erase ℕ_discrete address a h.objects),
        asked-append n a _ fs
            ∙ rw (asked-cancelled (StdMap.find ℕ_discrete address h.objects), quiet) refl,
      )
    ]

    pub removed-Follows :
        (fetch_prefix : n.Name) (o : Option ℕ)
        → Follows a x [] (removed n r build decode decode_name h fetch_prefix o)
    unfolding discard asked
    removed-Follows fetch_prefix none = inr (there, refl)
    removed-Follows fetch_prefix (some address) = elim (ℕ_discrete address a) [
      | yes same ↦ inl (ground (arith, same, find-erase ℕ_discrete address a h.objects), here)
      | no other ↦ inr (
        ground (arith, other, there, find-erase ℕ_discrete address a h.objects),
        asked-cancelled (StdMap.find ℕ_discrete address h.objects),
      )
    ]

    pub on_interest-Follows :
        (interest prefix : n.Name) (memory : ℕ)
        → Follows a x [] (on_interest n r build decode decode_name h interest prefix memory)
    unfolding asked negative_reply reply
    on_interest-Follows interest prefix memory =
        on_interest_cases n r build decode decode_name (Follows a x []) h interest memory
          (inr (there, refl)) (inr (there, refl))
          (λ pattern_name fetch_prefix e. start-Follows interest fetch_prefix _) prefix

    pub on_cancel_request-Follows :
        (interest prefix : n.Name)
        → Follows a x [] (on_cancel_request n r build decode decode_name h interest prefix)
    unfolding asked negative_reply reply
    on_cancel_request-Follows interest prefix =
        on_cancel_request_cases n r build decode decode_name (Follows a x []) h interest
          (inr (there, refl)) (inr (there, refl))
          (λ fetch_prefix address e. discard-Follows fetch_prefix address _ refl) prefix

    pub asked-do_fetch :
        (address : ℕ) (p : CounterPattern n)
        → asked n a (Fetch.do_fetch n address p) ≡ (
            if address == a
            then if p.running
              then n.append_component p.fetch_prefix (n.component (to_string p.counter)) ∷ []
              else []
            else [])
    unfolding asked Fetch.do_fetch
    asked-do_fetch address p = ground arith

    pub asked-count :
        (address : ℕ) (p : CounterPattern n) → asked n a (Fetch.count n address p).1 ≡ []
    unfolding asked Fetch.count
    asked-count address p = ground arith
