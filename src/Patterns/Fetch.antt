-- ===== src/Patterns/Fetch.antt =====
-- src/handles/patterns: `IFetchPattern` and the classes that implement it, one constructor each,
-- and `PatternFactory`. The optional libraries are compile-time switches.
use fast_repo.Prelude.{
  ℕ, zero, suc, ◌+◌, ◌%◌, ◌/◌, Bool, true, false, Option, none, some, List, [], ◌∷◌, ◌++◌, map,
  if◌then◌else◌, ltb,
}
use fast_repo.Prelude.Bytes.{Bytes}
use fast_repo.Prelude.StdMap
use fast_repo.Prelude.StdMap.{Map}
use fast_repo.Ndn.{Ndn}
use fast_repo.Handles.Base.{Effects, expressed, call_later, recorder_started, recorder_stopped}

-- `std::to_string` of a number that is not negative: its decimal digits. The fuel, the number and
-- one more, is never used up.
abbrev pub digits : ℕ → ℕ → Bytes → Bytes
digits zero x acc = acc
digits (suc fuel) x acc =
    let more = digits fuel (x / 10) ((48 + x % 10) ∷ acc) in
    if ltb x 10 then (48 + x) ∷ acc else more

unfoldable pub to_string : ℕ → Bytes
to_string x = digits (suc x) x []

-- The optional libraries, with what is used of them: the text of ndnrtc's
-- `NameComponents::nameApiVersion`, and `extractInfo`, as whether it succeeds.
pub record Build (Name : Type 0) : Type 0 where
  pub have_ndnrtc : Bool
  pub have_cnl : Bool
  pub name_api_version : Bytes
  pub extract_info : Name → Bool

pub data Kind : Type 0 where
  counter ndnrtc gobj : Kind

-- "counter" and "gobj"
abbrev pub counter_keyword : Bytes
counter_keyword = b'c' ∷ b'o' ∷ b'u' ∷ b'n' ∷ b't' ∷ b'e' ∷ b'r' ∷ []

abbrev pub gobj_keyword : Bytes
gobj_keyword = b'g' ∷ b'o' ∷ b'b' ∷ b'j' ∷ []

-- "ndnrtc" and the version
abbrev pub ndnrtc_keyword : {Name : Type 0} → Build Name → Bytes
ndnrtc_keyword build = (b'n' ∷ b'd' ∷ b'n' ∷ b'r' ∷ b't' ∷ b'c' ∷ []) ++ build.name_api_version

module _ (n : Ndn) where
  open n use {Name, Data}

  pub record CounterPattern : Type 0 where
    pub running : Bool
    pub counter : ℕ
    pub fetch_prefix : Name

  -- An object; ndnrtc's holds the stream that its recorder fetches, if there is a recorder.
  pub data Pattern : Type 0 where
    counter_pattern : CounterPattern → Pattern
    ndnrtc_pattern : Option Name → Pattern
    gobj_pattern : Pattern

  -- `create` of each class. The constructor of `CounterPattern` leaves `counter_` as its memory was.
  abbrev pub create_counter : ℕ → Pattern
  create_counter memory =
      counter_pattern (record { running = false; counter = memory; fetch_prefix = n.empty_name })

  abbrev pub create_ndnrtc : Pattern
  create_ndnrtc = ndnrtc_pattern none

  abbrev pub create_gobj : Pattern
  create_gobj = gobj_pattern

  unfoldable pub construct : ℕ → Kind → Pattern
  construct memory counter = create_counter memory
  construct memory ndnrtc = create_ndnrtc
  construct memory gobj = create_gobj

  -- `fetch(prefix)` of each class. Of the generalized object only what is not commented out:
  -- nothing is fetched.
  abbrev pub fetch_counter : ℕ → Name → Pattern × Effects n
  fetch_counter address prefix = (
    counter_pattern (record { running = true; counter = 0; fetch_prefix = prefix }),
    call_later 1 address ∷ [],
  )

  -- The function that the new recorder gets stores each packet that it is called with: `on_recorded` of
  -- Patterns/Handle.
  abbrev pub fetch_ndnrtc : Build Name → Name → Option Name → Pattern × Effects n
  fetch_ndnrtc build prefix recorder =
      if build.extract_info prefix
      then (ndnrtc_pattern (some prefix), recorder_started prefix ∷ [])
      else (ndnrtc_pattern recorder, [])

  abbrev pub fetch_gobj : Pattern × Effects n
  fetch_gobj = (gobj_pattern, [])

  -- of the object at an address
  unfoldable pub fetch : Build Name → ℕ → Name → Pattern → Pattern × Effects n
  fetch build address prefix (counter_pattern p) = fetch_counter address prefix
  fetch build address prefix (ndnrtc_pattern recorder) = fetch_ndnrtc build prefix recorder
  fetch build address prefix gobj_pattern = fetch_gobj

  abbrev pub cancel_counter : CounterPattern → Pattern × Effects n
  cancel_counter p = (counter_pattern (record p { running = false }), [])

  abbrev pub cancel_ndnrtc : Option Name → Pattern × Effects n
  cancel_ndnrtc none = (ndnrtc_pattern none, [])
  cancel_ndnrtc (some stream) = (ndnrtc_pattern none, recorder_stopped stream ∷ [])

  unfoldable pub cancel : Pattern → Pattern × Effects n
  cancel (counter_pattern p) = cancel_counter p
  cancel (ndnrtc_pattern recorder) = cancel_ndnrtc recorder
  cancel gobj_pattern = (gobj_pattern, [])

  -- `CounterPattern::doFetch`
  unfoldable pub do_fetch : ℕ → CounterPattern → Effects n
  do_fetch address p =
      if p.running
      then expressed (n.append_component p.fetch_prefix (n.component (to_string p.counter))) address
        ∷ []
      else []

  -- `CounterPattern::onData`, after the packet is stored
  unfoldable pub count : ℕ → CounterPattern → CounterPattern × Effects n
  count address p =
      if ltb (p.counter + 1) 10
      then (record p { counter = p.counter + 1 }, call_later 2000 address ∷ [])
      else (record p { counter = p.counter + 1; running = false }, [])

  -- The constructor of `PatternFactory`. Its last line inserts the same key again.
  unfoldable pub supported : Build Name → Map Name Kind
  supported build =
      let with_counter = StdMap.insert n.name_discrete (n.of_uri counter_keyword) counter [] in
      let with_ndnrtc =
        if build.have_ndnrtc
        then StdMap.insert n.name_discrete (n.of_uri (ndnrtc_keyword build)) ndnrtc with_counter
        else with_counter in
      let with_gobj = StdMap.insert n.name_discrete (n.of_uri gobj_keyword) gobj with_ndnrtc in
      if build.have_cnl
      then StdMap.insert n.name_discrete (n.of_uri gobj_keyword) gobj with_gobj
      else with_ndnrtc

  -- `getSupportedPatterns`, in whatever order the container has
  unfoldable pub get_supported_patterns : Build Name → List Name
  get_supported_patterns build = map (λ entry. entry.0) (supported build)

  abbrev pub made : ℕ → Option Kind → Option Pattern
  made memory none = none
  made memory (some kind) = some (construct memory kind)

  -- `PatternFactory::create`: the name goes through its URI and back.
  unfoldable pub create : Build Name → ℕ → Name → Option Pattern
  create build memory name =
      made memory (StdMap.find n.name_discrete (n.of_uri (n.to_uri name)) (supported build))
