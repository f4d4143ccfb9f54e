-- ===== src/Clients/Commands.antt =====
-- examples/pattern-fetch.cpp and examples/pattern-cancel.cpp: the command that each client
-- expresses, its two callbacks, and how its process ends.
use fast_repo.Prelude.{
  ℕ, zero, suc, Bool, Option, none, some, List, [], ◌∷◌, ◌++◌, if◌then◌else◌, ◌==◌,
}
use fast_repo.Prelude.Bytes.{Bytes}
use fast_repo.Ndn.{Ndn}
use fast_repo.Handles.Base.{Parameter, Response}
use fast_repo.Repo.Prefixes.{pattern_word, cancel_word}

-- "ndnrtc3"
abbrev pub pattern_name : Bytes
pattern_name = b'n' ∷ b'd' ∷ b'n' ∷ b'r' ∷ b't' ∷ b'c' ∷ b'3' ∷ []

-- What the clients use of protobuf and of ndn-cpp besides names: `ProtobufTlv::encode` of a name,
-- and of a command parameter as a component; `getValue()` of a component; the name that
-- `makeCommandInterest` gives an Interest; and `ProtobufTlv::decode` of a packet's content, as
-- whether it throws and what the message then holds.
pub record Encoding (n : Ndn) : Type 0 where
  pub encode_name : List Bytes → Bytes
  pub encode : Parameter → n.Component
  pub value : n.Component → Bytes
  pub signed : n.Name → n.Name
  pub decode_response : n.Content → Bool × Response
  -- `ProtobufTlv::encode` of a response, which the repository replies with
  pub encode_response : Response → n.Content

-- The callbacks that a client hands to `requestInsert`.
pub data Call : Type 0 where
  succeeded failed : Call

-- The process: in the loop of `main`, ended by `exit(0)` with the success message, or ended by a
-- failure, which clears `enabled`.
pub data Process : Type 0 where
  looping succeeded_exit stopped : Process

-- A parameter message with a name and no other field set.
abbrev pub named_parameter : List Bytes → Parameter
named_parameter name = record {
  name = name;
  start_block_id = 0;
  end_block_id = 0;
  process_id = 0;
  max_interest_num = 0;
  watch_timeout = 0;
  watch_status = 0;
  interest_lifetime = 0;
}

abbrev ended_by_failure : List Call → Process
ended_by_failure [] = stopped
ended_by_failure (succeeded ∷ calls) = succeeded_exit
ended_by_failure (failed ∷ calls) = ended_by_failure calls

-- The effect of one callback's calls on `main`.
unfoldable pub after_calls : List Call → Process
after_calls [] = looping
after_calls (succeeded ∷ calls) = succeeded_exit
after_calls (failed ∷ calls) = ended_by_failure calls

-- `get(i)` throws where there is no such component.
infixl 5 ◌>>=◌
abbrev ◌>>=◌ : {A B : Type 0} → Option A → (A → Option B) → Option B
some component >>= next = next component
none >>= next = none

module _ (n : Ndn) (c : Encoding n) where
  open n use {Name, Content}

  -- The loops over `fetchName.get(i)`; `k` rounds are left.
  unfoldable pub values_from : Name → ℕ → ℕ → Option (List Bytes)
  values_from name i zero = some []
  values_from name i (suc k) = do
    x ← n.get name i
    xs ← values_from name (suc i) k
    some (c.value x ∷ xs)

  unfoldable pub values : Name → Option (List Bytes)
  values name = values_from name 0 (n.size name)

  -- The name of the Interest that `requestInsert` expresses, `word` being the command's.
  unfoldable pub command_name : Name → Bytes → Parameter → Name
  command_name prefix word parameter =
      c.signed
        (n.append_component (n.append_component prefix (n.component word)) (c.encode parameter))

  -- `requestInsert` of pattern-fetch
  unfoldable pub request_fetch : Name → Name → Option Name
  request_fetch prefix fetch_name = do
    xs ← values fetch_name
    some (
        command_name prefix pattern_word
          (named_parameter (c.encode_name (pattern_name ∷ []) ∷ c.encode_name xs ∷ [])))

  -- `requestInsert` of pattern-cancel
  unfoldable pub request_cancel : Name → Name → Option Name
  request_cancel prefix fetch_name = do
    xs ← values fetch_name
    some (command_name prefix cancel_word (named_parameter xs))

  abbrev on_failed_decoding : Bool → List Call
  on_failed_decoding throws = if throws then failed ∷ [] else []

  -- `requestFetchOnData`
  unfoldable pub fetch_on_data : Content → List Call
  fetch_on_data content =
      let (throws, response) = c.decode_response content in
      on_failed_decoding throws
      ++ (if response.status_code == 100 then succeeded ∷ [] else failed ∷ [])

  -- `requestFetchOnTimeout`
  unfoldable pub fetch_on_timeout : List Call
  fetch_on_timeout = failed ∷ []

  -- `requestCancelOnData`
  unfoldable pub cancel_on_data : Content → List Call
  cancel_on_data content =
      let (throws, response) = c.decode_response content in
      on_failed_decoding throws
      ++ (if response.status_code == 101 then succeeded ∷ [] else failed ∷ [])

  -- `requestCancelOnTimeout`
  unfoldable pub cancel_on_timeout : List Call
  cancel_on_timeout = failed ∷ []

  -- `main` of both, up to its loop: the usage, or a command for the two names of the arguments.
  unfoldable pub main : (Name → Name → Option Name) → List Bytes → Option (Option Name)
  main request (prefix ∷ fetch_prefix ∷ _) =
      some (request (n.of_uri prefix) (n.of_uri fetch_prefix))
  main request _ = none
