-- ===== src/Handles/Base.antt =====
-- src/handles/base-handle.hpp and .cpp, and the messages of src/repo-command-parameter.proto and
-- src/repo-command-response.proto. What a handler asks of the face is returned as a list of
-- effects, in the order of the calls.
use fast_repo.Prelude.{ℕ, Option, none, some, List, [], ◌∷◌}
use fast_repo.Prelude.Bytes.{Bytes}
use fast_repo.Ndn.{Ndn}

-- proto3: a field that is not set reads 0.
pub record Response : Type 0 where
  pub process_id : ℕ
  pub status_code : ℕ
  pub start_block_id : ℕ
  pub end_block_id : ℕ
  pub insert_num : ℕ
  pub delete_num : ℕ

abbrev pub new_response : Response
new_response = record {
  process_id = 0;
  status_code = 0;
  start_block_id = 0;
  end_block_id = 0;
  insert_num = 0;
  delete_num = 0;
}

-- `Name` of the message: its components.
pub record Parameter : Type 0 where
  pub name : List Bytes
  pub start_block_id : ℕ
  pub end_block_id : ℕ
  pub process_id : ℕ
  pub max_interest_num : ℕ
  pub watch_timeout : ℕ
  pub watch_status : ℕ
  pub interest_lifetime : ℕ

-- `replied` is `putData` of a signed packet under the command Interest's name with the encoded
-- response; `expressed` is `expressInterest`, with the process or pattern that its callbacks are
-- bound to; `inserted` fires the signal `onDataInsertion`; `call_later` is `callLater` with the
-- delay in milliseconds and the object that the callback is bound to; the recorder is ndnrtc's.
pub data Effect (Name Data : Type 0) : Type 0 where
  replied : Name → Response → Effect Name Data
  expressed : Name → ℕ → Effect Name Data
  inserted : Name → Effect Name Data
  put_data : Data → Effect Name Data
  registered : Name → Effect Name Data
  call_later : ℕ → ℕ → Effect Name Data
  recorder_started recorder_stopped : Name → Effect Name Data
  shut_down : Effect Name Data

module _ (n : Ndn) where
  open n use {Name, Data, Component}

  abbrev pub Effects : Type 0
  Effects = List (Effect Name Data)

  -- `extractParameter`: both `get` and `decode` may throw.
  decode_component : (Component → Option Parameter) → Option Component → Option Parameter
  decode_component decode none = none
  decode_component decode (some c) = decode c

  unfoldable pub extract_parameter : (Component → Option Parameter) → Name → Name → Option Parameter
  unfolding decode_component
  extract_parameter decode interest prefix =
      decode_component decode (n.get interest (n.size prefix))

  unfoldable pub reply : Name → Response → Effects
  reply interest response = replied interest response ∷ []

  unfoldable pub negative_reply : Name → ℕ → Effects
  unfolding reply
  negative_reply interest status = reply interest (record new_response { status_code = status })

  -- The loops that append the components of a message's name one by one.
  unfoldable pub append_components : Name → List Bytes → Name
  append_components name [] = name
  append_components name (c ∷ cs) = append_components (n.append_component name (n.component c)) cs
