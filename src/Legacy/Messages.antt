-- ===== src/Legacy/Messages.antt =====
-- The command parameter and response of repo-ng, by the getters and setters that the handlers use;
-- a field with a `has…` test is an option. What a handler asks for is a list of effects.
use fast_repo.Prelude.{ℕ, Bool, Option, none, List, [], ◌∷◌}

pub record Parameter (Name Selectors : Type 0) : Type 0 where
  pub name : Name
  pub has_name : Bool
  pub selectors : Option Selectors
  pub start_block_id : Option ℕ
  pub end_block_id : Option ℕ
  pub process_id : Option ℕ
  pub max_interest_num : Option ℕ
  pub watch_timeout : Option ℕ
  pub interest_lifetime : Option ℕ

pub record Response : Type 0 where
  pub status_code : ℕ
  pub process_id : Option ℕ
  pub start_block_id : Option ℕ
  pub end_block_id : Option ℕ
  pub insert_num : ℕ
  pub delete_num : ℕ

abbrev pub new_response : Response
new_response = record {
  status_code = 0;
  process_id = none;
  start_block_id = none;
  end_block_id = none;
  insert_num = 0;
  delete_num = 0;
}

-- `replied` answers the command; `fetched` expresses an Interest, with the process its callbacks
-- are bound to; `fetched_segment` one for a name with a segment number appended;
-- `deletion_scheduled` sets the timer of `deferredDeleteProcess`.
pub data Effect (Name Interest Process : Type 0) : Type 0 where
  replied : Response → Effect Name Interest Process
  fetched : Interest → Process → Effect Name Interest Process
  fetched_segment : Name → ℕ → Process → Effect Name Interest Process
  deletion_scheduled : Process → Effect Name Interest Process

-- `negativeReply`
abbrev pub negative_reply :
    {Name Interest Process : Type 0} → ℕ → List (Effect Name Interest Process)
negative_reply status = replied (record new_response { status_code = status }) ∷ []
