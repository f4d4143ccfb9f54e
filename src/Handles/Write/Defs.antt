-- ===== src/Handles/Write/Defs.antt =====
-- The state and the callbacks of the write handle.
use fast_repo.Prelude.{ℕ, Option, none, some, [], ◌∷◌, ◌++◌, if◌then◌else◌, ◌==◌, ℕ_discrete}
use fast_repo.Prelude.StdMap
use fast_repo.Prelude.StdMap.{Map}
use fast_repo.Ndn.{Ndn, Rocks}
use fast_repo.Storage.Engine.{Engine, Result, ok, err}
use fast_repo.Storage.Engine
use fast_repo.Handles.Base.{
  Response, new_response, Parameter, expressed, inserted, Effects, extract_parameter, reply,
  negative_reply, append_components,
}

module _ (n : Ndn) (r : Rocks) (decode : n.Component → Option Parameter) where
  open n use {Name, Data}

  -- The handle with the storage that it refers to.
  pub record WriteHandle : Type 0 where
    pub storage : Engine n r
    pub processes : Map ℕ Response

  abbrev or_default : Option Response → Response
  or_default none = new_response
  or_default (some response) = response

  -- the response of the process entry that `m_processes[processId]` finds or makes
  abbrev entry : WriteHandle → ℕ → Response
  entry w process_id = or_default (StdMap.find ℕ_discrete process_id w.processes)

  unfoldable pub started : WriteHandle → ℕ → Response
  started w process_id = record (entry w process_id) {
    status_code = 100;
    process_id = process_id;
    insert_num = 0;
  }

  unfoldable pub process_single_insert_command :
      WriteHandle → Name → Parameter → ℕ → WriteHandle × Effects n
  unfolding started
  process_single_insert_command w interest parameter process_id =
      let response = started w process_id in
      (
        record w {
          processes =
              StdMap.insert ℕ_discrete process_id (record response { status_code = 300 })
                w.processes;
        },
        reply n interest response
            ++ expressed (append_components n n.empty_name parameter.name) process_id ∷ [],
      )

  on_extracted : WriteHandle → Name → ℕ → Option Parameter → WriteHandle × Effects n
  on_extracted w interest process_id none = (w, negative_reply n interest 403)
  on_extracted w interest process_id (some parameter) =
      process_single_insert_command w interest parameter process_id

  -- `onInterest` and `onValidated`
  unfoldable pub on_interest : WriteHandle → Name → Name → ℕ → WriteHandle × Effects n
  unfolding on_extracted
  on_interest w interest prefix process_id =
      on_extracted w interest process_id (extract_parameter n decode interest prefix)

  -- `onTimeout`, also bound as the callback for a network Nack
  unfoldable pub on_timeout : WriteHandle → ℕ → WriteHandle
  on_timeout w process_id = record w { processes = StdMap.erase ℕ_discrete process_id w.processes }

  -- after `put` has returned
  unfoldable pub stored :
      WriteHandle → ℕ → Result (Name × Engine n r) → Result (WriteHandle × Effects n)
  stored w process_id (err x) = err x
  stored w process_id (ok (name, storage)) = ok (
    record w { storage = storage; processes = StdMap.erase ℕ_discrete process_id w.processes },
    inserted name ∷ [],
  )

  with_process : WriteHandle → Data → ℕ → Option Response → Result (WriteHandle × Effects n)
  unfolding stored
  with_process w d process_id none = ok (w, [])
  with_process w d process_id (some response) =
      if response.insert_num == 0
      then stored w process_id (Engine.put n r w.storage d)
      else ok (on_timeout w process_id, [])

  -- `onData` and `onDataValidated`
  unfoldable pub on_data : WriteHandle → Data → ℕ → Result (WriteHandle × Effects n)
  unfolding with_process
  on_data w d process_id =
      with_process w d process_id (StdMap.find ℕ_discrete process_id w.processes)
