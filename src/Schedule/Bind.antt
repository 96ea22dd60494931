-- ===== src/Schedule/Bind.antt =====
-- schedule/schedule.go: Task and Pipeline, which make a definition of a task or of a pipeline. A nil
-- argument is `none`.
use ody.Engine.{Persistence}
use ody.Base.{String, Option, Bool, List, some, none}
use ody.Execution.{
  Time, Result, Error, CreateExecution, Execution, Uuid, err, ListFilter, ok, message,
}
use ody.Schedule.{Definition}
use ody.Schedule.Configure.{new_definition, Parsed, DefinitionOption}
use ody.Schedule.Triggers.{
  task_trigger, task_is_active, active_statuses, pipeline_trigger, pipeline_is_active,
}
use ody.Task.{Specification}
use ody.Pipeline
use ody.Pipeline.{Registry}

-- The definition with its trigger and its test of activity.
abbrev pub complete :
    {S : Type 0}
    → (Time → String → S → Option Error × S)
    → (S → Result Bool)
    → Result Parsed
    → Result (Definition S)
complete trigger is_active (err e) = err e
complete trigger is_active (ok parsed) = ok (record {
  name = parsed.name;
  next_time = parsed.next_time;
  options = parsed.options;
  trigger = trigger;
  is_active = is_active;
})

module _ {L : Type 0} (utc : L) (location_text : L → String)
    (parse : String → Result (Time → Time)) where
  unfoldable pub schedule_task :
      {S : Type 0}
      → (CreateExecution → S → Result Execution × S)
      → (ListFilter → S → Result (List Execution))
      → String
      → String
      → Specification
      → Option (Time → Result String)
      → List (Option (DefinitionOption L))
      → Result (Definition S)
  unfolding new_definition task_trigger task_is_active
  schedule_task create list name expression spec none options =
      err (message "schedule task input factory is nil")
  schedule_task create list name expression spec (some input) options =
      complete (task_trigger create list spec input)
        (task_is_active create list spec (active_statuses create list))
        (new_definition utc location_text parse name expression options)

  unfoldable pub schedule_pipeline :
      {S : Type 0}
      → Persistence S
      → (Uuid → String)
      → Registry
      → String
      → String
      → Option Pipeline.Definition
      → Option (Time → Result String)
      → List (Option (DefinitionOption L))
      → Result (Definition S)
  unfolding new_definition pipeline_trigger pipeline_is_active
  schedule_pipeline p uuid_text registry name expression none input options =
      err (message "schedule pipeline definition and input factory are required")
  schedule_pipeline p uuid_text registry name expression (some definition) none options =
      err (message "schedule pipeline definition and input factory are required")
  schedule_pipeline p uuid_text registry name expression (some definition) (some input) options =
      complete (pipeline_trigger p uuid_text registry definition input)
        (pipeline_is_active p uuid_text registry definition)
        (new_definition utc location_text parse name expression options)
