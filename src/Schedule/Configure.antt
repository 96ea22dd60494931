-- ===== src/Schedule/Configure.antt =====
-- schedule/schedule.go: the options of a definition, newDefinition, Task, Pipeline, New, and the calls of
-- initialize and tick that Run makes. `L` is `time.Location`, and `parse` the parser of cron expressions.
use Prim.Native.String
use ody.Schedule.{
  MisfirePolicy, OverlapPolicy, DefinitionOptions, Definition, Scheduler, misfire_skip, allow,
  initialize, tick,
}
use ody.Pipeline.{trim_space}
use ody.Execution.{Result, ok, err, message, wrapped, Time, Duration}
use ody.Base.{
  String, ℤ, Option, List, ◌∷◌, some, if◌then◌else◌, pos, ◌==◌, is_nonpos, [], contains, none,
  string_eq,
}

pub data DefinitionOption (L : Type 0) : Type 0 where
  with_location : Option L → DefinitionOption L
  with_misfire : MisfirePolicy → Duration → ℤ → DefinitionOption L
  with_overlap : OverlapPolicy → DefinitionOption L

-- `definitionOptions`, with the location.
pub record Configured (L : Type 0) : Type 0 where
  pub location : Option L
  pub options : DefinitionOptions

unfoldable pub apply_option : {L : Type 0} → DefinitionOption L → Configured L → Configured L
apply_option (with_location l) c = record c { location = l }
apply_option (with_misfire policy lookback n) c = record c {
  options = record c.options { misfire = policy; lookback = lookback; max_catch_up = n };
}
apply_option (with_overlap policy) c = record c { options = record c.options { overlap = policy } }

-- The loop over the options, of which a nil one is passed over.
unfoldable pub apply_options :
    {L : Type 0} → List (Option (DefinitionOption L)) → Configured L → Configured L
unfolding apply_option
apply_options [] c = c
apply_options (none ∷ rest) c = apply_options rest c
apply_options (some option ∷ rest) c = apply_options rest (apply_option option c)

-- What newDefinition fills in of a definition.
pub record Parsed : Type 0 where
  pub name : String
  pub next_time : Time → Time
  pub options : DefinitionOptions

module _ {L : Type 0} (utc : L) (location_text : L → String)
    (parse : String → Result (Time → Time)) where
  abbrev pub default_options : Configured L
  default_options = record {
    location = some utc;
    options = record {
      misfire = misfire_skip;
      overlap = allow;
      lookback = pos 0;
      max_catch_up = pos 100;
    };
  }

  unfoldable pub new_definition :
      String → String → List (Option (DefinitionOption L)) → Result Parsed
  unfolding apply_options trim_space
  new_definition name expression options =
      let configured = apply_options options default_options in
      if trim_space name == ""
      then err (message "schedule name is empty")
      else elim configured.location [
        | none ↦ err (message "schedule location is nil")
        | some location ↦
            elim (parse (
              String.◌++◌ "CRON_TZ="
                (String.◌++◌ (location_text location) (String.◌++◌ " " expression)))) [
                  | err e ↦ err (wrapped "parse schedule" e)
                  | ok next_time ↦ ok (record {
                    name = trim_space name;
                    next_time = next_time;
                    options = configured.options;
                  })
                ]
      ]

-- `if options.PollInterval <= 0 { options.PollInterval = time.Second }`
abbrev pub poll_interval : Duration → Duration
poll_interval interval = if is_nonpos interval then pos 1000000000 else interval

-- What New returns: the definitions, the interval and the scheduler before its first tick.
pub record Started (S : Type 0) : Type 0 where
  pub definitions : List (Definition S)
  pub interval : Duration
  pub scheduler : Scheduler S

module _ {S : Type 0} where
  -- The loop over the definitions, with the names seen. `none` is the zero value of Definition, the only
  -- one without a trigger or a name that can be made outside the package.
  unfoldable pub accept_definitions :
      List String → List (Option (Definition S)) → Result (List (Definition S))
  accept_definitions seen [] = ok []
  accept_definitions seen (none ∷ rest) = err (message "invalid schedule definition")
  accept_definitions seen (some d ∷ rest) =
      let later = accept_definitions (d.name ∷ seen) rest in
      if d.name == ""
      then err (message "invalid schedule definition")
      else if contains seen d.name
      then err (message "duplicate schedule")
      else elim later [ err e ↦ err e | ok ds ↦ ok (d ∷ ds) ]

  unfoldable pub new_scheduler :
      Option S → List (Option (Definition S)) → Duration → Result (Started S)
  unfolding accept_definitions
  new_scheduler none definitions interval = err (message "schedule store is nil")
  new_scheduler (some store) definitions interval = elim (accept_definitions [] definitions) [
    | err e ↦ err e
    | ok ds ↦ ok (record {
      definitions = ds;
      interval = poll_interval interval;
      scheduler = record { next = []; store = store; observed = [] };
    })
  ]

  -- The ticks of Run, at the instants that the ticker sends.
  unfoldable pub tick_all :
      (Time → String) → List (Definition S) → List Time → Scheduler S → Scheduler S
  unfolding tick
  tick_all format definitions [] s = s
  tick_all format definitions (at ∷ rest) s =
      tick_all format definitions rest (tick format definitions at s)

  -- Run, until its context is done.
  unfoldable pub run : (Time → String) → Started S → Time → List Time → Scheduler S
  unfolding initialize tick_all
  run format started first ticks =
      tick_all format started.definitions ticks
        (initialize format started.definitions first started.scheduler)
