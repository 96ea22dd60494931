-- ===== src/Task/Registry.antt =====
-- task/registry.go: handlers bound to definitions, modules of bindings, and the registry of tasks.
-- `json.Unmarshal`, the handler and `json.Marshal` are functions that are given; the handler may
-- panic, and its context is left out. A binding is its descriptor or its error.
pub mod Sound
use ody.Base.{
  String, List, Map, Bool, Option, ℕ, ℤ, some, if◌then◌else◌, ◌∷◌, [], lookup, contains, ◌==◌,
  insert, sort, none, ◌++◌, int_ltb, string_eq, text_ltb,
}
use Prim.Native.String
use ody.Task.{Specification, validate}
use ody.Pipeline.{trim_space}
use ody.Execution.{
  Uuid, Duration, TaskKey, task_key_eq, Error, Result, ok, err, message, wrapped, detailed,
  permanent, unknown_task, Execution,
}

pub record Message (I : Type 0) : Type 0 where
  pub execution_id : String
  pub input : I
  pub attempt : ℕ
  pub max_attempts : ℕ

-- What a call of the handler comes to: a value, an error, or a panic with its text.
pub data Outcome (O : Type 0) : Type 0 where
  returned : O → Outcome O
  failed_with : Error → Outcome O
  panicked_with : String → Outcome O

pub record Descriptor : Type 0 where
  pub name : String
  pub version : ℤ
  pub max_attempts : ℤ
  pub timeout : Duration
  pub retry : Option (ℤ → Duration)
  pub execute : Execution → Result String

abbrev pub Binding : Type 0
Binding = Result Descriptor

module _ {I O : Type 0} (uuid_text : Uuid → String) (decode : String → Result I)
    (encode : O → Result String) where
  -- What follows the call of the handler.
  unfoldable pub encode_output : Outcome O → Result String
  encode_output (returned value) = elim (encode value) [
    | ok output ↦ ok output
    | err e ↦ err (permanent (wrapped "encode task output" e))
  ]
  encode_output (failed_with e) = err e
  encode_output (panicked_with text) = err (message (String.◌++◌ "task panic: " text))

  unfoldable pub execute_handler : (Message I → Outcome O) → Execution → Result String
  unfolding encode_output
  execute_handler handler item = elim (decode item.input) [
    | err e ↦ err (permanent (wrapped "decode task input" e))
    | ok input ↦ encode_output (
        handler (record {
          execution_id = uuid_text item.id;
          input = input;
          attempt = item.attempt;
          max_attempts = item.max_attempts;
        }))
  ]

  unfoldable pub handle : Specification → Option (Message I → Outcome O) → Binding
  unfolding validate execute_handler
  handle spec handler = elim (validate spec) [
    | some e ↦ err e
    | none ↦ elim handler [
      | none ↦ err (message "task handler is nil")
      | some run ↦ ok (record {
        name = spec.name;
        version = spec.version;
        max_attempts = spec.max_attempts;
        timeout = spec.timeout;
        retry = spec.retry;
        execute = execute_handler run;
      })
    ]
  ]

-- A module that NewModule has accepted, with the descriptors of its bindings.
pub record Module : Type 0 where
  pub name : String
  pub descriptors : List Descriptor

-- `descriptorKey`: the pair that the text `name@vversion` stands for.
abbrev pub descriptor_key : Descriptor → TaskKey
descriptor_key d = record { name = d.name; version = d.version }

-- The loop of NewModule, over the keys seen.
unfoldable pub accept_bindings : List TaskKey → List Binding → Result (List Descriptor)
accept_bindings seen [] = ok []
accept_bindings seen (err e ∷ rest) = err e
accept_bindings seen (ok d ∷ rest) =
    let later = accept_bindings (descriptor_key d ∷ seen) rest in
    if contains seen (descriptor_key d)
    then err (message "module contains duplicate task")
    else elim later [ err e ↦ err e | ok ds ↦ ok (d ∷ ds) ]

unfoldable pub new_module : String → List Binding → Result Module
unfolding accept_bindings trim_space
new_module name bindings =
    if trim_space name == ""
    then err (message "module name is empty")
    else elim (accept_bindings [] bindings) [
      | err e ↦ err e
      | ok ds ↦ ok (record { name = trim_space name; descriptors = ds })
    ]

pub record Registry : Type 0 where
  pub tasks : Map TaskKey Descriptor
  pub keys : List TaskKey

-- The loop over the bindings of one module. The owner of a key is that of its task.
unfoldable pub register_all : List Descriptor → Registry → Result Registry
register_all [] r = ok r
register_all (d ∷ rest) r =
    let later = register_all rest (record {
      tasks = insert (descriptor_key d) d r.tasks;
      keys = r.keys ++ descriptor_key d ∷ [];
    }) in
    elim (lookup (descriptor_key d) r.tasks) [
      | some owner ↦ err (message "task is registered by two modules")
      | none ↦ later
    ]

unfoldable pub register_modules : List Module → Registry → Result Registry
unfolding register_all
register_modules [] r = ok r
register_modules (m ∷ rest) r =
    if m.name == ""
    then err (message "invalid zero-value module")
    else elim (register_all m.descriptors r) [ err e ↦ err e | ok r' ↦ register_modules rest r' ]

unfoldable pub task_key_before : TaskKey → TaskKey → Bool
task_key_before a b =
    if a.name == b.name then int_ltb a.version b.version else text_ltb a.name b.name

unfoldable pub new_registry : List Module → Result Registry
unfolding register_modules task_key_before
new_registry modules = elim (register_modules modules (record { tasks = []; keys = [] })) [
  | err e ↦ err e
  | ok r ↦ ok (record r { keys = sort task_key_before r.keys })
]

abbrev pub key_of : Execution → TaskKey
key_of item = record { name = item.task_name; version = item.task_version }

unfoldable pub execute : Registry → Execution → Result String
execute r item = elim (lookup (key_of item) r.tasks) [
  | none ↦ err (permanent (detailed unknown_task item.task_name))
  | some d ↦ d.execute item
]

-- The attempts, the timeout and the retry policy; `none` for a task that is not registered.
unfoldable pub policy : Registry → TaskKey → Option (ℤ × Duration × Option (ℤ → Duration))
policy r key = elim (lookup key r.tasks) [
  | none ↦ none
  | some d ↦ some (d.max_attempts, d.timeout, d.retry)
]
