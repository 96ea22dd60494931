-- ===== src/Redis/Encoding.antt =====
-- execution/redis/encoding.go: the hash of a pipeline run, its score in a sorted set, and the events
-- and counts of execution/redis/store.go. `values["k"]` of a missing field is "".
use ody.Execution.{◌>>=◌, run_status_text, Uuid, Time, PipelineRun, Result, ok, err}
use ody.Redis.{Codec}
use ody.Base.{
  Map, ◌∷◌, [], String, Option, find_or, ℕ, some, ℤ, string_eq, pos, if◌then◌else◌, ◌/◌, none, ◌==◌,
  leb, ◌-◌, negsuc, suc,
}

abbrev pub Fields : Type 0
Fields = Map String String

abbrev pub finished_text : Codec → Option Time → String
finished_text codec none = ""
finished_text codec (some at) = codec.time_text at

abbrev pub field : String → Fields → String
field name values = find_or "" name values

-- A run as it is read back, whose status is whatever text the hash holds.
pub record StoredRun : Type 0 where
  pub id : Uuid
  pub pipeline_name : String
  pub pipeline_version : ℤ
  pub input : String
  pub status : String
  pub error : String
  pub idempotency_key : String
  pub revision : ℕ
  pub created_at : Time
  pub updated_at : Time
  pub finished_at : Option Time

-- The run with the text of its status.
abbrev pub stored : PipelineRun → StoredRun
stored run = record {
  id = run.id;
  pipeline_name = run.pipeline_name;
  pipeline_version = run.pipeline_version;
  input = run.input;
  status = run_status_text run.status;
  error = run.error;
  idempotency_key = run.idempotency_key;
  revision = run.revision;
  created_at = run.created_at;
  updated_at = run.updated_at;
  finished_at = run.finished_at;
}

unfoldable pub encode_stored : Codec → StoredRun → Fields
encode_stored codec run =
    ("id", codec.uuid_text run.id)
    ∷ ("pipeline_name", run.pipeline_name)
    ∷ ("pipeline_version", codec.int_text run.pipeline_version)
    ∷ ("input", run.input)
    ∷ ("status", run.status)
    ∷ ("error", run.error)
    ∷ ("idempotency_key", run.idempotency_key)
    ∷ ("revision", codec.int_text (pos run.revision))
    ∷ ("created_at", codec.time_text run.created_at)
    ∷ ("updated_at", codec.time_text run.updated_at)
    ∷ ("finished_at", finished_text codec run.finished_at)
    ∷ []

unfoldable pub encode_run : Codec → PipelineRun → Fields
unfolding run_status_text encode_stored
encode_run codec run = encode_stored codec (stored run)

-- `if values["revision"] != ""`
abbrev pub decode_revision : Codec → String → Result ℕ
decode_revision codec text = if text == "" then ok 0 else codec.parse_uint text

abbrev pub decode_finished : Codec → String → Result (Option Time)
decode_finished codec text =
    if text == ""
    then ok none
    else elim (codec.parse_time text) [ err e ↦ err e | ok at ↦ ok (some at) ]

unfoldable pub decode_run : Codec → Fields → Result StoredRun
unfolding find_or
decode_run codec values = do
  id ← codec.parse_uuid (field "id" values)
  version ← codec.parse_int (field "pipeline_version" values)
  revision ← decode_revision codec (field "revision" values)
  created ← codec.parse_time (field "created_at" values)
  updated ← codec.parse_time (field "updated_at" values)
  finished ← decode_finished codec (field "finished_at" values)
  ok (record {
    id = id;
    pipeline_name = field "pipeline_name" values;
    pipeline_version = version;
    input = field "input" values;
    status = field "status" values;
    error = field "error" values;
    idempotency_key = field "idempotency_key" values;
    revision = revision;
    created_at = created;
    updated_at = updated;
    finished_at = finished;
  })

-- The Unix epoch in milliseconds since the zero time.
abbrev pub epoch : ℕ
epoch = 62135596800000

-- Milliseconds since the Unix epoch, rounded down, of an instant since the zero time.
unfoldable pub score : Time → ℤ
score at = let n = at / 1000000 in if leb epoch n then pos (n - epoch) else negsuc (epoch - suc n)
