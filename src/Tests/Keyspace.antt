-- ===== src/Tests/Keyspace.antt =====
-- The theorems on the Redis store (execution/redis) at a codec that writes numbers in unary.
use ody.Memory.Query.{selects}
use ody.Tests.{env, first_item, request}
use ody.Memory.Create.{new_execution}
use ody.Redis.Filter.{matches_execution_filter, matches_execution_filter-selects}
use ody.Memory.{Env}
use ody.Redis.Encoding.{decode_run, encode_run, stored}
use ody.Redis.Runs.{new_run}
use ody.Execution.{
  Result, Execution, ok, CreatePipelineRun, PipelineRun, ListFilter, err, Time, message, pending,
  running,
}
use Prim.Native.Nat.{ℕ}
use ody.Base.{
  ℕ, String, suc, ◌≡◌, ◌≢◌, zero, ap, sym, ℤ, ◌∙◌, pos, some, refl, negsuc, none, if◌then◌else◌,
  arith, ◌==◌, nat_eq,
}
use Prim.Native.Char.{char, code}
use ody.Redis.{Codec, of_execution, execution_key}
use ody.Redis.Keys.{key_text-injective}
use ody.Redis.RoundTrip.{IsFaithful, IsStorable, decode_run-encode_run}

abbrev pub unary : ℕ → String
unary zero = String.◌∷◌ (char 46 tt) String.[]
unary (suc n) = String.◌∷◌ (char 120 tt) (unary n)

abbrev size : String → ℕ
size String.[] = 0
size (String.◌∷◌ c s) = suc (size s)

-- The number before the full stop.
abbrev before_stop : ℕ → ℕ
before_stop zero = 0
before_stop (suc n) = n

abbrev value : String → ℕ
value s = before_stop (size s)

size-unary : (n : ℕ) → size (unary n) ≡ suc n
size-unary zero = refl
size-unary (suc n) = ap suc (size-unary n)

value-unary : (n : ℕ) → value (unary n) ≡ n
value-unary n = ap before_stop (size-unary n)

zero_ne_suc : {n : ℕ} → zero ≢ suc n
zero_ne_suc h = cc

unary_ne : (n : ℕ) → unary n ≢ ""
unary_ne n h = zero_ne_suc (sym (ap size h) ∙ size-unary n)

-- A minus sign, and the number below it.
abbrev int_text : ℤ → String
int_text (pos n) = unary n
int_text (negsuc n) = String.◌∷◌ (char 45 tt) (unary n)

abbrev parse_int : String → Result ℤ
parse_int String.[] = err (message "no number")
parse_int (String.◌∷◌ c s) =
    if code c == 45 then ok (negsuc (value s)) else ok (pos (value (String.◌∷◌ c s)))

parse_int-int_text : (n : ℤ) → parse_int (int_text n) ≡ ok n
parse_int-int_text (pos zero) = refl
parse_int-int_text (pos (suc n)) = ap (λ k. ok (pos k)) (value-unary (suc n))
parse_int-int_text (negsuc n) = ap (λ k. ok (negsuc k)) (value-unary n)

abbrev pub stored_item : Execution
stored_item = record (new_execution request 1 1) {
  status = running;
  lease_token = 5;
  lease_until = 9;
  attempt = 1;
}

abbrev pub codec : Codec
codec = record {
  uuid_text = unary;
  parse_uuid = λ s. ok (value s);
  base64 = λ s. s;
  execution_json = λ item. ok "{}";
  parse_execution = λ s. ok stored_item;
  event_json = λ event. ok "{}";
  parse_event = λ s. err (message "no event");
  time_text = unary;
  parse_time = λ s. ok (value s);
  int_text = int_text;
  parse_int = parse_int;
  parse_uint = λ s. ok (value s);
  parse_int64 = parse_int;
}

codec-IsFaithful : IsFaithful codec
codec-IsFaithful = record {
  uuids = λ id. ap ok (value-unary id);
  ints = parse_int-int_text;
  uints = λ n h. ap ok (value-unary n);
  digits = unary_ne;
  times = λ t h. ap ok (value-unary t);
  instants = unary_ne;
}

abbrev pub invocation : CreatePipelineRun
invocation = record {
  pipeline_name = "news";
  pipeline_version = pos 2;
  input = "{}";
  idempotency_key = "k";
}

abbrev pub first_run : PipelineRun
first_run = new_run invocation 3 7

first_run-IsStorable : IsStorable first_run
unfolding new_run
first_run-IsStorable = record {
  revised = omega arith;
  created = omega arith;
  updated = omega arith;
  finished = λ t h. absurd (none_ne h);
}
  where
    none_ne : {t : Time} → none ≢ some t
    none_ne h = cc

decode_run-encode_run_example :
    decode_run codec (encode_run codec first_run) ≡ ok (stored first_run)
decode_run-encode_run_example =
    decode_run-encode_run codec codec-IsFaithful first_run first_run-IsStorable

key_text-injective_example : execution_key codec 3 ≡ execution_key codec 3
key_text-injective_example =
    key_text-injective "ody:" (execution_key codec 3)
      (record { kind = of_execution; argument = unary 3 }) refl

abbrev everything : ListFilter
everything = record {
  task_name = "mail";
  status = some pending;
  pipeline_run_id = none;
  limit = pos 0;
  before = none;
}

abbrev unary_env : Env
unary_env = record env { uuid_text = unary }

matches_execution_filter-selects_example :
    matches_execution_filter codec first_item everything ≡ selects unary_env everything first_item
matches_execution_filter-selects_example =
    matches_execution_filter-selects codec unary_env first_item everything refl
