-- ===== src/Redis/RoundTrip.antt =====
-- The hash of a pipeline run (execution/redis/encoding.go) read back, and the order of the scores.
use ody.Execution.{Uuid, PipelineRun, Time, ok}
use ody.Base.{
  ℕ, String, Option, find_or, ◌≡◌, ◌<◌, ◌≢◌, lookup, ◌≤◌, ◌^◌, ◌==◌, some, int_ltb, ℤ, false, pos,
  arith, eq_iff, none, string_eq, refl,
}
use ody.Redis.{Codec}
use ody.Redis.Encoding.{
  encode_run, decode_run, score, decode_revision, decode_finished, finished_text, stored,
}

-- The first instant of the year 10000, which `time.Parse` does not read back.
abbrev pub end_of_time : ℕ
end_of_time = 315537897600000000000

-- What is formatted is read back, within the range that the format has, and is not empty.
pub record IsFaithful (codec : Codec) : Type 0 where
  pub uuids : (id : Uuid) → codec.parse_uuid (codec.uuid_text id) ≡ ok id
  pub ints : (n : ℤ) → codec.parse_int (codec.int_text n) ≡ ok n
  pub uints : (n : ℕ) → n < 2 ^ 64 → codec.parse_uint (codec.int_text (pos n)) ≡ ok n
  pub digits : (n : ℕ) → codec.int_text (pos n) ≢ ""
  pub times : (t : Time) → t < end_of_time → codec.parse_time (codec.time_text t) ≡ ok t
  pub instants : (t : Time) → codec.time_text t ≢ ""

-- The instants of a run that the format can hold, and a revision within Go's uint64.
pub record IsStorable (run : PipelineRun) : Type 0 where
  pub revised : run.revision < 2 ^ 64
  pub created : run.created_at < end_of_time
  pub updated : run.updated_at < end_of_time
  pub finished : (t : Time) → run.finished_at ≡ some t → t < end_of_time

ne_empty : (s : String) → s ≢ "" → (s == "") ≡ false
ne_empty s h = ground (arith, eq_iff s "")

module _ (codec : Codec) (f : IsFaithful codec) where
  decode_revision-faithful :
      (n : ℕ) → n < 2 ^ 64 → decode_revision codec (codec.int_text (pos n)) ≡ ok n
  decode_revision-faithful n h = rw (ne_empty (codec.int_text (pos n)) (f.digits n)) (f.uints n h)

  decode_finished-faithful :
      (o : Option Time)
      → ((t : Time) → o ≡ some t → t < end_of_time)
      → decode_finished codec (finished_text codec o) ≡ ok o
  decode_finished-faithful none h = refl
  decode_finished-faithful (some t) h =
      rw (ne_empty (codec.time_text t) (f.instants t), f.times t (h t refl)) refl

  -- A run that encodeRun writes is the run that decodeRun reads, if its revision is a uint64 and its
  -- instants are before the year 10000.
  pub decode_run-encode_run :
      (run : PipelineRun)
      → IsStorable run
      → decode_run codec (encode_run codec run) ≡ ok (stored run)
  unfolding decode_run encode_run find_or lookup
  decode_run-encode_run run s =
      rw
        (
          f.uuids run.id,
          f.ints run.pipeline_version,
          decode_revision-faithful run.revision s.revised,
          f.times run.created_at s.created,
          f.times run.updated_at s.updated,
          decode_finished-faithful run.finished_at s.finished,
        )
        refl

-- Scores keep the order of instants: what is due is within the range of scores that Claim asks for.
pub score_mono : (s t : Time) → s ≤ t → int_ltb (score t) (score s) ≡ false
unfolding score
score_mono s t h = ground arith
