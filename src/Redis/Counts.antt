-- ===== src/Redis/Counts.antt =====
-- execution/redis/store.go and execution/redis/pipelines.go: ExecutionCounts, PipelineCounts and
-- parseCount. The status of a count is the text that its field holds.
use ody.Base.{
  String, List, Bool, ℤ, Option, if◌then◌else◌, sort, none, ◌==◌, some, text_ltb, nat_eq, string_eq,
  ◌∷◌, is_nonpos, [],
}
use Prim.Native.Char.{code}
use ody.Redis.{Codec, Server, Key, execution_counts_key, pipeline_counts_key}
use ody.Execution.{◌>>=◌, Result, ok, err, message, wrapped}

pub record StoredCount : Type 0 where
  pub name : String
  pub status : String
  pub count : ℤ

-- `strings.SplitN(field, "\x00", 2)`, or `none` if it has one part.
unfoldable pub split_field : String → Option (String × String)
split_field String.[] = none
split_field (String.◌∷◌ c s) =
    let rest = split_field s in
    if code c == 0
    then some (String.[], s)
    else elim rest [ none ↦ none | some (before, after) ↦ some (String.◌∷◌ c before, after) ]

unfoldable pub parse_count : Codec → String → String → Result StoredCount
unfolding split_field
parse_count codec field raw = elim (split_field field) [
  | none ↦ err (message "invalid redis count field")
  | some (name, status) ↦ elim (codec.parse_int64 raw) [
    | err e ↦ err (wrapped "invalid redis count" e)
    | ok count ↦ ok (record { name = name; status = status; count = count })
  ]
]

-- The loop over the fields, which keeps the positive counts.
unfoldable pub parse_counts : Codec → List (String × String) → Result (List StoredCount)
unfolding parse_count
parse_counts codec [] = ok []
parse_counts codec ((field, raw) ∷ fields) = do
  count ← parse_count codec field raw
  rest ← parse_counts codec fields
  ok (if is_nonpos count.count then rest else count ∷ rest)

unfoldable pub stored_count_before : StoredCount → StoredCount → Bool
stored_count_before a b =
    if a.name == b.name then text_ltb a.status b.status else text_ltb a.name b.name

module _ {R : Type 0} (server : Server R) (codec : Codec) where
  abbrev counts_of : Key → R → Result (List StoredCount)
  counts_of key s = do
    values ← server.hgetall key s
    counts ← parse_counts codec values
    ok (sort stored_count_before counts)

  unfoldable pub execution_counts : R → Result (List StoredCount)
  unfolding parse_counts stored_count_before
  execution_counts = counts_of (execution_counts_key codec)

  unfoldable pub pipeline_counts : R → Result (List StoredCount)
  unfolding parse_counts stored_count_before
  pipeline_counts = counts_of (pipeline_counts_key codec)
