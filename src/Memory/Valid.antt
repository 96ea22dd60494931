-- ===== src/Memory/Valid.antt =====
-- The well-formedness of a `MemoryStore` (execution/memory.go): what holds of each execution, of
-- the maps, and of the indexes that point into them.
pub mod Update
pub mod Loop
pub mod Lease
pub mod Control
pub mod Claim
pub mod Create
pub mod Purge
pub mod Reachable
use ody.Base.{
  ℕ, String, ◌≤◌, ◌<◌, ◌≡◌, ◌≢◌, true, false, Option, none, some, List, lookup, Distinct, is_some,
  nat_eq, string_eq, ◌==◌, pos,
}
use ody.Execution.{Uuid, nil_uuid, running, status_eq, Execution, PipelineRun, is_terminal}
use ody.Memory.{MemoryStore, IsFaithful, idempotency_index, node_index}

-- The lease, the attempts and the end of one execution agree with its status.
pub record IsConsistent (e : Execution) : Type 0 where
  pub attempts_within : e.attempt ≤ e.max_attempts
  pub attempts_allowed : 0 < e.max_attempts
  pub held : e.status ≡ running → (e.lease_token ≢ nil_uuid) × (0 < e.attempt)
  pub free : e.status ≢ running → e.lease_token ≡ nil_uuid
  pub finished : is_some e.finished_at ≡ is_terminal e.status

-- The identifier came from `uuid.New`.
abbrev pub Minted : MemoryStore → Uuid → Type 0
Minted s id = (k : ℕ) × (k < s.mints) × (s.env.mint k ≡ id)

-- The fields that no transition changes.
pub record SameIdentity (e f : Execution) : Type 0 where
  pub same_id : f.id ≡ e.id
  pub same_task : f.task_name ≡ e.task_name
  pub same_key : f.idempotency_key ≡ e.idempotency_key
  pub same_run : f.pipeline_run_id ≡ e.pipeline_run_id
  pub same_node : f.node_key ≡ e.node_key

-- The index entry points at the execution that it was made for.
pub record IsIndexed (s : MemoryStore) (index : String) (id : Uuid) : Type 0 where
  pub item : Execution
  pub stored : lookup id s.executions ≡ some item
  pub index_of : index ≡ idempotency_index item.task_name item.idempotency_key
  pub keyed : item.idempotency_key ≢ ""

pub record IsNode (s : MemoryStore) (index : String) (id : Uuid) : Type 0 where
  pub item : Execution
  pub run : Uuid
  pub stored : lookup id s.executions ≡ some item
  pub member : item.pipeline_run_id ≡ some run
  pub index_of : index ≡ node_index s.env run item.node_key

pub record IsValid (s : MemoryStore) : Type 0 where
  pub faithful : IsFaithful s.env
  pub distinct : Distinct s.executions
  pub at_key : (id : Uuid) (e : Execution) → lookup id s.executions ≡ some e → e.id ≡ id
  pub consistent : (id : Uuid) (e : Execution) → lookup id s.executions ≡ some e → IsConsistent e
  pub minted : (id : Uuid) (e : Execution) → lookup id s.executions ≡ some e → Minted s id
  pub indexed :
      (index : String) (id : Uuid) → lookup index s.idempotent ≡ some id → IsIndexed s index id
  pub noded : (index : String) (id : Uuid) → lookup index s.nodes ≡ some id → IsNode s index id
