-- ===== src/Worker/Local.antt =====
-- `MemoryStore` (execution/memory.go) as the store of a worker, and the engine over it
-- (pipeline/engine.go) as its advancer.
use ody.Base.{String, some}
use ody.Worker.{Queue, Advancer}
use ody.Memory.{MemoryStore}
use ody.Memory.Create.{get_execution}
use ody.Memory.Claim
use ody.Memory.Lease
use ody.Engine.Local.{memory_persistence}
use ody.Engine.Advance.{advance, reconcile}
use ody.Pipeline.{Registry}
use ody.Execution.{Uuid, ok}

abbrev pub memory_queue : Queue MemoryStore
memory_queue = record {
  claim = λ owner keys limit lease s.
      (ok (Claim.claim owner keys limit lease s).0, (Claim.claim owner keys limit lease s).1);
  reap_expired = λ s. (ok (Lease.reap_expired s).0, (Lease.reap_expired s).1);
  heartbeat = Lease.heartbeat;
  succeed = Lease.succeed;
  retry = Lease.retry_execution;
  fail = Lease.fail;
  get_execution = get_execution;
}

abbrev pub memory_advancer : (Uuid → String) → Registry → Advancer MemoryStore
memory_advancer uuid_text registry = record {
  advance = λ run. advance memory_persistence uuid_text run registry;
  reconcile = some (reconcile memory_persistence uuid_text registry);
}
