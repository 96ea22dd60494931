-- ===== src/Worker/Defaults.antt =====
-- The options that New (worker/worker.go) accepts.
use ody.Base.{◌≢◌, String, is_nonpos, ◌≡◌, false, arith, int_ltb, eq_iff, true, ◌⊎◌, pos}
use ody.Worker.{Options, new_options}
use ody.Execution.{ok}

-- Options under which a worker can run: it has a name, at least one loop, intervals that are
-- positive, and it renews a lease before the lease runs out.
pub record IsUsable (options : Options) : Type 0 where
  pub named : options.id ≢ ""
  pub concurrent : is_nonpos options.concurrency ≡ false
  pub polls : is_nonpos options.poll_interval ≡ false
  pub leases : is_nonpos options.lease_duration ≡ false
  pub waits : is_nonpos options.shutdown_grace_period ≡ false
  pub renews : int_ltb options.heartbeat_interval options.lease_duration ≡ true
  pub beats :
      (is_nonpos options.heartbeat_interval ≡ false)
      ⊎ (int_ltb options.lease_duration (pos 3) ≡ true)

-- New fills in the options that are not positive, so that a worker can run under what it accepts,
-- but for a lease of one or two nanoseconds, whose default heartbeat interval is zero.
pub new_options-IsUsable :
    (fresh : String) (options accepted : Options)
    → fresh ≢ ""
    → new_options fresh options ≡ ok accepted
    → IsUsable accepted
unfolding new_options
new_options-IsUsable fresh options accepted named h =
    ground (arith, eq_iff options.id "", eq_iff fresh "")
