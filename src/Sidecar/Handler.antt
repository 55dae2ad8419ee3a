-- ===== src/Sidecar/Handler.antt =====
-- handler of pkg/sidecar/sidecar_handler.go: the network of an instance is set up, all sidecars wait for
-- each other, and then the changes that the test case sends are applied one after the other. What the
-- sync service answers is a parameter. Closing the instance is left out.
use canary_testing.Prelude.{String, Bool, true, false, List, [], ◌∷◌, none, if◌then◌else◌}
use canary_testing.Prelude.Text.{is_empty}
use canary_testing.Prelude.Run.{Run, Res, ok, err, done, ◌>>=◌}
use canary_testing.Prelude.Int.{pos}
use canary_testing.Sidecar.{Config, Machine, Network, Error, other_policy, configure_network}

-- What the loop receives: the end of the context, the end of the channel, or a change with its callback
-- state.
pub data Change : Type 0 where
  context_done channel_closed : Change
  change : Config → String → Change

pub data Failure : Type 0 where
  not_configured : Error → Failure
  not_signaled : String → Failure

-- The sync service: whether SignalAndWait, Subscribe and SignalEntry succeed.
pub record Service : Type 0 where
  pub all_ready : Bool
  pub subscribes : Bool
  pub signals : String → Bool

-- The first configuration: the default network is enabled, with the zero values elsewhere.
abbrev pub first_config : Config
first_config = record {
  network = "default";
  enable = true;
  ipv4 = none;
  ipv6 = none;
  default = record { bandwidth = 0; latency = pos 0; jitter = pos 0; others = [] };
  rules = [];
  routing_policy = other_policy "";
}

-- The loop ended, waits for a change, or failed.
pub data Status : Type 0 where
  stopped waiting : Status
  failed : Failure → Status

module _ (k : Machine) (srv : Service) where
  -- Besides, the callbacks that were signaled, and the network.
  pub record Handled : Type 0 where
    pub status : Status
    pub signaled : List String
    pub network : Network k

  abbrev pub with_signal : String → Handled → Handled
  with_signal s h = record h { signaled = s ∷ h.signaled }

  unfoldable pub signaled_then : Bool → String → Network k → Run Handled → Run Handled
  signaled_then true s n rest = rest >>= λ h. done (with_signal s h)
  signaled_then false s n rest =
      done (record { status = failed (not_signaled s); signaled = []; network = n })

  unfoldable pub called_back : String → Network k → Run Handled → Run Handled
  called_back s n rest = if is_empty s then rest else signaled_then (srv.signals s) s n rest

  -- The loop over the changes.
  unfoldable pub apply_changes : List Change → Network k → Run Handled
  apply_changes [] n = done (record { status = waiting; signaled = []; network = n })
  apply_changes (context_done ∷ cs) n =
      done (record { status = stopped; signaled = []; network = n })
  apply_changes (channel_closed ∷ cs) n =
      done (record { status = stopped; signaled = []; network = n })
  apply_changes (change cfg s ∷ cs) n = configure_network k cfg n >>= λ r. elim r.0 [
    | ok x ↦ called_back s r.1 (apply_changes cs r.1)
    | err e ↦ done (record { status = failed (not_configured e); signaled = []; network = r.1 })
  ]

  unfoldable pub after_setup : List Change → Res Error (Unit {0}) × Network k → Run Handled
  after_setup cs (err e, n) =
      done (record { status = failed (not_configured e); signaled = []; network = n })
  after_setup cs (ok x, n) =
      if srv.all_ready
      then (if srv.subscribes
          then apply_changes cs n
          else done
              (record { status = failed (not_signaled "subscribe"); signaled = []; network = n }))
      else done (record {
        status = failed (not_signaled "network-initialized");
        signaled = [];
        network = n;
      })

  -- handler
  unfoldable pub handler : List Change → Network k → Run Handled
  handler cs n = configure_network k first_config n >>= λ r. after_setup cs r
