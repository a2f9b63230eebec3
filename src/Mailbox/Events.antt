-- ===== src/Mailbox/Events.antt =====
-- Draining the mailbox, against a service that handles each event at once.
use Prim.Native.String.{String}
use yzboard_node.Prelude.{
  ◌≡◌, refl, ◌⊎◌, true, false, Option, none, List, [], ◌∷◌, arith, string_Eq, inl,
}
use yzboard_node.Users.{UserSpec, Slice}
use yzboard_node.Mailbox.{Event, NodeMailbox, on_delta, apply, drain_if_ready}
use yzboard_node.Mailbox.View.{View, follow, IsTracked}

module _ {Config : Type 0} where
  -- If a ready mailbox tracks what the service holds, it does so after a drain, of what the service then
  -- holds, with no loss left to report.
  pub drain-IsTracked :
      (held : View Config) (m : NodeMailbox Config)
      → IsTracked held m
      → m.ready ≡ true
      → IsTracked (follow held (drain_if_ready m).1) (drain_if_ready m).0
        × ((drain_if_ready m).0.needs_reconcile ≡ false)
  unfolding drain_if_ready
  drain-IsTracked held m t r = ground arith

  -- A service that is not ready gets nothing, and the mailbox keeps everything.
  pub drain_unready :
      (held : View Config) (m : NodeMailbox Config)
      → m.ready ≡ false
      → ((drain_if_ready m).0 ≡ m)
        × (follow held (drain_if_ready m).1 ≡ record held { lost = false })
  unfolding drain_if_ready
  drain_unready held m r = ground arith

  on_delta-notified :
      (m : NodeMailbox Config) (action : String) (ds : List UserSpec)
      → (on_delta action ds m ≡ m) ⊎ ((on_delta action ds m).notified ≡ true)
  unfolding on_delta
  on_delta-notified m action [] = inl refl
  on_delta-notified m action (d ∷ ds) = ground arith

  -- Every event leaves the mailbox as it was, or a token waits for the service afterwards.
  pub apply-notified :
      (m : NodeMailbox Config) (e : Event Config) → (apply m e ≡ m) ⊎ ((apply m e).notified ≡ true)
  unfolding apply
  apply-notified m e = ground (arith, on_delta-notified m e.delta_action e.delta_users)

  -- What a service holds before it knows anything.
  abbrev pub nothing : View Config
  nothing = record { config = none; users = none; device_users = none; lost = false }

  -- What the service holds at its start: its bootstrap, of which the mailbox is told.
  abbrev pub bootstrap : Slice UserSpec → Option Config → View Config
  bootstrap users config = record {
    config = config;
    users = users;
    device_users = none;
    lost = false;
  }
