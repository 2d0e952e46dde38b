-- ===== src/System/Progress.antt =====
-- internal/controller/conduit_controller.go: calls of `Reconcile` in the worlds that the cluster
-- reaches, with the webhook of internal/webhook/v1alpha/conduit_webhook.go.
use conduit_operator.Prelude.{ℕ, ◌≡◌, Option, some, inl, inr, Option-cases}
use conduit_operator.Prelude.Result.{ok}
use conduit_operator.Api.Types.{Conduit, NamespacedName}
use conduit_operator.Semver.{Release, IsDocumented}
use conduit_operator.Flags.Supported.{IsRange}
use conduit_operator.Strings.Prefix.{trim_prefix}
use conduit_operator.Controller.Cluster.{Cluster, Libraries}
use conduit_operator.Controller.Reconcile.{ConduitReconciler, reconcile}
use conduit_operator.Controller.Reconcile.Returns.{Returns, IsComplete, reconcile-Returns}
use conduit_operator.System.{Webhook, IsServer, Reach}
use conduit_operator.System.Specification.{IsChecked}
use conduit_operator.System.Invariant.{reached-IsChecked}

module _ (H : Webhook) (K : Cluster) (stored : K.World → Option Conduit)
    (server : IsServer H K stored) (L : Libraries) (release : L.semver.Version → Release)
    (d : IsDocumented L.semver release) (range : IsRange L.rules) (r : ConduitReconciler) where
  checked-IsComplete :
      (c : Conduit) (v : L.semver.Version)
      → IsChecked c.spec
      → L.semver.new_version (trim_prefix c.spec.version "v") ≡ ok v
      → IsComplete L.semver c
  checked-IsComplete c v checked parsed = elim (Option-cases c.spec.running) [
    | inl e ↦ absurd (checked.running e)
    | inr (b, e) ↦ record { running = b; runs = e; version = v; parsed = parsed }
  ]

  -- In every world that is reached from one without the resource, by creations and updates through
  -- the webhook, changes of the metadata, steps beside the resource and calls of Reconcile,
  -- between whose own writes others may write too, over a server that behaves as documented, a
  -- call of Reconcile returns without a panic, where the version of the resource, if it is there,
  -- is one that parses; the constraints mean what is documented, and the range over the rules has
  -- any order.
  pub reached-Returns :
      (w : K.World) (clock : ℕ → ℕ → ℕ) (req : NamespacedName)
      → Reach H K stored L r w
      → ((c : Conduit)
          → stored w ≡ some c
          → (v : L.semver.Version) × (L.semver.new_version (trim_prefix c.spec.version "v") ≡ ok v))
      → Returns (reconcile K L r clock req w)
  reached-Returns w clock req reached parses =
      reconcile-Returns K L release d range r clock req w (λ c read.
        let here = server.reads req w c read in
        let (v, parsed) = parses c here in
        checked-IsComplete c v (reached-IsChecked H K stored server L r w c reached here) parsed)
