-- ===== src/System/Specification.antt =====
-- internal/webhook/v1alpha/conduit_webhook.go: the specifications that come through the webhook.
use conduit_operator.Prelude.{ℕ, ◌≡◌, ◌≢◌, sym, subst, ◌⊎◌, inl, inr, none}
use conduit_operator.Prelude.Lists.{All}
use conduit_operator.Api.Types.{Conduit, ConduitSpec}
use conduit_operator.Validator.Processor.{Store}
use conduit_operator.Webhook.Defaulter.{default_conduit}
use conduit_operator.Webhook.Defaulter.Complete.{
  ReadyConnector, ReadyProcessor, default-IsDefaulted,
}
use conduit_operator.Webhook.Object.{conduit}
use conduit_operator.Webhook.Validator.{admitted, validate_create, validate_update}
use conduit_operator.Webhook.Validator.Admitted.{IsSupported, HasPlugin, admitted-IsSupported}
use conduit_operator.System.{Webhook, service, Created, Updated}

-- What the controller may rely on: the defaults, supported connectors, and processors with a plugin.
pub record IsChecked (spec : ConduitSpec) : Type 0 where
  pub running : spec.running ≢ none
  pub image : spec.image ≢ ""
  pub version : spec.version ≢ ""
  pub ready : All ReadyConnector spec.connectors × All ReadyProcessor spec.processors
  pub supported :
      All (λ c. IsSupported c × All HasPlugin c.processors) spec.connectors
      × All HasPlugin spec.processors

module _ (H : Webhook) where
  admitted-IsChecked :
      (asked : Conduit) (now : ℕ → ℕ) (seen : Store H.plugins.Registry) (spec : ConduitSpec)
      → ((validate_create
            (service H)
            H.semver
            H.constraint
            H.parse_error
            (conduit (default_conduit now asked))
            seen).1
          ≡ admitted)
        ⊎ ((validate_update (service H) H.show (conduit (default_conduit now asked)) seen).1
            ≡ admitted)
      → spec ≡ (default_conduit now asked).spec
      → IsChecked spec
  admitted-IsChecked asked now seen spec h same =
      let made = default_conduit now asked in
      let d = default-IsDefaulted now asked in
      subst IsChecked (sym same) (record {
        running = d.running;
        image = d.image;
        version = d.version;
        ready = (d.connectors, d.processors);
        supported =
            admitted-IsSupported H.specs H.plugins H.http H.reader H.list H.temp_dir H.clients
              H.nil_registry H.semver H.constraint H.parse_error H.show made seen h;
      })

  pub Created-IsChecked : (new : Conduit) → Created H new → IsChecked new.spec
  Created-IsChecked new w = admitted-IsChecked w.asked w.now w.seen new.spec (inl w.admits) w.spec

  pub Updated-IsChecked : (old new : Conduit) → Updated H old new → IsChecked new.spec
  Updated-IsChecked old new w =
      admitted-IsChecked w.asked w.now w.seen new.spec (inr w.admits) w.spec
