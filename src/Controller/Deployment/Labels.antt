-- ===== src/Controller/Deployment/Labels.antt =====
-- internal/controller/conduit_controller.go: the labels and the annotations of the deployment.
use conduit_operator.Prelude.{
  String, ◌≡◌, refl, ap, ◌∙◌, Option, none, some, [], ◌∷◌, ◌==◌, arith, eq_iff, if◌then◌else◌,
}
use conduit_operator.Prelude.Dict.{Dict, insert, lookup, copy, lookup-insert}
use conduit_operator.Api.Types.{Conduit, ConduitInstanceMetadata, namespaced_name}
use conduit_operator.Kube.{ConfigMap}
use conduit_operator.Controller.Deployment.{
  name_label, config_map_version, deployment_labels, deployment_annotations,
}

-- A map of Go has each key once.
abbrev pub IsMap : Dict String → Type 0
IsMap [] = Unit
IsMap ((k, v) ∷ m) = (lookup k m ≡ none) × IsMap m

-- The value of the first map, or else of the second.
abbrev pub or_else : Option String → Option String → Option String
or_else none other = other
or_else (some v) other = some v

lookup-copy :
    (dst src : Dict String) (key : String)
    → IsMap src
    → lookup key (copy dst src) ≡ or_else (lookup key src) (lookup key dst)
unfolding copy lookup
lookup-copy dst [] key h = refl
lookup-copy dst ((k, v) ∷ src) key h =
    lookup-copy (insert k v dst) src key h.1
    ∙ ground (arith, lookup-insert k key v dst, eq_iff k key)

or_else-none : (v : Option String) → or_else v none ≡ v
or_else-none none = refl
or_else-none (some v) = refl

-- Two maps copied one over the other, and a last entry.
lookup-layers :
    (low high : Dict String) (k v key : String)
    → IsMap low
    → IsMap high
    → lookup key (insert k v (copy (copy [] low) high))
      ≡ (if k == key then some v else or_else (lookup key high) (lookup key low))
unfolding lookup
lookup-layers low high k v key h h' =
    lookup-insert k key v (copy (copy [] low) high)
    ∙ ap (λ x. if k == key then some v else x)
        (lookup-copy (copy [] low) high key h'
          ∙ ap (or_else (lookup key high))
              (lookup-copy [] low key h ∙ or_else-none (lookup key low)))

-- For maps with each key once, a label of the pods is the name of the server under the name's key,
-- and else the resource's value where it has one or the operator's; an annotation likewise, with
-- the version of the config map as the last entry. The comment in the code gives the three the
-- reverse precedence.
pub lookup-deployment_labels :
    (meta : ConduitInstanceMetadata) (c : Conduit) (cm : ConfigMap) (key : String)
    → IsMap meta.labels
    → IsMap c.meta.labels
    → IsMap meta.pod_annotations
    → IsMap c.meta.annotations
    → (lookup key (deployment_labels meta c) ≡ (
        if name_label == key
        then some (namespaced_name c).name
        else or_else (lookup key c.meta.labels) (lookup key meta.labels)))
      × (lookup key (deployment_annotations meta c cm) ≡ (
          if config_map_version == key
          then some cm.resource_version
          else or_else (lookup key c.meta.annotations) (lookup key meta.pod_annotations)))
unfolding deployment_labels deployment_annotations
lookup-deployment_labels meta c cm key h h' a a' = (
  lookup-layers meta.labels c.meta.labels name_label (namespaced_name c).name key h h',
  lookup-layers meta.pod_annotations c.meta.annotations config_map_version cm.resource_version key a
      a',
)
