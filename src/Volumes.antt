-- ===== src/Volumes.antt =====
-- internal/controller/conduit_volumes.go: the claim of the pod's storage and its two volumes.
use conduit_operator.Prelude.{String, [], ◌∷◌}
use conduit_operator.Api.Types.{
  NamespacedName, conduit_storage_volume_mount, conduit_pipeline_volume_mount,
}
use conduit_operator.Kube.{PersistentVolumeClaim, Volume, persistent_volume_claim, config_map}

-- `must_parse` is `resource.MustParse`; a quantity is kept as a text.
unfoldable pub conduit_volume_claim :
    (must_parse : String → String) → NamespacedName → String → PersistentVolumeClaim
conduit_volume_claim must_parse nn size = record {
  name = nn.name;
  namespace = nn.namespace;
  access_modes = "ReadWriteOnce" ∷ [];
  storage = must_parse size;
  phase = "";
}

abbrev pub conduit_volume : String → Volume
conduit_volume claim_name = record {
  name = conduit_storage_volume_mount;
  source = persistent_volume_claim claim_name;
}

-- The mode 0o440.
abbrev pub conduit_pipeline_vol : String → Volume
conduit_pipeline_vol ref_name = record {
  name = conduit_pipeline_volume_mount;
  source = config_map ref_name 288;
}
