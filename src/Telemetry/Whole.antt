-- ===== src/Telemetry/Whole.antt =====
-- The parts that `init` of src/lib.rs starts, working together from the first span to the guard's
-- drop.
use rolly.Base.{ℕ, List}
use rolly.Layer.{OtlpLayer, new_layer}
use rolly.Exporter.{Exporter}
use rolly.Telemetry.{TelemetryConfig}
use rolly.Telemetry.Init.{layer_config}

-- The layer that `init` installs if there is an endpoint for traces.
abbrev pub layer_of : List ℕ → TelemetryConfig → OtlpLayer
layer_of cargo_pkg_version config = new_layer cargo_pkg_version (layer_config config)
