-- ===== src/Layer/Resource.antt =====
-- The resource of src/otlp_layer.rs.
use rolly.Base.{ℕ, ◌≢◌, List, [], ◌∷◌, All}
use rolly.OtlpTrace.Receiver.Values.{IsValue}
use rolly.Layer.{OtlpLayerConfig, string_attrs, new_layer}

-- No text that describes the service is empty.
pub record IsDescribed (config : OtlpLayerConfig) : Type 0 where
  pub service_name : config.service_name ≢ []
  pub service_version : config.service_version ≢ []
  pub environment : config.environment ≢ []
  pub resource_attributes : All (λ p. p.1 ≢ []) config.resource_attributes

string_attrs-All :
    (more : List (List ℕ × List ℕ))
    → All (λ p. p.1 ≢ []) more
    → All (λ kv. IsValue kv.value) (string_attrs more)
unfolding string_attrs
string_attrs-All [] h = tt
string_attrs-All ((k, v) ∷ rest) (h, hs) = (h, string_attrs-All rest hs)

-- OTLP can carry every attribute of the resource then.
pub resource-All :
    (cargo_pkg_version : List ℕ) (config : OtlpLayerConfig)
    → IsDescribed config
    → All (λ kv. IsValue kv.value) (new_layer cargo_pkg_version config).resource_attrs
unfolding new_layer
resource-All cargo_pkg_version config d = (
  d.service_name,
  (
    d.service_version,
    (d.environment, string_attrs-All config.resource_attributes d.resource_attributes),
  ),
)
