-- ===== src/Telemetry/Expected.antt =====
-- What a collector is to be told of the spans, written out from the configuration that `init` of
-- src/lib.rs is given and from what the spans have stored.
use rolly.Base.{
  ℕ, ◌≡◌, refl, ap, ◌∙◌, Bool, true, false, none, List, [], ◌∷◌, ◌++◌, map, if◌then◌else◌,
}
use rolly.Base.Text.{codes}
use rolly.OtlpTrace.{KeyValue, string, SpanData, internal}
use rolly.OtlpTrace.Receiver.Requests.{ResourceSpans}
use rolly.OtlpTrace.Receiver.RoundTrip.{resource_spans}
use rolly.Layer.{string_attrs, new_layer, span_of}
use rolly.Telemetry.{TelemetryConfig}
use rolly.Telemetry.Init.{layer_config}
use rolly.Telemetry.Collected.{Closed}
use rolly.Telemetry.Rebuilt.{told, told_all}

text_attr : List ℕ × List ℕ → KeyValue
text_attr (k, v) = record { key = k; value = string v }

-- The three standard attributes, then the configured ones, in order.
expected_resource : TelemetryConfig → List KeyValue
unfolding text_attr
expected_resource config = map text_attr (
    (codes "service.name", config.service_name)
    ∷ ((codes "service.version", config.service_version)
        ∷ ((codes "deployment.environment", config.environment) ∷ config.resource_attributes)))

expected_span : Closed → SpanData
expected_span (fields, name, closed) = record {
  trace_id = fields.trace_id;
  span_id = fields.span_id;
  parent_span_id = fields.parent_span_id;
  name = name;
  kind = internal;
  start_time_unix_nano = fields.start_nanos;
  end_time_unix_nano = closed;
  attributes = fields.attrs;
  status = none;
}

expected_if :
    (sampled : Bool) (told expected : ResourceSpans) (all others : List ResourceSpans)
    → told ≡ expected
    → all ≡ others
    → (if sampled then told ∷ [] else []) ++ all ≡ (if sampled then expected ∷ others else others)
expected_if true told expected all others h k = ap (λ t. t ∷ all) h ∙ ap (λ ts. expected ∷ ts) k
expected_if false told expected all others h k = k

module _ (cargo_pkg_version : List ℕ) (config : TelemetryConfig) where
  expected : Closed → ResourceSpans
  expected c = record {
    resource = expected_resource config;
    scope_spans =
        record {
          scope_name = codes "pz-o11y";
          scope_version = cargo_pkg_version;
          spans = expected_span c ∷ [];
        }
        ∷ [];
  }

  -- The sampled spans, each with the resource and the scope, in the order of their closes.
  pub expected_all : List Closed → List ResourceSpans
  unfolding expected expected_resource expected_span text_attr
  expected_all [] = []
  expected_all ((fields, name, closed) ∷ cs) =
      if fields.sampled then expected (fields, name, closed) ∷ expected_all cs else expected_all cs

  string_attrs-map : (more : List (List ℕ × List ℕ)) → string_attrs more ≡ map text_attr more
  unfolding string_attrs text_attr
  string_attrs-map [] = refl
  string_attrs-map ((k, v) ∷ more) =
      ap (λ kvs. record { key = k; value = string v } ∷ kvs) (string_attrs-map more)

  told-expected :
      (c : Closed) → told (new_layer cargo_pkg_version (layer_config config)) c ≡ expected c
  unfolding new_layer expected expected_resource expected_span text_attr span_of
  told-expected (fields, name, closed) =
      ap
        (λ more.
          resource_spans
            (record { key = codes "service.name"; value = string config.service_name }
              ∷ (record { key = codes "service.version"; value = string config.service_version }
                  ∷ (record {
                    key = codes "deployment.environment";
                    value = string config.environment;
                  }
                      ∷ more)))
            (codes "pz-o11y") cargo_pkg_version (expected_span (fields, name, closed) ∷ []))
        (string_attrs-map config.resource_attributes)

  pub told_all-expected :
      (cs : List Closed)
      → told_all (new_layer cargo_pkg_version (layer_config config)) cs ≡ expected_all cs
  unfolding expected_all
  told_all-expected [] = refl
  told_all-expected ((fields, name, closed) ∷ cs) =
      expected_if fields.sampled _ _ _ _ (told-expected (fields, name, closed))
        (told_all-expected cs)
