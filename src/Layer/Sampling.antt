-- ===== src/Layer/Sampling.antt =====
-- The sampling of src/otlp_layer.rs, `should_sample`.
use rolly.Base.{arith, ap, ℕ, ◌≡◌, true, List, take}
use rolly.Base.Bytes.{from_le_bytes}
use rolly.Base.F64.{
  le_f64-not-lt_f64, zero-lt-one, le_f64_trans, lt_f64-le_f64_trans, lt_f64, le_f64, one_f64,
  zero_f64,
}
use rolly.Layer.{should_sample, zero_trace_id}

-- A trace sampled at one rate is sampled at every rate that is at least as high.
should_sample_mono :
    (normalized : ℕ → ℕ) (t : List ℕ) (low high : ℕ)
    → le_f64 low high ≡ true
    → should_sample normalized t low ≡ true
    → should_sample normalized t high ≡ true
unfolding should_sample
should_sample_mono normalized t low high h k = ground (
  arith,
  le_f64_trans one_f64 low high,
  le_f64_trans low high zero_f64,
  lt_f64-le_f64_trans (normalized (from_le_bytes (take 8 t))) low high,
)

-- If the hash 0 is rounded to 0, the trace ID of zeros is sampled at exactly the rates above 0.
pub should_sample-zero_trace_id :
    (normalized : ℕ → ℕ) (rate : ℕ)
    → normalized 0 ≡ zero_f64
    → should_sample normalized zero_trace_id rate ≡ lt_f64 zero_f64 rate
unfolding should_sample zero_trace_id from_le_bytes
should_sample-zero_trace_id normalized rate h = ground (
  arith,
  h,
  ap (λ (b : ℕ). lt_f64 b rate) h,
  zero-lt-one,
  lt_f64-le_f64_trans zero_f64 one_f64 rate,
  le_f64-not-lt_f64 rate zero_f64,
)
