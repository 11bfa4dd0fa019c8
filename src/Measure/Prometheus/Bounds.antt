-- ===== src/Measure/Prometheus/Bounds.antt =====
-- The least and the greatest of the samples, where no sample is NaN.
use s3proxy4gcs.Base.{◌≡◌, false, List, All}
use s3proxy4gcs.Measure.Number.{Float, le, IsOrdered}
use s3proxy4gcs.Measure.Prometheus.Samples.{Stats, round4}

module _ (fl : Float) (law : IsOrdered fl) where
  abbrev IsNumber : fl.F → Type 0
  IsNumber v = fl.is_nan v ≡ false

  -- A lower and an upper bound of a number and of a list.
  abbrev Below : fl.F → List fl.F → fl.F → Type 0
  Below m vs l = le fl l m × All (λ v. le fl l v) vs

  abbrev Above : fl.F → List fl.F → fl.F → Type 0
  Above m vs g = le fl m g × All (λ v. le fl v g) vs

  abbrev Bounds : Stats fl.F → fl.F → Type 0
  Bounds st v = le fl st.min (round4 fl v) × le fl (round4 fl v) st.max
