-- ===== src/Vad/Floats.antt =====
-- What src/audio/vad.c uses of floating point arithmetic.
use vibevoice_c.Common.{ℕ, Bool}

pub record Floats : Type 1 where
  pub Float : Type 0
  pub Double : Type 0
  -- `0.0`, and `s + (double)x * x`.
  pub nothing : Double
  pub add_square : Double → Float → Double
  -- `20.0f * log10f((float)sqrt(s / (double)n) + 1e-9f)`
  pub decibels : Double → ℕ → Float
  pub less : Float → Float → Bool
  pub plus : Float → Float → Float
  pub minus : Float → Float → Float
  pub times : Float → Float → Float
  -- `0.0f`, `0.5f`, `0.05f`, `-90.0f` and `-120.0f`.
  pub zero_db : Float
  pub fast : Float
  pub slow : Float
  pub quietest : Float
  pub unheard : Float
  -- `(int)(ms * 0.001f * (float)rate)` and `(int)(s * (float)rate)`.
  pub samples_of_ms : Float → ℕ → ℕ
  pub samples_of_s : Float → ℕ → ℕ
