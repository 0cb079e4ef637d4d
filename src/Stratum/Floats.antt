-- ===== src/Stratum/Floats.antt =====
-- What the client uses of the C library's doubles: `strtod`, comparison and the conversions. They
-- are an argument of the handlers.
use osprey_blake2b.Base.{ℕ, Bool, List}

pub record Floats : Type 1 where
  pub Double : Type 0
  pub strtod : List ℕ → Double
  -- A C integer constant as a double.
  pub constant : ℕ → Double
  -- `a < b` and `a == b`; false when one of them is a NaN.
  pub less : Double → Double → Bool
  pub equal : Double → Double → Bool
  -- `(uint64_t)d` and `(int)d`.
  pub to_u64 : Double → ℕ
  pub to_int : Double → ℕ
  -- The difficulty times 2 ^ 32, rounded, with 1 in place of a difficulty that is too small.
  pub scaled : Double → ℕ
