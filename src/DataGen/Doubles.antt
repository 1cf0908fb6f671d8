-- ===== src/DataGen/Doubles.antt =====
-- What data_gen uses of C's double, of printf and sscanf, and of ReferenceHaversine (Molly Rocket's
-- listing in data_gen/haversine.c). Each is a parameter.
use computer_enhance.Shared.{ℕ, Bool, List, Option}

pub record Doubles : Type 1 where
  pub Double : Type 0
  pub zero_value : Double
  -- a < b, a == b, a + b, a / b with an integer b, and (a - b) != 0
  pub less : Double → Double → Bool
  pub equal : Double → Double → Bool
  pub plus : Double → Double → Double
  pub over : Double → ℕ → Double
  pub differs : Double → Double → Bool
  -- (double)(a - b) of two ints, a * b with an int b, and RAND_MAX
  pub difference : ℕ → ℕ → Double
  pub times : Double → ℕ → Double
  pub rand_max : ℕ
  -- ReferenceHaversine(x0, y0, x1, y1, APPROX_EARTH_RADIUS)
  pub reference_haversine : Double → Double → Double → Double → Double
  -- sscanf(text, "%lf", &value), `none` when it does not return 1, and the text of printf("%3.16f")
  pub scan : List ℕ → Option Double
  pub print : Double → List ℕ
