-- ===== src/Driver/Sample/Places.antt =====
-- Documents of the driver's sample evidence, and the texts that they share.
use kurrent.Base.{Map, String, [], list_eq, nat_eq, ℕ, ◌<>◌, ◌∷◌}
use kurrent.Fixtures.{digest_text}

-- A document and a place in it.
pub record Cursor : Type 0 where
  pub texts : Map String String
  pub numbers : Map String ℕ
  pub place : String

abbrev pub digest_a : String
digest_a = "aaaaaaaaaaaaaaaaaaaaaaaaaaaaaaaaaaaaaaaaaaaaaaaaaaaaaaaaaaaaaaaa"

abbrev pub digest_b : String
digest_b = "bbbbbbbbbbbbbbbbbbbbbbbbbbbbbbbbbbbbbbbbbbbbbbbbbbbbbbbbbbbbbbbb"

-- Twenty zeros, and a one before nineteen zeros.
abbrev pub lane : String
lane = ",,,,,,,,,,,,,,,,,,,,"

abbrev pub other_lane : String
other_lane = "a,,,,,,,,,,,,,,,,,,,,"

-- The records of a transaction or a file at a pointer.
abbrev pub filed : String → String → Map String String
filed pointer path = (pointer <> "/path", path) ∷ (pointer <> "/sha256", digest_text) ∷ []
