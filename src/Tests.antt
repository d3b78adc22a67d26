-- ===== src/Tests.antt =====
-- Test data, and the theorems on it (child modules).
mod Codecs
mod Scale
mod Serving
mod Settings
mod Utests
mod Programs
mod Bindings
mod Relaying
mod Running
mod Racing
mod Streaming
mod Bridges
mod Stopping
mod Tables
mod Hubs
use irbridge.Base.{
  ℕ, zero, suc, ◌+◌, ◌<◌, ◌^◌, ◌≡◌, refl, Bool, true, false, List, [], ◌∷◌, Allocates, replicate,
  length-replicate, ltb, leb, ◌==◌, codes, arith,
}
use irbridge.Starfrit.Floats.{Float}

-- A block that holds something.
abbrev pub alloc : ℕ → List ℕ
alloc n = replicate n 7

pub alloc-fresh : Allocates alloc
alloc-fresh n = length-replicate n 7

-- Floats as the number of tenths above -1.
abbrev pub tenths_float : Float
tenths_float = record {
  F = ℕ;
  neg_one = 0;
  zero = 1;
  tenths = λ n. suc n;
  eq = λ x y. x == y;
  le = leb;
  lt = ltb;
  atof = λ s. 1;
  print = λ x. codes "60.0";
  eq-tenths = λ m n hm hn. ground arith;
  eq-neg_one = λ n h. ground arith;
  eq-zero = λ n h. ground arith;
  lt-zero = refl;
}
