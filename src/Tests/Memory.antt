-- ===== src/Tests/Memory.antt =====
-- A memory with one buffer of 20 bytes, and two tendrils that share it.
use tendril.Common.{ℕ, refl, none, some, List, [], ◌∷◌, arith}
use tendril.Mem.{Block, Mem, update}
use tendril.Tendril.{Tendril}
use tendril.World.{is_shared, World, IsSized}
use tendril.World.Change.{heap_at}

abbrev pub digits : List ℕ
digits =
    48 ∷ 49 ∷ 50 ∷ 51 ∷ 52 ∷ 53 ∷ 54 ∷ 55 ∷ 56 ∷ 57 ∷ 97 ∷ 98 ∷ 99 ∷ 100 ∷ 101 ∷ 102 ∷ 103 ∷ 104
    ∷ 105 ∷ 106 ∷ 107 ∷ 108 ∷ 109 ∷ 110 ∷ []

abbrev pub block : Block
block = record { refcount = 2; cap = 20; units = 3; bytes = digits }

abbrev pub blank : Mem
blank = record { cell = λ _. none; next = 16; garbage = 170 }

abbrev pub mem : Mem
mem = record { cell = update (λ _. none) 16 (some block); next = 32; garbage = 170 }

-- The first 12 bytes, and the 5 that follow them.
abbrev pub front : Tendril
front = heap_at 17 12 0

abbrev pub back : Tendril
back = heap_at 17 5 12

abbrev pub front_bytes : List ℕ
front_bytes = 48 ∷ 49 ∷ 50 ∷ 51 ∷ 52 ∷ 53 ∷ 54 ∷ 55 ∷ 56 ∷ 57 ∷ 97 ∷ 98 ∷ []

abbrev pub back_bytes : List ℕ
back_bytes = 99 ∷ 100 ∷ 101 ∷ 102 ∷ 103 ∷ []

pub blank-World : World blank [] []
blank-World = record {
  fresh = record { address = omega arith; beyond = λ a h. refl };
  reps = tt;
  counts = λ a. refl;
  live = λ a. omega arith;
}

sized : IsSized block 20
sized = record { units = refl; room = refl; min = omega arith; max = omega arith }

pub mem-World : World mem (front ∷ back ∷ []) (front_bytes ∷ back_bytes ∷ [])
unfolding update
mem-World = record {
  fresh = record { address = omega arith; beyond = λ a h. ground arith };
  reps = (
    is_shared {a = 16} block (omega arith) refl refl sized (omega arith) refl,
    (is_shared {a = 16} block (omega arith) refl refl sized (omega arith) refl, tt),
  );
  counts = λ a. ground arith;
  live = λ a. ground arith;
}
