-- ===== src/World/Returns.antt =====
-- Total correctness of a call: no panic, no undefined behaviour, and a result that satisfies `P`.
use tendril.Mem.{Mem, Run, done, M, continue}

pub data Returns {A : Type 0} (P : A → Mem → Type 0) : Run A → Type 0 where
  returned : {a : A} {m : Mem} → P a m → Returns P (done a m)

module _ {A : Type 0} {P : A → Mem → Type 0} where
  pub then_do :
      {B : Type 0} {Q : B → Mem → Type 0} {r : Run A} {k : A → M B}
      → Returns P r
      → ((a : A) (m : Mem) → P a m → Returns Q (k a m))
      → Returns Q (continue r k)
  then_do (returned p) next = next _ _ p

  pub weaken :
      {Q : A → Mem → Type 0} {r : Run A}
      → Returns P r
      → ((a : A) (m : Mem) → P a m → Q a m)
      → Returns Q r
  weaken (returned p) f = returned (f _ _ p)
