-- ===== src/Tests/Programs.antt =====
-- A program, some threads and comparisons, and the theorems on them.
use tendril.Common.{
  ℕ, sub64, ◌+◌, ◌≡◌, ◌↔◌, refl, Bool, true, not, Ordering, some, List, [], ◌∷◌, arith, length,
}
use tendril.Mem.{done, ◌>>=◌}
use tendril.Fmt.{all_ascii, ascii}
use tendril.Fmt.Sound.{ascii-IsSound}
use tendril.Refcount.{atomic_new_count, atomic_increment, atomic_decrement}
use tendril.Tendril.Compare.{eq, ne, cmp, partial_cmp, hash}
use tendril.World.{World}
use tendril.World.Compare.{IsBefore, swapped, eq-hash, cmp_lem}
use tendril.World.Returns.{Returns}
use tendril.World.Extend.{IsPlain}
use tendril.Client.{
  Call, create, focus, copy, cut, push, push_second, shorten_front, empty, write, move_away,
  release, run, effects, AreAllowed,
}
use tendril.Client.Refine.{run_lem}
use tendril.Client.Leaks.{drop_all, IsBlank, drop_all-run}
use tendril.Client.Valid.{AreValid, run-AreValid}
use tendril.Threads.{dropped, State, initial, shares, clones, decrements, Steps, stop, then_step}
use tendril.Threads.Safe.{IsSafe, Steps-IsSafe}
use tendril.Threads.Drained.{Ends, Steps-Ends}
use tendril.Tests.Memory
use tendril.Tests.Memory.{mem, blank, front_bytes, back_bytes, mem-World, blank-World}

plain : IsPlain ascii
unfolding ascii
plain old buf = refl

-- Copies, slices and pushes of the two tendrils that share a buffer, and a store to the result.
abbrev program : List Call
program =
    copy
    ∷ cut 2 9
    ∷ focus 2
    ∷ push_second
    ∷ push (33 ∷ [])
    ∷ write 0 (65 ∷ [])
    ∷ shorten_front 3
    ∷ release
    ∷ []

program-AreAllowed : AreAllowed ascii program (front_bytes ∷ back_bytes ∷ [])
unfolding ascii all_ascii
program-AreAllowed = (
  omega arith,
  (omega arith, (tt, (omega arith, (omega arith, ((omega arith, refl), (tt, (tt, tt))))))),
)

run_example :
    Returns
      (λ ts' m'. World m' ts' (effects ascii program (front_bytes ∷ back_bytes ∷ [])))
      (run ascii program (Memory.front ∷ Memory.back ∷ []) mem)
run_example =
    run_lem ascii program (Memory.front ∷ Memory.back ∷ []) (front_bytes ∷ back_bytes ∷ []) plain
      program-AreAllowed mem-World

ascii_bytes : AreValid ascii (front_bytes ∷ back_bytes ∷ [])
unfolding ascii all_ascii
ascii_bytes = (refl, (refl, tt))

run-AreValid_example :
    Returns
      (λ ts' m'. (xss' : List (List ℕ)) × World m' ts' xss' × AreValid ascii xss')
      (run ascii program (Memory.front ∷ Memory.back ∷ []) mem)
run-AreValid_example =
    run-AreValid ascii ascii-IsSound program (Memory.front ∷ Memory.back ∷ [])
      (front_bytes ∷ back_bytes ∷ []) program-AreAllowed ascii_bytes mem-World

abbrev from_nothing : List Call
from_nothing = create front_bytes ∷ cut 1 10 ∷ copy ∷ push_second ∷ move_away ∷ empty ∷ []

from_nothing-AreAllowed : AreAllowed ascii from_nothing []
unfolding ascii all_ascii
from_nothing-AreAllowed = (omega arith, (omega arith, (omega arith, (omega arith, (tt, (tt, tt))))))

drop_all-run_example :
    Returns (λ _ m'. IsBlank m') ((do ts ← run ascii from_nothing []; drop_all ts) blank)
drop_all-run_example = drop_all-run ascii from_nothing plain from_nothing-AreAllowed blank-World

-- One clone; both owners decrement before the last one destroys the buffer.
abbrev racing : State
racing = record { refcount = 0; destroyed = 0; owners = dropped 1 ∷ dropped 2 ∷ [] }

racing-Steps : Steps initial racing
unfolding initial atomic_new_count atomic_increment atomic_decrement sub64
racing-Steps =
    then_step
      (then_step (then_step (then_step stop (shares 0 refl)) (clones 0 refl)) (decrements 1 refl))
      (decrements 0 refl)

Steps-IsSafe_example : IsSafe racing
Steps-IsSafe_example = Steps-IsSafe racing-Steps (omega arith)

Steps-Ends_example : Ends racing
Steps-Ends_example = Steps-Ends racing-Steps (omega arith)

eq-hash_example :
    (answer : Bool) × (eq Memory.front Memory.back mem ≡ done answer mem)
    × (ne Memory.front Memory.back mem ≡ done (not answer) mem)
    × (answer ≡ true ↔ front_bytes ≡ back_bytes)
    × (answer ≡ true
        → hash (λ xs h. length xs + h) Memory.front 7 mem
          ≡ hash (λ xs h. length xs + h) Memory.back 7 mem)
eq-hash_example = eq-hash (λ xs h. length xs + h) 7 mem-World.reps.0 mem-World.reps.1.0

cmp_example :
    (o : Ordering) × (cmp Memory.front Memory.back mem ≡ done o mem)
    × (partial_cmp Memory.front Memory.back mem ≡ done (some o) mem)
    × (cmp Memory.back Memory.front mem ≡ done (swapped o) mem)
    × (o ≡ Ordering.eq ↔ front_bytes ≡ back_bytes)
    × (o ≡ Ordering.lt ↔ IsBefore front_bytes back_bytes)
    × (o ≡ Ordering.gt ↔ IsBefore back_bytes front_bytes)
    × (o ≡ Ordering.lt
        → cmp Memory.back Memory.front mem ≡ done Ordering.lt mem
        → cmp Memory.front Memory.front mem ≡ done Ordering.lt mem)
cmp_example = cmp_lem mem-World.reps.0 mem-World.reps.1.0 mem-World.reps.0
