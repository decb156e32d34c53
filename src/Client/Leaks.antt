-- ===== src/Client/Leaks.antt =====
-- A program that drops what it holds gives all buffers back.
use tendril.Common.{ℕ, ◌≤◌, ◌≡◌, refl, none, some, Option, List, [], ◌∷◌, arith}
use tendril.Mem.{Block, Mem, M, pure, ◌>>=◌, ◌>>◌}
use tendril.Tendril.{Tendril, drop_tendril}
use tendril.World.{World, count_of, blocks}
use tendril.Fmt.{Format}
use tendril.World.Extend.{IsPlain}
use tendril.World.Drop.{drop_tendril_lem}
use tendril.World.Returns
use tendril.World.Returns.{Returns, returned}
use tendril.Client.{Call, run, effects, AreAllowed}
use tendril.Client.Refine.{run_lem}

-- The end of the scope of all tendrils.
abbrev pub drop_all : List Tendril → M (Unit {0})
drop_all [] = pure tt
drop_all (t ∷ ts) = do drop_tendril t; drop_all ts

-- No block is allocated.
abbrev pub IsBlank : Mem → Type 0
IsBlank m = (a : ℕ) → m.cell a ≡ none

empty_cell : (c : Option Block) → blocks c ≤ count_of c → 0 ≡ count_of c → c ≡ none
empty_cell none h e = refl
empty_cell (some b) h e = absurd (omega arith)

World-IsBlank : {m : Mem} → World m [] [] → IsBlank m
World-IsBlank {m} w a = empty_cell (m.cell a) (w.live a).0 (w.counts a)

drop_all_lem :
    {m : Mem} (ts : List Tendril) (xss : List (List ℕ))
    → World m ts xss
    → Returns (λ _ m'. IsBlank m') (drop_all ts m)
drop_all_lem [] [] w = returned (World-IsBlank w)
drop_all_lem [] (xs ∷ xss) w = absurd w.reps
drop_all_lem (t ∷ ts) [] w = absurd w.reps
drop_all_lem (t ∷ ts) (xs ∷ xss) w =
    Returns.then_do (drop_tendril_lem w) (λ _ m' w'. drop_all_lem ts xss w')

-- A program that starts from a memory without tendrils and blocks, under the conditions of
-- `Client.Refine.run_lem`, and drops all its tendrils at the end, returns and leaves no block
-- allocated.
pub drop_all-run :
    {m : Mem} (format : Format) (cs : List Call)
    → IsPlain format
    → AreAllowed format cs []
    → World m [] []
    → Returns (λ _ m'. IsBlank m') ((do ts ← run format cs []; drop_all ts) m)
drop_all-run format cs plain fine w =
    Returns.then_do (run_lem format cs [] [] plain fine w)
      (λ ts m' w'. drop_all_lem ts (effects format cs []) w')
