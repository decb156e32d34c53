-- ===== src/World/Clear.antt =====
-- `clear` of `src/tendril.rs`.
use tendril.Common.{ℕ, inl, refl, List, [], ◌∷◌, arith, leb-true, leb-false}
use tendril.Mem.{Mem}
use tendril.Tendril.{Tendril}
use tendril.Tendril.Edit.{clear}
use tendril.World.{Rep, is_inline, is_owned, is_shared, World}
use tendril.World.Change
use tendril.World.Change.{owned_at, heap_at}
use tendril.World.Read.{assume_buf-owned, assume_buf-shared}
use tendril.World.Drop.{assign_lem}
use tendril.World.Returns
use tendril.World.Returns.{Returns, returned}
use tendril.World.Cut.{new_lem, aux-heap_at, set_len_lem}

-- `clear` leaves no bytes, and touches no other tendril.
clear_Rep :
    {m : Mem} {t : Tendril} {ts : List Tendril} {xs : List ℕ} {xss : List (List ℕ)}
    → Rep m t xs
    → World m (t ∷ ts) (xs ∷ xss)
    → Returns (λ t' m'. World m' (t' ∷ ts) ([] ∷ xss)) (clear t m)
unfolding clear
clear_Rep {m} (is_inline {p} {bs} tag size e) w = rw (leb-true p 15 (ground arith)) (
    returned (
      Change.World-cons_inline (omega arith) (is_inline {n = 0} (inl (refl, refl)) size refl)
        (Change.World-inline (ground arith) w)))
clear_Rep {m} (is_owned {a} {len} {cap} b adr at one sized fits e) w =
    rw
      (
        leb-false a 15 (omega arith),
        assume_buf-owned a len cap m adr (omega arith),
        set_len_lem,
        aux-heap_at,
      )
      (returned (Change.World-resize refl (is_owned b adr at one sized (omega arith) refl) w))
clear_Rep {m} (is_shared {p} {off} {len} b adr tag at sized fits e) w =
    rw (leb-false p 15 (omega arith), assume_buf-shared len off m b adr tag at (omega arith))
      (Returns.then_do (new_lem w)
        (λ fresh m' (w', _, _). Returns.weaken (assign_lem w') (λ t'' m'' (w'', _). w'')))

-- In a memory where every live tendril stands for its bytes and every header counts the tendrils
-- that point to it, `clear` returns: the receiver stands for no bytes, and no other tendril
-- changes.
pub clear_lem :
    {m : Mem} {t : Tendril} {ts : List Tendril} {xs : List ℕ} {xss : List (List ℕ)}
    → World m (t ∷ ts) (xs ∷ xss)
    → Returns (λ t' m'. World m' (t' ∷ ts) ([] ∷ xss)) (clear t m)
clear_lem w = clear_Rep w.reps.0 w
