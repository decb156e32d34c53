-- ===== src/World/Drop.antt =====
-- `drop` and `*self = …` of `src/tendril.rs`.
use tendril.Common.{
  ℕ, ◌+◌, ◌-◌, ◌%◌, ◌≤◌, ◌<◌, ◌^◌, ◌≡◌, refl, inl, inr, none, some, List, ◌∷◌, arith, ◌==◌,
  leb-true, leb-false, eqb_true, Bool-cases, eq_of_eqb, sub64, sub64_lem,
}
use tendril.Mem.{Block, Mem, done, load, dealloc}
use tendril.Buf32.{destroy}
use tendril.Buf32.Growth.{bytes_to_vec_capacity_lem}
use tendril.Tendril.{Tendril, drop_tendril, assign, header}
use tendril.Refcount.{decrement}
use tendril.World.{Rep, is_inline, is_owned, is_shared, IsAddress, IsSized, World, vec_units}
use tendril.World.Alone
use tendril.World.Change
use tendril.World.Change.{owned_at, heap_at, put}
use tendril.World.Read.{assume_buf-owned, assume_buf-shared}
use tendril.World.Returns
use tendril.World.Returns.{Returns, returned}

dealloc_lem :
    (p units : ℕ) (m : Mem) (b : Block)
    → m.cell p ≡ some b
    → b.units ≡ units
    → dealloc p units m ≡ done tt (put m p none)
unfolding dealloc
dealloc_lem p units m b at e = rw (at, eqb_true b.units units e)

-- A block is given back with the size that it was made with.
destroy_lem :
    (p len cap : ℕ) (m : Mem) (b : Block)
    → m.cell p ≡ some b
    → IsSized b cap
    → destroy (record { ptr = p; len = len; cap = cap }) m ≡ done tt (put m p none)
unfolding destroy
destroy_lem p len cap m b at sized =
    rw (bytes_to_vec_capacity_lem cap m sized.max, dealloc_lem p (vec_units cap) m b at sized.units)

-- The branch of `drop` for a shared tendril.
drop_shared :
    {m : Mem} {ts : List Tendril} {xs : List ℕ} {xss : List (List ℕ)} {a p off len : ℕ} (b : Block)
    → IsAddress a
    → p ≡ a + 1
    → m.cell a ≡ some b
    → IsSized b b.cap
    → off + len < 2 ^ 32
    → World m (heap_at p len off ∷ ts) (xs ∷ xss)
    → Returns (λ _ m'. World m' ts xss) (drop_tendril (heap_at p len off) m)
unfolding drop_tendril header load decrement
drop_shared {m} {ts} {xss} {a} {p} {off} {len} b adr tag at sized fits w =
    let base : p - p % 2 ≡ a = omega arith in
    let on : (15 < p) × (p - p % 2 ≡ a) = omega arith in
    let less : sub64 b.refcount 1 ≡ b.refcount - 1 =
      sub64_lem b.refcount 1 (ground (arith, w.live a)) (ground (arith, w.live a)) in
    rw (leb-false p 15 (omega arith), assume_buf-shared len off m b adr tag at fits, base, at, less)
      (elim (Bool-cases (b.refcount == 1)) [
        | inl last ↦
            rw (last, destroy_lem a (off + len) b.cap m₁ less_one (Change.update_self _ _ _) sized')
              (returned (
                Alone.World-of_freed
                  (Alone.Apart-put
                    (Alone.Apart-put (Alone.Apart-of_alone b adr at (eq_of_eqb _ _ last) on w) _)
                    none)
                  (Change.update_self _ _ _)))
        | inr many ↦ rw many (returned (Change.World-uncount b at (ground arith) on w))
      ])
  where
    less_one : Block
    less_one = record b { refcount = b.refcount - 1 }

    m₁ : Mem
    m₁ = put m a (some less_one)

    sized' : IsSized less_one b.cap
    sized' = record { units = sized.units; room = sized.room; min = sized.min; max = sized.max }

drop_Rep :
    {m : Mem} {t : Tendril} {ts : List Tendril} {xs : List ℕ} {xss : List (List ℕ)}
    → Rep m t xs
    → World m (t ∷ ts) (xs ∷ xss)
    → Returns (λ _ m'. World m' ts xss) (drop_tendril t m)
unfolding drop_tendril
drop_Rep (is_inline {p} tag size e) w =
    let small : p ≤ 15 = ground arith in
    rw (leb-true p 15 small) (returned (Change.World-inline small w))
drop_Rep {m} (is_owned {a} {len} {cap} b adr at one sized fits e) w =
    rw
      (
        leb-false a 15 (omega arith),
        assume_buf-owned a len cap m adr (omega arith),
        destroy_lem a len cap m b at sized,
      )
      (returned (
        Alone.World-of_freed (Alone.Apart-put (Alone.Apart-of_owned b adr at one w) none)
          (Change.update_self _ _ _)))
drop_Rep (is_shared b adr tag at sized fits e) w = drop_shared b adr tag at sized (omega arith) w

-- In a memory where every live tendril stands for its bytes and every header counts the tendrils
-- that point to it, `drop` returns and leaves such a memory for the other tendrils: it gives up one
-- reference, frees a block exactly with its last one and at its true size, and never touches a
-- freed block.
pub drop_tendril_lem :
    {m : Mem} {t : Tendril} {ts : List Tendril} {xs : List ℕ} {xss : List (List ℕ)}
    → World m (t ∷ ts) (xs ∷ xss)
    → Returns (λ _ m'. World m' ts xss) (drop_tendril t m)
drop_tendril_lem w = drop_Rep w.reps.0 w

-- `*self = new`, with the new value beside the old one.
pub assign_lem :
    {m : Mem} {old new : Tendril} {ts : List Tendril} {xs ys : List ℕ} {xss : List (List ℕ)}
    → World m (new ∷ old ∷ ts) (ys ∷ xs ∷ xss)
    → Returns (λ t m'. World m' (t ∷ ts) (ys ∷ xss) × (t ≡ new)) (assign old new m)
assign_lem w =
    Returns.then_do (drop_tendril_lem (Change.World-swap w)) (λ _ m' w'. returned (w', refl))
