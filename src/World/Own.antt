-- ===== src/World/Own.antt =====
-- `make_owned_with_capacity` of `src/tendril.rs`, with `grow` of `src/buf32.rs` below it.
use tendril.Common.{
  ℕ, ◌%◌, ◌≤◌, ◌<◌, ◌^◌, ◌≡◌, inl, inr, refl, some, List, ◌∷◌, arith, leb, max, eqb_true,
  Bool-cases, take,
}
use tendril.Mem.{Block, Mem, load, pure, ◌>>=◌}
use tendril.Buf32.{grow, reserve_exact}
use tendril.Buf32.Growth.{
  checked_next_power_of_two-small, IsNextPower-lt, bytes_to_vec_capacity_lem,
}
use tendril.Tendril.{Tendril, make_owned_with_capacity, set_aux, aux, assume_buf}
use tendril.World.{Rep, is_inline, is_owned, is_shared, IsAddress, IsSized, World, vec_units}
use tendril.World.Change
use tendril.World.Change.{owned_at, heap_at, put}
use tendril.World.Read.{assume_buf-owned}
use tendril.World.Returns
use tendril.World.Returns.{Returns, returned}
use tendril.World.Owned.{make_owned_lem}
use tendril.World.Relocate.{realloc_lem, roomy-Rep, relocated-World}

-- `grow` of the buffer of an owned tendril: the capacity asked for, and the same bytes.
grow_lem :
    {m : Mem} {ts : List Tendril} {xs : List ℕ} {xss : List (List ℕ)} (a len cap want : ℕ)
    (b : Block)
    → IsAddress a
    → m.cell a ≡ some b
    → b.refcount ≡ 1
    → IsSized b cap
    → len ≤ cap
    → xs ≡ take len b.bytes
    → want ≤ max cap (2 ^ 31)
    → World m (owned_at a len cap ∷ ts) (xs ∷ xss)
    → Returns
        (λ b' m'.
          World m' (owned_at b'.ptr len b'.cap ∷ ts) (xs ∷ xss)
          × (want ≤ b'.cap)
          × (15 < b'.ptr)
          × (b'.ptr % 2 ≡ 0))
        (grow (record { ptr = a; len = len; cap = cap }) want m)
unfolding grow reserve_exact load
grow_lem {m} {ts} {xs} {xss} a len cap want b adr at one sized fits e bound w =
    elim (Bool-cases (leb want cap)) [
      | inl enough ↦ rw enough (returned (w, ground arith, omega arith, omega arith))
      | inr more ↦
          let (r, power, least) = checked_next_power_of_two-small want (ground arith) in
          let max : r < 2 ^ 32 = IsNextPower-lt least (ground arith) in
          rw
            (
              more,
              power,
              bytes_to_vec_capacity_lem cap m sized.max,
              bytes_to_vec_capacity_lem r m max,
              at,
              eqb_true b.units (vec_units cap) sized.units,
            )
            (elim (Bool-cases (leb (vec_units r) (vec_units cap))) [
              | inl room ↦ rw room (
                  returned (
                    Change.World-resize refl
                        (roomy-Rep b a len cap r adr at one sized (ground (arith, least.above))
                          (ground arith) max fits e)
                        w,
                    least.above,
                    omega arith,
                    omega arith,
                  ))
              | inr full ↦
                  rw (full, realloc_lem a (vec_units r) m b at)
                    (returned (
                      relocated-World b a len cap r adr at one sized (ground (arith, least.above))
                          max fits e w,
                      least.above,
                      omega (arith, w.fresh.address),
                      omega (arith, w.fresh.address),
                    ))
            ])
    ]

-- An owned tendril of the capacity `want`.
abbrev pub IsRoomy : ℕ → Tendril → Type 0
IsRoomy want t = (15 < t.ptr) × (t.ptr % 2 ≡ 0) × (want ≤ aux t)

grown :
    {m : Mem} {t : Tendril} {ts : List Tendril} {xs : List ℕ} {xss : List (List ℕ)} (want : ℕ)
    → Rep m t xs
    → 15 < t.ptr
    → t.ptr % 2 ≡ 0
    → want ≤ 2 ^ 31
    → World m (t ∷ ts) (xs ∷ xss)
    → Returns
        (λ t' m'. World m' (t' ∷ ts) (xs ∷ xss) × IsRoomy want t')
        ((do
          (buf, _, _) ← assume_buf t
          buf ← grow buf want
          pure (set_aux (record t { ptr = buf.ptr }) buf.cap))
          m)
unfolding set_aux aux
grown want (is_inline tag size e) big even bound w = absurd (omega arith)
grown {m} want (is_owned {a} {len} {cap} b adr at one sized fits e) big even bound w =
    rw (assume_buf-owned a len cap m adr (omega arith)) (
      Returns.then_do (grow_lem a len cap want b adr at one sized fits e (omega arith) w)
        (λ b' m' (w', enough, big', even'). returned (w', (big', even', enough))))
grown want (is_shared b adr tag at sized fits e) big even bound w = absurd (omega arith)

-- In a memory where every live tendril stands for its bytes and every header counts the tendrils
-- that point to it, `make_owned_with_capacity` up to 2^31 returns an owned tendril with the same
-- bytes and at least that capacity, and no other tendril changes.
pub make_owned_with_capacity_lem :
    {m : Mem} {t : Tendril} {ts : List Tendril} {xs : List ℕ} {xss : List (List ℕ)} (want : ℕ)
    → want ≤ 2 ^ 31
    → World m (t ∷ ts) (xs ∷ xss)
    → Returns
        (λ t' m'. World m' (t' ∷ ts) (xs ∷ xss) × IsRoomy want t')
        (make_owned_with_capacity t want m)
unfolding make_owned_with_capacity
make_owned_with_capacity_lem want bound w =
    Returns.then_do (make_owned_lem w)
      (λ t' m' (w', big, even). grown want w'.reps.0 big even bound w')
