-- ===== src/World/Relocate.antt =====
-- `realloc` under a tendril that owns its buffer.
use tendril.Common.{
  ℕ, ◌+◌, ◌-◌, ◌*◌, ◌≤◌, ◌<◌, ◌^◌, ◌≡◌, refl, sym, ◌∙◌, none, some, List, ◌∷◌, arith, max, drop,
  take-append_left, take, overwrite, length, replicate, length-replicate, length-overwrite,
}
use tendril.Mem.{Block, Mem, done, update, realloc}
use tendril.Tendril.{Tendril}
use tendril.World.{Rep, is_owned, IsAddress, IsSized, World, Apart, vec_units}
use tendril.World.Alone
use tendril.World.Change
use tendril.World.Change.{owned_at, heap_at, put}
use tendril.World.Read.{IsSized-le}

-- The block that `realloc` leaves for `units` headers.
abbrev moved : Block → (units garbage : ℕ) → Block
moved b units garbage = record b {
  units = units;
  bytes = overwrite 0 b.bytes (replicate ((units - 1) * 12) garbage);
}

-- The fresh block, and the memory that `realloc` leaves.
abbrev fresh_block : Block → (units garbage : ℕ) → Block
fresh_block b units garbage = record b {
  units = units;
  bytes = replicate ((units - 1) * 12) garbage;
}

abbrev relocated : Mem → ℕ → Block → ℕ → Mem
relocated m a b units = record m {
  cell =
      update
        (update (update m.cell m.next (some (fresh_block b units m.garbage))) m.next
          (some (moved b units m.garbage)))
        a none;
  next = m.next + 16;
}

pub realloc_lem :
    (a units : ℕ) (m : Mem) (b : Block)
    → m.cell a ≡ some b
    → realloc a units 12 m ≡ done m.next (relocated m a b units)
unfolding realloc
realloc_lem a units m b at =
    rw (at, Change.update_self m.cell m.next (some (fresh_block b units m.garbage)))

-- The larger block holds what the smaller one held.
moved-Rep :
    {m : Mem} {xs : List ℕ} (b : Block) (q len cap r garbage : ℕ)
    → IsAddress q
    → m.cell q ≡ some (moved b (vec_units r) garbage)
    → b.refcount ≡ 1
    → IsSized b cap
    → cap ≤ r
    → r < 2 ^ 32
    → len ≤ cap
    → xs ≡ take len b.bytes
    → Rep m (owned_at q len r) xs
moved-Rep {xs} b q len cap r garbage adr at one sized more max fits e =
    is_owned (moved b (vec_units r) garbage) adr at one
      (record {
        units = refl;
        room = length-overwrite 0 b.bytes fresh inside ∙ room;
        min = omega (arith, sized.min);
        max = max;
      })
      (omega arith) (e ∙ sym kept)
  where
    fresh : List ℕ
    fresh = replicate ((vec_units r - 1) * 12) garbage

    room : length fresh ≡ (vec_units r - 1) * 12
    room = length-replicate ((vec_units r - 1) * 12) garbage

    inside : 0 + length b.bytes ≤ length fresh
    inside = omega (arith, room, sized.room)

    kept : take len (overwrite 0 b.bytes fresh) ≡ take len b.bytes
    kept =
        take-append_left len b.bytes (drop (0 + length b.bytes) fresh)
          (omega (arith, IsSized-le sized))

-- A block that already has the room keeps its place.
pub roomy-Rep :
    {m : Mem} {xs : List ℕ} (b : Block) (a len cap r : ℕ)
    → IsAddress a
    → m.cell a ≡ some b
    → b.refcount ≡ 1
    → IsSized b cap
    → cap ≤ r
    → vec_units r ≤ vec_units cap
    → r < 2 ^ 32
    → len ≤ cap
    → xs ≡ take len b.bytes
    → Rep m (owned_at a len r) xs
roomy-Rep b a len cap r adr at one sized more room max fits e =
    is_owned b adr at one
      (record {
        units = omega (arith, sized.units);
        room = omega (arith, sized.room);
        min = omega (arith, sized.min);
        max = max;
      })
      (omega arith) e

pub relocated-World :
    {m : Mem} {ts : List Tendril} {xs : List ℕ} {xss : List (List ℕ)} (b : Block) (a len cap r : ℕ)
    → IsAddress a
    → m.cell a ≡ some b
    → b.refcount ≡ 1
    → IsSized b cap
    → cap ≤ r
    → r < 2 ^ 32
    → len ≤ cap
    → xs ≡ take len b.bytes
    → World m (owned_at a len cap ∷ ts) (xs ∷ xss)
    → World (relocated m a b (vec_units r)) (owned_at m.next len r ∷ ts) (xs ∷ xss)
relocated-World {m} {ts} {xss = xss} b a len cap r adr at one sized more max fits e w =
    let next = w.fresh.address in
    Alone.World-of_alone apart (moved b (vec_units r) m.garbage) there one (omega arith)
      (moved-Rep b m.next len cap r m.garbage next there one sized more max fits e)
  where
    m' : Mem
    m' = relocated m a b (vec_units r)

    apart : Apart m.next m' ts xss
    apart =
        Alone.Apart-moved (Alone.Apart-of_owned b adr at one w) m' refl (Change.update_self _ _ _)
          (λ q na nn.
            Change.update_other _ a none q na
            ∙ Change.update_other _ m.next _ q nn
            ∙ Change.update_other _ m.next _ q nn)

    there : m'.cell m.next ≡ some (moved b (vec_units r) m.garbage)
    there =
        Change.update_other _ a none m.next (ground (arith, Change.lt-next w.fresh at))
        ∙ Change.update_self _ _ _
