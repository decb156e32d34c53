-- ===== src/World/Create.antt =====
-- New tendrils: `inline` and `owned_copy` of `src/tendril.rs`.
use tendril.Common.{
  ℕ, zero, suc, ◌+◌, ◌-◌, ◌*◌, ◌%◌, ◌≤◌, ◌<◌, ◌^◌, ◌≡◌, refl, sym, ◌∙◌, ap, inl, inr, some, List,
  ◌∷◌, ◌++◌, arith, ltb, leb-true, take, overwrite, length, replicate, length-replicate,
  length-append, if◌then◌else◌, as_u32_lem, take-append_left, take_all, length-overwrite,
  take-overwrite,
}
use tendril.Mem.{Block, Mem, done, update, alloc, write_bytes}
use tendril.Buf32.{with_capacity}
use tendril.Buf32.Growth.{bytes_to_vec_capacity_lem}
use tendril.Tendril.{Tendril, inline, inlined, inline_tag, owned, owned_copy}
use tendril.Refcount.{new_count}
use tendril.World.{Rep, is_inline, is_owned, IsAddress, IsTag, World, Apart, vec_units}
use tendril.World.Alone
use tendril.World.Change
use tendril.World.Change.{owned_at, heap_at, put}
use tendril.World.Returns.{Returns, returned}

pub inline_tag-IsTag : (n : ℕ) → n ≤ 8 → IsTag (inline_tag n) n
unfolding inline_tag
inline_tag-IsTag zero h = inl (refl, refl)
inline_tag-IsTag (suc n) h = inr (ground arith, omega arith, h)

-- `Tendril::inline` of up to 8 bytes.
pub inlined_lem :
    {m : Mem} {ts : List Tendril} {xss : List (List ℕ)} (x : List ℕ)
    → length x ≤ 8
    → World m ts xss
    → Returns (λ t m'. World m' (t ∷ ts) (x ∷ xss) × (m' ≡ m) × (t.ptr ≤ 15)) (inlined x m)
unfolding inlined inline_tag
inlined_lem {m} x h w =
    rw (leb-true _ _ h, as_u32_lem (length x) (omega arith))
      (returned (Change.World-cons_inline small rep w, refl, small))
  where
    small : inline_tag (length x) ≤ 15
    small = ground arith

    rep :
        Rep m
          (record { ptr = inline_tag (length x); buf = inline (x ++ replicate (8 - length x) 0) })
          x
    rep =
        is_inline (inline_tag-IsTag (length x) h)
          (omega (
            arith,
            length-append x (replicate (8 - length x) 0),
            length-replicate (8 - length x) (zero),
          ))
          (sym
            (take-append_left (length x) x _ (omega arith) ∙ take_all (length x) x (omega arith)))

-- What `Buf32::with_capacity` leaves in the memory.
abbrev new_block : ℕ → ℕ → Block
new_block cap garbage = record {
  refcount = 1;
  cap = 0;
  units = vec_units cap;
  bytes = replicate ((vec_units cap - 1) * 12) garbage;
}

with_capacity_lem :
    (cap : ℕ) (m : Mem)
    → cap < 2 ^ 32
    → let c = if ltb cap 16 then 16 else cap in
      with_capacity cap 1 m
      ≡ done
          (record { ptr = m.next; len = 0; cap = c })
          (record m {
            cell = update m.cell m.next (some (new_block c m.garbage));
            next = m.next + 16;
          })
unfolding with_capacity alloc
with_capacity_lem cap m h =
    rw (bytes_to_vec_capacity_lem (if ltb cap 16 then 16 else cap) m (ground arith))

pub write_bytes_lem :
    (p at : ℕ) (src : List ℕ) (m : Mem) (b : Block)
    → m.cell p ≡ some b
    → at + length src ≤ length b.bytes
    → write_bytes p at src m
      ≡ done tt (put m p (some (record b { bytes = overwrite at src b.bytes })))
unfolding write_bytes
write_bytes_lem p at src m b e h = rw (e, leb-true _ _ h)

-- A block for `c` bytes with `x` written at its front.
abbrev written : ℕ → ℕ → List ℕ → Block
written c garbage x = record (new_block c garbage) {
  bytes = overwrite 0 x (new_block c garbage).bytes;
}

new_block-room : (c garbage : ℕ) → length (new_block c garbage).bytes ≡ (vec_units c - 1) * 12
new_block-room c garbage = length-replicate ((vec_units c - 1) * 12) garbage

written-Rep :
    {m : Mem} {a : ℕ} (c garbage : ℕ) (x : List ℕ)
    → IsAddress a
    → m.cell a ≡ some (written c garbage x)
    → length x ≤ c
    → 16 ≤ c
    → c < 2 ^ 32
    → Rep m (owned_at a (length x) c) x
written-Rep c garbage x adr at fits low high =
    is_owned (written c garbage x) adr at refl
      (record {
        units = refl;
        room =
            length-overwrite 0 x (new_block c garbage).bytes
              (omega (arith, new_block-room c garbage))
            ∙ new_block-room c garbage;
        min = low;
        max = high;
      })
      fits
      (sym (
        ap (λ k. take k (written c garbage x).bytes) (omega arith)
        ∙ take-overwrite 0 x (new_block c garbage).bytes (omega arith)))

-- `Tendril::owned_copy` makes an owned tendril with a block of its own.
pub owned_copy_lem :
    {m : Mem} {ts : List Tendril} {xss : List (List ℕ)} (x : List ℕ)
    → length x < 2 ^ 32
    → World m ts xss
    → Returns
        (λ t m'. World m' (t ∷ ts) (x ∷ xss) × (15 < t.ptr) × (t.ptr % 2 ≡ 0))
        (owned_copy x m)
unfolding owned_copy owned new_count
owned_copy_lem {m} {ts} {xss} x h w =
    let adr = w.fresh.address in
    rw
      (
        as_u32_lem (length x) h,
        with_capacity_lem (length x) m h,
        write_bytes_lem m.next 0 x m₁ (new_block c m.garbage) (Change.update_self _ _ _)
            (ground (arith, new_block-room c m.garbage)),
      )
      (returned (
        Alone.World-of_alone apart (written c m.garbage x) at refl (omega arith) rep,
        omega arith,
        omega arith,
      ))
  where
    c : ℕ
    c = if ltb (length x) 16 then 16 else length x

    m₁ : Mem
    m₁ = record m { cell = update m.cell m.next (some (new_block c m.garbage)); next = m.next + 16 }

    at : update m₁.cell m.next (some (written c m.garbage x)) m.next ≡ some (written c m.garbage x)
    at = Change.update_self _ _ _

    apart : Apart m.next (put m₁ m.next (some (written c m.garbage x))) ts xss
    apart =
        Alone.Apart-of_next _ refl
          (λ q ne. Change.update_other _ _ _ q ne ∙ Change.update_other _ _ _ q ne) w

    rep : Rep (put m₁ m.next (some (written c m.garbage x))) (owned_at m.next (length x) c) x
    rep = written-Rep c m.garbage x w.fresh.address at (ground arith) (ground arith) (ground arith)
