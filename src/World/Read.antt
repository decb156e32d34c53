-- ===== src/World/Read.antt =====
-- What the readers of `src/tendril.rs` return: `len32`, `as_byte_slice` and `assume_buf`.
use tendril.Common.{
  ℕ, ◌+◌, ◌-◌, ◌%◌, ◌≤◌, ◌<◌, ◌^◌, ◌≡◌, sym, ◌∙◌, ap, inl, inr, true, false, some, List, arith,
  leb-true, leb-false, eqb_true, eqb_false, slice, take, length, length-take, length-slice,
  add32_lem, as_u32_lem, drop, take-take, drop-take,
}
use tendril.Mem.{Block, Mem, done, load}
use tendril.Mem.Util.{unsafe_slice}
use tendril.Buf32.{contents}
use tendril.Tendril.{inline_of, Tendril, heap, len32, aux, assume_buf, as_byte_slice, header}
use tendril.World.{Rep, is_inline, is_owned, is_shared, IsAddress, IsSized}
use tendril.World.Change.{owned_at}

pub unsafe_slice_lem :
    (buf : List ℕ) (start len : ℕ) (m : Mem)
    → start + len ≤ length buf
    → unsafe_slice buf start len m ≡ done (slice start len buf) m
unfolding unsafe_slice
unsafe_slice_lem buf start len m h = rw (leb-true _ _ h)

-- The stored capacity fits the block.
pub IsSized-le : {b : Block} {cap : ℕ} → IsSized b cap → cap ≤ length b.bytes
IsSized-le s = omega arith

pub len32_lem : {m : Mem} {t : Tendril} {xs : List ℕ} → Rep m t xs → len32 t ≡ length xs
unfolding len32
len32_lem (is_inline {n} {bs} tag size e) = ground (arith, as_u32_lem n, length-take n bs)
len32_lem (is_owned {len} b adr at one sized fits e) =
    ground (arith, length-take len b.bytes, IsSized-le sized)
len32_lem (is_shared {off} {len} b adr tag at sized fits e) =
    ground (arith, length-slice off len b.bytes, IsSized-le sized)

pub length-lt : {m : Mem} {t : Tendril} {xs : List ℕ} → Rep m t xs → length xs < 2 ^ 32
length-lt (is_inline {n} {bs} tag size e) = ground (arith, length-take n bs)
length-lt (is_owned {len} b adr at one sized fits e) = ground (arith, length-take len b.bytes)
length-lt (is_shared {off} {len} b adr tag at sized fits e) =
    ground (arith, length-slice off len b.bytes, IsSized-le sized)

pub assume_buf-owned :
    (a len cap : ℕ) (m : Mem)
    → IsAddress a
    → len < 2 ^ 32
    → assume_buf (owned_at a len cap) m
      ≡ done (record { ptr = a; len = len; cap = cap }, false, 0) m
unfolding assume_buf header load len32 aux
assume_buf-owned a len cap m adr h =
    let even : a - a % 2 ≡ a = omega arith in
    let e : 0 + len ≡ len = omega arith in
    rw (
      eqb_false (a % 2) 1 (omega arith),
      even,
      eqb_false a 15 (omega arith),
      leb-false a 8 (omega arith),
      add32_lem 0 len (omega arith),
      e,
    )

pub assume_buf-shared :
    {a p : ℕ} (len off : ℕ) (m : Mem) (b : Block)
    → IsAddress a
    → p ≡ a + 1
    → m.cell a ≡ some b
    → off + len < 2 ^ 32
    → assume_buf (record { ptr = p; buf = heap (record { len = len; aux = off }) }) m
      ≡ done (record { ptr = a; len = off + len; cap = b.cap }, true, off) m
unfolding assume_buf header load len32 aux
assume_buf-shared {a} {p} len off m b adr e at h =
    let base : p - p % 2 ≡ a = omega arith in
    rw (
      eqb_true (p % 2) 1 (omega arith),
      base,
      at,
      eqb_false p 15 (omega arith),
      leb-false p 8 (omega arith),
      add32_lem off len h,
    )

pub contents_lem :
    (p len cap : ℕ) (m : Mem) (b : Block)
    → m.cell p ≡ some b
    → len ≤ length b.bytes
    → contents (record { ptr = p; len = len; cap = cap }) m ≡ done (take len b.bytes) m
unfolding contents load
contents_lem p len cap m b at h = rw (at, leb-true len (length b.bytes) h)

-- For a tendril that stands for `xs` in a memory, in any of the three forms, `as_byte_slice`
-- returns `xs` and changes nothing.
pub as_byte_slice_lem :
    {m : Mem} {t : Tendril} {xs : List ℕ} → Rep m t xs → as_byte_slice t m ≡ done xs m
unfolding as_byte_slice inline_of
as_byte_slice_lem {m} (is_inline {n} {bs} (inl tag) size e) = rw (tag.0, e, tag.1)
as_byte_slice_lem {m} (is_inline {p} {n} {bs} (inr tag) size e) = rw (
  eqb_false p 15 (omega arith),
  leb-true p 8 (omega arith),
  tag.0,
  unsafe_slice_lem bs 0 n m (omega arith),
  e,
)
as_byte_slice_lem {m} (is_owned {a} {len} {cap} {xs} b adr at one sized fits e) =
    let room : len ≤ length b.bytes = omega (arith, IsSized-le sized) in
    rw
      (
        eqb_false a 15 (omega arith),
        leb-false a 8 (omega arith),
        assume_buf-owned a len cap m adr (omega arith),
        contents_lem a len cap m b at room,
        len32_lem r,
        unsafe_slice_lem (take len b.bytes) 0 (length xs) m
            (omega (arith, len32_lem r, length-take len b.bytes, size)),
      )
      (ap (λ l. done l m) (rw size (take-take len len b.bytes (omega arith) ∙ sym e)))
  where
    size : length xs ≡ len
    size = rw e (omega (arith, length-take len b.bytes, IsSized-le sized))

    r : Rep m (owned_at a len cap) xs
    r = is_owned b adr at one sized fits e
as_byte_slice_lem {m} (is_shared {a} {p} {off} {len} {xs} b adr tag at sized fits e) =
    let room : off + len ≤ length b.bytes = omega (arith, IsSized-le sized) in
    rw
      (
        eqb_false p 15 (omega arith),
        leb-false p 8 (omega arith),
        assume_buf-shared len off m b adr tag at (omega arith),
        contents_lem a (off + len) b.cap m b at room,
        len32_lem r,
        unsafe_slice_lem (take (off + len) b.bytes) off (length xs) m
            (omega (arith, length-take (off + len) b.bytes, size)),
      )
      (ap (λ l. done l m)
        (rw (size, drop-take off len b.bytes)
          (take-take len len (drop off b.bytes) (omega arith) ∙ sym e)))
  where
    size : length xs ≡ len
    size = rw e (length-slice off len b.bytes (omega (arith, IsSized-le sized)))

    r : Rep m (record { ptr = p; buf = heap (record { len = len; aux = off }) }) xs
    r = is_shared b adr tag at sized fits e
