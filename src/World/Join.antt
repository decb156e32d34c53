-- ===== src/World/Join.antt =====
-- `push_tendril` of `src/tendril.rs`, with its shortcut for neighbours in one buffer.
use mathlib.Core.Path.{ap₂}
use tendril.Common.{
  ℕ, ◌+◌, ◌-◌, ◌%◌, ◌≤◌, ◌<◌, ◌^◌, ◌≡◌, refl, ◌∙◌, ap, inl, inr, ◌&&◌, Bool, true, false, some,
  List, ◌∷◌, ◌++◌, arith, ltb, ◌==◌, Bool-cases, slice, slice_split, length, add32, add32_lem,
  checked_add32_lem,
}
use tendril.Mem.{Mem, done}
use tendril.Buf32.{Buf32}
use tendril.Fmt.{Format, default_fixup}
use tendril.Tendril.{Tendril, raw_len, aux, set_len, assume_buf}
use tendril.Tendril.Edit.{adjacent, push_tendril}
use tendril.World.{Rep, is_inline, is_owned, is_shared, World}
use tendril.World.Change
use tendril.World.Change.{heap_at, owned_at}
use tendril.World.Read.{len32_lem, as_byte_slice_lem, assume_buf-owned, assume_buf-shared}
use tendril.World.Share.{View, View-of_Rep, View-length, ptr-View, aux-View, raw_len-View}
use tendril.World.Push.{push_plain}
use tendril.World.Cut.{set_len_lem}
use tendril.World.Returns.{Returns, returned}

-- What the shortcut's test finds out: two slices of one block, the second where the first ends.
pub record IsJoined (t other : Tendril) : Type 0 where
  pub big : 15 < t.ptr
  pub odd : t.ptr % 2 ≡ 1
  pub same : other.ptr ≡ t.ptr
  pub next : aux other ≡ aux t + raw_len t

assume_buf_lem :
    {m : Mem} {t : Tendril} {xs : List ℕ}
    → Rep m t xs
    → 15 < t.ptr
    → (x : Buf32 × Bool × ℕ) × (assume_buf t m ≡ done x m)
      × (x.0.ptr ≡ t.ptr - t.ptr % 2)
      × (x.1 ≡ (t.ptr % 2 == 1))
assume_buf_lem (is_inline tag size e) big = absurd (omega arith)
assume_buf_lem {m} (is_owned {a} {len} {cap} b adr at one sized fits e) big =
    (_, assume_buf-owned a len cap m adr (omega (arith, sized.max)), omega arith, ground arith)
assume_buf_lem {m} (is_shared {off} {len} b adr tag at sized fits e) big = (
  _,
  assume_buf-shared len off m b adr tag at (omega (arith, sized.max)),
  omega arith,
  ground arith,
)

is_joined :
    {m : Mem} {t other : Tendril} {xs : List ℕ}
    → Rep m t xs
    → 15 < t.ptr
    → t.ptr % 2 ≡ 1
    → other.ptr ≡ t.ptr
    → aux other ≡ add32 (aux t) (raw_len t)
    → IsJoined t other
is_joined {t} r big odd same next =
    let v = View-of_Rep r big odd in
    let fits : aux t + raw_len t < 2 ^ 32 =
      omega (arith, aux-View v, raw_len-View v, v.fits, v.sized.max) in
    record { big = big; odd = odd; same = same; next = next ∙ add32_lem (aux t) (raw_len t) fits }

-- The test returns in every case, changes nothing, and is right when it says yes.
adjacent_lem :
    {m : Mem} {t other : Tendril} {xs ys : List ℕ}
    → Rep m t xs
    → Rep m other ys
    → (b : Bool) × (adjacent t other m ≡ done b m) × (b ≡ true → IsJoined t other)
unfolding adjacent
adjacent_lem {m} {t} {other} r s = elim (Bool-cases (ltb 15 t.ptr && ltb 15 other.ptr)) [
  | inl both ↦
      let (x, run_x, ptr_x, odd_x) = assume_buf_lem r (ground arith) in
      let (y, run_y, ptr_y, odd_y) = assume_buf_lem s (ground arith) in
      let b : Bool =
        x.1 && (y.1 && ((x.0.ptr == y.0.ptr) && (aux other == add32 (aux t) (raw_len t)))) in
      (
        b,
        rw (both, run_x, run_y),
        λ e. is_joined r (ground arith) (ground arith) (ground arith) (ground arith),
      )
  | inr less ↦ (false, rw less, λ e. cc)
]

-- The shortcut joins the two slices.
joined_lem :
    {m : Mem} {t other : Tendril} {ts : List Tendril} {xs ys : List ℕ} {xss : List (List ℕ)}
    → IsJoined t other
    → World m (t ∷ other ∷ ts) (xs ∷ ys ∷ xss)
    → World m (set_len t (length xs + length ys) ∷ other ∷ ts) ((xs ++ ys) ∷ ys ∷ xss)
joined_lem {m} {t} {other} {ts} {xs} {ys} {xss} j w = rw (set_len_lem t (length xs + length ys)) (
    Change.World-resize refl
      (is_shared v.block v.address (ptr-View v) v.at v.sized
        (omega (arith, aux-View v, size_x, size_y, start, u.fits, same_cap)) both)
      w)
  where
    v : View m t xs
    v = View-of_Rep w.reps.0 j.big j.odd

    u : View m other ys
    u = View-of_Rep w.reps.1.0 (omega (arith, j.big, j.same)) (omega (arith, j.odd, j.same))

    same_a : u.a ≡ v.a
    same_a = omega (arith, ptr-View u, ptr-View v, j.same)

    same_block : u.block ≡ v.block
    same_block = ground (arith, u.at, v.at, same_a)

    same_cap : u.block.cap ≡ v.block.cap
    same_cap = ap (λ b. b.cap) same_block

    size_x : length xs ≡ v.len
    size_x = View-length v

    size_y : length ys ≡ u.len
    size_y = View-length u

    start : u.off ≡ v.off + v.len
    start = omega (arith, aux-View u, aux-View v, raw_len-View v, j.next)

    both : xs ++ ys ≡ slice (aux t) (length xs + length ys) v.block.bytes
    both =
        rw (size_x, size_y, aux-View v)
          (ap₂ ◌++◌ v.bytes (
              u.bytes
              ∙ ap (λ b. slice u.off u.len b.bytes) same_block
              ∙ ap (λ k. slice k u.len v.block.bytes) start)
            ∙ slice_split v.off v.len u.len v.block.bytes)

-- In a memory where every live tendril stands for its bytes and every header counts the tendrils
-- that point to it, `push_tendril` with a format that needs no fixup, and a total of at most 2^31
-- bytes, returns the concatenation and leaves the other tendril as it is, also where the shortcut
-- for adjacent slices of one buffer is taken.
pub push_tendril_lem :
    {m : Mem} {t other : Tendril} {ts : List Tendril} {xs ys : List ℕ} {xss : List (List ℕ)}
    (format : Format)
    → format.fixup xs ys ≡ some default_fixup
    → length xs + length ys ≤ 2 ^ 31
    → World m (t ∷ other ∷ ts) (xs ∷ ys ∷ xss)
    → Returns
        (λ t' m'. World m' (t' ∷ other ∷ ts) ((xs ++ ys) ∷ ys ∷ xss))
        (push_tendril format t other m)
unfolding push_tendril
push_tendril_lem {m} {t} {other} {xs = xs} {ys} format plain bound w =
    let (b, run, right) = adjacent_lem w.reps.0 w.reps.1.0 in
    rw
      (
        len32_lem w.reps.0,
        len32_lem w.reps.1.0,
        checked_add32_lem (length xs) (length ys) (omega arith),
        run,
      )
      (elim (Bool-cases b) [
        | inl yes' ↦ rw yes' (returned (joined_lem (right yes') w))
        | inr no' ↦ rw (no', as_byte_slice_lem w.reps.1.0) (push_plain format ys plain bound w)
      ])
