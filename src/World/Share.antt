-- ===== src/World/Share.antt =====
-- Sharing: `make_buf_shared`, `incref`, `clone` and `unsafe_subtendril` of `src/tendril.rs`.
use mathlib.Core.Path.{subst₂}
use tendril.Common.{
  ℕ, ◌+◌, ◌-◌, ◌%◌, ◌≤◌, ◌<◌, ◌^◌, ◌≡◌, inl, inr, refl, sym, ◌∙◌, ap, subst, true, some, List, [],
  ◌∷◌, arith, ltb, eqb_true, eqb_false, Bool-cases, slice, take_all, length-slice, length,
  slice-slice, checked_add64_lem,
}
use tendril.Mem.{Block, Mem, done, load}
use tendril.Refcount.{increment}
use tendril.Tendril.{
  Tendril, clone, make_buf_shared, incref, header, aux, raw_len, assume_buf, set_aux, set_low_bit,
}
use tendril.World.{Rep, is_inline, is_owned, is_shared, IsAddress, IsSized, World, refs}
use tendril.World.Alone
use tendril.World.Change
use tendril.World.Change.{owned_at, heap_at, put}
use tendril.World.Read.{assume_buf-shared, IsSized-le}
use tendril.World.Returns
use tendril.World.Returns.{Returns, returned}

-- A shared tendril, taken apart.
pub record View (m : Mem) (t : Tendril) (xs : List ℕ) : Type 0 where
  pub a : ℕ
  pub len : ℕ
  pub off : ℕ
  pub block : Block
  pub shape : t ≡ heap_at (a + 1) len off
  pub address : IsAddress a
  pub at : m.cell a ≡ some block
  pub sized : IsSized block block.cap
  pub fits : off + len ≤ block.cap
  pub bytes : xs ≡ slice off len block.bytes

pub View-of_Rep :
    {m : Mem} {t : Tendril} {xs : List ℕ} → Rep m t xs → 15 < t.ptr → t.ptr % 2 ≡ 1 → View m t xs
View-of_Rep (is_inline tag size e) big odd = absurd (omega arith)
View-of_Rep (is_owned b adr at one sized fits e) big odd = absurd (omega arith)
View-of_Rep (is_shared {a} {p} {off} {len} b adr tag at sized fits e) big odd = record {
  a = a;
  len = len;
  off = off;
  block = b;
  shape = ap (λ q. heap_at q len off) tag;
  address = adr;
  at = at;
  sized = sized;
  fits = fits;
  bytes = e;
}

make_buf_shared_Rep :
    {m : Mem} {t : Tendril} {ts : List Tendril} {xs : List ℕ} {xss : List (List ℕ)}
    → Rep m t xs
    → 15 < t.ptr
    → World m (t ∷ ts) (xs ∷ xss)
    → Returns (λ t' m'. World m' (t' ∷ ts) (xs ∷ xss) × View m' t' xs) (make_buf_shared t m)
unfolding make_buf_shared load aux set_aux
make_buf_shared_Rep (is_inline tag size e) big w = absurd (omega arith)
make_buf_shared_Rep {m} {ts} {xs} {xss} (is_owned {a} {len} {cap} b adr at one sized fits e) big w =
    let low : set_low_bit a ≡ a + 1 = omega arith in
    rw (eqb_true (a % 2) 0 (omega arith), at, low)
      (returned (
        Alone.World-of_alone (Alone.Apart-put (Alone.Apart-of_owned b adr at one w) (some moved))
            moved now one (omega arith) rep,
        View-of_Rep rep (omega arith) (omega arith),
      ))
  where
    moved : Block
    moved = record b { cap = cap }

    now : (put m a (some moved)).cell a ≡ some moved
    now = Change.update_self _ _ _

    rep : Rep (put m a (some moved)) (heap_at (a + 1) len 0) xs
    rep =
        is_shared moved adr refl now
          (record { units = sized.units; room = sized.room; min = sized.min; max = sized.max })
          (omega arith) e
make_buf_shared_Rep {t} {xs} (is_shared {p} {off} {len} b adr tag at sized fits e) big w =
    rw (eqb_false (p % 2) 0 (omega arith))
      (returned (w, View-of_Rep (is_shared b adr tag at sized fits e) big (omega arith)))

-- In a memory where every live tendril stands for its bytes and every header counts the tendrils
-- that point to it, `make_buf_shared` on a tendril with a buffer keeps what it stands for, and
-- leaves it in the shared form, with the capacity in the header.
pub make_buf_shared_lem :
    {m : Mem} {t : Tendril} {ts : List Tendril} {xs : List ℕ} {xss : List (List ℕ)}
    → 15 < t.ptr
    → World m (t ∷ ts) (xs ∷ xss)
    → Returns (λ t' m'. World m' (t' ∷ ts) (xs ∷ xss) × View m' t' xs) (make_buf_shared t m)
make_buf_shared_lem big w = make_buf_shared_Rep w.reps.0 big w

refs-le : (a : ℕ) (ts : List Tendril) → refs a ts ≤ length ts
refs-le a [] = omega arith
refs-le a (t ∷ ts) = ground (arith, refs-le a ts)

-- `incref` on a shared tendril makes room in the count for one slice of it.
incref_heap :
    {m : Mem} {ts : List Tendril} {xs : List ℕ} {xss : List (List ℕ)} {a : ℕ} (len off : ℕ)
    (b : Block) (from n : ℕ)
    → IsAddress a
    → m.cell a ≡ some b
    → IsSized b b.cap
    → off + len ≤ b.cap
    → xs ≡ slice off len b.bytes
    → from + n ≤ len
    → length ts + 2 < 2 ^ 64
    → World m (heap_at (a + 1) len off ∷ ts) (xs ∷ xss)
    → Returns
        (λ _ m'.
          World m'
            (heap_at (a + 1) len off ∷ heap_at (a + 1) n (off + from) ∷ ts)
            (xs ∷ slice from n xs ∷ xss))
        (incref (heap_at (a + 1) len off) m)
unfolding incref load increment header
incref_heap {m} {ts} {xs} {xss} {a} len off b from n adr at sized fits e inside few w =
    let base : a + 1 - (a + 1) % 2 ≡ a = omega arith in
    let small : b.refcount + 1 < 2 ^ 64 =
      ground (arith, w.counts a, refs-le a (heap_at (a + 1) len off ∷ ts)) in
    let part : slice (off + from) n b.bytes ≡ slice from n xs =
      rw e (sym (slice-slice from n off len b.bytes inside)) in
    rw (base, at, checked_add64_lem b.refcount 1 small, ← part)
      (returned
        (Change.World-count b n (off + from) adr refl at sized fits e (omega arith) small w))

pub View-length : {m : Mem} {t : Tendril} {xs : List ℕ} (v : View m t xs) → length xs ≡ v.len
View-length v =
    rw v.bytes (length-slice v.off v.len v.block.bytes (omega (arith, v.fits, IsSized-le v.sized)))

pub ptr-View : {m : Mem} {t : Tendril} {xs : List ℕ} (v : View m t xs) → t.ptr ≡ v.a + 1
ptr-View v = ap (λ u. u.ptr) v.shape

pub aux-View : {m : Mem} {t : Tendril} {xs : List ℕ} (v : View m t xs) → aux t ≡ v.off
unfolding aux
aux-View v = ap aux v.shape

pub raw_len-View : {m : Mem} {t : Tendril} {xs : List ℕ} (v : View m t xs) → raw_len t ≡ v.len
unfolding raw_len
raw_len-View v = ap raw_len v.shape

pub assume_buf-View :
    {m : Mem} {t : Tendril} {xs : List ℕ} (v : View m t xs)
    → assume_buf t m
      ≡ done (record { ptr = v.a; len = v.off + v.len; cap = v.block.cap }, true, v.off) m
assume_buf-View {m} v =
    ap (λ u. assume_buf u m) v.shape
    ∙ assume_buf-shared v.len v.off m v.block v.address refl v.at
        (omega (arith, v.fits, v.sized.max))

-- The slice that `incref` makes room for has the pointer of the tendril itself.
pub incref_lem :
    {m : Mem} {t : Tendril} {ts : List Tendril} {xs : List ℕ} {xss : List (List ℕ)}
    (v : View m t xs) (from n : ℕ)
    → from + n ≤ length xs
    → length ts + 2 < 2 ^ 64
    → World m (t ∷ ts) (xs ∷ xss)
    → Returns
        (λ _ m'. World m' (t ∷ heap_at t.ptr n (aux t + from) ∷ ts) (xs ∷ slice from n xs ∷ xss))
        (incref t m)
unfolding aux
incref_lem {m} {t} {ts} {xs} {xss} v from n inside few w =
    subst
      (λ u.
        World m (u ∷ ts) (xs ∷ xss)
        → Returns
            (λ _ m'.
              World m' (u ∷ heap_at u.ptr n (aux u + from) ∷ ts) (xs ∷ slice from n xs ∷ xss))
            (incref u m))
      (sym v.shape)
      (incref_heap v.len v.off v.block from n v.address v.at v.sized v.fits v.bytes
        (omega (arith, View-length v)) few)
      w

-- The slice that is the whole of it.
same_slice :
    {m m' : Mem} {t : Tendril} {ts : List Tendril} {xs : List ℕ} {xss : List (List ℕ)}
    (v : View m t xs)
    → World m' (t ∷ heap_at t.ptr v.len (aux t + 0) ∷ ts) (xs ∷ slice 0 v.len xs ∷ xss)
    → World m' (t ∷ t ∷ ts) (xs ∷ xs ∷ xss)
unfolding aux
same_slice {m' = m'} {t} {ts} {xs} {xss} v w =
    subst₂ (λ u ys. World m' (t ∷ u ∷ ts) (xs ∷ ys ∷ xss))
      (rw (ptr-View v, aux-View v) (ap (λ k. heap_at (v.a + 1) v.len k) (omega arith))
        ∙ sym v.shape)
      (take_all v.len xs (omega (arith, View-length v))) w

-- `clone` of a tendril with a buffer: the receiver and the copy are the same, and shared.
pub clone-shared :
    {m : Mem} {t : Tendril} {ts : List Tendril} {xs : List ℕ} {xss : List (List ℕ)}
    → 15 < t.ptr
    → length ts + 2 < 2 ^ 64
    → World m (t ∷ ts) (xs ∷ xss)
    → Returns
        (λ (t', copy) m'. World m' (t' ∷ copy ∷ ts) (xs ∷ xs ∷ xss) × (copy ≡ t') × (15 < t'.ptr))
        (clone t m)
unfolding clone
clone-shared {t} big few w =
    let large : ltb 15 t.ptr ≡ true = ground arith in
    rw large (
      Returns.then_do (make_buf_shared_lem big w) (λ t' m' (w', v).
        Returns.then_do (incref_lem v 0 v.len (omega (arith, View-length v)) few w')
          (λ _ m'' w''. returned (same_slice v w'', refl, omega (arith, ptr-View v, v.address)))))

-- In a memory where every live tendril stands for its bytes and every header counts the tendrils
-- that point to it, and with fewer than 2^64 - 2 other tendrils, `clone` returns: the receiver and
-- the copy stand for the same bytes, the counts are right, and no other tendril changes.
pub clone_lem :
    {m : Mem} {t : Tendril} {ts : List Tendril} {xs : List ℕ} {xss : List (List ℕ)}
    → length ts + 2 < 2 ^ 64
    → World m (t ∷ ts) (xs ∷ xss)
    → Returns (λ (t', copy) m'. World m' (t' ∷ copy ∷ ts) (xs ∷ xs ∷ xss)) (clone t m)
unfolding clone
clone_lem {m} {t} few w = elim (Bool-cases (ltb 15 t.ptr)) [
  | inl big ↦ Returns.weaken (clone-shared (ground arith) few w) (λ (t', copy) m' (w', _, _). w')
  | inr small ↦ rw small (returned (Change.World-cons_inline (ground arith) w.reps.0 w))
]
