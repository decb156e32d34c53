-- ===== src/Capi/Laws.antt =====
-- What the functions of `capi/src/lib.rs` do to the live tendrils, and what C sees of one.
use tendril.Common.{
  ℕ, ◌+◌, ◌-◌, ◌%◌, ◌≤◌, ◌<◌, ◌^◌, ◌≡◌, refl, sym, ◌∙◌, ap, subst, true, List, [], ◌∷◌, arith,
  leb-true, leb-false, eqb_false, length, slice,
}
use tendril.Mem.{Mem, done, load}
use tendril.Fmt.{bytes}
use tendril.Tendril.{Tendril, as_byte_slice}
use tendril.Capi.{
  tendril_clone, tendril_sub, tendril_destroy, tendril_data, tendril_len, tendril_bytes,
}
use tendril.World.{Rep, is_shared, World}
use tendril.World.Drop.{assign_lem}
use tendril.World.Cut.{new_lem}
use tendril.World.Read.{as_byte_slice_lem, IsSized-le}
use tendril.World.Share.{View, ptr-View, raw_len-View, clone_lem}
use tendril.World.Shuffle.{World-Shuffle, keep, swap, next}
use tendril.World.Unwrapped.{subtendril_lem}
use tendril.World.Returns
use tendril.World.Returns.{Returns, returned}

valid : (xs : List ℕ) → bytes.validate_subseq xs ≡ true
unfolding bytes
valid xs = refl

-- A new value made from `*r` replaces `*t`.
replaced :
    {m : Mem} {t r new : Tendril} {ts : List Tendril} {xs ys zs : List ℕ} {xss : List (List ℕ)}
    → World m (r ∷ new ∷ t ∷ ts) (ys ∷ zs ∷ xs ∷ xss)
    → World m (new ∷ t ∷ r ∷ ts) (zs ∷ xs ∷ ys ∷ xss)
replaced w = World-Shuffle (next swap (keep swap)) w

module _ {m : Mem} {t r : Tendril} {ts : List Tendril} {xs ys : List ℕ} {xss : List (List ℕ)} where
  pub tendril_clone_lem :
      length ts + 3 < 2 ^ 64
      → World m (t ∷ r ∷ ts) (xs ∷ ys ∷ xss)
      → Returns (λ (t', r') m'. World m' (t' ∷ r' ∷ ts) (ys ∷ ys ∷ xss)) (tendril_clone t r m)
  unfolding tendril_clone
  tendril_clone_lem few w =
      Returns.then_do (clone_lem (omega arith) (World-Shuffle swap w)) (λ (r', copy) m' w'.
        Returns.then_do (assign_lem (replaced w')) (λ t' m'' (w'', _). returned w''))

  -- In a memory where every live tendril stands for its bytes and every header counts the tendrils
  -- that point to it, and with fewer than 2^64 - 3 other tendrils, `tendril_sub` within bounds
  -- drops the old value of its target, leaves the slice there, and keeps the bytes of its source.
  pub tendril_sub_lem :
      (from n : ℕ)
      → from + n ≤ length ys
      → length ts + 3 < 2 ^ 64
      → World m (t ∷ r ∷ ts) (xs ∷ ys ∷ xss)
      → Returns
          (λ (t', r') m'. World m' (t' ∷ r' ∷ ts) (slice from n ys ∷ ys ∷ xss))
          (tendril_sub t r from n m)
  unfolding tendril_sub
  tendril_sub_lem from n inside few w =
      Returns.then_do
        (subtendril_lem bytes from n inside (valid (slice from n ys)) (omega arith)
          (World-Shuffle swap w))
        (λ (r', sub) m' w'.
          Returns.then_do (assign_lem (replaced w')) (λ t' m'' (w'', _). returned w''))

pub tendril_destroy_lem :
    {m : Mem} {t : Tendril} {ts : List Tendril} {xs : List ℕ} {xss : List (List ℕ)}
    → World m (t ∷ ts) (xs ∷ xss)
    → Returns (λ t' m'. World m' (t' ∷ ts) ([] ∷ xss) × (t'.ptr ≤ 15)) (tendril_destroy t m)
unfolding tendril_destroy
tendril_destroy_lem w = Returns.then_do (new_lem w) (λ fresh m' (w', _, small).
    Returns.weaken (assign_lem w')
      (λ t'' m'' (w'', e). (w'', subst (λ u. u.ptr ≤ 15) (sym e) small)))

-- Of a shared tendril, C sees through `tendril_data` and `tendril_len` the first bytes of the
-- buffer, as many as the tendril has, while the tendril itself stands for as many bytes from its
-- offset on.
pub tendril_bytes_lem :
    {m : Mem} {t : Tendril} {xs : List ℕ} (v : View m t xs)
    → (tendril_bytes t m ≡ done (slice 0 v.len v.block.bytes) m)
      × (as_byte_slice t m ≡ done (slice v.off v.len v.block.bytes) m)
unfolding tendril_bytes tendril_data tendril_len load
tendril_bytes_lem {m} {t} {xs} v = (seen, true_bytes)
  where
    big : 15 < t.ptr
    big = omega (arith, ptr-View v, v.address)

    base : t.ptr - t.ptr % 2 ≡ v.a
    base = omega (arith, ptr-View v, v.address)

    room : v.len ≤ length v.block.bytes
    room = omega (arith, v.fits, IsSized-le v.sized)

    seen : tendril_bytes t m ≡ done (slice 0 v.len v.block.bytes) m
    seen = rw (
      leb-false t.ptr 15 big,
      eqb_false t.ptr 15 (λ e. omega (arith, e, big)),
      base,
      v.at,
      raw_len-View v,
      leb-true v.len (length v.block.bytes) room,
    )

    rep : Rep m t xs
    rep =
        subst (λ u. Rep m u xs) (sym v.shape)
          (is_shared v.block v.address refl v.at v.sized v.fits v.bytes)

    true_bytes : as_byte_slice t m ≡ done (slice v.off v.len v.block.bytes) m
    true_bytes = as_byte_slice_lem rep ∙ ap (λ l. done l m) v.bytes
