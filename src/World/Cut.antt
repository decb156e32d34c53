-- ===== src/World/Cut.antt =====
-- Taking parts: `unsafe_subtendril`, `unsafe_pop_front` and `unsafe_pop_back` of `src/tendril.rs`;
-- and `new`.
use tendril.Common.{
  ℕ, ◌+◌, ◌-◌, ◌≤◌, ◌<◌, ◌^◌, ◌≡◌, inl, inr, refl, sym, ◌∙◌, ap, subst, List, [], ◌∷◌, arith, leb,
  Bool-cases, slice, take, drop, length-take, length-slice, length, slice-slice, drop-eq-slice,
  add32, sub32, add32_lem, sub32_lem,
}
use tendril.Mem.{Mem, pure, ◌>>=◌, ◌>>◌}
use tendril.Mem.Util.{unsafe_slice}
use tendril.Tendril.{
  Tendril, len32, raw_len, set_len, aux, set_aux, shared, set_low_bit, assume_buf, as_byte_slice,
  inlined, assign, incref,
}
use tendril.Tendril.Edit.{new, unsafe_subtendril, unsafe_pop_front, unsafe_pop_back}
use tendril.World.{Rep, is_inline, is_owned, is_shared, World}
use tendril.World.Change
use tendril.World.Change.{owned_at, heap_at}
use tendril.World.Read.{as_byte_slice_lem, unsafe_slice_lem, len32_lem, length-lt}
use tendril.World.Drop.{assign_lem}
use tendril.World.Create.{inlined_lem}
use tendril.World.Share.{
  View, View-length, View-of_Rep, ptr-View, aux-View, raw_len-View, assume_buf-View,
  make_buf_shared_lem, incref_lem,
}
use tendril.World.Returns
use tendril.World.Returns.{Returns, returned}

-- An inline tendril has at most 8 bytes.
pub big_of_length : {m : Mem} {t : Tendril} {xs : List ℕ} → Rep m t xs → 8 < length xs → 15 < t.ptr
big_of_length (is_inline {n} {bs} tag size e) h = absurd (ground (arith, length-take n bs))
big_of_length (is_owned b adr at one sized fits e) h = omega arith
big_of_length (is_shared b adr tag at sized fits e) h = omega arith

-- The branch of `unsafe_subtendril` that shares.
shared_part :
    {m : Mem} {t : Tendril} {ts : List Tendril} {xs : List ℕ} {xss : List (List ℕ)}
    (v : View m t xs) (from n : ℕ)
    → from + n ≤ length xs
    → length ts + 2 < 2 ^ 64
    → World m (t ∷ ts) (xs ∷ xss)
    → Returns
        (λ (t', s) m'. World m' (t' ∷ s ∷ ts) (xs ∷ slice from n xs ∷ xss))
        ((do incref t; (buf, _, _) ← assume_buf t; pure (t, shared buf (add32 (aux t) from) n)) m)
unfolding shared
shared_part {t} {ts} {xs} {xss} v from n inside few w =
    Returns.then_do (incref_lem v from n inside few w) λ _ m' w'.
      let v' =
        View-of_Rep w'.reps.0 (omega (arith, v.address, ptr-View v))
          (omega (arith, v.address, ptr-View v)) in
      let fits : aux t + from < 2 ^ 32 =
        omega (arith, aux-View v', v'.fits, v'.sized.max, View-length v', inside) in
      let same : t.ptr ≡ set_low_bit v'.a = omega (arith, ptr-View v', v'.address) in
      rw (assume_buf-View v', add32_lem (aux t) from fits)
        (returned (
          subst (λ p. World m' (t ∷ heap_at p n (aux t + from) ∷ ts) (xs ∷ slice from n xs ∷ xss))
            same w'))

-- In a memory where every live tendril stands for its bytes and every header counts the tendrils
-- that point to it, and with fewer than 2^64 - 2 other tendrils, `unsafe_subtendril` within bounds
-- returns: the receiver keeps its bytes, the result stands for the slice, and the counts are right
-- again.
pub unsafe_subtendril_lem :
    {m : Mem} {t : Tendril} {ts : List Tendril} {xs : List ℕ} {xss : List (List ℕ)} (from n : ℕ)
    → from + n ≤ length xs
    → length ts + 2 < 2 ^ 64
    → World m (t ∷ ts) (xs ∷ xss)
    → Returns
        (λ (t', s) m'. World m' (t' ∷ s ∷ ts) (xs ∷ slice from n xs ∷ xss))
        (unsafe_subtendril t from n m)
unfolding unsafe_subtendril
unsafe_subtendril_lem {m} {t} {ts} {xs} from n inside few w = elim (Bool-cases (leb n 8)) [
  | inl small ↦
      rw (small, as_byte_slice_lem w.reps.0, unsafe_slice_lem xs from n m inside)
        (Returns.then_do (inlined_lem (slice from n xs) (ground (arith, length-slice from n xs)) w)
          (λ s m' (w', _, _). returned (Change.World-swap w')))
  | inr large ↦ rw large (
      Returns.then_do (make_buf_shared_lem (big_of_length w.reps.0 (ground arith)) w)
        (λ t' m' (w', v). shared_part v from n inside few w'))
]

-- The branch of the `pop` functions that leaves at most 8 bytes.
inline_rest :
    {m : Mem} {t : Tendril} {ts : List Tendril} {xs : List ℕ} {xss : List (List ℕ)} (from n : ℕ)
    → from + n ≤ length xs
    → n ≤ 8
    → World m (t ∷ ts) (xs ∷ xss)
    → Returns
        (λ t' m'. World m' (t' ∷ ts) (slice from n xs ∷ xss))
        ((do
          bytes ← as_byte_slice t
          rest ← unsafe_slice bytes from n
          fresh ← inlined rest
          assign t fresh)
          m)
inline_rest {m} {xs} from n inside small w =
    rw (as_byte_slice_lem w.reps.0, unsafe_slice_lem xs from n m inside)
      (Returns.then_do
        (inlined_lem (slice from n xs) (omega (arith, length-slice from n xs inside)) w)
        (λ fresh m' (w', _, _). Returns.weaken (assign_lem w') (λ t'' m'' (w'', _). w'')))

-- A shared tendril narrowed to a part of itself.
narrowed :
    {m : Mem} {t : Tendril} {ts : List Tendril} {xs : List ℕ} {xss : List (List ℕ)}
    (v : View m t xs) (from n : ℕ)
    → from + n ≤ length xs
    → World m (t ∷ ts) (xs ∷ xss)
    → World m (heap_at t.ptr n (aux t + from) ∷ ts) (slice from n xs ∷ xss)
narrowed {m} {t} {xs} v from n inside w = Change.World-resize refl rep w
  where
    part : slice from n xs ≡ slice (v.off + from) n v.block.bytes
    part =
        rw v.bytes
          (slice-slice from n v.off v.len v.block.bytes (omega (arith, View-length v, inside)))

    rep : Rep m (heap_at t.ptr n (aux t + from)) (slice from n xs)
    rep =
        is_shared v.block v.address (ptr-View v) v.at v.sized
          (omega (arith, aux-View v, View-length v, v.fits, inside))
          (part ∙ ap (λ k. slice (k + from) n v.block.bytes) (sym (aux-View v)))

-- What the setters of the two fields of a heap tendril do.
set_aux_lem : (t : Tendril) (k : ℕ) → set_aux t k ≡ heap_at t.ptr (raw_len t) k
unfolding set_aux raw_len
set_aux_lem t k = refl

pub set_len_lem : (t : Tendril) (k : ℕ) → set_len t k ≡ heap_at t.ptr k (aux t)
unfolding set_len aux
set_len_lem t k = refl

raw_len-heap_at : (p len off : ℕ) → raw_len (heap_at p len off) ≡ len
unfolding raw_len
raw_len-heap_at p len off = refl

pub aux-heap_at : (p len off : ℕ) → aux (heap_at p len off) ≡ off
unfolding aux
aux-heap_at p len off = refl

-- `unsafe_pop_front` on a shared tendril moves its offset.
popped_front :
    {m : Mem} {t : Tendril} {xs : List ℕ} (v : View m t xs) (n : ℕ)
    → n ≤ length xs
    → let t' = set_aux t (add32 (aux t) n) in
      set_len t' (sub32 (raw_len t') n) ≡ heap_at t.ptr (length xs - n) (aux t + n)
popped_front {t} {xs} v n inside =
    let fits : aux t + n < 2 ^ 32 =
      omega (arith, aux-View v, v.fits, v.sized.max, View-length v, inside) in
    let short : raw_len t < 2 ^ 32 = omega (arith, raw_len-View v, v.fits, v.sized.max) in
    let size : length xs ≡ raw_len t = omega (arith, raw_len-View v, View-length v) in
    rw (
      set_aux_lem t (add32 (aux t) n),
      set_len_lem,
      raw_len-heap_at,
      aux-heap_at,
      add32_lem (aux t) n fits,
      sub32_lem (raw_len t) n (omega arith) short,
      size,
    )

-- In a memory where every live tendril stands for its bytes and every header counts the tendrils
-- that point to it, `unsafe_pop_front` of at most the length returns: the receiver drops `n` bytes
-- in front, and no other tendril changes, also where they share the buffer.
pub unsafe_pop_front_lem :
    {m : Mem} {t : Tendril} {ts : List Tendril} {xs : List ℕ} {xss : List (List ℕ)} (n : ℕ)
    → n ≤ length xs
    → World m (t ∷ ts) (xs ∷ xss)
    → Returns (λ t' m'. World m' (t' ∷ ts) (drop n xs ∷ xss)) (unsafe_pop_front t n m)
unfolding unsafe_pop_front
unsafe_pop_front_lem {m} {t} {ts} {xs} n inside w =
    let less : sub32 (len32 t) n ≡ length xs - n =
      rw (len32_lem w.reps.0) (sub32_lem (length xs) n inside (length-lt w.reps.0)) in
    rw (less, drop-eq-slice n xs)
      (elim (Bool-cases (leb (length xs - n) 8)) [
        | inl small ↦ rw small (inline_rest n (length xs - n) (omega arith) (ground arith) w)
        | inr large ↦ rw large (
            Returns.then_do (make_buf_shared_lem (big_of_length w.reps.0 (ground arith)) w)
              (λ t' m' (w', v).
                rw (popped_front v n inside)
                  (returned (narrowed v n (length xs - n) (omega arith) w'))))
      ])

-- In a memory where every live tendril stands for its bytes and every header counts the tendrils
-- that point to it, `unsafe_pop_back` of at most the length returns: the receiver drops `n` bytes
-- at the end, and no other tendril changes.
pub unsafe_pop_back_lem :
    {m : Mem} {t : Tendril} {ts : List Tendril} {xs : List ℕ} {xss : List (List ℕ)} (n : ℕ)
    → n ≤ length xs
    → World m (t ∷ ts) (xs ∷ xss)
    → Returns (λ t' m'. World m' (t' ∷ ts) (take (length xs - n) xs ∷ xss)) (unsafe_pop_back t n m)
unfolding unsafe_pop_back
unsafe_pop_back_lem {m} {t} {ts} {xs} {xss} n inside w =
    rw (len32_lem w.reps.0, sub32_lem (length xs) n inside (length-lt w.reps.0))
      (elim (Bool-cases (leb (length xs - n) 8)) [
        | inl small ↦ rw small (inline_rest 0 (length xs - n) (omega arith) (ground arith) w)
        | inr large ↦ rw large (
            Returns.then_do (make_buf_shared_lem (big_of_length w.reps.0 (ground arith)) w)
              (λ t' m' (w', v). returned (shortened v w')))
      ])
  where
    shortened :
        {m' : Mem} {t' : Tendril}
        → View m' t' xs
        → World m' (t' ∷ ts) (xs ∷ xss)
        → World m' (set_len t' (sub32 (raw_len t') n) ∷ ts) (take (length xs - n) xs ∷ xss)
    shortened {m'} {t'} v w' =
        let short : raw_len t' < 2 ^ 32 = omega (arith, raw_len-View v, v.fits, v.sized.max) in
        let size : length xs ≡ raw_len t' = omega (arith, raw_len-View v, View-length v) in
        let e : aux t' + 0 ≡ aux t' = omega arith in
        rw (set_len_lem, sub32_lem (raw_len t') n (omega arith) short, ← size, ← e)
          (narrowed v 0 (length xs - n) (omega arith) w')

-- `Tendril::new` is empty and inline.
pub new_lem :
    {m : Mem} {ts : List Tendril} {xss : List (List ℕ)}
    → World m ts xss
    → Returns (λ t m'. World m' (t ∷ ts) ([] ∷ xss) × (m' ≡ m) × (t.ptr ≤ 15)) (new m)
unfolding new
new_lem w = inlined_lem [] (omega arith) w
