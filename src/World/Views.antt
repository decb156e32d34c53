-- ===== src/World/Views.antt =====
-- `as_mut_byte_slice` of `src/tendril.rs`, and stores through its slice.
use tendril.Common.{
  ℕ, ◌+◌, ◌-◌, ◌%◌, ◌≤◌, ◌≡◌, ◌⊎◌, inl, inr, refl, sym, ◌∙◌, ap, some, zero, suc, List, [], ◌∷◌,
  ◌++◌, arith, leb-true, leb-false, eqb_true, eqb_false, take, drop, length, overwrite, drop-take,
  length-take, length-overwrite, take-append_right, take-take,
}
use tendril.Mem.{Block, Mem, pure, ◌>>=◌}
use tendril.Mem.Util.{unsafe_slice}
use tendril.Buf32.{contents}
use tendril.Tendril.{Tendril, inline, inline_of, len32, assume_buf}
use tendril.Tendril.Views.{as_mut_byte_slice, write_slice}
use tendril.World.{Rep, is_inline, is_owned, is_shared, World}
use tendril.World.Alone
use tendril.World.Change
use tendril.World.Change.{owned_at, put}
use tendril.World.Read.{len32_lem, assume_buf-owned, IsSized-le, contents_lem, unsafe_slice_lem}
use tendril.World.Create.{write_bytes_lem}
use tendril.World.Returns
use tendril.World.Returns.{Returns, returned}
use tendril.World.Owned.{Own, Own-of_Rep, make_owned_lem}

-- Nobody else sees a store to it.
abbrev pub IsUnshared : Tendril → Type 0
IsUnshared t = (t.ptr ≤ 15) ⊎ (t.ptr % 2 ≡ 0)

-- A store to the front part of a list.
overwrite-take :
    (at : ℕ) (ys : List ℕ) (n : ℕ) (xs : List ℕ)
    → at + length ys ≤ n
    → n ≤ length xs
    → overwrite at ys (take n xs) ≡ take n (overwrite at ys xs)
overwrite-take zero ys n xs h k =
    let e : n ≡ length ys + (n - length ys) = omega arith in
    let z : zero + length ys ≡ length ys = omega arith in
    rw (z, take-append_right n ys (drop (length ys) xs) (omega arith))
      (ap (λ l. ys ++ l)
        (ap (λ i. drop (length ys) (take i xs)) e ∙ drop-take (length ys) (n - length ys) xs))
overwrite-take (suc at) ys zero xs h k = absurd (omega arith)
overwrite-take (suc at) ys (suc n) [] h k = absurd (omega arith)
overwrite-take (suc at) ys (suc n) (x ∷ xs) h k =
    let e : suc at + length ys ≡ suc (at + length ys) = omega arith in
    rw e (ap (λ l. x ∷ l) (overwrite-take at ys n xs (omega arith) (omega arith)))

module _ {ts : List Tendril} {xss : List (List ℕ)} where
  -- An owned tendril is read through its buffer.
  owned_bytes :
      {m : Mem} {t : Tendril} {xs : List ℕ}
      → World m (t ∷ ts) (xs ∷ xss)
      → Own m t xs
      → Returns
          (λ (t', bytes) m'. World m' (t' ∷ ts) (xs ∷ xss) × (bytes ≡ xs) × IsUnshared t')
          ((do
            (buf, _, offset) ← assume_buf t
            all ← contents buf
            bytes ← unsafe_slice all offset (len32 t)
            pure (t, bytes))
            m)
  owned_bytes {m} {t} {xs} w o =
      let room : o.len ≤ length o.block.bytes = omega (arith, IsSized-le o.sized, o.fits) in
      let size : length xs ≡ o.len =
        ap length o.bytes ∙ omega (arith, length-take o.len o.block.bytes, room) in
      rw
        (
          o.shape,
          assume_buf-owned o.a o.len o.cap m o.address (omega (arith, o.fits, o.sized.max)),
          contents_lem o.a o.len o.cap m o.block o.at room,
          ← o.shape,
          len32_lem w.reps.0,
          unsafe_slice_lem (take o.len o.block.bytes) 0 (length xs) m
              (omega (arith, length-take o.len o.block.bytes, size, room)),
        )
        (returned (
          w,
          rw size (take-take o.len o.len o.block.bytes (omega arith) ∙ sym o.bytes),
          inr (rw o.shape o.address.1),
        ))

  mut_bytes :
      {m : Mem} {t : Tendril} {xs : List ℕ}
      → Rep m t xs
      → World m (t ∷ ts) (xs ∷ xss)
      → Returns
          (λ (t', bytes) m'. World m' (t' ∷ ts) (xs ∷ xss) × (bytes ≡ xs) × IsUnshared t')
          (as_mut_byte_slice t m)
  unfolding as_mut_byte_slice inline_of
  mut_bytes (is_inline {p} {n} {bs} (inl tag) size e) w =
      rw (eqb_true p 15 tag.0) (returned (w, rw (e, tag.1) refl, inl (omega arith)))
  mut_bytes {m} (is_inline {p} {n} {bs} (inr tag) size e) w =
      rw (eqb_false p 15 (omega arith), leb-true p 8 (omega arith))
        (rw (unsafe_slice_lem bs 0 p m (omega arith))
          (returned (w, rw tag.0 (sym e), inl (omega arith))))
  mut_bytes (is_owned {a} b adr at one sized fits e) w =
      rw (eqb_false a 15 (omega arith), leb-false a 8 (omega arith))
        (Returns.then_do (make_owned_lem w)
          (λ t' m' (w', big, even). owned_bytes w' (Own-of_Rep w'.reps.0 big even)))
  mut_bytes (is_shared {p} b adr tag at sized fits e) w =
      rw (eqb_false p 15 (omega arith), leb-false p 8 (omega arith))
        (Returns.then_do (make_owned_lem w)
          (λ t' m' (w', big, even). owned_bytes w' (Own-of_Rep w'.reps.0 big even)))

  pub as_mut_byte_slice_lem :
      {m : Mem} {t : Tendril} {xs : List ℕ}
      → World m (t ∷ ts) (xs ∷ xss)
      → Returns
          (λ (t', bytes) m'. World m' (t' ∷ ts) (xs ∷ xss) × (bytes ≡ xs) × IsUnshared t')
          (as_mut_byte_slice t m)
  as_mut_byte_slice_lem w = mut_bytes w.reps.0 w

  stored :
      {m : Mem} {t : Tendril} {xs : List ℕ} (at : ℕ) (src : List ℕ)
      → Rep m t xs
      → IsUnshared t
      → at + length src ≤ length xs
      → World m (t ∷ ts) (xs ∷ xss)
      → Returns (λ t' m'. World m' (t' ∷ ts) (overwrite at src xs ∷ xss)) (write_slice t at src m)
  unfolding write_slice inline_of
  stored {m} {t} {xs} at src (is_inline {p} {n} {bs} tag size e) alone inside w =
      let part : length (take n bs) ≡ n = ground (arith, length-take n bs) in
      let fits : at + length src ≤ n = omega (arith, ap length e, part) in
      let short : n ≤ length bs = ground arith in
      rw
        (
          len32_lem w.reps.0,
          leb-true (at + length src) (length xs) inside,
          leb-true p 15 (ground arith),
        )
        (returned (
          Change.World-cons_inline {t = record { ptr = p; buf = inline (overwrite at src bs) }}
            (ground arith)
            (is_inline tag (length-overwrite at src bs (omega arith) ∙ size)
              (ap (λ l. overwrite at src l) e ∙ overwrite-take at src n bs fits short))
            (Change.World-inline (ground arith) w)))
  stored {m} at src (is_owned {a} {len} {cap} {xs} b adr at' one sized fits e) alone inside w =
      let room : len ≤ length b.bytes = omega (arith, IsSized-le sized, fits) in
      let size : length xs ≡ len = ap length e ∙ omega (arith, length-take len b.bytes, room) in
      let zero_add : 0 + at ≡ at = omega arith in
      let b' : Block = record b { bytes = overwrite at src b.bytes } in
      let long : length (overwrite at src b.bytes) ≡ length b.bytes =
        length-overwrite at src b.bytes (omega arith) in
      rw
        (
          len32_lem w.reps.0,
          leb-true (at + length src) (length xs) inside,
          leb-false a 15 (omega arith),
          assume_buf-owned a len cap m adr (omega (arith, sized.max)),
          zero_add,
          write_bytes_lem a at src m b at' (omega arith),
        )
        (returned (
          Alone.World-of_alone (Alone.Apart-put (Alone.Apart-of_owned b adr at' one w) (some b')) b'
            (Change.update_self _ _ _) one (omega arith)
            (is_owned b' adr (Change.update_self _ _ _) one
              (record {
                units = sized.units;
                room = long ∙ sized.room;
                min = sized.min;
                max = sized.max;
              })
              fits
              (ap (λ l. overwrite at src l) e
                ∙ overwrite-take at src len b.bytes (omega arith) room))))
  stored at src (is_shared b adr tag at' sized fits e) alone inside w = absurd (ground arith)

  -- `write_slice` after `as_mut_byte_slice` changes the bytes of this tendril only.
  pub write_slice_lem :
      {m : Mem} {t : Tendril} {xs : List ℕ} (at : ℕ) (src : List ℕ)
      → IsUnshared t
      → at + length src ≤ length xs
      → World m (t ∷ ts) (xs ∷ xss)
      → Returns (λ t' m'. World m' (t' ∷ ts) (overwrite at src xs ∷ xss)) (write_slice t at src m)
  write_slice_lem at src alone inside w = stored at src w.reps.0 alone inside w
