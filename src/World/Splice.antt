-- ===== src/World/Splice.antt =====
-- The pieces of `push_bytes_without_validating` of `src/tendril.rs` that go into an inline tendril.
use tendril.Common.{
  ℕ, ◌+◌, ◌-◌, ◌≤◌, ◌<◌, ◌^◌, ◌≡◌, ◌∙◌, ap, List, ◌++◌, append_assoc, arith, leb-true, take, drop,
  overwrite, length, replicate, length-append, length-take, length-drop, length-overwrite,
  take-overwrite, drop-eq-slice, sub64_lem,
}
use tendril.Mem.{Mem, done}
use tendril.Mem.Util.{copy_and_advance}
use tendril.Fmt.{Fixup}
use tendril.Tendril.Edit.{splice_inline}
use tendril.World.Read.{unsafe_slice_lem}

-- What a concatenation with a fixup is to be.
abbrev pub spliced : Fixup → (old buf : List ℕ) → List ℕ
spliced fx old buf =
    take (length old - fx.drop_left) old
    ++ (take fx.insert_len fx.insert_bytes ++ drop fx.drop_right buf)

-- The fixup stays inside what it is applied to.
pub record IsFixup (fx : Fixup) (old buf : List ℕ) : Type 0 where
  pub left : fx.drop_left ≤ length old
  pub right : fx.drop_right ≤ length buf
  pub insert : fx.insert_len ≤ length fx.insert_bytes

module _ {fx : Fixup} {old buf : List ℕ} (ok : IsFixup fx old buf) where
  pub length-spliced :
      length (spliced fx old buf)
      ≡ length old - fx.drop_left + fx.insert_len + (length buf - fx.drop_right)
  length-spliced = omega (
    arith,
    ok.left,
    ok.insert,
    length-append (take (length old - fx.drop_left) old)
        (take fx.insert_len fx.insert_bytes ++ drop fx.drop_right buf),
    length-append (take fx.insert_len fx.insert_bytes) (drop fx.drop_right buf),
    length-take (length old - fx.drop_left) old,
    length-take fx.insert_len fx.insert_bytes,
    length-drop fx.drop_right buf,
  )

copy_and_advance_lem :
    (buf : List ℕ) (dest : ℕ) (src : List ℕ) (m : Mem)
    → dest + length src ≤ length buf
    → copy_and_advance buf dest src m ≡ done (overwrite dest src buf, dest + length src) m
unfolding copy_and_advance
copy_and_advance_lem buf dest src m h = rw (leb-true _ _ h)

-- Two writes, the second where the first ends.
pub take-overwrite_twice :
    (at : ℕ) (xs ys bs : List ℕ)
    → at + length xs ≤ length bs
    → take (at + length xs + length ys) (overwrite (at + length xs) ys (overwrite at xs bs))
      ≡ take at bs ++ (xs ++ ys)
take-overwrite_twice at xs ys bs h =
    take-overwrite (at + length xs) ys (overwrite at xs bs)
      (omega (arith, length-overwrite at xs bs h))
    ∙ ap (λ l. l ++ ys) (take-overwrite at xs bs (omega arith))
    ∙ append_assoc (take at bs) xs ys

-- The array after three copies in a row, from its front on.
abbrev copies : (k i p zeros : List ℕ) → List ℕ
copies k i p zeros =
    overwrite (0 + length k + length i) p (overwrite (0 + length k) i (overwrite 0 k zeros))

take-copies :
    (k i p zeros : List ℕ)
    → length k + length i + length p ≤ length zeros
    → take (length (k ++ (i ++ p))) (copies k i p zeros) ≡ k ++ (i ++ p)
take-copies k i p zeros h =
    let size : length (k ++ (i ++ p)) ≡ 0 + length k + length i + length p =
      omega (arith, length-append k (i ++ p), length-append i p) in
    rw size (
      take-overwrite_twice (0 + length k) i p (overwrite 0 k zeros)
        (omega (arith, length-overwrite 0 k zeros (omega arith)))
      ∙ ap (λ l. l ++ (i ++ p)) (take-overwrite 0 k zeros (omega arith)))

pub splice_inline_lem :
    {fx : Fixup} {old buf : List ℕ} (m : Mem)
    → IsFixup fx old buf
    → length (spliced fx old buf) ≤ 8
    → length old < 2 ^ 32
    → length buf < 2 ^ 32
    → (tmp : List ℕ) × (splice_inline fx old buf m ≡ done tmp m)
      × (take (length (spliced fx old buf)) tmp ≡ spliced fx old buf)
unfolding splice_inline
splice_inline_lem {fx} {old} {buf} m ok small lo lb =
    (copies kept inserted pushed zeros, run, take-copies kept inserted pushed zeros room)
  where
    kept : List ℕ
    kept = take (length old - fx.drop_left) old

    inserted : List ℕ
    inserted = take fx.insert_len fx.insert_bytes

    pushed : List ℕ
    pushed = drop fx.drop_right buf

    zeros : List ℕ
    zeros = replicate 8 0

    room : length kept + length inserted + length pushed ≤ 8
    room =
        omega (arith, small, length-append kept (inserted ++ pushed), length-append inserted pushed)

    run : splice_inline fx old buf m ≡ done (copies kept inserted pushed zeros) m
    run =
        let k = length-overwrite 0 kept zeros (omega (arith, room)) in
        let i =
          length-overwrite (0 + length kept) inserted (overwrite 0 kept zeros)
            (omega (arith, room, k)) in
        rw (
          sub64_lem (length old) fx.drop_left ok.left (omega arith),
          unsafe_slice_lem old 0 (length old - fx.drop_left) m (omega arith),
          copy_and_advance_lem zeros 0 kept m (omega (arith, room)),
          unsafe_slice_lem fx.insert_bytes 0 fx.insert_len m (omega (arith, ok.insert)),
          copy_and_advance_lem (overwrite 0 kept zeros) (0 + length kept) inserted m
              (omega (arith, room, k)),
          sub64_lem (length buf) fx.drop_right ok.right (omega arith),
          unsafe_slice_lem buf fx.drop_right (length buf - fx.drop_right) m
              (omega (arith, ok.right)),
          ← drop-eq-slice fx.drop_right buf,
          copy_and_advance_lem (overwrite (0 + length kept) inserted (overwrite 0 kept zeros))
              (0 + length kept + length inserted) pushed m (omega (arith, room, k, i)),
        )
