-- ===== src/World/Push.antt =====
-- `push_bytes_without_validating` of `src/tendril.rs`, with whatever fixup the format asks for.
use tendril.Common.{
  ℕ, ◌+◌, ◌-◌, ◌≤◌, ◌^◌, ◌≡◌, inl, inr, ap, subst, some, List, ◌∷◌, ◌++◌, arith, leb, leb-true,
  Bool-cases, length, take_all, add32_lem, sub32_lem, as_u32_lem, checked_add32_lem,
}
use tendril.Mem.{Mem}
use tendril.Fmt.{Format, Fixup, default_fixup}
use tendril.Tendril.{Tendril}
use tendril.Tendril.Edit.{push_bytes_without_validating}
use tendril.World.{World}
use tendril.World.Read.{as_byte_slice_lem, length-lt, len32_lem}
use tendril.World.Drop.{assign_lem}
use tendril.World.Create.{inlined_lem}
use tendril.World.Own.{make_owned_with_capacity_lem}
use tendril.World.Returns
use tendril.World.Returns.{Returns, returned}
use tendril.World.Splice.{spliced, IsFixup, splice_inline_lem, length-spliced}
use tendril.World.SpliceHeap.{splice_heap_lem}

-- In a memory where every live tendril stands for its bytes and every header counts the tendrils
-- that point to it, a push of `buf` whose format asks for a fixup that stays inside the two byte
-- strings, with a total of at most 2^31 bytes, returns. The receiver then stands for its bytes less
-- the left part, the inserted bytes, and `buf` less the right part; all other tendrils keep their
-- bytes.
pub push_bytes_without_validating_lem :
    {m : Mem} {t : Tendril} {ts : List Tendril} {xs : List ℕ} {xss : List (List ℕ)}
    (format : Format) (buf : List ℕ) (fx : Fixup)
    → format.fixup xs buf ≡ some fx
    → IsFixup fx xs buf
    → length xs + fx.insert_len + length buf ≤ 2 ^ 31
    → World m (t ∷ ts) (xs ∷ xss)
    → Returns
        (λ t' m'. World m' (t' ∷ ts) (spliced fx xs buf ∷ xss))
        (push_bytes_without_validating format t buf m)
unfolding push_bytes_without_validating
push_bytes_without_validating_lem {m} {t} {ts} {xs} {xss} format buf fx fixed ok bound w =
    rw
      (
        leb-true (length buf) (2 ^ 32 - 1) (omega arith),
        as_byte_slice_lem w.reps.0,
        fixed,
        len32_lem w.reps.0,
        add32_lem (length xs) fx.insert_len (omega arith),
        sub32_lem (length xs + fx.insert_len) fx.drop_left (omega (arith, ok.left)) (omega arith),
        as_u32_lem (length buf) (omega arith),
        checked_add32_lem (length xs + fx.insert_len - fx.drop_left) (length buf) (omega arith),
        sub32_lem (length xs + fx.insert_len - fx.drop_left + length buf) fx.drop_right
            (omega (arith, ok.right)) (omega arith),
        size,
      )
      (elim (Bool-cases (leb (length (spliced fx xs buf)) 8)) [
        | inl small ↦
            let (tmp, run, front) =
              splice_inline_lem m ok (ground arith) (length-lt w.reps.0) (omega arith) in
            rw (small, as_byte_slice_lem w.reps.0, run, front)
              (Returns.then_do (inlined_lem (spliced fx xs buf) (ground arith) w)
                (λ fresh m' (w', _, _). Returns.weaken (assign_lem w') (λ t'' m'' (w'', _). w'')))
        | inr large ↦ rw large (
            Returns.then_do
              (make_owned_with_capacity_lem (length (spliced fx xs buf))
                (omega (arith, length-spliced ok)) w)
              (λ t' m' (w', roomy).
                Returns.then_do (splice_heap_lem w'.reps.0 roomy ok (omega arith) w')
                  (λ _ m'' w''. returned w'')))
      ])
  where
    size :
        length xs + fx.insert_len - fx.drop_left + length buf - fx.drop_right
        ≡ length (spliced fx xs buf)
    size = omega (arith, length-spliced ok, ok.left, ok.right)

-- In a memory where every live tendril stands for its bytes and every header counts the tendrils
-- that point to it, a push with a format that needs no fixup, and a total of at most 2^31 bytes,
-- returns the concatenation, and no other tendril changes.
pub push_plain :
    {m : Mem} {t : Tendril} {ts : List Tendril} {xs : List ℕ} {xss : List (List ℕ)}
    (format : Format) (buf : List ℕ)
    → format.fixup xs buf ≡ some default_fixup
    → length xs + length buf ≤ 2 ^ 31
    → World m (t ∷ ts) (xs ∷ xss)
    → Returns
        (λ t' m'. World m' (t' ∷ ts) ((xs ++ buf) ∷ xss))
        (push_bytes_without_validating format t buf m)
unfolding default_fixup
push_plain {m} {t} {ts} {xs} {xss} format buf plain_fixup bound w =
    subst
      (λ l.
        Returns (λ t' m'. World m' (t' ∷ ts) (l ∷ xss))
          (push_bytes_without_validating format t buf m))
      plain
      (push_bytes_without_validating_lem format buf default_fixup plain_fixup ok (omega arith) w)
  where
    ok : IsFixup default_fixup xs buf
    ok = record { left = omega arith; right = omega arith; insert = omega arith }

    plain : spliced default_fixup xs buf ≡ xs ++ buf
    plain = ap (λ l. l ++ buf) (take_all (length xs - 0) xs (omega arith))
