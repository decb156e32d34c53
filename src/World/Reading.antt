-- ===== src/World/Reading.antt =====
-- `read_to_tendril` of `src/tendril.rs`.
use tendril.Common.{
  ℕ, zero, suc, ◌+◌, ◌-◌, ◌*◌, ◌≤◌, ◌<◌, ◌^◌, ◌≡◌, inl, inr, refl, sym, ◌∙◌, ap, subst, Option,
  none, some, Result, ok, List, [], ◌∷◌, ◌++◌, append-nil, append_assoc, arith, ltb, ◌==◌,
  Bool-cases, leb-true, take, drop, drop-drop, if◌then◌else◌, length, length-append, overwrite,
  sub32_lem, sub64_lem, as_u32_lem,
}
use tendril.Mem.{Mem, pure, ◌>>=◌}
use tendril.Fmt.{bytes}
use tendril.Tendril.{Tendril}
use tendril.Tendril.Reading.{
  Reply, got, interrupted, failed, more_room, trimmed, on_reply, read_loop, read_to_tendril,
}
use tendril.World.{World}
use tendril.World.Read.{as_byte_slice_lem, len32_lem, length-lt}
use tendril.World.Uninitialized.{push_uninitialized_lem}
use tendril.World.Unwrapped.{pop_back_lem}
use tendril.World.Chars.{take_front, drop_front}
use tendril.World.Views.{IsUnshared, as_mut_byte_slice_lem, write_slice_lem}
use tendril.World.Returns
use tendril.World.Returns.{Returns, returned}
use tendril.World.Replies.{Delivers, Ending, Brings, result_of}

-- A store in front of the bytes that are left to fill.
overwrite-front :
    (xs bs slack : List ℕ)
    → length bs ≤ length slack
    → overwrite (length xs) bs (xs ++ slack) ≡ (xs ++ bs) ++ drop (length bs) slack
overwrite-front xs bs slack h =
    rw (take_front xs slack, ← drop-drop (length bs) (length xs) (xs ++ slack), drop_front xs slack)
      (sym (append_assoc xs bs (drop (length bs) slack)))

-- There is room, and what was read so far is still there.
abbrev Roomy : List Tendril → List (List ℕ) → List ℕ → Tendril × ℕ → Mem → Type 0
Roomy ts xss xs (t, size) m =
    (slack : List ℕ) × (0 < length slack)
    × (0 < size)
    × (size ≤ 2 ^ 17)
    × World m (t ∷ ts) ((xs ++ slack) ∷ xss)

module _ {ts : List Tendril} {xss : List (List ℕ)} where
  more_room_lem :
      {m : Mem} {t : Tendril} (xs slack : List ℕ) (size : ℕ)
      → 0 < size
      → size ≤ 2 ^ 17
      → length xs + 2 ^ 17 ≤ 2 ^ 31
      → World m (t ∷ ts) ((xs ++ slack) ∷ xss)
      → Returns (Roomy ts xss xs) (more_room t (length xs) (length (xs ++ slack)) size m)
  unfolding more_room
  more_room_lem xs slack size pos small bound w =
      let total = length-append xs slack in
      elim (Bool-cases (length xs == length (xs ++ slack))) [
        | inl full ↦
            let next : ℕ = if ltb size 65536 then size * 2 else size in
            let next_small : next ≤ 2 ^ 17 = ground arith in
            let next_pos : 0 < next = ground arith in
            rw full (
              Returns.then_do (push_uninitialized_lem next (ground arith) w)
                (λ t' m' (fresh, count, w'). returned (
                  slack ++ fresh,
                  omega (arith, length-append slack fresh),
                  next_pos,
                  next_small,
                  subst (λ l. World m' (t' ∷ ts) (l ∷ xss)) (append_assoc xs slack fresh) w',
                )))
        | inr more ↦ rw more (returned (slack, ground arith, pos, small, w))
      ]

  trimmed_lem :
      {m : Mem} {t : Tendril} (xs slack : List ℕ)
      → World m (t ∷ ts) ((xs ++ slack) ∷ xss)
      → Returns (λ t' m'. World m' (t' ∷ ts) (xs ∷ xss)) (trimmed t (length xs) m)
  unfolding trimmed bytes
  trimmed_lem xs slack w =
      let total = length-append xs slack in
      let small = length-lt w.reps.0 in
      let size : length (xs ++ slack) - length slack ≡ length xs = omega arith in
      let rest : length (xs ++ slack) - length xs ≡ length slack = omega arith in
      rw
        (
          len32_lem w.reps.0,
          as_u32_lem (length xs) (omega arith),
          sub32_lem (length (xs ++ slack)) (length xs) (omega arith) (omega arith),
          rest,
        )
        (Returns.weaken (pop_back_lem bytes (length slack) (omega arith) refl w) (λ t' m' w'.
          subst (λ l. World m' (t' ∷ ts) (l ∷ xss))
            (ap (λ k. take k (xs ++ slack)) size ∙ take_front xs slack) w'))

-- The outcome of the loop: the bytes `zs`, a count of `n` or the error.
abbrev pub Reads :
    {R E : Type 0}
    → List Tendril
    → List (List ℕ)
    → List ℕ
    → ℕ
    → Ending E
    → Option (Tendril × R × Result ℕ E)
    → Mem
    → Type 0
Reads ts xss zs n o none m = ⊥
Reads ts xss zs n o (some (t, r, result)) m = (result ≡ result_of n o) × World m (t ∷ ts) (zs ∷ xss)

module _ {R E : Type 0} (read : R → ℕ → Reply E × R) (ts : List Tendril) (xss : List (List ℕ))
    (start : ℕ) where
  -- What `read_loop` promises of so many calls.
  abbrev Looping : ℕ → Type 0
  Looping calls =
      (m : Mem) (t : Tendril) (r : R) (xs slack ys : List ℕ) (o : Ending E) (size : ℕ)
      → start ≤ length xs
      → 0 < size
      → size ≤ 2 ^ 17
      → length xs + length ys + 2 ^ 17 ≤ 2 ^ 31
      → Delivers read calls r ys o
      → World m (t ∷ ts) ((xs ++ slack) ∷ xss)
      → Returns (Reads ts xss (xs ++ ys) (length (xs ++ ys) - start) o)
          (read_loop read calls t start (length xs) size r m)

  -- The loop ends with what it has.
  closed :
      {m : Mem} {t : Tendril} (r : R) (xs slack ys : List ℕ) (o : Ending E) (result : Result ℕ E)
      → ys ≡ []
      → result ≡ result_of (length xs - start) o
      → World m (t ∷ ts) ((xs ++ slack) ∷ xss)
      → Returns
          (Reads ts xss (xs ++ ys) (length (xs ++ ys) - start) o)
          ((do t ← trimmed t (length xs); pure (some (t, r, result))) m)
  closed r xs slack ys o result last e w =
      rw (last, append-nil)
        (Returns.then_do (trimmed_lem xs slack w) (λ t' m' w'. returned (e, w')))

  reply_lem :
      {m : Mem} {t : Tendril} (calls : ℕ) (reply : Reply E × R) (xs slack ys : List ℕ)
      (o : Ending E) (size : ℕ)
      → Looping calls
      → start ≤ length xs
      → 0 < size
      → size ≤ 2 ^ 17
      → length xs + length ys + 2 ^ 17 ≤ 2 ^ 31
      → IsUnshared t
      → Brings (Delivers read calls) (length slack) reply ys o
      → World m (t ∷ ts) ((xs ++ slack) ∷ xss)
      → Returns (Reads ts xss (xs ++ ys) (length (xs ++ ys) - start) o) (
          on_reply read
            (λ t len r. read_loop read calls t start len size r)
            t
            start
            (length xs)
            reply
            m)
  unfolding on_reply
  reply_lem calls (got [], r) xs slack ys o size next from pos small bound alone (last, e) w =
      closed r xs slack ys o _ last
        (ap ok (sub64_lem (length xs) start from (omega arith))
          ∙ ap (λ o. result_of (length xs - start) o) (sym e))
        w
  reply_lem calls (got (b ∷ bs), r) xs slack ys o size next from pos small bound alone
        (rest, e, fits, later) w =
      let total = length-append xs slack in
      let longer = length-append xs (b ∷ bs) in
      Returns.then_do (write_slice_lem (length xs) (b ∷ bs) alone (omega arith) w) (λ t' m' w'.
        rw (e, ← append_assoc xs (b ∷ bs) rest, ← longer)
          (next m' t' r (xs ++ (b ∷ bs)) (drop (length (b ∷ bs)) slack) rest o size (omega arith)
            pos small (omega (arith, ap length e, length-append (b ∷ bs) rest)) later
            (subst (λ l. World m' (t' ∷ ts) (l ∷ xss)) (overwrite-front xs (b ∷ bs) slack fits)
              w')))
  reply_lem calls (interrupted, r) xs slack ys o size next from pos small bound alone later w =
      next _ _ r xs slack ys o size from pos small bound later w
  reply_lem calls (failed f, r) xs slack ys o size next from pos small bound alone (last, e) w =
      closed r xs slack ys o _ last (ap (λ o. result_of (length xs - start) o) (sym e)) w

  loop_lem : (calls : ℕ) → Looping calls
  unfolding read_loop
  loop_lem zero m t r xs slack ys o size from pos small bound never w = absurd never
  loop_lem (suc calls) m t r xs slack ys o size from pos small bound delivers w =
      rw (as_byte_slice_lem w.reps.0) (
        Returns.then_do (more_room_lem xs slack size pos small (omega arith) w)
          (λ (t', size') m' (slack', room, pos', small', w').
            Returns.then_do (as_mut_byte_slice_lem w') (λ (t'', seen) m'' (w'', e, alone).
              let total = length-append xs slack' in
              let left : length (xs ++ slack') - length xs ≡ length slack' = omega arith in
              rw (e, leb-true (length xs) (length (xs ++ slack')) (omega arith), left)
                (reply_lem calls (read r (length slack')) xs slack' ys o size' (loop_lem calls) from
                  pos' small' bound alone (delivers (length slack') room) w''))))

-- In a memory where every live tendril stands for its bytes and every header counts the tendrils
-- that point to it, and with a reader that delivers the bytes `ys` in pieces of any size within so
-- many calls and then ends or fails, interruptions included, `read_to_tendril` with that many
-- rounds returns: the tendril has `ys` behind its bytes, also after an error, and the result is
-- their number or the error; no other tendril changes. The total is at most 2^31 - 2^17 bytes.
pub read_to_tendril_lem :
    {R E : Type 0} (read : R → ℕ → Reply E × R) {m : Mem} {t : Tendril} {ts : List Tendril}
    {xs : List ℕ} {xss : List (List ℕ)} (calls : ℕ) (r : R) (ys : List ℕ) (o : Ending E)
    → Delivers read calls r ys o
    → length xs + length ys + 2 ^ 17 ≤ 2 ^ 31
    → World m (t ∷ ts) (xs ∷ xss)
    → Returns (Reads ts xss (xs ++ ys) (length ys) o) (read_to_tendril read calls r t m)
unfolding read_to_tendril
read_to_tendril_lem read {m} {t} {ts} {xs} {xss} calls r ys o delivers bound w =
    let count : length (xs ++ ys) - length xs ≡ length ys = omega (arith, length-append xs ys) in
    rw (as_byte_slice_lem w.reps.0, ← count)
      (loop_lem read ts xss (length xs) calls m t r xs [] ys o 16 (omega arith) (omega arith)
        (omega arith) bound delivers
        (subst (λ l. World m (t ∷ ts) (l ∷ xss)) (sym (append-nil xs)) w))
