-- ===== src/Client/Refine.antt =====
-- Every call of a program does what the program may think.
use tendril.Common.{
  ℕ, ◌+◌, ◌-◌, ◌≡◌, sym, subst, inl, inr, true, false, Result, ok, err, List, [], ◌∷◌, arith, ltb,
  ◌==◌, ◌||◌, Bool-cases, length, take, take_all, drop,
}
use tendril.Mem.{Mem}
use tendril.Fmt.{Format}
use tendril.Tendril.{Tendril}
use tendril.Tendril.Checked.{SubtendrilError, out_of_bounds, validation_failed}
use tendril.World.{World}
use tendril.World.Shuffle.{World-Shuffle}
use tendril.World.Share.{clone_lem}
use tendril.World.Join.{push_tendril_lem}
use tendril.World.Clear.{clear_lem}
use tendril.World.Drop.{drop_tendril_lem}
use tendril.World.Reserve.{reserve_lem}
use tendril.World.Checked.{
  Subtendril, PopFront, PopBack, try_subtendril_lem, try_pop_front_lem, try_pop_back_lem,
}
use tendril.World.Extend.{
  IsPlain, FromBytes, PushBytes, try_from_byte_slice_lem, try_push_bytes_lem,
}
use tendril.World.Views.{as_mut_byte_slice_lem, write_slice_lem}
use tendril.World.Send.{send_lem}
use tendril.World.Returns
use tendril.World.Returns.{Returns, returned}
use tendril.Client.{
  Call, create, focus, copy, cut, push, push_second, shorten_front, shorten_back, empty, make_room,
  write, move_away, release, with_new, with_slice, call, run, effect, effects, IsAllowed,
  AreAllowed,
}
use tendril.Client.Pull.{Reps-paired, pull-Shuffle}

module _ (format : Format) where
  -- What the checked calls leave.
  sliced :
      {m : Mem} (ts : List Tendril) (xs : List ℕ) (xss : List (List ℕ)) (from n : ℕ)
      (r : Tendril × Result Tendril SubtendrilError)
      → Subtendril format ts xs xss from n r m
      → World m (with_slice ts r) (effect format (cut from n) (xs ∷ xss))
  sliced ts xs xss from n (t, ok s) (inside, valid, w) =
      let e : ltb (length xs) (from + n) ≡ false = ground arith in rw (e, valid) w
  sliced ts xs xss from n (t, err out_of_bounds) (outside, w) =
      let e : ltb (length xs) (from + n) ≡ true = ground arith in rw e w
  sliced ts xs xss from n (t, err validation_failed) (inside, bad, w) =
      let e : ltb (length xs) (from + n) ≡ false = ground arith in rw (e, bad) w

  shortened_front :
      {m : Mem} (ts : List Tendril) (xs : List ℕ) (xss : List (List ℕ)) (n : ℕ)
      (r : Tendril × Result (Unit {0}) SubtendrilError)
      → PopFront format ts xs xss n r m
      → World m (r.0 ∷ ts) (effect format (shorten_front n) (xs ∷ xss))
  shortened_front ts xs xss n (t, ok s) (inside, why, w) =
      let e : ltb (length xs) n ≡ false = ground arith in
      let valid : ((n == 0) || format.validate_suffix (drop n xs)) ≡ true = ground (arith, why) in
      rw (e, valid) w
  shortened_front ts xs xss n (t, err out_of_bounds) (outside, w) =
      let e : ltb (length xs) n ≡ true = ground arith in rw e w
  shortened_front ts xs xss n (t, err validation_failed) (inside, bad, w) =
      let e : ltb (length xs) n ≡ false = ground arith in
      rw (e, bad)
        (elim (Bool-cases (n == 0)) [
          | inl nothing ↦ let z : n ≡ 0 = ground arith in rw nothing (rw z w)
          | inr some_asked ↦ rw some_asked w
        ])

  shortened_back :
      {m : Mem} (ts : List Tendril) (xs : List ℕ) (xss : List (List ℕ)) (n : ℕ)
      (r : Tendril × Result (Unit {0}) SubtendrilError)
      → PopBack format ts xs xss n r m
      → World m (r.0 ∷ ts) (effect format (shorten_back n) (xs ∷ xss))
  shortened_back ts xs xss n (t, ok s) (inside, why, w) =
      let e : ltb (length xs) n ≡ false = ground arith in
      let valid : ((n == 0) || format.validate_prefix (take (length xs - n) xs)) ≡ true =
        ground (arith, why) in
      rw (e, valid) w
  shortened_back ts xs xss n (t, err out_of_bounds) (outside, w) =
      let e : ltb (length xs) n ≡ true = ground arith in rw e w
  shortened_back {m} ts xs xss n (t, err validation_failed) (inside, bad, w) =
      let e : ltb (length xs) n ≡ false = ground arith in
      rw (e, bad)
        (elim (Bool-cases (n == 0)) [
          | inl nothing ↦ rw nothing (
              subst (λ l. World m (t ∷ ts) (l ∷ xss))
                (sym (take_all (length xs - n) xs (ground arith))) w)
          | inr some_asked ↦ rw some_asked w
        ])

  created :
      {m : Mem} (ts : List Tendril) (xss : List (List ℕ)) (x : List ℕ)
      (r : Result Tendril (Unit {0}))
      → FromBytes format ts xss x r m
      → World m (with_new ts r) (effect format (create x) xss)
  created ts xss x (ok t) (valid, w) = rw valid w
  created ts xss x (err _) (bad, w) = rw bad w

  pushed :
      {m : Mem} (ts : List Tendril) (xs : List ℕ) (xss : List (List ℕ)) (buf : List ℕ)
      (r : Tendril × Result (Unit {0}) (Unit {0}))
      → PushBytes format ts xs xss buf r m
      → World m (r.0 ∷ ts) (effect format (push buf) (xs ∷ xss))
  pushed ts xs xss buf (t, ok _) (valid, w) = rw valid w
  pushed ts xs xss buf (t, err _) (bad, w) = rw bad w

  module _ (plain : IsPlain format) {m : Mem} where
    -- A call on the tendril in front.
    front_lem :
        (c : Call) (t : Tendril) (ts : List Tendril) (xs : List ℕ) (xss : List (List ℕ))
        → IsAllowed format c (xs ∷ xss)
        → World m (t ∷ ts) (xs ∷ xss)
        → Returns (λ ts' m'. World m' ts' (effect format c (xs ∷ xss))) (call format c (t ∷ ts) m)
    front_lem (create x) t ts xs xss fine w =
        Returns.then_do (try_from_byte_slice_lem format x fine w)
          (λ r _ p. returned (created (t ∷ ts) (xs ∷ xss) x r p))
    front_lem (focus n) t ts xs xss fine w =
        let paired = Reps-paired m (t ∷ ts) (xs ∷ xss) w.reps in
        returned (World-Shuffle (pull-Shuffle n (t ∷ ts) (xs ∷ xss) paired) w)
    front_lem copy t ts xs xss fine w =
        let paired = Reps-paired m ts xss w.reps.1 in
        Returns.then_do (clone_lem (omega arith) w) (λ _ _ w'. returned w')
    front_lem (cut from n) t ts xs xss fine w =
        let paired = Reps-paired m ts xss w.reps.1 in
        Returns.then_do (try_subtendril_lem format from n (omega arith) w)
          (λ r _ p. returned (sliced ts xs xss from n r p))
    front_lem (push buf) t ts xs xss fine w =
        Returns.then_do (try_push_bytes_lem format plain buf fine w)
          (λ r _ p. returned (pushed ts xs xss buf r p))
    front_lem push_second t [] xs [] fine w = returned w
    front_lem push_second t [] xs (ys ∷ xss) fine w = absurd w.reps.1
    front_lem push_second t (u ∷ ts) xs [] fine w = absurd w.reps.1
    front_lem push_second t (u ∷ ts) xs (ys ∷ xss) fine w =
        Returns.then_do (push_tendril_lem format (plain xs ys) fine w) (λ _ _ w'. returned w')
    front_lem (shorten_front n) t ts xs xss fine w =
        Returns.then_do (try_pop_front_lem format n w)
          (λ r _ p. returned (shortened_front ts xs xss n r p))
    front_lem (shorten_back n) t ts xs xss fine w =
        Returns.then_do (try_pop_back_lem format n w)
          (λ r _ p. returned (shortened_back ts xs xss n r p))
    front_lem empty t ts xs xss fine w = Returns.then_do (clear_lem w) (λ _ _ w'. returned w')
    front_lem (make_room n) t ts xs xss fine w =
        Returns.then_do (reserve_lem n fine w) (λ _ _ p. returned p.0)
    front_lem (write at src) t ts xs xss fine w =
        Returns.then_do (as_mut_byte_slice_lem w) (λ _ _ (w', _, alone).
          Returns.then_do (write_slice_lem at src alone fine.0 w') (λ _ _ w''. returned w''))
    front_lem move_away t ts xs xss fine w = Returns.then_do (send_lem w) (λ _ _ p. returned p.0)
    front_lem release t ts xs xss fine w =
        Returns.then_do (drop_tendril_lem w) (λ _ _ w'. returned w')

    call_lem :
        (c : Call) (ts : List Tendril) (xss : List (List ℕ))
        → IsAllowed format c xss
        → World m ts xss
        → Returns (λ ts' m'. World m' ts' (effect format c xss)) (call format c ts m)
    call_lem c (t ∷ ts) (xs ∷ xss) fine w = front_lem c t ts xs xss fine w
    call_lem c (t ∷ ts) [] fine w = absurd w.reps
    call_lem c [] (xs ∷ xss) fine w = absurd w.reps
    call_lem (create x) [] [] fine w =
        Returns.then_do (try_from_byte_slice_lem format x fine w)
          (λ r _ p. returned (created [] [] x r p))
    call_lem (focus n) [] [] fine w = returned w
    call_lem copy [] [] fine w = returned w
    call_lem (cut from n) [] [] fine w = returned w
    call_lem (push buf) [] [] fine w = returned w
    call_lem push_second [] [] fine w = returned w
    call_lem (shorten_front n) [] [] fine w = returned w
    call_lem (shorten_back n) [] [] fine w = returned w
    call_lem empty [] [] fine w = returned w
    call_lem (make_room n) [] [] fine w = returned w
    call_lem (write at src) [] [] fine w = returned w
    call_lem move_away [] [] fine w = returned w
    call_lem release [] [] fine w = returned w

  -- In a memory where every live tendril stands for its bytes and every header counts the tendrils
  -- that point to it, and for a format without fixups, every program of calls on its tendrils
  -- (creations, copies, slices, pushes of bytes and of other tendrils, cuts, `clear`, `reserve`,
  -- stores through a mutable slice, `into_send`, drops) returns, and its tendrils then stand for
  -- what the same calls make of plain byte strings. The calls ask for at most 2^31 bytes in a
  -- tendril, for slices of fewer than 2^32 bytes and for so few tendrils that counts cannot
  -- overflow, and store inside the bytes what keeps the format.
  pub run_lem :
      {m : Mem} (cs : List Call) (ts : List Tendril) (xss : List (List ℕ))
      → IsPlain format
      → AreAllowed format cs xss
      → World m ts xss
      → Returns (λ ts' m'. World m' ts' (effects format cs xss)) (run format cs ts m)
  run_lem [] ts xss plain fine w = returned w
  run_lem (c ∷ cs) ts xss plain (first, later) w =
      Returns.then_do (call_lem plain c ts xss first w)
        (λ ts' m' w'. run_lem cs ts' (effect format c xss) plain later w')
