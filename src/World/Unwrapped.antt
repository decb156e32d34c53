-- ===== src/World/Unwrapped.antt =====
-- `subtendril`, `pop_front` and `pop_back` of `src/tendril.rs`, which panic on an error.
use tendril.Common.{
  ℕ, ◌+◌, ◌-◌, ◌≤◌, ◌<◌, ◌^◌, ◌≡◌, true, ok, err, List, ◌∷◌, arith, slice, take, drop, length,
  Result,
}
use tendril.Mem.{Mem, pure, ◌>>=◌}
use tendril.Fmt.{Format}
use tendril.Tendril.{Tendril}
use tendril.Tendril.Checked.{
  SubtendrilError, out_of_bounds, validation_failed, subtendril, pop_front, pop_back, unwrap,
}
use tendril.World.{World}
use tendril.World.Checked.{
  Subtendril, PopFront, PopBack, try_subtendril_lem, try_pop_front_lem, try_pop_back_lem,
}
use tendril.World.Returns
use tendril.World.Returns.{Returns, returned}

module _ (format : Format) {m : Mem} {t : Tendril} {ts : List Tendril} {xs : List ℕ}
    {xss : List (List ℕ)} where
  pub subtendril_lem :
      (from n : ℕ)
      → from + n ≤ length xs
      → format.validate_subseq (slice from n xs) ≡ true
      → length ts + 2 < 2 ^ 64
      → World m (t ∷ ts) (xs ∷ xss)
      → Returns
          (λ (t', s) m'. World m' (t' ∷ s ∷ ts) (xs ∷ slice from n xs ∷ xss))
          (subtendril format t from n m)
  unfolding subtendril
  subtendril_lem from n inside valid few w =
      Returns.then_do (try_subtendril_lem format from n few w) unwrapped
    where
      unwrapped :
          (r : Tendril × Result Tendril SubtendrilError) (m' : Mem)
          → Subtendril format ts xs xss from n r m'
          → Returns
              (λ (t', s) m''. World m'' (t' ∷ s ∷ ts) (xs ∷ slice from n xs ∷ xss))
              ((do sub ← unwrap r.1; pure (r.0, sub)) m')
      unwrapped (t', ok s) m' (_, _, w') = returned w'
      unwrapped (t', err out_of_bounds) m' (outside, _) = absurd (omega arith)
      unwrapped (t', err validation_failed) m' (_, bad, _) = absurd (ground (arith, bad, valid))

  pub pop_front_lem :
      (n : ℕ)
      → n ≤ length xs
      → format.validate_suffix (drop n xs) ≡ true
      → World m (t ∷ ts) (xs ∷ xss)
      → Returns (λ t' m'. World m' (t' ∷ ts) (drop n xs ∷ xss)) (pop_front format t n m)
  unfolding pop_front
  pop_front_lem n inside valid w = Returns.then_do (try_pop_front_lem format n w) unwrapped
    where
      unwrapped :
          (r : Tendril × Result (Unit {0}) SubtendrilError) (m' : Mem)
          → PopFront format ts xs xss n r m'
          → Returns
              (λ t' m''. World m'' (t' ∷ ts) (drop n xs ∷ xss))
              ((do _ ← unwrap r.1; pure r.0) m')
      unwrapped (t', ok s) m' (_, _, w') = returned w'
      unwrapped (t', err out_of_bounds) m' (outside, _) = absurd (omega arith)
      unwrapped (t', err validation_failed) m' (_, bad, _) = absurd (ground (arith, bad, valid))

  pub pop_back_lem :
      (n : ℕ)
      → n ≤ length xs
      → format.validate_prefix (take (length xs - n) xs) ≡ true
      → World m (t ∷ ts) (xs ∷ xss)
      → Returns
          (λ t' m'. World m' (t' ∷ ts) (take (length xs - n) xs ∷ xss))
          (pop_back format t n m)
  unfolding pop_back
  pop_back_lem n inside valid w = Returns.then_do (try_pop_back_lem format n w) unwrapped
    where
      unwrapped :
          (r : Tendril × Result (Unit {0}) SubtendrilError) (m' : Mem)
          → PopBack format ts xs xss n r m'
          → Returns
              (λ t' m''. World m'' (t' ∷ ts) (take (length xs - n) xs ∷ xss))
              ((do _ ← unwrap r.1; pure r.0) m')
      unwrapped (t', ok s) m' (_, _, w') = returned w'
      unwrapped (t', err out_of_bounds) m' (outside, _) = absurd (omega arith)
      unwrapped (t', err validation_failed) m' (_, bad, _) = absurd (ground (arith, bad, valid))
