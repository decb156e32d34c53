-- ===== src/Buf32/Growth.antt =====
-- `u32::checked_next_power_of_two` and `bytes_to_vec_capacity`, by which `Buf32` grows.
use native.Mathlib.Nat.{pow-suc, pow-zero, one-le-pow}
use tendril.Common.{
  ℕ, zero, suc, ◌+◌, ◌*◌, ◌/◌, ◌^◌, ◌≤◌, ◌<◌, ◌≡◌, refl, ◌⊎◌, inl, inr, none, some, arith, leb,
  Bool-cases, leb-true, leb-false, checked_add64,
}
use tendril.Mem.{Mem, done, panic}
use tendril.Buf32.{Buf32, grow, double_until, checked_next_power_of_two, bytes_to_vec_capacity}

-- `r` is the least power of two that is at least `n`.
pub record IsNextPower (n r : ℕ) : Type 0 where
  pub exponent : ℕ
  pub power : r ≡ 2 ^ exponent
  pub above : n ≤ r
  pub least : (r ≡ 1) ⊎ (r < 2 * n)

twice : (p rounds : ℕ) → p * 2 ^ suc rounds ≡ 2 * p * 2 ^ rounds
twice p rounds = rw pow-suc (omega arith)

le-mul-pow : (p rounds : ℕ) → p ≤ p * 2 ^ rounds
le-mul-pow p rounds = grind (arith, one-le-pow rounds 2 (omega arith))

double_until-IsNextPower :
    (rounds p n k : ℕ)
    → p ≡ 2 ^ k
    → (p ≡ 1) ⊎ (p < 2 * n)
    → n ≤ p * 2 ^ rounds
    → (r : ℕ) × (double_until (suc rounds) p n ≡ some r) × IsNextPower n r
double_until-IsNextPower zero p n k e low h =
    let above : n ≤ p = omega (arith, h, pow-zero 2) in
    (p, rw (leb-true n p above), record { exponent = k; power = e; above = above; least = low })
double_until-IsNextPower (suc rounds) p n k e low h = elim (Bool-cases (leb n p)) [
  | inl stop ↦ (p, rw stop, record { exponent = k; power = e; above = ground arith; least = low })
  | inr more ↦ rw more (
      double_until-IsNextPower rounds (2 * p) n (suc k) (omega (arith, e, pow-suc 2 k))
        (inr (ground arith)) (omega (arith, h, twice p rounds)))
]

double_until-none : (rounds p n : ℕ) → p * 2 ^ rounds < n → double_until (suc rounds) p n ≡ none
double_until-none zero p n h = rw (leb-false n p (omega (arith, h, pow-zero 2)))
double_until-none (suc rounds) p n h =
    let small : p < n = omega (arith, h, le-mul-pow p (suc rounds)) in
    rw (leb-false n p small) (double_until-none rounds (2 * p) n (omega (arith, h, twice p rounds)))

pub checked_next_power_of_two-small :
    (n : ℕ) → n ≤ 2 ^ 31 → (r : ℕ) × (checked_next_power_of_two n ≡ some r) × IsNextPower n r
unfolding checked_next_power_of_two
checked_next_power_of_two-small n h =
    double_until-IsNextPower 31 1 n 0 refl (inl refl) (omega arith)

-- Up to 2^31 the doubling finds the least power of two that is at least `n`; above it there is none
-- in a `u32`.
pub checked_next_power_of_two_lem :
    (n : ℕ)
    → ((n ≤ 2 ^ 31) × ((r : ℕ) × (checked_next_power_of_two n ≡ some r) × IsNextPower n r))
      ⊎ ((2 ^ 31 < n) × (checked_next_power_of_two n ≡ none))
unfolding checked_next_power_of_two
checked_next_power_of_two_lem n = elim (Bool-cases (leb n (2 ^ 31))) [
  | inl small ↦ let h : n ≤ 2 ^ 31 = ground arith in inl (h, checked_next_power_of_two-small n h)
  | inr large ↦ let h : 2 ^ 31 < n = ground arith in inr (h, double_until-none 31 1 n (omega arith))
]

pub IsNextPower-lt : {n r : ℕ} → IsNextPower n r → n ≤ 2 ^ 31 → r < 2 ^ 32
IsNextPower-lt p h = ground arith

pub bytes_to_vec_capacity_lem :
    (x : ℕ) (m : Mem) → x < 2 ^ 32 → bytes_to_vec_capacity x m ≡ done (1 + (x + 11) / 12) m
unfolding bytes_to_vec_capacity checked_add64
bytes_to_vec_capacity_lem x m h = ground arith

-- `grow` to more than the old capacity and more than 2^31 bytes panics.
pub grow-panic :
    (b : Buf32) (new_cap : ℕ) (m : Mem)
    → b.cap < new_cap
    → 2 ^ 31 < new_cap
    → grow b new_cap m ≡ panic
unfolding grow checked_next_power_of_two
grow-panic b new_cap m more large =
    rw (leb-false new_cap b.cap more, double_until-none 31 1 new_cap (omega arith))
