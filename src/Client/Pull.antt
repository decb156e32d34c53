-- ===== src/Client/Pull.antt =====
-- Another tendril is taken out of a list, and what it stands for with it.
use tendril.Common.{ℕ, zero, suc, ◌≡◌, refl, sym, ◌∙◌, ap, List, [], ◌∷◌, arith, length}
use tendril.Mem.{Mem}
use tendril.Tendril.{Tendril}
use tendril.World.{Reps}
use tendril.World.Shuffle.{Shuffle, same, keep, swap, next}
use tendril.Client.{pull, insert_second}

-- As many tendrils as byte strings.
pub Reps-paired :
    (m : Mem) (ts : List Tendril) (xss : List (List ℕ)) → Reps m ts xss → length ts ≡ length xss
Reps-paired m [] [] r = refl
Reps-paired m [] (xs ∷ xss) r = absurd r
Reps-paired m (t ∷ ts) [] r = absurd r
Reps-paired m (t ∷ ts) (xs ∷ xss) r = ap suc (Reps-paired m ts xss r.1)

length-insert_second {ℓ} :
    {A : Type ℓ} (x : A) (ys : List A) → length (insert_second x ys) ≡ suc (length ys)
length-insert_second x [] = refl
length-insert_second x (y ∷ ys) = refl

length-pull {ℓ} : {A : Type ℓ} (n : ℕ) (xs : List A) → length (pull n xs) ≡ length xs
length-pull n [] = refl
length-pull zero (x ∷ xs) = refl
length-pull (suc n) (x ∷ xs) = length-insert_second x (pull n xs) ∙ ap suc (length-pull n xs)

pulled :
    (n : ℕ) (ts : List Tendril) (xss : List (List ℕ))
    → length ts ≡ length xss
    → length (pull n ts) ≡ length (pull n xss)
pulled n ts xss h = length-pull n ts ∙ h ∙ sym (length-pull n xss)

pub pull-Shuffle :
    (n : ℕ) (ts : List Tendril) (xss : List (List ℕ))
    → length ts ≡ length xss
    → Shuffle ts xss (pull n ts) (pull n xss)
pull-Shuffle n [] [] h = same
pull-Shuffle n [] (xs ∷ xss) h = absurd (omega arith)
pull-Shuffle n (t ∷ ts) [] h = absurd (omega arith)
pull-Shuffle zero (t ∷ ts) (xs ∷ xss) h = same
pull-Shuffle (suc n) (t ∷ ts) (xs ∷ xss) h =
    next (keep (pull-Shuffle n ts xss (omega arith)))
      (second t xs (pull n ts) (pull n xss) (pulled n ts xss (omega arith)))
  where
    second :
        (t : Tendril) (xs : List ℕ) (us : List Tendril) (yss : List (List ℕ))
        → length us ≡ length yss
        → Shuffle (t ∷ us) (xs ∷ yss) (insert_second t us) (insert_second xs yss)
    second t xs [] [] h = same
    second t xs [] (y ∷ yss) h = absurd (omega arith)
    second t xs (u ∷ us) [] h = absurd (omega arith)
    second t xs (u ∷ us) (y ∷ yss) h = swap
