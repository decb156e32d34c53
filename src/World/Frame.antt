-- ===== src/World/Frame.antt =====
-- A change of one block leaves the tendrils alone that do not point to it.
use tendril.Common.{
  ℕ, ◌≡◌, ◌≢◌, ◌∙◌, inl, inr, some, List, [], ◌∷◌, arith, ◌==◌, Bool-cases, eq_of_eqb,
}
use tendril.Mem.{Block, Mem}
use tendril.Tendril.{Tendril, heap}
use tendril.World.{Rep, is_inline, is_owned, is_shared, Reps, refers, refs}

-- Outside `a` the two memories agree.
abbrev pub SameOutside : ℕ → Mem → Mem → Type 0
SameOutside a m m' = (q : ℕ) → q ≢ a → m'.cell q ≡ m.cell q

pub Rep-frame :
    {a : ℕ} {m m' : Mem} {t : Tendril} {xs : List ℕ}
    → SameOutside a m m'
    → refers a t ≡ 0
    → Rep m t xs
    → Rep m' t xs
Rep-frame same out (is_inline tag size e) = is_inline tag size e
Rep-frame same out (is_owned {a = q} b adr at one sized fits e) =
    is_owned b adr (same q (ground arith) ∙ at) one sized fits e
Rep-frame same out (is_shared {a = q} b adr tag at sized fits e) =
    is_shared b adr tag (same q (ground arith) ∙ at) sized fits e

pub Reps-frame :
    (a : ℕ) (m m' : Mem) (ts : List Tendril) (xss : List (List ℕ))
    → SameOutside a m m'
    → refs a ts ≡ 0
    → Reps m ts xss
    → Reps m' ts xss
Reps-frame a m m' [] [] same out r = tt
Reps-frame a m m' [] (xs ∷ xss) same out r = absurd r
Reps-frame a m m' (t ∷ ts) [] same out r = absurd r
Reps-frame a m m' (t ∷ ts) (xs ∷ xss) same out (r, rs) =
    (Rep-frame same (omega arith) r, Reps-frame a m m' ts xss same (omega arith) rs)

-- Only the count of the block at `a` changes, and it was not 1.
pub record Recount (a : ℕ) (m m' : Mem) : Type 0 where
  pub old : Block
  pub new : Block
  pub before : m.cell a ≡ some old
  pub after : m'.cell a ≡ some new
  pub many : old.refcount ≢ 1
  pub cap : new.cap ≡ old.cap
  pub units : new.units ≡ old.units
  pub bytes : new.bytes ≡ old.bytes

pub Rep-recount :
    {a : ℕ} {m m' : Mem} {t : Tendril} {xs : List ℕ}
    → SameOutside a m m'
    → Recount a m m'
    → Rep m t xs
    → Rep m' t xs
Rep-recount same rc (is_inline tag size e) = is_inline tag size e
Rep-recount {a} same rc (is_owned {a = q} b adr at one sized fits e) =
    is_owned b adr (same q (λ p. absurd (clash p)) ∙ at) one sized fits e
  where
    clash : q ≡ a → ⊥
    clash p = ground (arith, rc.before)
Rep-recount {a} {m} {m'} same rc
      (is_shared {a = q} {p} {off} {len} {xs} b adr tag at sized fits e) =
    elim (Bool-cases (q == a)) [
      | inl here ↦ moved (eq_of_eqb q a here)
      | inr away ↦ is_shared b adr tag (same q (ground arith) ∙ at) sized fits e
    ]
  where
    moved : q ≡ a → Rep m' (record { ptr = p; buf = heap (record { len = len; aux = off }) }) xs
    moved e' =
        let at_q : m'.cell q ≡ some rc.new = ground (arith, rc.after) in
        let old : b ≡ rc.old = ground (arith, rc.before) in
        is_shared rc.new adr tag at_q (ground arith) (ground arith) (ground arith)

pub Reps-of_Reps :
    (a : ℕ) (m m' : Mem) (ts : List Tendril) (xss : List (List ℕ))
    → SameOutside a m m'
    → Recount a m m'
    → Reps m ts xss
    → Reps m' ts xss
Reps-of_Reps a m m' [] [] same rc r = tt
Reps-of_Reps a m m' [] (xs ∷ xss) same rc r = absurd r
Reps-of_Reps a m m' (t ∷ ts) [] same rc r = absurd r
Reps-of_Reps a m m' (t ∷ ts) (xs ∷ xss) same rc (r, rs) =
    (Rep-recount same rc r, Reps-of_Reps a m m' ts xss same rc rs)
