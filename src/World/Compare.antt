-- ===== src/World/Compare.antt =====
-- The comparisons of `src/tendril.rs` are those of the bytes, however they are stored.
use tendril.Common.{
  ℕ, ◌<◌, ◌≡◌, ◌↔◌, refl, sym, ◌∙◌, ap, inl, inr, Ordering, Bool, true, false, not, some, List, [],
  ◌∷◌, arith, ltb, Bool-cases, eqb_true,
}
use tendril.Mem.{Mem, done}
use tendril.Tendril.{Tendril}
use tendril.Tendril.Compare.{eq_bytes, cmp_bytes, deref, eq, ne, cmp, partial_cmp, hash}
use tendril.World.{Rep}
use tendril.World.Read.{as_byte_slice_lem}

-- The other way round
abbrev pub swapped : Ordering → Ordering
swapped Ordering.lt = Ordering.gt
swapped Ordering.eq = Ordering.eq
swapped Ordering.gt = Ordering.lt

-- The order of a dictionary: a proper prefix comes first, and else the first place where two strings
-- differ decides.
pub data IsBefore : List ℕ → List ℕ → Type 0 where
  prefix : {y : ℕ} {ys : List ℕ} → IsBefore [] (y ∷ ys)
  smaller : {x y : ℕ} {xs ys : List ℕ} → x < y → IsBefore (x ∷ xs) (y ∷ ys)
  later : {x y : ℕ} {xs ys : List ℕ} → x ≡ y → IsBefore xs ys → IsBefore (x ∷ xs) (y ∷ ys)

eq_bytes_refl : (xs : List ℕ) → eq_bytes xs xs ≡ true
unfolding eq_bytes
eq_bytes_refl [] = refl
eq_bytes_refl (x ∷ xs) = rw (eqb_true x x refl) (eq_bytes_refl xs)

eq_bytes-eq : (xs ys : List ℕ) → eq_bytes xs ys ≡ true → xs ≡ ys
unfolding eq_bytes
eq_bytes-eq [] [] h = refl
eq_bytes-eq [] (y ∷ ys) h = absurd (ground (arith, h))
eq_bytes-eq (x ∷ xs) [] h = absurd (ground (arith, h))
eq_bytes-eq (x ∷ xs) (y ∷ ys) h = ground (arith, eq_bytes-eq xs ys)

cmp_bytes-swapped : (xs ys : List ℕ) → cmp_bytes ys xs ≡ swapped (cmp_bytes xs ys)
unfolding cmp_bytes
cmp_bytes-swapped [] [] = refl
cmp_bytes-swapped [] (y ∷ ys) = refl
cmp_bytes-swapped (x ∷ xs) [] = refl
cmp_bytes-swapped (x ∷ xs) (y ∷ ys) = elim (Bool-cases (ltb x y)) [
  | inl less ↦ let e : ltb y x ≡ false = ground arith in rw (less, e) refl
  | inr same ↦ elim (Bool-cases (ltb y x)) [
    | inl more ↦ rw (same, more) refl
    | inr equal ↦ rw (same, equal) (cmp_bytes-swapped xs ys)
  ]
]

swapped_lt : (o : Ordering) → swapped o ≡ Ordering.gt → o ≡ Ordering.lt
swapped_lt Ordering.lt e = refl
swapped_lt Ordering.eq e = absurd (ground (arith, e))
swapped_lt Ordering.gt e = absurd (ground (arith, e))

cmp_bytes_refl : (xs : List ℕ) → cmp_bytes xs xs ≡ Ordering.eq
unfolding cmp_bytes
cmp_bytes_refl [] = refl
cmp_bytes_refl (x ∷ xs) = let e : ltb x x ≡ false = ground arith in rw e (cmp_bytes_refl xs)

cmp_bytes-eq : (xs ys : List ℕ) → cmp_bytes xs ys ≡ Ordering.eq → xs ≡ ys
unfolding cmp_bytes
cmp_bytes-eq [] [] h = refl
cmp_bytes-eq [] (y ∷ ys) h = absurd (ground (arith, h))
cmp_bytes-eq (x ∷ xs) [] h = absurd (ground (arith, h))
cmp_bytes-eq (x ∷ xs) (y ∷ ys) h = ground (arith, cmp_bytes-eq xs ys)

cmp_bytes_trans :
    (xs ys zs : List ℕ)
    → cmp_bytes xs ys ≡ Ordering.lt
    → cmp_bytes ys zs ≡ Ordering.lt
    → cmp_bytes xs zs ≡ Ordering.lt
unfolding cmp_bytes
cmp_bytes_trans [] [] [] h k = h
cmp_bytes_trans [] (y ∷ ys) [] h k = absurd (ground (arith, k))
cmp_bytes_trans [] ys (z ∷ zs) h k = refl
cmp_bytes_trans (x ∷ xs) [] zs h k = absurd (ground (arith, h))
cmp_bytes_trans (x ∷ xs) (y ∷ ys) [] h k = absurd (ground (arith, k))
cmp_bytes_trans (x ∷ xs) (y ∷ ys) (z ∷ zs) h k = ground (arith, cmp_bytes_trans xs ys zs)

cmp_bytes-IsBefore : (xs ys : List ℕ) → cmp_bytes xs ys ≡ Ordering.lt → IsBefore xs ys
unfolding cmp_bytes
cmp_bytes-IsBefore [] [] h = absurd (ground (arith, h))
cmp_bytes-IsBefore [] (y ∷ ys) h = prefix
cmp_bytes-IsBefore (x ∷ xs) [] h = absurd (ground (arith, h))
cmp_bytes-IsBefore (x ∷ xs) (y ∷ ys) h = elim (Bool-cases (ltb x y)) [
  | inl less ↦ smaller (ground arith)
  | inr same ↦ elim (Bool-cases (ltb y x)) [
    | inl more ↦ absurd (ground (arith, h))
    | inr equal ↦ later (ground arith) (cmp_bytes-IsBefore xs ys (ground (arith, h)))
  ]
]

IsBefore-cmp_bytes : {xs ys : List ℕ} → IsBefore xs ys → cmp_bytes xs ys ≡ Ordering.lt
unfolding cmp_bytes
IsBefore-cmp_bytes prefix = refl
IsBefore-cmp_bytes (smaller less) = ground arith
IsBefore-cmp_bytes (later same before) = ground (arith, IsBefore-cmp_bytes before)

-- `Greater` is `Less` the other way round.
cmp_bytes-gt : (xs ys : List ℕ) → cmp_bytes xs ys ≡ Ordering.gt ↔ IsBefore ys xs
cmp_bytes-gt xs ys =
    let turned = cmp_bytes-swapped ys xs in
    (
      λ more. cmp_bytes-IsBefore ys xs (swapped_lt (cmp_bytes ys xs) (sym turned ∙ more)),
      λ before. turned ∙ ap swapped (IsBefore-cmp_bytes before),
    )

done_value : {m : Mem} {A : Type 0} {a b : A} → done a m ≡ done b m → a ≡ b
done_value e = ground (arith, e)

-- For two tendrils that stand for byte strings in a memory, in whatever form, `==` and `!=` answer
-- whether these are equal and change nothing, and tendrils that are equal have the same hash with
-- any hasher.
pub eq-hash :
    {H : Type 0} {m : Mem} {t u : Tendril} {xs ys : List ℕ} (hash_slice : List ℕ → H → H)
    (hasher : H)
    → Rep m t xs
    → Rep m u ys
    → (answer : Bool) × (eq t u m ≡ done answer m)
      × (ne t u m ≡ done (not answer) m)
      × (answer ≡ true ↔ xs ≡ ys)
      × (answer ≡ true → hash hash_slice t hasher m ≡ hash hash_slice u hasher m)
unfolding eq ne hash
eq-hash {m} {t} {u} {xs} {ys} hash_slice hasher r q = (
  eq_bytes xs ys,
  rw (as_byte_slice_lem r, as_byte_slice_lem q) refl,
  rw (as_byte_slice_lem r, as_byte_slice_lem q) refl,
  (eq_bytes-eq xs ys, λ e. rw e (eq_bytes_refl ys)),
  λ same.
      rw (as_byte_slice_lem r, as_byte_slice_lem q)
        (ap (λ l. done (hash_slice l hasher) m) (eq_bytes-eq xs ys same)),
)

-- For three tendrils that stand for byte strings in a memory, `cmp` of the first two returns an
-- order and changes nothing, and `partial_cmp` returns the same. It is `Equal` exactly where the
-- byte strings are equal, `Less` exactly where the first comes before the second in a dictionary,
-- with a proper prefix first, and `Greater` exactly where the second comes before the first. `cmp`
-- the other way round returns the opposite, and `Less` is transitive.
pub cmp_lem :
    {m : Mem} {t u v : Tendril} {xs ys zs : List ℕ}
    → Rep m t xs
    → Rep m u ys
    → Rep m v zs
    → (o : Ordering) × (cmp t u m ≡ done o m)
      × (partial_cmp t u m ≡ done (some o) m)
      × (cmp u t m ≡ done (swapped o) m)
      × (o ≡ Ordering.eq ↔ xs ≡ ys)
      × (o ≡ Ordering.lt ↔ IsBefore xs ys)
      × (o ≡ Ordering.gt ↔ IsBefore ys xs)
      × (o ≡ Ordering.lt → cmp u v m ≡ done Ordering.lt m → cmp t v m ≡ done Ordering.lt m)
unfolding cmp partial_cmp deref
cmp_lem {m} {t} {u} {v} {xs} {ys} {zs} r q p = (
  cmp_bytes xs ys,
  rw (as_byte_slice_lem r, as_byte_slice_lem q) refl,
  rw (as_byte_slice_lem r, as_byte_slice_lem q) refl,
  rw (as_byte_slice_lem q, as_byte_slice_lem r) (ap (λ o. done o m) (cmp_bytes-swapped xs ys)),
  (cmp_bytes-eq xs ys, λ e. rw e (cmp_bytes_refl ys)),
  (cmp_bytes-IsBefore xs ys, IsBefore-cmp_bytes),
  cmp_bytes-gt xs ys,
  λ first.
      rw (as_byte_slice_lem q, as_byte_slice_lem p, as_byte_slice_lem r, as_byte_slice_lem p)
        (λ second. ap (λ o. done o m) (cmp_bytes_trans xs ys zs first (done_value second))),
)
