-- ===== src/World/Owned.antt =====
-- `make_owned` of `src/tendril.rs`.
use tendril.Common.{
  ℕ, ◌%◌, ◌≤◌, ◌<◌, ◌≡◌, refl, true, ◌||◌, some, List, ◌∷◌, arith, leb, ◌==◌, leb-false, eqb_false,
  take,
}
use tendril.Mem.{Block, Mem}
use tendril.Tendril.{Tendril, make_owned}
use tendril.World.{Rep, is_inline, is_owned, is_shared, IsAddress, IsSized, World}
use tendril.World.Change.{owned_at}
use tendril.World.Read.{as_byte_slice_lem, length-lt}
use tendril.World.Drop.{assign_lem}
use tendril.World.Create.{owned_copy_lem}
use tendril.World.Returns
use tendril.World.Returns.{Returns, returned}

-- An owned tendril, taken apart.
pub record Own (m : Mem) (t : Tendril) (xs : List ℕ) : Type 0 where
  pub a : ℕ
  pub len : ℕ
  pub cap : ℕ
  pub block : Block
  pub shape : t ≡ owned_at a len cap
  pub address : IsAddress a
  pub at : m.cell a ≡ some block
  pub one : block.refcount ≡ 1
  pub sized : IsSized block cap
  pub fits : len ≤ cap
  pub bytes : xs ≡ take len block.bytes

pub Own-of_Rep :
    {m : Mem} {t : Tendril} {xs : List ℕ} → Rep m t xs → 15 < t.ptr → t.ptr % 2 ≡ 0 → Own m t xs
Own-of_Rep (is_inline tag size e) big even = absurd (omega arith)
Own-of_Rep (is_owned {a} {len} {cap} b adr at one sized fits e) big even = record {
  a = a;
  len = len;
  cap = cap;
  block = b;
  shape = refl;
  address = adr;
  at = at;
  one = one;
  sized = sized;
  fits = fits;
  bytes = e;
}
Own-of_Rep (is_shared b adr tag at sized fits e) big even = absurd (omega arith)

-- `make_owned` keeps what the tendril stands for, and leaves it owned.
copied :
    {m : Mem} {t : Tendril} {ts : List Tendril} {xs : List ℕ} {xss : List (List ℕ)}
    → leb t.ptr 15 || (t.ptr % 2 == 1) ≡ true
    → World m (t ∷ ts) (xs ∷ xss)
    → Returns
        (λ t' m'. World m' (t' ∷ ts) (xs ∷ xss) × (15 < t'.ptr) × (t'.ptr % 2 ≡ 0))
        (make_owned t m)
unfolding make_owned
copied {xs} copies w =
    rw (copies, as_byte_slice_lem w.reps.0)
      (Returns.then_do (owned_copy_lem xs (length-lt w.reps.0) w) (λ new m' (w', big, even).
        Returns.weaken (assign_lem w') (λ t'' m'' (w'', same). (w'', rw same big, rw same even))))

make_owned_Rep :
    {m : Mem} {t : Tendril} {ts : List Tendril} {xs : List ℕ} {xss : List (List ℕ)}
    → Rep m t xs
    → World m (t ∷ ts) (xs ∷ xss)
    → Returns
        (λ t' m'. World m' (t' ∷ ts) (xs ∷ xss) × (15 < t'.ptr) × (t'.ptr % 2 ≡ 0))
        (make_owned t m)
unfolding make_owned
make_owned_Rep (is_inline tag size e) w = copied (ground arith) w
make_owned_Rep (is_owned {a} b adr at one sized fits e) w =
    rw (leb-false a 15 (omega arith), eqb_false (a % 2) 1 (omega arith))
      (returned (w, omega arith, omega arith))
make_owned_Rep (is_shared b adr tag at sized fits e) w = copied (ground arith) w

pub make_owned_lem :
    {m : Mem} {t : Tendril} {ts : List Tendril} {xs : List ℕ} {xss : List (List ℕ)}
    → World m (t ∷ ts) (xs ∷ xss)
    → Returns
        (λ t' m'. World m' (t' ∷ ts) (xs ∷ xss) × (15 < t'.ptr) × (t'.ptr % 2 ≡ 0))
        (make_owned t m)
make_owned_lem w = make_owned_Rep w.reps.0 w
