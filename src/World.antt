-- ===== src/World.antt =====
-- The heap of `src/tendril.rs` with all live tendrils in it: which bytes each one stands for, and
-- how the counts in the headers relate to the tendrils. The list of tendrils is what a program
-- holds; the list of byte lists is what it may think of them.
pub mod Frame
pub mod Alone
pub mod Change
pub mod Read
pub mod Returns
pub mod Create
pub mod Drop
pub mod Share
pub mod Cut
pub mod Clear
pub mod Owned
pub mod Relocate
pub mod Own
pub mod Splice
pub mod SpliceHeap
pub mod Push
pub mod Join
pub mod Reserve
pub mod Checked
pub mod Chars
pub mod Runs
pub mod Shuffle
pub mod Uninitialized
pub mod Unwrapped
pub mod Extend
pub mod Send
pub mod Surrogates
pub mod Views
pub mod Replies
pub mod Reading
pub mod Compare
pub mod Convert
use tendril.Common.{
  ℕ, ◌+◌, ◌-◌, ◌*◌, ◌/◌, ◌%◌, ◌^◌, ◌≤◌, ◌<◌, ◌≡◌, ◌≢◌, ◌⊎◌, ◌&&◌, Option, none, some, List, [], ◌∷◌,
  ltb, ◌==◌, if◌then◌else◌, length, take, slice,
}
use tendril.Mem.{Block, Mem}
use tendril.Tendril.{Tendril, heap, inline, clear_low_bit}

-- Blocks lie at even addresses above the inline tags.
abbrev pub IsAddress : ℕ → Type 0
IsAddress a = (16 ≤ a) × (a % 2 ≡ 0)

-- The tag of an inline tendril of so many bytes.
abbrev pub IsTag : ℕ → ℕ → Type 0
IsTag p n = ((p ≡ 15) × (n ≡ 0)) ⊎ ((p ≡ n) × (0 < n) × (n ≤ 8))

-- The capacity of a `Vec<Header>` whose bytes behind the first header are at least `cap`.
abbrev pub vec_units : ℕ → ℕ
vec_units cap = 1 + (cap + 11) / 12

-- The block has room for `cap` bytes, and `cap` is what it has to be freed with.
pub record IsSized (b : Block) (cap : ℕ) : Type 0 where
  pub units : b.units ≡ vec_units cap
  pub room : length b.bytes ≡ (vec_units cap - 1) * 12
  pub min : 16 ≤ cap
  pub max : cap < 2 ^ 32

-- In the memory `m` the tendril stands for the bytes `xs`.
pub data Rep (m : Mem) : Tendril → List ℕ → Type 0 where
  is_inline :
      {p n : ℕ} {bs xs : List ℕ}
      → IsTag p n
      → length bs ≡ 8
      → xs ≡ take n bs
      → Rep m (record { ptr = p; buf = inline bs }) xs
  is_owned :
      {a len cap : ℕ} {xs : List ℕ} (b : Block)
      → IsAddress a
      → m.cell a ≡ some b
      → b.refcount ≡ 1
      → IsSized b cap
      → len ≤ cap
      → xs ≡ take len b.bytes
      → Rep m (record { ptr = a; buf = heap (record { len = len; aux = cap }) }) xs
  is_shared :
      {a p off len : ℕ} {xs : List ℕ} (b : Block)
      → IsAddress a
      → p ≡ a + 1
      → m.cell a ≡ some b
      → IsSized b b.cap
      → off + len ≤ b.cap
      → xs ≡ slice off len b.bytes
      → Rep m (record { ptr = p; buf = heap (record { len = len; aux = off }) }) xs

abbrev pub Reps : Mem → List Tendril → List (List ℕ) → Type 0
Reps m [] [] = Unit
Reps m (t ∷ ts) (xs ∷ xss) = Rep m t xs × Reps m ts xss
Reps m _ _ = ⊥

-- How many of the tendrils point to the block at `a`.
abbrev pub refers : ℕ → Tendril → ℕ
refers a t = if ltb 15 t.ptr && (clear_low_bit t.ptr == a) then 1 else 0

abbrev pub refs : ℕ → List Tendril → ℕ
refs a [] = 0
refs a (t ∷ ts) = refers a t + refs a ts

abbrev pub count_of : Option Block → ℕ
count_of none = 0
count_of (some b) = b.refcount

abbrev pub blocks : Option Block → ℕ
blocks none = 0
blocks (some b) = 1

-- A block has a reference at least, and its count fits a `usize`.
abbrev pub IsCounted : Option Block → Type 0
IsCounted c = (blocks c ≤ count_of c) × (count_of c < 2 ^ 64)

pub record IsFresh (m : Mem) : Type 0 where
  pub address : IsAddress m.next
  pub beyond : (a : ℕ) → m.next ≤ a → m.cell a ≡ none

-- Each tendril stands for its bytes, each header counts the tendrils that point to it, and no block
-- is left that nobody points to.
pub record World (m : Mem) (ts : List Tendril) (xss : List (List ℕ)) : Type 0 where
  pub fresh : IsFresh m
  pub reps : Reps m ts xss
  pub counts : (a : ℕ) → refs a ts ≡ count_of (m.cell a)
  pub live : (a : ℕ) → IsCounted (m.cell a)

-- The same for all blocks but the one at `a`, to which none of `ts` points.
pub record Apart (a : ℕ) (m : Mem) (ts : List Tendril) (xss : List (List ℕ)) : Type 0 where
  pub address : IsAddress a
  pub below : a < m.next
  pub fresh : IsFresh m
  pub reps : Reps m ts xss
  pub unused : refs a ts ≡ 0
  pub counts : (q : ℕ) → q ≢ a → refs q ts ≡ count_of (m.cell q)
  pub live : (q : ℕ) → q ≢ a → IsCounted (m.cell q)
