-- ===== src/Mem.antt =====
-- What `src/buf32.rs` and `src/tendril.rs` use of the allocator and of raw pointers: blocks at
-- addresses, reads and writes through pointers, the bounds that `src/util.rs` leaves to its callers.
pub mod Util
use tendril.Common.{
  ℕ, ◌+◌, ◌-◌, ◌*◌, ◌≡◌, Bool, true, false, Option, none, some, List, ◌==◌, leb, length, replicate,
  take, drop, ◌++◌, overwrite, if◌then◌else◌,
}

-- An allocation that begins with a `Header`: the two fields of the header, the capacity of the
-- `Vec<Header>` that made it, and the bytes behind the header.
pub record Block : Type 0 where
  pub refcount : ℕ
  pub cap : ℕ
  pub units : ℕ
  pub bytes : List ℕ

-- `garbage` is what uninitialized bytes read as; `next` is where the allocator places the next block.
pub record Mem : Type 0 where
  pub cell : ℕ → Option Block
  pub next : ℕ
  pub garbage : ℕ

unfoldable pub update : (ℕ → Option Block) → ℕ → Option Block → ℕ → Option Block
update f p b q = if q == p then b else f q

-- The outcome of a call: a value and the memory, a panic, or undefined behaviour.
pub data Run (A : Type 0) : Type 0 where
  done : A → Mem → Run A
  panic : Run A
  fault : Run A

abbrev pub M : Type 0 → Type 0
M A = Mem → Run A

abbrev pub pure : {A : Type 0} → A → M A
pure = done

module _ {A B : Type 0} where
  abbrev pub continue : Run A → (A → M B) → Run B
  continue (done a m) k = k a m
  continue panic k = panic
  continue fault k = fault

  infixl 5 ◌>>=◌ ◌>>◌
  abbrev pub ◌>>=◌ : M A → (A → M B) → M B
  c >>= k = λ m. continue (c m) k

  abbrev pub ◌>>◌ : M A → M B → M B
  c >> d = c >>= λ _. d

-- `Option::expect` and `assert!`
abbrev pub expect : {A : Type 0} → Option A → M A
expect none = λ m. panic
expect (some a) = pure a

abbrev pub assert : Bool → M (Unit {0})
assert true = pure tt
assert false = λ m. panic

-- A contract of unsafe code.
abbrev pub requires : Bool → M (Unit {0})
requires true = pure tt
requires false = λ m. fault

abbrev pub store : ℕ → Option Block → M (Unit {0})
store p b m = done tt (record m { cell = update m.cell p b })

-- A read through a pointer to no block is undefined.
abbrev pub found : Option Block → M Block
found none = λ m. fault
found (some b) = pure b

unfoldable pub load : ℕ → M Block
load p m = found (m.cell p) m

-- `units` headers of room, of which the first is the header
unfoldable pub alloc : ℕ → (header_size : ℕ) → (refcount cap : ℕ) → M ℕ
alloc units header_size refcount cap m = done m.next (record m {
  cell = update m.cell m.next (
      some (record {
        refcount = refcount;
        cap = cap;
        units = units;
        bytes = replicate ((units - 1) * header_size) m.garbage;
      }));
  next = m.next + 16;
})

-- The block goes back to the allocator, which must be told its true size.
unfoldable pub dealloc : ℕ → ℕ → M (Unit {0})
unfolding load
dealloc p units = do b ← load p; requires (b.units == units); store p none

-- `realloc` to a larger size moves the block and keeps its bytes.
unfoldable pub realloc : ℕ → ℕ → (header_size : ℕ) → M ℕ
unfolding load alloc
realloc p units header_size = do
  b ← load p
  q ← alloc units header_size b.refcount b.cap
  fresh ← load q
  store q (some (record fresh { bytes = overwrite 0 b.bytes fresh.bytes }))
  store p none
  pure q

-- A write of `src` at the offset `at` behind the header at `p`.
unfoldable pub write_bytes : ℕ → ℕ → List ℕ → M (Unit {0})
unfolding load
write_bytes p at src = do
  b ← load p
  requires (leb (at + length src) (length b.bytes))
  store p (some (record b { bytes = overwrite at src b.bytes }))
