-- ===== src/World/Alone.antt =====
-- A block that one tendril has for itself, apart from the world of the others.
use tendril.Common.{ℕ, ◌+◌, ◌-◌, ◌%◌, ◌<◌, ◌≡◌, ◌≢◌, Option, none, some, List, ◌∷◌, arith}
use tendril.Mem.{Block, Mem, update}
use tendril.Tendril.{Tendril}
use tendril.World.{Rep, refs, count_of, IsFresh, World, Apart, IsAddress, IsCounted}
use tendril.World.Frame.{SameOutside, Reps-frame}
use tendril.World.Change.{owned_at, put, split_at, lt-next}

-- A tendril on a block whose count is 1 is the only one on it.
pub Apart-of_alone :
    {m : Mem} {t : Tendril} {ts : List Tendril} {xss : List (List ℕ)} {xs : List ℕ} {a : ℕ}
    (b : Block)
    → IsAddress a
    → m.cell a ≡ some b
    → b.refcount ≡ 1
    → (15 < t.ptr) × (t.ptr - t.ptr % 2 ≡ a)
    → World m (t ∷ ts) (xs ∷ xss)
    → Apart a m ts xss
Apart-of_alone {m} {a} b adr at one on w = record {
  address = adr;
  below = lt-next w.fresh at;
  fresh = w.fresh;
  reps = w.reps.1;
  unused = ground (arith, w.counts a);
  counts = λ q ne. ground (arith, w.counts q);
  live = λ q ne. w.live q;
}

pub Apart-of_owned :
    {m : Mem} {ts : List Tendril} {xss : List (List ℕ)} {xs : List ℕ} {a len cap : ℕ} (b : Block)
    → IsAddress a
    → m.cell a ≡ some b
    → b.refcount ≡ 1
    → World m (owned_at a len cap ∷ ts) (xs ∷ xss)
    → Apart a m ts xss
Apart-of_owned b adr at one w = Apart-of_alone b adr at one (omega arith) w

module _ {a : ℕ} {m : Mem} {ts : List Tendril} {xss : List (List ℕ)} (x : Apart a m ts xss) where
  pub put-IsFresh : (b : Option Block) → IsFresh (put m a b)
  unfolding update
  put-IsFresh b = record {
    address = x.fresh.address;
    beyond = λ q h. ground (arith, x.fresh.beyond q, x.below);
  }

  -- The block at `a` may become anything.
  pub Apart-put : (b : Option Block) → Apart a (put m a b) ts xss
  unfolding update
  Apart-put b = record {
    address = x.address;
    below = x.below;
    fresh = put-IsFresh b;
    reps = Reps-frame a m _ ts xss (λ q ne. ground arith) x.unused x.reps;
    unused = x.unused;
    counts = λ q ne. ground (arith, x.counts q);
    live = λ q ne. ground (arith, x.live q);
  }

  pub World-of_freed : m.cell a ≡ none → World m ts xss
  World-of_freed gone = record {
    fresh = x.fresh;
    reps = x.reps;
    counts = split_at a (λ q. refs q ts ≡ count_of (m.cell q)) (ground (arith, x.unused)) x.counts;
    live = split_at a (λ q. IsCounted (m.cell q)) (ground arith) x.live;
  }

  -- A tendril that is the only one on the block at `a` joins the others.
  pub World-of_alone :
      {t : Tendril} {ys : List ℕ} (b : Block)
      → m.cell a ≡ some b
      → b.refcount ≡ 1
      → (15 < t.ptr) × (t.ptr - t.ptr % 2 ≡ a)
      → Rep m t ys
      → World m (t ∷ ts) (ys ∷ xss)
  World-of_alone {t} b at one on r = record {
    fresh = x.fresh;
    reps = (r, x.reps);
    counts =
        split_at a (λ q. refs q (t ∷ ts) ≡ count_of (m.cell q)) (ground (arith, x.unused))
          (λ q ne. ground (arith, x.counts q));
    live = split_at a (λ q. IsCounted (m.cell q)) (ground arith) x.live;
  }

  new_unused : refs m.next ts ≡ 0
  new_unused = ground (arith, x.counts m.next, x.fresh.beyond m.next, x.below)

  -- The block moves to where the allocator places the next one.
  pub Apart-moved :
      (m' : Mem)
      → m'.next ≡ m.next + 16
      → m'.cell a ≡ none
      → ((q : ℕ) → q ≢ a → q ≢ m.next → m'.cell q ≡ m.cell q)
      → Apart m.next m' ts xss
  unfolding update
  Apart-moved m' next gone same = record {
    address = x.fresh.address;
    below = omega arith;
    fresh = record {
      address = ground (arith, x.fresh.address);
      beyond = λ q h. ground (arith, same q, x.fresh.beyond q, x.below);
    };
    reps =
        Reps-frame a middle m' ts xss (λ q ne. ground (arith, same q)) x.unused
          (Reps-frame m.next m middle ts xss (λ q ne. ground arith) new_unused x.reps);
    unused = new_unused;
    counts =
        split_at a (λ q. q ≢ m.next → refs q ts ≡ count_of (m'.cell q))
          (λ ne. ground (arith, x.unused))
          (λ q away ne. ground (arith, x.counts q away, same q away ne));
    live =
        split_at a (λ q. q ≢ m.next → IsCounted (m'.cell q)) (λ ne. ground arith)
          (λ q away ne. ground (arith, x.live q away, same q away ne));
  }
    where
      middle : Mem
      middle = put m m.next (m'.cell m.next)

-- The allocator's next block belongs to nobody yet.
pub Apart-of_next :
    {m : Mem} {ts : List Tendril} {xss : List (List ℕ)} (m' : Mem)
    → m'.next ≡ m.next + 16
    → SameOutside m.next m m'
    → World m ts xss
    → Apart m.next m' ts xss
Apart-of_next {m} {ts} {xss} m' next same w = record {
  address = w.fresh.address;
  below = omega arith;
  fresh = record {
    address = ground (arith, w.fresh.address);
    beyond = λ q h. ground (arith, same q, w.fresh.beyond q);
  };
  reps = Reps-frame m.next m m' ts xss same unused w.reps;
  unused = unused;
  counts = λ q ne. ground (arith, w.counts q, same q ne);
  live = λ q ne. ground (arith, w.live q, same q ne);
}
  where
    unused : refs m.next ts ≡ 0
    unused = ground (arith, w.counts m.next, w.fresh.beyond m.next)
