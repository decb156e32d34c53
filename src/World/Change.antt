-- ===== src/World/Change.antt =====
-- Writing to a block, and what one tendril or one reference more or less does to a world.
use tendril.Common.{
  ℕ, ◌+◌, ◌-◌, ◌%◌, ◌≤◌, ◌<◌, ◌^◌, ◌≡◌, ◌≢◌, refl, sym, subst, ◌⊎◌, inl, inr, true, false, Option,
  some, List, ◌∷◌, arith, ◌==◌, Bool-cases, eq_of_eqb, slice,
}
use tendril.Mem.{Block, Mem, update}
use tendril.Tendril.{Tendril, heap}
use tendril.World.{Rep, is_shared, Reps, IsFresh, World, IsAddress, IsSized}
use tendril.World.Frame.{Reps-frame, Reps-of_Reps}

abbrev pub owned_at : ℕ → (len cap : ℕ) → Tendril
owned_at a len cap = record { ptr = a; buf = heap (record { len = len; aux = cap }) }

abbrev pub heap_at : ℕ → (len aux : ℕ) → Tendril
heap_at p len aux = record { ptr = p; buf = heap (record { len = len; aux = aux }) }

abbrev pub put : Mem → ℕ → Option Block → Mem
put m a b = record m { cell = update m.cell a b }

pub update_self : (f : ℕ → Option Block) (a : ℕ) (b : Option Block) → update f a b a ≡ b
unfolding update
update_self f a b = ground arith

pub update_other :
    (f : ℕ → Option Block) (a : ℕ) (b : Option Block) (q : ℕ) → q ≢ a → update f a b q ≡ f q
unfolding update
update_other f a b q ne = ground arith

-- A family that holds at `a`, and away from it.
pub split_at {ℓ} : (a : ℕ) (P : ℕ → Type ℓ) → P a → ((q : ℕ) → q ≢ a → P q) → (q : ℕ) → P q
split_at a P here away q = elim (Bool-cases (q == a)) [
  | inl e ↦ subst P (sym (eq_of_eqb q a e)) here
  | inr e ↦ away q (ground arith)
]

pub World-swap :
    {m : Mem} {s t : Tendril} {ts : List Tendril} {xs ys : List ℕ} {xss : List (List ℕ)}
    → World m (s ∷ t ∷ ts) (xs ∷ ys ∷ xss)
    → World m (t ∷ s ∷ ts) (ys ∷ xs ∷ xss)
World-swap w = record {
  fresh = w.fresh;
  reps = (w.reps.1.0, (w.reps.0, w.reps.1.1));
  counts = λ a. omega (arith, w.counts a);
  live = w.live;
}

-- A tendril may change without its pointer.
pub World-resize :
    {m : Mem} {t t' : Tendril} {ts : List Tendril} {xss : List (List ℕ)} {xs ys : List ℕ}
    → t'.ptr ≡ t.ptr
    → Rep m t' ys
    → World m (t ∷ ts) (xs ∷ xss)
    → World m (t' ∷ ts) (ys ∷ xss)
World-resize same r w = record {
  fresh = w.fresh;
  reps = (r, w.reps.1);
  counts = λ a. rw same (w.counts a);
  live = w.live;
}

pub lt-next : {m : Mem} {a : ℕ} {b : Block} → IsFresh m → m.cell a ≡ some b → a < m.next
lt-next {m} {a} f at = ground (arith, f.beyond a)

-- One reference less to a block that keeps others.
pub World-uncount :
    {m : Mem} {t : Tendril} {ts : List Tendril} {xss : List (List ℕ)} {xs : List ℕ} {a : ℕ}
    (b : Block)
    → m.cell a ≡ some b
    → b.refcount ≢ 1
    → (15 < t.ptr) × (t.ptr - t.ptr % 2 ≡ a)
    → World m (t ∷ ts) (xs ∷ xss)
    → World (put m a (some (record b { refcount = b.refcount - 1 }))) ts xss
unfolding update
World-uncount {m} {t} {ts} {xss} {a} b at many on w = record {
  fresh = record {
    address = w.fresh.address;
    beyond = λ q h. ground (arith, w.fresh.beyond q, lt-next w.fresh at);
  };
  reps =
      Reps-of_Reps a m _ ts xss (λ q ne. ground arith)
        (record {
          old = b;
          new = record b { refcount = b.refcount - 1 };
          before = at;
          after = ground arith;
          many = many;
          cap = refl;
          units = refl;
          bytes = refl;
        })
        w.reps.1;
  counts = split_at a _ (ground (arith, w.counts a)) (λ q ne. ground (arith, w.counts q));
  live = split_at a _ (ground (arith, w.live a)) (λ q ne. ground (arith, w.live q));
}

-- An inline tendril takes no part in the counts.
pub World-inline :
    {m : Mem} {ts : List Tendril} {xss : List (List ℕ)} {t : Tendril} {xs : List ℕ}
    → t.ptr ≤ 15
    → World m (t ∷ ts) (xs ∷ xss)
    → World m ts xss
World-inline {t} small w = record {
  fresh = w.fresh;
  reps = w.reps.1;
  counts = λ a. ground (arith, w.counts a);
  live = w.live;
}

pub World-cons_inline :
    {m : Mem} {ts : List Tendril} {xss : List (List ℕ)} {t : Tendril} {xs : List ℕ}
    → t.ptr ≤ 15
    → Rep m t xs
    → World m ts xss
    → World m (t ∷ ts) (xs ∷ xss)
World-cons_inline small r w = record {
  fresh = w.fresh;
  reps = (r, w.reps);
  counts = λ a. ground (arith, w.counts a);
  live = w.live;
}

-- One reference more, by a slice of a shared tendril.
pub World-count :
    {m : Mem} {ts : List Tendril} {xss : List (List ℕ)} {xs : List ℕ} {a p len off : ℕ} (b : Block)
    (len' off' : ℕ)
    → IsAddress a
    → p ≡ a + 1
    → m.cell a ≡ some b
    → IsSized b b.cap
    → off + len ≤ b.cap
    → xs ≡ slice off len b.bytes
    → off' + len' ≤ b.cap
    → b.refcount + 1 < 2 ^ 64
    → World m (heap_at p len off ∷ ts) (xs ∷ xss)
    → World
        (put m a (some (record b { refcount = b.refcount + 1 })))
        (heap_at p len off ∷ heap_at p len' off' ∷ ts)
        (xs ∷ slice off' len' b.bytes ∷ xss)
unfolding update
World-count {m} {ts} {xss} {a} {p} b len' off' adr tag at sized fits e fits' room w = record {
  fresh = record {
    address = w.fresh.address;
    beyond = λ q h. ground (arith, w.fresh.beyond q, lt-next w.fresh at);
  };
  reps = (
    is_shared more adr tag now sized' fits e,
    (is_shared more adr tag now sized' fits' refl, others (Bool-cases (b.refcount == 1))),
  );
  counts = split_at a _ (ground (arith, w.counts a)) (λ q ne. ground (arith, w.counts q));
  live = split_at a _ (ground (arith, w.live a)) (λ q ne. ground (arith, w.live q));
}
  where
    more : Block
    more = record b { refcount = b.refcount + 1 }

    m' : Mem
    m' = put m a (some more)

    now : m'.cell a ≡ some more
    now = ground arith

    sized' : IsSized more b.cap
    sized' = record { units = sized.units; room = sized.room; min = sized.min; max = sized.max }

    others : ((b.refcount == 1) ≡ true) ⊎ ((b.refcount == 1) ≡ false) → Reps m' ts xss
    others (inl one) =
        Reps-frame a m m' ts xss (λ q ne. ground arith) (ground (arith, w.counts a)) w.reps.1
    others (inr many) =
        Reps-of_Reps a m m' ts xss (λ q ne. ground arith)
          (record {
            old = b;
            new = more;
            before = at;
            after = now;
            many = ground arith;
            cap = refl;
            units = refl;
            bytes = refl;
          })
          w.reps.1
