-- ===== src/Threads.antt =====
-- Clones of one `Tendril<F, Atomic>` in many threads, as `src/tendril.rs` counts them: the counter
-- of `Atomic` changes in one step, and all else that `drop` does comes in later steps.
pub mod Safe
pub mod Drained
use tendril.Common.{ℕ, zero, suc, ◌≡◌, ◌≢◌, Option, none, some, List, [], ◌∷◌}
use tendril.Refcount.{atomic_new_count, atomic_increment, atomic_decrement}

-- Where the owner of a tendril is: before `drop`, with an owned or a shared tendril; in `drop` of a
-- shared one, with what `decrement` returned; after `drop` of a shared or an owned one.
pub data Stage : Type 0 where
  owning : Stage
  holding : Stage
  dropped : ℕ → Stage
  gone : Stage
  discarded : Stage

-- The counter in the header, how often the buffer was destroyed, and the tendrils on it.
pub record State : Type 0 where
  pub refcount : ℕ
  pub destroyed : ℕ
  pub owners : List Stage

module _ {ℓ} {A : Type ℓ} where
  abbrev pub nth : ℕ → List A → Option A
  nth n [] = none
  nth zero (x ∷ xs) = some x
  nth (suc n) (x ∷ xs) = nth n xs

  abbrev pub set_nth : ℕ → A → List A → List A
  set_nth n y [] = []
  set_nth zero y (x ∷ xs) = y ∷ xs
  set_nth (suc n) y (x ∷ xs) = x ∷ set_nth n y xs

abbrev pub moved : State → ℕ → Stage → List Stage
moved s i stage = set_nth i stage s.owners

-- A new buffer, with one owned tendril on it
unfoldable pub initial : State
initial = record { refcount = atomic_new_count; destroyed = 0; owners = owning ∷ [] }

-- One step of one owner: `make_buf_shared` and `incref` of `clone`, `drop` of an owned tendril, and
-- the parts of `drop` of a shared one.
pub data Step (s : State) : State → Type 0 where
  shares : (i : ℕ) → nth i s.owners ≡ some owning → Step s (record s { owners = moved s i holding })
  discards :
      (i : ℕ)
      → nth i s.owners ≡ some owning
      → Step s (record s { destroyed = suc s.destroyed; owners = moved s i discarded })
  clones :
      (i : ℕ)
      → nth i s.owners ≡ some holding
      → Step s
          (record s { refcount = (atomic_increment s.refcount).1; owners = holding ∷ s.owners })
  decrements :
      (i : ℕ)
      → nth i s.owners ≡ some holding
      → Step s (record s {
        refcount = (atomic_decrement s.refcount).1;
        owners = moved s i (dropped (atomic_decrement s.refcount).0);
      })
  destroys :
      (i : ℕ)
      → nth i s.owners ≡ some (dropped 1)
      → Step s (record s { destroyed = suc s.destroyed; owners = moved s i gone })
  leaves :
      (i before : ℕ)
      → nth i s.owners ≡ some (dropped before)
      → before ≢ 1
      → Step s (record s { owners = moved s i gone })

-- A step of `drop`
abbrev pub IsDrop : {s t : State} → Step s t → Type 0
IsDrop (shares i e) = ⊥
IsDrop (discards i e) = Unit {0}
IsDrop (clones i e) = ⊥
IsDrop (decrements i e) = Unit {0}
IsDrop (destroys i e) = Unit {0}
IsDrop (leaves i before e more) = Unit {0}

-- Any number of steps of `drop`, of any owners in any order.
pub data Drops (s : State) : State → Type 0 where
  no_more : Drops s s
  then_drop : {t u : State} → Drops s t → (step : Step t u) → IsDrop step → Drops s u

-- Any number of steps, of any owners in any order.
pub data Steps (s : State) : State → Type 0 where
  stop : Steps s s
  then_step : {t u : State} → Steps s t → Step t u → Steps s u
