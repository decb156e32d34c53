-- ===== src/Threads/Safe.antt =====
-- The counter counts, and the buffer is destroyed once and not too early.
use tendril.Common.{
  ℕ, zero, suc, ◌+◌, ◌≤◌, ◌<◌, ◌^◌, ◌≡◌, ◌⊎◌, inl, inr, refl, ◌∙◌, ap, some, List, [], ◌∷◌, arith,
  ◌==◌, if◌then◌else◌, length, sub64_lem,
}
use tendril.Refcount.{atomic_new_count, atomic_increment, atomic_decrement}
use tendril.Threads.{
  Stage, owning, holding, dropped, gone, discarded, State, nth, set_nth, initial, Step, shares,
  discards, clones, decrements, destroys, leaves, Steps, stop, then_step,
}

-- An owner that may still use the buffer, and one that is going to destroy it.
abbrev pub holds : Stage → ℕ
holds owning = 1
holds holding = 1
holds (dropped n) = 0
holds gone = 0
holds discarded = 0

abbrev pub frees : Stage → ℕ
frees owning = 0
frees holding = 0
frees (dropped n) = if n == 1 then 1 else 0
frees gone = 0
frees discarded = 0

-- An owner whose tendril was never shared, before and after `drop`.
abbrev pub owns : Stage → ℕ
owns owning = 1
owns holding = 0
owns (dropped n) = 0
owns gone = 0
owns discarded = 0

abbrev pub discarding : Stage → ℕ
discarding owning = 0
discarding holding = 0
discarding (dropped n) = 0
discarding gone = 0
discarding discarded = 1

-- An owner whose tendril is or was shared.
abbrev pub shared : Stage → ℕ
shared owning = 0
shared holding = 1
shared (dropped n) = 1
shared gone = 1
shared discarded = 0

abbrev pub total : (Stage → ℕ) → List Stage → ℕ
total f [] = 0
total f (s ∷ ss) = f s + total f ss

-- One owner changes its stage.
pub total-set_nth :
    (f : Stage → ℕ) (i : ℕ) (old new : Stage) (ss : List Stage)
    → nth i ss ≡ some old
    → total f (set_nth i new ss) + f old ≡ total f ss + f new
total-set_nth f i old new [] e = absurd (ground (arith, e))
total-set_nth f zero old new (s ∷ ss) e =
    let same : s ≡ old = ground (arith, e) in rw same (omega arith)
total-set_nth f (suc i) old new (s ∷ ss) e = omega (arith, total-set_nth f i old new ss e)

pub length-set_nth : (i : ℕ) (new : Stage) (ss : List Stage) → length (set_nth i new ss) ≡ length ss
length-set_nth i new [] = refl
length-set_nth zero new (s ∷ ss) = refl
length-set_nth (suc i) new (s ∷ ss) = ap suc (length-set_nth i new ss)

pub total-le : (ss : List Stage) → total holds ss + total discarding ss ≤ length ss
total-le [] = omega arith
total-le (owning ∷ ss) = omega (arith, total-le ss)
total-le (holding ∷ ss) = omega (arith, total-le ss)
total-le (dropped n ∷ ss) = omega (arith, total-le ss)
total-le (gone ∷ ss) = omega (arith, total-le ss)
total-le (discarded ∷ ss) = omega (arith, total-le ss)

holds-le : (ss : List Stage) → total holds ss ≤ total owns ss + total shared ss
holds-le [] = omega arith
holds-le (owning ∷ ss) = omega (arith, holds-le ss)
holds-le (holding ∷ ss) = omega (arith, holds-le ss)
holds-le (dropped n ∷ ss) = omega (arith, holds-le ss)
holds-le (gone ∷ ss) = omega (arith, holds-le ss)
holds-le (discarded ∷ ss) = omega (arith, holds-le ss)

-- The counter is the number of owners that have not decremented it: the holders, and the owner that
-- dropped a tendril which was never shared. As long as there is a holder, nobody destroys or has
-- destroyed the buffer, and without one exactly one owner is about to or has done it. The owner of a
-- tendril that was never shared is the only one.
pub record IsSafe (s : State) : Type 0 where
  pub counted : s.refcount ≡ total holds s.owners + total discarding s.owners
  pub once :
      ((0 < total holds s.owners) × (total frees s.owners + s.destroyed ≡ 0))
      ⊎ ((total holds s.owners ≡ 0) × (total frees s.owners + s.destroyed ≡ 1))
  pub alone :
      (total owns s.owners + total discarding s.owners ≡ 0)
      ⊎ ((total owns s.owners + total discarding s.owners ≡ 1) × (total shared s.owners ≡ 0))

initial-IsSafe : IsSafe initial
unfolding initial atomic_new_count
initial-IsSafe = record { counted = refl; once = inl (omega arith, refl); alone = inr (refl, refl) }

-- What a change of one owner's stage does to all the numbers.
abbrev Changed : (i : ℕ) (old new : Stage) → List Stage → Type 0
Changed i old new ss =
    (total holds (set_nth i new ss) + holds old ≡ total holds ss + holds new)
    × (total frees (set_nth i new ss) + frees old ≡ total frees ss + frees new)
    × (total owns (set_nth i new ss) + owns old ≡ total owns ss + owns new)
    × (total discarding (set_nth i new ss) + discarding old ≡ total discarding ss + discarding new)
    × (total shared (set_nth i new ss) + shared old ≡ total shared ss + shared new)

changed : (i : ℕ) (old new : Stage) (ss : List Stage) → nth i ss ≡ some old → Changed i old new ss
changed i old new ss e = (
  total-set_nth holds i old new ss e,
  total-set_nth frees i old new ss e,
  total-set_nth owns i old new ss e,
  total-set_nth discarding i old new ss e,
  total-set_nth shared i old new ss e,
)

pub Step-IsSafe : {s t : State} → Step s t → length t.owners < 2 ^ 64 → IsSafe s → IsSafe t
unfolding atomic_increment atomic_decrement
Step-IsSafe {s} (shares i e) bound safe =
    let c = changed i owning holding s.owners e in
    let gone_owner = total-set_nth owns i owning gone s.owners e in
    record {
      counted = omega (arith, safe.counted, c);
      once = ground (arith, safe.once, c);
      alone = ground (arith, safe.alone, c, gone_owner);
    }
Step-IsSafe {s} (discards i e) bound safe =
    let c = changed i owning discarded s.owners e in
    let fewer = holds-le s.owners in
    record {
      counted = omega (arith, safe.counted, c);
      once = ground (arith, safe.once, safe.alone, c, fewer);
      alone = ground (arith, safe.alone, c);
    }
Step-IsSafe {s} (clones i e) bound safe =
    let c = changed i holding owning s.owners e in
    let holder = total-set_nth holds i holding gone s.owners e in
    record {
      counted = omega (arith, safe.counted, total-le s.owners);
      once = ground (arith, safe.once, holder);
      alone = ground (arith, safe.alone, c);
    }
Step-IsSafe {s} (decrements i e) bound safe =
    let c = changed i holding (dropped s.refcount) s.owners e in
    let size = length-set_nth i (dropped s.refcount) s.owners in
    let less = total-le s.owners in
    let one_shared = total-set_nth shared i holding owning s.owners e in
    let never_alone : total discarding s.owners ≡ 0 = ground (arith, safe.alone) in
    record {
      counted =
          sub64_lem s.refcount 1 (omega (arith, safe.counted)) (omega (arith, safe.counted))
          ∙ omega (arith, safe.counted);
      once = ground (arith, safe.once, safe.counted, never_alone, c);
      alone = ground (arith, safe.alone, c);
    }
Step-IsSafe {s} (destroys i e) bound safe =
    let c = changed i (dropped 1) gone s.owners e in
    record {
      counted = omega (arith, safe.counted, c);
      once = ground (arith, safe.once, c);
      alone = ground (arith, safe.alone, c);
    }
Step-IsSafe {s} (leaves i before e more) bound safe =
    let c = changed i (dropped before) gone s.owners e in
    record {
      counted = omega (arith, safe.counted, c);
      once = ground (arith, safe.once, c);
      alone = ground (arith, safe.alone, c);
    }

-- Owners are never forgotten.
Step-grows : {s t : State} → Step s t → length s.owners ≤ length t.owners
unfolding atomic_decrement
Step-grows {s} (shares i e) = omega (arith, length-set_nth i holding s.owners)
Step-grows {s} (discards i e) = omega (arith, length-set_nth i discarded s.owners)
Step-grows {s} (clones i e) = omega arith
Step-grows {s} (decrements i e) = omega (arith, length-set_nth i (dropped s.refcount) s.owners)
Step-grows {s} (destroys i e) = omega (arith, length-set_nth i gone s.owners)
Step-grows {s} (leaves i before e more) = omega (arith, length-set_nth i gone s.owners)

-- After any interleaving of clones and of the steps of `drop` by the owners of one atomic buffer,
-- of which there are fewer than 2^64 in all, the counter is the number of owners that have not
-- decremented it; while there is one that still holds its tendril nobody destroys the buffer or has
-- destroyed it, and without one exactly one owner is about to or has done it; and the owner of a
-- tendril that was never shared, which drops it without a look at the counter, is the only one.
pub Steps-IsSafe : {s : State} → Steps initial s → length s.owners < 2 ^ 64 → IsSafe s
Steps-IsSafe stop bound = initial-IsSafe
Steps-IsSafe (then_step steps step) bound =
    Step-IsSafe step bound (Steps-IsSafe steps (omega (arith, bound, Step-grows step)))
