-- ===== src/Threads/Drained.antt =====
-- The owners are never stuck, and the buffer does not leak.
use tendril.Common.{
  ℕ, zero, suc, ◌≤◌, ◌<◌, ◌^◌, ◌≡◌, ◌⊎◌, inl, inr, refl, ◌∙◌, ap, some, List, [], ◌∷◌, arith,
  length, All, ◌==◌, Bool-cases,
}
use tendril.Refcount.{atomic_decrement}
use tendril.Threads.{
  Stage, owning, holding, dropped, gone, discarded, State, nth, initial, Step, discards, decrements,
  destroys, leaves, IsDrop, Drops, no_more, then_drop, Steps,
}
use tendril.Threads.Safe.{
  holds, frees, total, total-set_nth, length-set_nth, IsSafe, Step-IsSafe, Steps-IsSafe,
}

-- The steps of `drop` that an owner has still to do.
abbrev left : Stage → ℕ
left owning = 1
left holding = 2
left (dropped n) = 1
left gone = 0
left discarded = 0

abbrev pub IsGone : Stage → Type 0
IsGone stage = (stage ≡ gone) ⊎ (stage ≡ discarded)

All-IsGone : (ss : List Stage) → total left ss ≡ 0 → All IsGone ss
All-IsGone [] e = tt
All-IsGone (owning ∷ ss) e = absurd (omega arith)
All-IsGone (holding ∷ ss) e = absurd (omega arith)
All-IsGone (dropped n ∷ ss) e = absurd (omega arith)
All-IsGone (gone ∷ ss) e = (inl refl, All-IsGone ss (omega arith))
All-IsGone (discarded ∷ ss) e = (inr refl, All-IsGone ss (omega arith))

gone_total : (ss : List Stage) → total left ss ≡ 0 → (total holds ss ≡ 0) × (total frees ss ≡ 0)
gone_total [] e = (refl, refl)
gone_total (owning ∷ ss) e = absurd (omega arith)
gone_total (holding ∷ ss) e = absurd (omega arith)
gone_total (dropped n ∷ ss) e = absurd (omega arith)
gone_total (gone ∷ ss) e = let (h, f) = gone_total ss (omega arith) in (omega arith, omega arith)
gone_total (discarded ∷ ss) e =
    let (h, f) = gone_total ss (omega arith) in (omega arith, omega arith)

-- An owner with something left to do.
abbrev Busy : List Stage → Type 0
Busy ss = (i : ℕ) × (stage : Stage) × (nth i ss ≡ some stage) × (0 < left stage)

busy : (ss : List Stage) → 0 < total left ss → Busy ss
busy [] h = absurd (omega arith)
busy (owning ∷ ss) h = (0, owning, refl, omega arith)
busy (holding ∷ ss) h = (0, holding, refl, omega arith)
busy (dropped n ∷ ss) h = (0, dropped n, refl, omega arith)
busy (gone ∷ ss) h = let (i, stage, e, more) = busy ss (omega arith) in (suc i, stage, e, more)
busy (discarded ∷ ss) h = let (i, stage, e, more) = busy ss (omega arith) in (suc i, stage, e, more)

-- A step of `drop` by some owner.
abbrev Progress : State → Type 0
Progress s =
    (t : State) × (step : Step s t) × IsDrop step
    × (total left t.owners < total left s.owners)
    × (length t.owners ≡ length s.owners)

next_drop :
    (s : State) (i : ℕ) (stage : Stage) → nth i s.owners ≡ some stage → 0 < left stage → Progress s
unfolding atomic_decrement
next_drop s i owning e h = (
  _,
  discards i e,
  tt,
  omega (arith, total-set_nth left i owning discarded s.owners e),
  length-set_nth i discarded s.owners,
)
next_drop s i holding e h = (
  _,
  decrements i e,
  tt,
  omega (arith, total-set_nth left i holding (dropped s.refcount) s.owners e),
  length-set_nth i (dropped s.refcount) s.owners,
)
next_drop s i (dropped n) e h =
    let fewer = total-set_nth left i (dropped n) gone s.owners e in
    elim (Bool-cases (n == 1)) [
      | inl last ↦
          let one : n ≡ 1 = ground arith in
          (
            _,
            destroys i (e ∙ ap (λ n. some (dropped n)) one),
            tt,
            omega arith,
            length-set_nth i gone s.owners,
          )
      | inr more ↦ (_, leaves i n e (ground arith), tt, omega arith, length-set_nth i gone s.owners)
    ]
next_drop s i gone e h = absurd (omega arith)
next_drop s i discarded e h = absurd (omega arith)

progress : (s : State) → 0 < total left s.owners → Progress s
progress s h = let (i, stage, e, more) = busy s.owners h in next_drop s i stage e more

-- From `s` steps of `drop` alone bring all owners to their end, and the buffer is destroyed then.
abbrev pub Ends : State → Type 0
Ends s = (u : State) × Drops s u × All IsGone u.owners × (u.destroyed ≡ 1)

ended : {s : State} (t : State) → total left t.owners ≡ 0 → Drops s t → IsSafe t → Ends s
ended t e steps safe =
    let (hs, fs) = gone_total t.owners e in
    (t, steps, All-IsGone t.owners e, ground (arith, safe.once))

drain :
    {s : State} (n : ℕ) (t : State)
    → total left t.owners ≤ n
    → Drops s t
    → length t.owners < 2 ^ 64
    → IsSafe t
    → Ends s
drain zero t h steps bound safe = ended t (omega arith) steps safe
drain (suc n) t h steps bound safe = elim (Bool-cases (total left t.owners == 0)) [
  | inl done ↦ ended t (ground arith) steps safe
  | inr more ↦
      let (u, step, drops, less, same) = progress t (ground arith) in
      drain n u (omega arith) (then_drop steps step drops) (omega arith)
        (Step-IsSafe step (omega arith) safe)
]

-- From every state that fewer than 2^64 owners of one atomic buffer can reach, there is a sequence
-- of steps of `drop` alone that brings all owners to their end, and the buffer is destroyed exactly
-- once then.
pub Steps-Ends : {s : State} → Steps initial s → length s.owners < 2 ^ 64 → Ends s
Steps-Ends {s} steps bound =
    drain (total left s.owners) s (omega arith) no_more bound (Steps-IsSafe steps bound)
