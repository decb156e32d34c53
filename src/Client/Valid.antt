-- ===== src/Client/Valid.antt =====
-- The tendrils of a program keep their format.
use tendril.Common.{
  ℕ, zero, suc, ◌+◌, ◌-◌, ◌≡◌, inl, inr, true, List, [], ◌∷◌, ◌++◌, arith, All, ltb, ◌==◌,
  Bool-cases, if◌then◌else◌, length, take, take_all, drop, slice,
}
use tendril.Mem.{Mem}
use tendril.Fmt.{Format}
use tendril.Fmt.Sound.{IsSound}
use tendril.Tendril.{Tendril}
use tendril.World.{World}
use tendril.World.Returns
use tendril.World.Returns.{Returns}
use tendril.Client.{
  Call, create, focus, copy, cut, push, push_second, shorten_front, shorten_back, empty, make_room,
  write, move_away, release, pull, insert_second, run, without_front, without_back, effect, effects,
  IsAllowed, AreAllowed,
}
use tendril.Client.Refine.{run_lem}

module _ {A : Type 0} (P : A → Type 0) where
  All-insert_second : (x : A) (xs : List A) → P x → All P xs → All P (insert_second x xs)
  All-insert_second x [] p h = (p, tt)
  All-insert_second x (y ∷ xs) p h = (h.0, (p, h.1))

  All-pull : (n : ℕ) (xs : List A) → All P xs → All P (pull n xs)
  All-pull n [] h = tt
  All-pull zero (x ∷ xs) h = h
  All-pull (suc n) (x ∷ xs) h = All-insert_second x (pull n xs) h.0 (All-pull n xs h.1)

module _ (format : Format) where
  -- All bytes are text of the format.
  abbrev pub AreValid : List (List ℕ) → Type 0
  AreValid xss = All (λ xs. format.validate xs ≡ true) xss

  module _ (sound : IsSound format) where
    without_front-valid :
        (n : ℕ) (xs : List ℕ)
        → format.validate xs ≡ true
        → format.validate (without_front format n xs) ≡ true
    without_front-valid n xs valid = elim (Bool-cases (ltb (length xs) n)) [
      | inl outside ↦ rw outside valid
      | inr inside ↦ rw inside (elim (Bool-cases (n == 0)) [
        | inl nothing ↦ let z : n ≡ 0 = ground arith in rw (nothing, z) valid
        | inr some_asked ↦ rw some_asked (elim (Bool-cases (format.validate_suffix (drop n xs))) [
          | inl checked ↦ rw checked (sound.of_suffix n xs valid checked)
          | inr refused ↦ rw refused valid
        ])
      ])
    ]

    without_back-valid :
        (n : ℕ) (xs : List ℕ)
        → format.validate xs ≡ true
        → format.validate (without_back format n xs) ≡ true
    without_back-valid n xs valid = elim (Bool-cases (ltb (length xs) n)) [
      | inl outside ↦ rw outside valid
      | inr inside ↦ rw inside (elim (Bool-cases (n == 0)) [
        | inl nothing ↦ rw (nothing, take_all (length xs - n) xs (ground arith)) valid
        | inr some_asked ↦
            rw some_asked (elim (Bool-cases (format.validate_prefix (take (length xs - n) xs))) [
              | inl checked ↦ rw checked (sound.of_prefix (length xs - n) xs valid checked)
              | inr refused ↦ rw refused valid
            ])
      ])
    ]

    cut-AreValid :
        (from n : ℕ) (xs : List ℕ) (xss : List (List ℕ))
        → AreValid (xs ∷ xss)
        → AreValid (effect format (cut from n) (xs ∷ xss))
    cut-AreValid from n xs xss h = elim (Bool-cases (ltb (length xs) (from + n))) [
      | inl outside ↦ rw outside h
      | inr inside ↦ rw inside (elim (Bool-cases (format.validate_subseq (slice from n xs))) [
        | inl checked ↦ rw checked (h.0, (sound.of_slice from n xs h.0 checked, h.1))
        | inr refused ↦ rw refused h
      ])
    ]

    create-AreValid :
        (x : List ℕ) (xss : List (List ℕ)) → AreValid xss → AreValid (effect format (create x) xss)
    create-AreValid x xss h = elim (Bool-cases (format.validate x)) [
      | inl valid ↦ rw valid (valid, h)
      | inr refused ↦ rw refused h
    ]

    push-valid :
        (buf xs : List ℕ)
        → format.validate xs ≡ true
        → format.validate (if format.validate buf then xs ++ buf else xs) ≡ true
    push-valid buf xs h = elim (Bool-cases (format.validate buf)) [
      | inl valid ↦ rw valid (sound.of_append xs buf h valid)
      | inr refused ↦ rw refused h
    ]

    effect-AreValid :
        (c : Call) (xss : List (List ℕ))
        → IsAllowed format c xss
        → AreValid xss
        → AreValid (effect format c xss)
    effect-AreValid (create x) xss fine h = create-AreValid x xss h
    effect-AreValid (focus n) xss fine h = All-pull (λ xs. format.validate xs ≡ true) n xss h
    effect-AreValid copy [] fine h = tt
    effect-AreValid copy (xs ∷ xss) fine h = (h.0, (h.0, h.1))
    effect-AreValid (cut from n) [] fine h = tt
    effect-AreValid (cut from n) (xs ∷ xss) fine h = cut-AreValid from n xs xss h
    effect-AreValid (push buf) [] fine h = tt
    effect-AreValid (push buf) (xs ∷ xss) fine h = (push-valid buf xs h.0, h.1)
    effect-AreValid push_second [] fine h = tt
    effect-AreValid push_second (xs ∷ []) fine h = h
    effect-AreValid push_second (xs ∷ ys ∷ xss) fine h = (sound.of_append xs ys h.0 h.1.0, h.1)
    effect-AreValid (shorten_front n) [] fine h = tt
    effect-AreValid (shorten_front n) (xs ∷ xss) fine h = (without_front-valid n xs h.0, h.1)
    effect-AreValid (shorten_back n) [] fine h = tt
    effect-AreValid (shorten_back n) (xs ∷ xss) fine h = (without_back-valid n xs h.0, h.1)
    effect-AreValid empty [] fine h = tt
    effect-AreValid empty (xs ∷ xss) fine h = (sound.of_nothing, h.1)
    effect-AreValid (make_room n) [] fine h = tt
    effect-AreValid (make_room n) (xs ∷ xss) fine h = h
    effect-AreValid (write at src) [] fine h = tt
    effect-AreValid (write at src) (xs ∷ xss) fine h = (fine.1, h.1)
    effect-AreValid move_away [] fine h = tt
    effect-AreValid move_away (xs ∷ xss) fine h = h
    effect-AreValid release [] fine h = tt
    effect-AreValid release (xs ∷ xss) fine h = h.1

    effects-AreValid :
        (cs : List Call) (xss : List (List ℕ))
        → AreAllowed format cs xss
        → AreValid xss
        → AreValid (effects format cs xss)
    effects-AreValid [] xss fine h = h
    effects-AreValid (c ∷ cs) xss (first, later) h =
        effects-AreValid cs (effect format c xss) later (effect-AreValid c xss first h)

    -- In a memory where every live tendril stands for its bytes and every header counts the
    -- tendrils that point to it, and all byte strings are text of a format whose partial checks are
    -- sound, every program under the conditions of `Client.Refine.run_lem`, whose stores keep the
    -- format, returns with tendrils that are all text of the format.
    pub run-AreValid :
        {m : Mem} (cs : List Call) (ts : List Tendril) (xss : List (List ℕ))
        → AreAllowed format cs xss
        → AreValid xss
        → World m ts xss
        → Returns
            (λ ts' m'. (xss' : List (List ℕ)) × World m' ts' xss' × AreValid xss')
            (run format cs ts m)
    run-AreValid cs ts xss fine h w =
        Returns.weaken (run_lem format cs ts xss sound.plain fine w)
          (λ ts' m' w'. (effects format cs xss, w', effects-AreValid cs xss fine h))
