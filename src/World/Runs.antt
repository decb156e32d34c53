-- ===== src/World/Runs.antt =====
-- `pop_front_char_run` of `src/tendril.rs` on UTF-8 text.
use tendril.Common.{
  ℕ, ◌+◌, ◌<◌, ◌^◌, ◌≡◌, refl, sym, ◌∙◌, ap, subst, ◌⊎◌, inl, inr, Bool, Option, none, some, List,
  [], ◌∷◌, ◌++◌, append-nil, arith, Bool-cases, if◌then◌else◌, length, length-append, drop,
  as_u32_lem,
}
use tendril.Mem.{Mem}
use tendril.Fmt.Unicode.{Classify, utf8}
use tendril.Fmt.Utf8.{encode_utf8}
use tendril.Fmt.Utf8.Text.{encode_all, AreScalars, positions, encode_all-append}
use tendril.Tendril.{Tendril}
use tendril.Tendril.Chars.{utf8_chars, first_mismatch, split_run, run_of, pop_front_char_run}
use tendril.World.{World}
use tendril.World.Read.{as_byte_slice_lem, length-lt}
use tendril.World.Clear.{clear_lem}
use tendril.World.Cut.{unsafe_subtendril_lem, unsafe_pop_front_lem}
use tendril.World.Share.{clone_lem}
use tendril.World.Returns
use tendril.World.Returns.{Returns, returned}
use tendril.World.Chars.{drop_front, take_front, indices_lem}

-- The characters of a class in front, and those from the first of another class on.
module _ {R : Type 0} (same : R → R → Bool) (class_of : ℕ → R) (class : R) where
  abbrev pub run_chars : List ℕ → List ℕ
  run_chars [] = []
  run_chars (c ∷ cs) = if same (class_of c) class then c ∷ run_chars cs else []

  abbrev pub other_chars : List ℕ → List ℕ
  other_chars [] = []
  other_chars (c ∷ cs) = if same (class_of c) class then other_chars cs else c ∷ cs

  run_chars-append-other_chars : (cs : List ℕ) → run_chars cs ++ other_chars cs ≡ cs
  run_chars-append-other_chars [] = refl
  run_chars-append-other_chars (c ∷ cs) = elim (Bool-cases (same (class_of c) class)) [
    | inl e ↦ rw e (ap (λ l. c ∷ l) (run_chars-append-other_chars cs))
    | inr e ↦ rw e refl
  ]

  -- Where the search for another class stops.
  first_mismatch_lem :
      (i : ℕ) (cs : List ℕ)
      → ((first_mismatch same class_of class (positions i cs) ≡ none) × (other_chars cs ≡ []))
        ⊎ (first_mismatch same class_of class (positions i cs)
            ≡ some (i + length (encode_all (run_chars cs))))
  unfolding first_mismatch
  first_mismatch_lem i [] = inl (refl, refl)
  first_mismatch_lem i (c ∷ cs) = elim (Bool-cases (same (class_of c) class)) [
    | inl e ↦ rw e (elim (first_mismatch_lem (i + length (encode_utf8 c)) cs) [
      | inl h ↦ inl h
      | inr h ↦
          inr
            (h ∙ ap some (omega (arith, length-append (encode_utf8 c) (encode_all (run_chars cs)))))
    ])
    | inr e ↦ rw e (inr (ap some (omega arith)))
  ]

-- What `pop_front_char_run` promises of a text of the characters `cs`.
abbrev pub PopRun :
    {R : Type 0}
    → (R → R → Bool)
    → (ℕ → R)
    → List Tendril
    → List (List ℕ)
    → (cs : List ℕ) → Tendril × Option (Tendril × R)
    → Mem
    → Type 0
PopRun same class_of ts xss [] (t, none) m = World m (t ∷ ts) ([] ∷ xss)
PopRun same class_of ts xss [] (t, some _) m = ⊥
PopRun same class_of ts xss (c ∷ cs) (t, none) m = ⊥
PopRun same class_of ts xss (c ∷ cs) (t, some (run, class)) m =
    (class ≡ class_of c)
    × World m (t ∷ run ∷ ts) (
        encode_all (other_chars same class_of class cs)
        ∷ encode_all (c ∷ run_chars same class_of class cs)
        ∷ xss)

module _ {R : Type 0} (same : R → R → Bool) (class_of : ℕ → R) {ts : List Tendril}
    {xss : List (List ℕ)} where
  to_PopRun :
      (c : ℕ) (cs : List ℕ) (r : Tendril × Option (Tendril × R)) (m' : Mem)
      → (run : Tendril) × (r.1 ≡ some (run, class_of c))
        × World m' (r.0 ∷ run ∷ ts) (
            encode_all (other_chars same class_of (class_of c) cs)
            ∷ encode_all (c ∷ run_chars same class_of (class_of c) cs)
            ∷ xss)
      → PopRun same class_of ts xss (c ∷ cs) r m'
  to_PopRun c cs (t', o) m' (run, e, w) =
      subst (λ o. PopRun same class_of ts xss (c ∷ cs) (t', o) m') (sym e) (refl, w)

module _ (classify : Classify) {R : Type 0} (same : R → R → Bool) (class_of : ℕ → R) {m : Mem}
    {t : Tendril} {ts : List Tendril} {xss : List (List ℕ)} where
  -- The two ends of the method, at a text that is split into a run and the others.
  split_at :
      (class : R) (xs ys : List ℕ)
      → length ts + 2 < 2 ^ 64
      → World m (t ∷ ts) ((xs ++ ys) ∷ xss)
      → Returns
          (λ (t', o) m'.
            (run : Tendril) × (o ≡ some (run, class)) × World m' (t' ∷ run ∷ ts) (ys ∷ xs ∷ xss))
          (split_run (utf8_chars (utf8 classify)) t class (some (length xs)) m)
  unfolding split_run
  split_at class xs ys few w =
      let size : length (xs ++ ys) ≡ length xs + length ys = length-append xs ys in
      rw (as_u32_lem (length xs) (omega (arith, size, length-lt w.reps.0))) (
        Returns.then_do (unsafe_subtendril_lem 0 (length xs) (omega (arith, size)) few w)
          (λ (t', run) m' w'.
            Returns.then_do (unsafe_pop_front_lem (length xs) (omega (arith, size)) w')
              (λ t'' m'' w''. returned (
                run,
                refl,
                subst (λ l. World m'' (t'' ∷ run ∷ ts) (l ∷ xs ∷ xss)) (drop_front xs ys)
                    (subst (λ l. World m'' (t'' ∷ run ∷ ts) (drop (length xs) (xs ++ ys) ∷ l ∷ xss))
                      (take_front xs ys) w''),
              ))))

  split_all :
      (class : R) (xs : List ℕ)
      → length ts + 2 < 2 ^ 64
      → World m (t ∷ ts) (xs ∷ xss)
      → Returns
          (λ (t', o) m'.
            (run : Tendril) × (o ≡ some (run, class)) × World m' (t' ∷ run ∷ ts) ([] ∷ xs ∷ xss))
          (split_run (utf8_chars (utf8 classify)) t class none m)
  unfolding split_run
  split_all class xs few w =
      Returns.then_do (clone_lem few w) (λ (t', run) m' w'.
        Returns.then_do (clear_lem w') (λ t'' m'' w''. returned (run, refl, w'')))

  run_of_lem :
      (cs : List ℕ)
      → length ts + 2 < 2 ^ 64
      → World m (t ∷ ts) (encode_all cs ∷ xss)
      → Returns
          (PopRun same class_of ts xss cs)
          (run_of (utf8_chars (utf8 classify)) same class_of t (positions 0 cs) m)
  unfolding run_of
  run_of_lem [] few w = returned w
  run_of_lem (c ∷ cs) few w =
      let class = class_of c in
      let run = run_chars same class_of class cs in
      let others = other_chars same class_of class cs in
      let whole : run ++ others ≡ cs = run_chars-append-other_chars same class_of class cs in
      let parts : encode_all (c ∷ cs) ≡ encode_all (c ∷ run) ++ encode_all others =
        ap (λ l. encode_all (c ∷ l)) (sym whole) ∙ encode_all-append (c ∷ run) others in
      elim (first_mismatch_lem same class_of class (0 + length (encode_utf8 c)) cs) [
        | inl (e, last) ↦
            let all : run ≡ cs = sym (append-nil run) ∙ ap (λ l. run ++ l) (sym last) ∙ whole in
            rw e (
              Returns.weaken (split_all class (encode_all (c ∷ cs)) few w) (λ r m' (u, o, w').
                to_PopRun same class_of c cs r m' (
                  u,
                  o,
                  subst (λ l. World m' (r.0 ∷ u ∷ ts) (encode_all l ∷ encode_all (c ∷ run) ∷ xss))
                      (sym last)
                      (subst (λ l. World m' (r.0 ∷ u ∷ ts) ([] ∷ encode_all (c ∷ l) ∷ xss))
                        (sym all) w'),
                )))
        | inr e ↦
            let size : 0 + length (encode_utf8 c) + length (encode_all run)
                ≡ length (encode_all (c ∷ run)) =
              omega (arith, length-append (encode_utf8 c) (encode_all run)) in
            rw (e, size)
              (Returns.weaken
                (split_at class (encode_all (c ∷ run)) (encode_all others) few
                  (subst (λ l. World m (t ∷ ts) (l ∷ xss)) parts w))
                (to_PopRun same class_of c cs))
      ]

  -- In a memory where every live tendril stands for its bytes and every header counts the tendrils
  -- that point to it, and with fewer than 2^64 - 2 other tendrils, `pop_front_char_run` on the
  -- UTF-8 text of some characters returns nothing on the empty text, and else the longest run in
  -- front of the class of the first character, with that class, and keeps the characters behind it.
  pub pop_front_char_run_lem :
      (cs : List ℕ)
      → AreScalars cs
      → length ts + 2 < 2 ^ 64
      → World m (t ∷ ts) (encode_all cs ∷ xss)
      → Returns
          (PopRun same class_of ts xss cs)
          (pop_front_char_run (utf8_chars (utf8 classify)) same class_of t m)
  unfolding pop_front_char_run
  pop_front_char_run_lem cs s few w =
      rw (as_byte_slice_lem w.reps.0, indices_lem classify cs s) (run_of_lem cs few w)
