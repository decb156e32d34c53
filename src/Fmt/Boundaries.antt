-- ===== src/Fmt/Boundaries.antt =====
-- `UTF8` of `src/fmt.rs`: its checks of a prefix, a suffix and a part look at one character at each
-- end, which is enough since a character never begins with a continuation byte.
use tendril.Common.{
  ℕ, zero, suc, ◌+◌, ◌-◌, ◌≤◌, ◌<◌, ◌≡◌, ◌⊎◌, inl, inr, Bool-cases, refl, sym, ◌∙◌, ap, subst, true,
  Option, none, some, List, [], ◌∷◌, ◌++◌, append_assoc, append-nil, arith, ltb, ◌==◌, slice, take,
  drop, length, take-append-drop, length-append, nil_of_length,
}
use tendril.Fmt.Utf8.{
  encode_utf8, IsScalar, State, start, more, lead, step, run, from_utf8, from_utf8-run,
  from_utf8-of_run, from_utf8-encode_utf8, from_utf8-append,
}
use tendril.Fmt.Unicode.{Classify, is_whole, utf8, utf8_prefix, utf8_suffix}
use tendril.Fmt.Sound.{IsSound}

-- A character around the index `i` of `buf`, which is whole.
pub record Around (buf : List ℕ) (i : ℕ) : Type 0 where
  pub char : ℕ
  pub front : List ℕ
  pub rest : List ℕ
  pub scalar : IsScalar char
  pub parts : buf ≡ front ++ (encode_utf8 char ++ rest)
  pub from : length front ≤ i
  pub to : i < length front + length (encode_utf8 char)

-- `futf::classify` answers `Whole` only where a character stands.
abbrev pub IsTruthful : Classify → Type 0
IsTruthful classify = (buf : List ℕ) (i : ℕ) → is_whole (classify buf i) ≡ true → Around buf i

-- Within a character only continuation bytes are taken.
abbrev Continues : State → Type 0
Continues start = Unit {0}
Continues (more low high left) = (0x80 ≤ low) × (high ≤ 0xBF)

step-Continues : (s : State) (b : ℕ) (t : State) → step s b ≡ some t → Continues s → Continues t
unfolding step lead
step-Continues start b start e h = tt
step-Continues start b (more low high left) e h = ground arith
step-Continues (more low high zero) b start e h = tt
step-Continues (more low high zero) b (more low' high' left') e h = absurd (ground arith)
step-Continues (more low high (suc left)) b start e h = tt
step-Continues (more low high (suc left)) b (more low' high' left') e h = ground arith

-- A text is read one part after the other.
abbrev Split : State → List ℕ → List ℕ → State → Type 0
Split s xs ys t = (u : State) × (run s xs ≡ some u) × (run u ys ≡ some t) × Continues u

run-Split :
    (s : State) (xs ys : List ℕ) (t : State)
    → Continues s
    → run s (xs ++ ys) ≡ some t
    → Split s xs ys t
unfolding run
run-Split s [] ys t c h = (s, refl, h, c)
run-Split s (x ∷ xs) ys t c h = go (λ u. run-Split u xs ys t) (step s x) refl
  where
    go :
        ((u : State) → Continues u → run u (xs ++ ys) ≡ some t → Split u xs ys t)
        → (o : Option State) → step s x ≡ o
        → Split s (x ∷ xs) ys t
    go ih none e = absurd (ground (arith, h))
    go ih (some u) e =
        let (v, first, second, k) = ih u (step-Continues s x u e c) (ground (arith, h)) in
        (v, ground (arith, first), second, k)

first_byte :
    (c : ℕ) → (b : ℕ) × (bs : List ℕ) × (encode_utf8 c ≡ b ∷ bs) × ((b < 0x80) ⊎ (0xC0 ≤ b))
unfolding encode_utf8
first_byte c = elim (Bool-cases (ltb c 0x80)) [
  | inl one ↦ rw one (c, [], refl, inl (ground arith))
  | inr more_than_one ↦ rw more_than_one (elim (Bool-cases (ltb c 0x800)) [
    | inl two ↦ rw two (_, _, refl, inr (omega arith))
    | inr more_than_two ↦ rw more_than_two (elim (Bool-cases (ltb c 0x10000)) [
      | inl three ↦ rw three (_, _, refl, inr (omega arith))
      | inr four ↦ rw four (_, _, refl, inr (omega arith))
    ])
  ])
]

-- A byte that no character goes on with.
stuck :
    (low high left b : ℕ) (bs : List ℕ) (t : State)
    → Continues (more low high left)
    → (b < 0x80) ⊎ (0xC0 ≤ b)
    → run (more low high left) (b ∷ bs) ≡ some t
    → ⊥
unfolding run step
stuck low high zero b bs t ok far h = ground (arith, h)
stuck low high (suc left) b bs t ok far h = ground (arith, h)

-- The state in front of a character is the one between characters.
run-char :
    (s : State) (c : ℕ) (rest : List ℕ) (t : State)
    → Continues s
    → run s (encode_utf8 c ++ rest) ≡ some t
    → s ≡ start
run-char start c rest t ok h = refl
run-char (more low high left) c rest t ok h =
    let (b, bs, e, far) = first_byte c in
    absurd (
      stuck low high left b (bs ++ rest) t ok far
        (subst (λ l. run (more low high left) (l ++ rest) ≡ some t) e h))

-- A valid text in which a character begins somewhere is valid up to there and from there on.
boundary :
    (xs : List ℕ) (c : ℕ) (rest : List ℕ)
    → from_utf8 (xs ++ (encode_utf8 c ++ rest)) ≡ true
    → (from_utf8 xs ≡ true) × (from_utf8 (encode_utf8 c ++ rest) ≡ true)
boundary xs c rest h =
    let (u, first, second, k) =
      run-Split start xs (encode_utf8 c ++ rest) start tt (from_utf8-run _ h) in
    let e : u ≡ start = run-char u c rest start k second in
    (
      from_utf8-of_run xs (first ∙ ap some e),
      from_utf8-of_run (encode_utf8 c ++ rest)
          (subst (λ s. run s (encode_utf8 c ++ rest) ≡ some start) e second),
    )

module _ (classify : Classify) (truth : IsTruthful classify) where
  -- The check of a suffix, in the middle of a text.
  suffix_lem :
      (xs ys zs : List ℕ)
      → 0 < length ys
      → utf8_suffix classify ys ≡ true
      → from_utf8 (xs ++ (ys ++ zs)) ≡ true
      → from_utf8 (ys ++ zs) ≡ true
  unfolding utf8_suffix
  suffix_lem xs ys zs some_bytes h valid =
      let a = truth ys 0 (ground (arith, h)) in
      let begins : ys ≡ encode_utf8 a.char ++ a.rest =
        a.parts
        ∙ ap (λ l. l ++ (encode_utf8 a.char ++ a.rest))
            (nil_of_length a.front (omega (arith, a.from))) in
      let all : ys ++ zs ≡ encode_utf8 a.char ++ (a.rest ++ zs) =
        ap (λ l. l ++ zs) begins ∙ append_assoc (encode_utf8 a.char) a.rest zs in
      subst (λ l. from_utf8 l ≡ true) (sym all)
        (boundary xs a.char (a.rest ++ zs) (subst (λ l. from_utf8 (xs ++ l) ≡ true) all valid)).1

  prefix_lem :
      (xs ys : List ℕ)
      → 0 < length xs
      → utf8_prefix classify xs ≡ true
      → from_utf8 (xs ++ ys) ≡ true
      → from_utf8 xs ≡ true
  unfolding utf8_prefix
  prefix_lem xs ys some_bytes h valid =
      let a = truth xs (length xs - 1) (ground (arith, h)) in
      let size = ap length a.parts in
      let inner = length-append (encode_utf8 a.char) a.rest in
      let outer = length-append a.front (encode_utf8 a.char ++ a.rest) in
      let last : a.rest ≡ [] = nil_of_length a.rest (omega (arith, size, inner, outer, a.to)) in
      let ends : xs ≡ a.front ++ encode_utf8 a.char =
        a.parts
        ∙ ap (λ l. a.front ++ (encode_utf8 a.char ++ l)) last
        ∙ ap (λ l. a.front ++ l) (append-nil (encode_utf8 a.char)) in
      let all : xs ++ ys ≡ a.front ++ (encode_utf8 a.char ++ ys) =
        ap (λ l. l ++ ys) ends ∙ append_assoc a.front (encode_utf8 a.char) ys in
      let front_valid =
        (boundary a.front a.char ys (subst (λ l. from_utf8 l ≡ true) all valid)).0 in
      subst (λ l. from_utf8 l ≡ true) (sym ends)
        (from_utf8-append a.front (encode_utf8 a.char) front_valid
          (from_utf8-encode_utf8 a.char a.scalar))

  nothing : from_utf8 [] ≡ true
  unfolding from_utf8 run
  nothing = refl

  take_lem :
      (n : ℕ) (xs : List ℕ)
      → from_utf8 xs ≡ true
      → utf8_prefix classify (take n xs) ≡ true
      → from_utf8 (take n xs) ≡ true
  take_lem n xs valid h = elim (Bool-cases (length (take n xs) == 0)) [
    | inl e ↦ rw (nil_of_length (take n xs) (ground arith)) nothing
    | inr e ↦
        prefix_lem (take n xs) (drop n xs) (ground arith) h
          (subst (λ l. from_utf8 l ≡ true) (sym (take-append-drop n xs)) valid)
  ]

  -- The check of a part of a text, at both ends.
  slice_lem :
      (from n : ℕ) (xs : List ℕ)
      → from_utf8 xs ≡ true
      → utf8_prefix classify (slice from n xs) ≡ true
      → utf8_suffix classify (slice from n xs) ≡ true
      → from_utf8 (slice from n xs) ≡ true
  slice_lem from n xs valid h k = elim (Bool-cases (length (slice from n xs) == 0)) [
    | inl e ↦ rw (nil_of_length (slice from n xs) (ground arith)) nothing
    | inr e ↦
        let inside = take-append-drop n (drop from xs) in
        prefix_lem (slice from n xs) (drop n (drop from xs)) (ground arith) h (
          suffix_lem (take from xs) (slice from n xs) (drop n (drop from xs)) (ground arith) k (
            subst (λ l. from_utf8 (take from xs ++ l) ≡ true) (sym inside)
              (subst (λ l. from_utf8 l ≡ true) (sym (take-append-drop from xs)) valid)))
  ]

  drop_lem :
      (n : ℕ) (xs : List ℕ)
      → from_utf8 xs ≡ true
      → utf8_suffix classify (drop n xs) ≡ true
      → from_utf8 (drop n xs) ≡ true
  drop_lem n xs valid h = elim (Bool-cases (length (drop n xs) == 0)) [
    | inl e ↦ rw (nil_of_length (drop n xs) (ground arith)) nothing
    | inr e ↦
        subst (λ l. from_utf8 l ≡ true) (append-nil (drop n xs))
          (suffix_lem (take n xs) (drop n xs) [] (ground arith) h (
            subst (λ l. from_utf8 (take n xs ++ l) ≡ true) (sym (append-nil (drop n xs)))
              (subst (λ l. from_utf8 l ≡ true) (sym (take-append-drop n xs)) valid)))
  ]

  -- If `futf::classify` reports a whole character only where the encoding of a scalar value stands
  -- around the index, then a prefix, a suffix or a part of UTF-8 text that passes the check of
  -- `UTF8` for it is UTF-8 text, the empty text is, and UTF-8 texts joined are, without a fixup.
  pub utf8-IsSound : IsSound (utf8 classify)
  unfolding utf8
  utf8-IsSound = record {
    of_nothing = nothing;
    of_prefix = take_lem;
    of_suffix = drop_lem;
    of_slice =
        λ from n xs valid h. slice_lem from n xs valid (ground (arith, h)) (ground (arith, h));
    of_append = from_utf8-append;
    plain = λ old buf. refl;
  }
