-- ===== src/Fmt/Utf8/First.antt =====
-- A text that `str::from_utf8` accepts begins with the encoding of a character.
use tendril.Common.{
  ℕ, suc, ◌+◌, ◌-◌, ◌*◌, ◌^◌, ◌≤◌, ◌<◌, ◌≡◌, refl, sym, ap, ◌∙◌, subst, ◌⊎◌, inl, inr, true, some,
  List, [], ◌∷◌, ◌++◌, arith, leb, ltb, ◌==◌, Bool-cases, ◌&&◌,
}
use tendril.Fmt.Utf8.{
  IsScalar, encode_utf8, from_utf8, start, more, lead, step, run, from_utf8-run, from_utf8-of_run,
}

-- A text as its first character and the rest.
pub record First (xs : List ℕ) : Type 0 where
  pub char : ℕ
  pub rest : List ℕ
  pub scalar : IsScalar char
  pub split : xs ≡ encode_utf8 char ++ rest
  pub valid : from_utf8 rest ≡ true

-- A byte in the range that the state asks for.
record Next (low high left : ℕ) (xs : List ℕ) : Type 0 where
  pub byte : ℕ
  pub rest : List ℕ
  pub split : xs ≡ byte ∷ rest
  pub above : low ≤ byte
  pub below : byte ≤ high

last_byte :
    (low high : ℕ) (xs : List ℕ)
    → run (more low high 0) xs ≡ some start
    → (n : Next low high 0 xs) × (run start n.rest ≡ some start)
unfolding run step
last_byte low high [] h = absurd (ground arith)
last_byte low high (b ∷ xs) h = elim (Bool-cases (leb low b && leb b high)) [
  | inl inside ↦ (
    record { byte = b; rest = xs; split = refl; above = ground arith; below = ground arith },
    ground arith,
  )
  | inr outside ↦ absurd (ground arith)
]

middle_byte :
    (low high left : ℕ) (xs : List ℕ)
    → run (more low high (suc left)) xs ≡ some start
    → (n : Next low high (suc left) xs) × (run (more 0x80 0xBF left) n.rest ≡ some start)
unfolding run step
middle_byte low high left [] h = absurd (ground arith)
middle_byte low high left (b ∷ xs) h = elim (Bool-cases (leb low b && leb b high)) [
  | inl inside ↦ (
    record { byte = b; rest = xs; split = refl; above = ground arith; below = ground arith },
    ground arith,
  )
  | inr outside ↦ absurd (ground arith)
]

one_byte : (a : ℕ) (xs : List ℕ) → a < 0x80 → from_utf8 xs ≡ true → First (a ∷ xs)
unfolding encode_utf8
one_byte a xs h valid = record {
  char = a;
  rest = xs;
  scalar = inl (omega arith);
  split = ground arith;
  valid = valid;
}

two_bytes :
    (a b : ℕ) (xs : List ℕ)
    → 0xC2 ≤ a
    → a < 0xE0
    → 0x80 ≤ b
    → b ≤ 0xBF
    → from_utf8 xs ≡ true
    → First (a ∷ b ∷ xs)
unfolding encode_utf8
two_bytes a b xs ha ha' hb hb' valid = record {
  char = (a - 0xC0) * 64 + (b - 0x80);
  rest = xs;
  scalar = inl (omega arith);
  split = ground arith;
  valid = valid;
}

three_bytes :
    (a b c : ℕ) (xs : List ℕ)
    → 0xE0 ≤ a
    → a < 0xF0
    → 0x80 ≤ b
    → b ≤ 0xBF
    → 0x80 ≤ c
    → c ≤ 0xBF
    → (0xE0 < a) ⊎ (0xA0 ≤ b)
    → (a < 0xED) ⊎ ((0xED < a) ⊎ (b ≤ 0x9F))
    → from_utf8 xs ≡ true
    → First (a ∷ b ∷ c ∷ xs)
unfolding encode_utf8
three_bytes a b c xs ha ha' hb hb' hc hc' low high valid = record {
  char = (a - 0xE0) * 4096 + (b - 0x80) * 64 + (c - 0x80);
  rest = xs;
  scalar = ground arith;
  split = ground arith;
  valid = valid;
}

four_bytes :
    (a b c d : ℕ) (xs : List ℕ)
    → 0xF0 ≤ a
    → a ≤ 0xF4
    → 0x80 ≤ b
    → b ≤ 0xBF
    → 0x80 ≤ c
    → c ≤ 0xBF
    → 0x80 ≤ d
    → d ≤ 0xBF
    → (0xF0 < a) ⊎ (0x90 ≤ b)
    → (a < 0xF4) ⊎ (b ≤ 0x8F)
    → from_utf8 xs ≡ true
    → First (a ∷ b ∷ c ∷ d ∷ xs)
unfolding encode_utf8
four_bytes a b c d xs ha ha' hb hb' hc hc' hd hd' low high valid = record {
  char = (a - 0xF0) * 2 ^ 18 + (b - 0x80) * 4096 + (c - 0x80) * 64 + (d - 0x80);
  rest = xs;
  scalar = inr (ground arith);
  split = ground arith;
  valid = valid;
}

-- What the first byte says of the next one, and of how many follow.
data Lead (a : ℕ) (xs : List ℕ) : Type 0 where
  single : a < 0x80 → run start xs ≡ some start → Lead a xs
  double : 0xC2 ≤ a → a < 0xE0 → run (more 0x80 0xBF 0) xs ≡ some start → Lead a xs
  triple :
      (low high : ℕ)
      → 0x80 ≤ low
      → high ≤ 0xBF
      → run (more low high 1) xs ≡ some start
      → 0xE0 ≤ a
      → a < 0xF0
      → (0xE0 < a) ⊎ (0xA0 ≤ low)
      → (a < 0xED) ⊎ ((0xED < a) ⊎ (high ≤ 0x9F))
      → Lead a xs
  quadruple :
      (low high : ℕ)
      → 0x80 ≤ low
      → high ≤ 0xBF
      → run (more low high 2) xs ≡ some start
      → 0xF0 ≤ a
      → a ≤ 0xF4
      → (0xF0 < a) ⊎ (0x90 ≤ low)
      → (a < 0xF4) ⊎ (high ≤ 0x8F)
      → Lead a xs

-- The first bytes of three and of four bytes.
Lead-of_three :
    (a : ℕ) (xs : List ℕ) → 0xE0 ≤ a → a < 0xF0 → run start (a ∷ xs) ≡ some start → Lead a xs
unfolding run step lead
Lead-of_three a xs ha ha' h = elim (Bool-cases (a == 0xE0)) [
  | inl c ↦
      triple 0xA0 0xBF (omega arith) (omega arith) (ground arith) ha ha' (inr (omega arith))
        (inl (ground arith))
  | inr c ↦ elim (Bool-cases (a == 0xED)) [
    | inl d ↦
        triple 0x80 0x9F (omega arith) (omega arith) (ground arith) ha ha' (inl (ground arith))
          (inr (inr (omega arith)))
    | inr d ↦
        triple 0x80 0xBF (omega arith) (omega arith) (ground arith) ha ha' (inl (ground arith))
          (ground arith)
  ]
]

Lead-of_four : (a : ℕ) (xs : List ℕ) → 0xF0 ≤ a → run start (a ∷ xs) ≡ some start → Lead a xs
unfolding run step lead
Lead-of_four a xs ha h = elim (Bool-cases (a == 0xF0)) [
  | inl c ↦
      quadruple 0x90 0xBF (omega arith) (omega arith) (ground arith) ha (ground arith)
        (inr (omega arith)) (inl (ground arith))
  | inr c ↦ elim (Bool-cases (ltb a 0xF4)) [
    | inl d ↦
        quadruple 0x80 0xBF (omega arith) (omega arith) (ground arith) ha (ground arith)
          (inl (ground arith)) (inl (ground arith))
    | inr d ↦ elim (Bool-cases (a == 0xF4)) [
      | inl e ↦
          quadruple 0x80 0x8F (omega arith) (omega arith) (ground arith) ha (ground arith)
            (inl (ground arith)) (inr (omega arith))
      | inr e ↦ absurd (ground arith)
    ]
  ]
]

lead_lem : (a : ℕ) (xs : List ℕ) → run start (a ∷ xs) ≡ some start → Lead a xs
unfolding run step lead
lead_lem a xs h = elim (Bool-cases (ltb a 0x80)) [
  | inl c ↦ single (ground arith) (ground arith)
  | inr c ↦ elim (Bool-cases (ltb a 0xC2)) [
    | inl d ↦ absurd (ground arith)
    | inr d ↦ elim (Bool-cases (ltb a 0xE0)) [
      | inl e ↦ double (ground arith) (ground arith) (ground arith)
      | inr e ↦ elim (Bool-cases (ltb a 0xF0)) [
        | inl f ↦ Lead-of_three a xs (ground arith) (ground arith) h
        | inr f ↦ Lead-of_four a xs (ground arith) h
      ]
    ]
  ]
]

First-of_Lead : {a : ℕ} {xs : List ℕ} → Lead a xs → First (a ∷ xs)
First-of_Lead {a} {xs} (single small h) = one_byte a xs small (from_utf8-of_run xs h)
First-of_Lead {a} {xs} (double ha ha' h) =
    let (n, h₁) = last_byte 0x80 0xBF xs h in
    subst (λ l. First (a ∷ l)) (sym n.split)
      (two_bytes a n.byte n.rest ha ha' n.above n.below (from_utf8-of_run n.rest h₁))
First-of_Lead {a} {xs} (triple low high lb hb h ha ha' bl bh) =
    let (n, h₁) = middle_byte low high 0 xs h in
    let (o, h₂) = last_byte 0x80 0xBF n.rest h₁ in
    subst (λ l. First (a ∷ l)) (sym (n.split ∙ ap (λ l. n.byte ∷ l) o.split))
      (three_bytes a n.byte o.byte o.rest ha ha' (omega (arith, n.above)) (omega (arith, n.below))
        o.above o.below (ground (arith, n.above)) (ground (arith, n.below))
        (from_utf8-of_run o.rest h₂))
First-of_Lead {a} {xs} (quadruple low high lb hb h ha ha' bl bh) =
    let (n, h₁) = middle_byte low high 1 xs h in
    let (o, h₂) = middle_byte 0x80 0xBF 0 n.rest h₁ in
    let (p, h₃) = last_byte 0x80 0xBF o.rest h₂ in
    subst (λ l. First (a ∷ l))
      (sym (n.split ∙ ap (λ l. n.byte ∷ l) (o.split ∙ ap (λ l. o.byte ∷ l) p.split)))
      (four_bytes a n.byte o.byte p.byte p.rest ha ha' (omega (arith, n.above))
        (omega (arith, n.below)) o.above o.below p.above p.below (ground (arith, n.above))
        (ground (arith, n.below)) (from_utf8-of_run p.rest h₃))

-- A text that `str::from_utf8` accepts and that is not empty is the encoding of a scalar value
-- followed by a text that it accepts.
pub from_utf8-First : (a : ℕ) (xs : List ℕ) → from_utf8 (a ∷ xs) ≡ true → First (a ∷ xs)
from_utf8-First a xs h = First-of_Lead (lead_lem a xs (from_utf8-run (a ∷ xs) h))
