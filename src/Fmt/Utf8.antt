-- ===== src/Fmt/Utf8.antt =====
-- UTF-8 as the standard library has it, which `src/fmt.rs` and `src/tendril.rs` call:
-- `char::encode_utf8`, `str::from_utf8` and `str::char_indices`.
pub mod First
pub mod Text
use tendril.Common.{
  ℕ, zero, suc, ◌+◌, ◌-◌, ◌*◌, ◌/◌, ◌%◌, ◌^◌, ◌≤◌, ◌<◌, ◌≡◌, refl, ◌∙◌, ◌⊎◌, Bool, true, false,
  ◌&&◌, Option, none, some, List, [], ◌∷◌, ◌++◌, arith, leb, ltb, ◌==◌, if◌then◌else◌, length,
}

-- A `char` is a Unicode scalar value.
abbrev pub IsScalar : ℕ → Type 0
IsScalar c = (c < 0xD800) ⊎ ((0xE000 ≤ c) × (c < 0x110000))

unfoldable pub encode_utf8 : ℕ → List ℕ
encode_utf8 c =
    if ltb c 0x80
    then c ∷ []
    else if ltb c 0x800
    then (0xC0 + c / 64) ∷ (0x80 + c % 64) ∷ []
    else if ltb c 0x10000
    then (0xE0 + c / 4096) ∷ (0x80 + c / 64 % 64) ∷ (0x80 + c % 64) ∷ []
    else (0xF0 + c / 2 ^ 18) ∷ (0x80 + c / 4096 % 64) ∷ (0x80 + c / 64 % 64) ∷ (0x80 + c % 64) ∷ []

-- Between characters, or before so many bytes of which the next lies in a range.
pub data State : Type 0 where
  start : State
  more : (low high left : ℕ) → State

unfoldable pub lead : ℕ → Option State
lead b =
    if ltb b 0x80
    then some start
    else if ltb b 0xC2
    then none
    else if ltb b 0xE0
    then some (more 0x80 0xBF 0)
    else if b == 0xE0
    then some (more 0xA0 0xBF 1)
    else if b == 0xED
    then some (more 0x80 0x9F 1)
    else if ltb b 0xF0
    then some (more 0x80 0xBF 1)
    else if b == 0xF0
    then some (more 0x90 0xBF 2)
    else if ltb b 0xF4
    then some (more 0x80 0xBF 2)
    else if b == 0xF4
    then some (more 0x80 0x8F 2)
    else none

unfoldable pub step : State → ℕ → Option State
unfolding lead
step start b = lead b
step (more low high zero) b = if leb low b && leb b high then some start else none
step (more low high (suc left)) b =
    if leb low b && leb b high then some (more 0x80 0xBF left) else none

unfoldable pub run : State → List ℕ → Option State
run s [] = some s
run s (b ∷ bs) = elim (step s b) [ none ↦ none | some s' ↦ run s' bs ]

-- `str::from_utf8(buf).is_ok()`
unfoldable pub from_utf8 : List ℕ → Bool
from_utf8 buf = elim (run start buf) [ some start ↦ true | _ ↦ false ]

-- The first character of a text that is valid, and what follows it: `b & 0x3F` of a continuation
-- byte is `b - 0x80`.
abbrev two_bytes : ℕ → List ℕ → Option (ℕ × List ℕ)
two_bytes a (b ∷ r) = some ((a - 0xC0) * 64 + (b - 0x80), r)
two_bytes a [] = none

abbrev three_bytes : ℕ → List ℕ → Option (ℕ × List ℕ)
three_bytes a (b ∷ c ∷ r) = some ((a - 0xE0) * 4096 + (b - 0x80) * 64 + (c - 0x80), r)
three_bytes a _ = none

abbrev four_bytes : ℕ → List ℕ → Option (ℕ × List ℕ)
four_bytes a (b ∷ c ∷ d ∷ r) =
    some ((a - 0xF0) * 2 ^ 18 + (b - 0x80) * 4096 + (c - 0x80) * 64 + (d - 0x80), r)
four_bytes a _ = none

unfoldable pub next_char : List ℕ → Option (ℕ × List ℕ)
next_char [] = none
next_char (a ∷ r) =
    if ltb a 0x80
    then some (a, r)
    else if ltb a 0xE0
    then two_bytes a r
    else if ltb a 0xF0
    then three_bytes a r
    else four_bytes a r

-- `char_indices`: each character with the index of its first byte; as many rounds as bytes are enough.
unfoldable pub char_indices_from : ℕ → ℕ → List ℕ → List (ℕ × ℕ)
char_indices_from zero i buf = []
char_indices_from (suc rounds) i buf = elim (next_char buf) [
  | none ↦ []
  | some (c, rest) ↦ (i, c) ∷ char_indices_from rounds (i + (length buf - length rest)) rest
]

unfoldable pub char_indices : List ℕ → List (ℕ × ℕ)
unfolding char_indices_from next_char
char_indices buf = char_indices_from (length buf) 0 buf

pub run-append :
    (s : State) (xs ys : List ℕ) (s' : State) → run s xs ≡ some s' → run s (xs ++ ys) ≡ run s' ys
unfolding run
run-append s [] ys s' h = ground arith
run-append s (x ∷ xs) ys s' h = go (λ t. run-append t xs ys s') (step s x) refl
  where
    go :
        ((t : State) → run t xs ≡ some s' → run t (xs ++ ys) ≡ run s' ys)
        → (o : Option State) → step s x ≡ o
        → run s (x ∷ xs ++ ys) ≡ run s' ys
    go ih none e = ground arith
    go ih (some t) e = ground (arith, ih t)

pub from_utf8-run : (xs : List ℕ) → from_utf8 xs ≡ true → run start xs ≡ some start
unfolding from_utf8
from_utf8-run xs h = ground arith

-- The encoding of a character is valid.
pub from_utf8-encode_utf8 : (c : ℕ) → IsScalar c → from_utf8 (encode_utf8 c) ≡ true
unfolding from_utf8 encode_utf8 run step
from_utf8-encode_utf8 c s = ground arith

-- The first character of an encoding is what was encoded.
pub next_char-encode_utf8 :
    (c : ℕ) (rest : List ℕ) → IsScalar c → next_char (encode_utf8 c ++ rest) ≡ some (c, rest)
unfolding next_char encode_utf8
next_char-encode_utf8 c rest s = ground arith

pub from_utf8-of_run : (xs : List ℕ) → run start xs ≡ some start → from_utf8 xs ≡ true
unfolding from_utf8
from_utf8-of_run xs h = ground arith

-- Valid texts one after the other are a valid text.
pub from_utf8-append :
    (xs ys : List ℕ) → from_utf8 xs ≡ true → from_utf8 ys ≡ true → from_utf8 (xs ++ ys) ≡ true
from_utf8-append xs ys hx hy =
    from_utf8-of_run (xs ++ ys)
      (run-append start xs ys start (from_utf8-run xs hx) ∙ from_utf8-run ys hy)

pub length-encode_utf8 : (c : ℕ) → (1 ≤ length (encode_utf8 c)) × (length (encode_utf8 c) ≤ 4)
unfolding encode_utf8
length-encode_utf8 c = ground arith
