-- ===== src/World/Chars.antt =====
-- The methods of `Tendril<UTF8>` in `src/tendril.rs` that remove the first character or append some.
use tendril.Common.{
  ℕ, ◌+◌, ◌≤◌, ◌^◌, ◌≡◌, refl, ◌∙◌, ap, subst, not, Option, none, some, List, [], ◌∷◌, ◌++◌,
  append-nil, append_assoc, arith, ◌==◌, if◌then◌else◌, length, length-append, take, drop, drop_all,
  drop-append_left, take-append_left, take_all, as_u32, as_u32_lem, eqb_false,
}
use tendril.Mem.{Mem}
use tendril.Fmt.{default_fixup}
use tendril.Fmt.Unicode.{Classify, utf8}
use tendril.Fmt.Utf8.{encode_utf8, length-encode_utf8}
use tendril.Fmt.Utf8.Text.{
  encode_all, AreScalars, positions, char_indices-encode_all, encode_all-append,
}
use tendril.Tendril.{Tendril}
use tendril.Tendril.Edit.{unsafe_pop_front, clear}
use tendril.Tendril.Chars.{utf8_chars, first_char, pop_front_char, push_char}
use tendril.Tendril.Extend.{push_chars, extend_chars, from_iter_chars}
use tendril.World.{World}
use tendril.World.Read.{as_byte_slice_lem}
use tendril.World.Clear.{clear_lem}
use tendril.World.Cut.{new_lem, unsafe_pop_front_lem}
use tendril.World.Push.{push_plain}
use tendril.World.Reserve.{force_reserve_lem}
use tendril.World.Returns
use tendril.World.Returns.{Returns, returned}

-- The first character, and those after it.
abbrev pub head : List ℕ → Option ℕ
head [] = none
head (c ∷ cs) = some c

abbrev pub tail : List ℕ → List ℕ
tail [] = []
tail (c ∷ cs) = cs

pub drop_front : (xs ys : List ℕ) → drop (length xs) (xs ++ ys) ≡ ys
drop_front xs ys =
    drop-append_left (length xs) xs ys (omega arith)
    ∙ ap (λ l. l ++ ys) (drop_all (length xs) xs (omega arith))

pub take_front : (xs ys : List ℕ) → take (length xs) (xs ++ ys) ≡ xs
take_front xs ys =
    take-append_left (length xs) xs ys (omega arith) ∙ take_all (length xs) xs (omega arith)

module _ (classify : Classify) where
  plain : (old buf : List ℕ) → (utf8 classify).fixup old buf ≡ some default_fixup
  unfolding utf8
  plain old buf = refl

  pub push_char_lem :
      {m : Mem} {t : Tendril} {ts : List Tendril} {xss : List (List ℕ)} (cs : List ℕ) (c : ℕ)
      → length (encode_all cs) + 4 ≤ 2 ^ 31
      → World m (t ∷ ts) (encode_all cs ∷ xss)
      → Returns
          (λ t' m'. World m' (t' ∷ ts) (encode_all (cs ++ (c ∷ [])) ∷ xss))
          (push_char (utf8 classify) t c m)
  unfolding push_char
  push_char_lem {m} {t} {ts} {xss} cs c bound w =
      rw (encode_all-append cs (c ∷ []), append-nil (encode_utf8 c))
        (push_plain (utf8 classify) (encode_utf8 c) (plain (encode_all cs) (encode_utf8 c))
          (omega (arith, length-encode_utf8 c)) w)

  pub push_chars_lem :
      {m : Mem} {t : Tendril} {ts : List Tendril} {xss : List (List ℕ)} (cs ds : List ℕ)
      → length (encode_all cs) + length (encode_all ds) + 4 ≤ 2 ^ 31
      → World m (t ∷ ts) (encode_all cs ∷ xss)
      → Returns
          (λ t' m'. World m' (t' ∷ ts) (encode_all (cs ++ ds) ∷ xss))
          (push_chars (utf8 classify) t ds m)
  unfolding push_chars
  push_chars_lem cs [] bound w = rw append-nil (returned w)
  push_chars_lem cs (d ∷ ds) bound w =
      let sizes = length-append (encode_utf8 d) (encode_all ds) in
      let size : length (encode_all (cs ++ (d ∷ [])))
          ≡ length (encode_all cs) + length (encode_utf8 d) =
        ap length (
          encode_all-append cs (d ∷ []) ∙ ap (λ l. encode_all cs ++ l) (append-nil (encode_utf8 d)))
        ∙ length-append (encode_all cs) (encode_utf8 d) in
      Returns.then_do (push_char_lem cs d (omega (arith, bound)) w) (λ t' m' w'.
        rw (← append_assoc cs (d ∷ []) ds)
          (push_chars_lem (cs ++ (d ∷ [])) ds (omega (arith, bound, sizes, size)) w'))

  -- In a memory where every live tendril stands for its bytes and every header counts the tendrils
  -- that point to it, `extend` with characters appends their UTF-8 text, for a size hint and a
  -- total of at most 2^31 bytes, less 4 bytes for the total.
  pub extend_chars_lem :
      {m : Mem} {t : Tendril} {ts : List Tendril} {xss : List (List ℕ)} (size_hint : ℕ)
      (cs ds : List ℕ)
      → length (encode_all cs) + as_u32 size_hint ≤ 2 ^ 31
      → length (encode_all cs) + length (encode_all ds) + 4 ≤ 2 ^ 31
      → World m (t ∷ ts) (encode_all cs ∷ xss)
      → Returns
          (λ t' m'. World m' (t' ∷ ts) (encode_all (cs ++ ds) ∷ xss))
          (extend_chars (utf8 classify) t size_hint ds m)
  unfolding extend_chars
  extend_chars_lem size_hint cs ds hint bound w =
      Returns.then_do (force_reserve_lem (as_u32 size_hint) hint w)
        (λ t' m' (w', _). push_chars_lem cs ds bound w')

  pub from_iter_chars_lem :
      {m : Mem} {ts : List Tendril} {xss : List (List ℕ)} (size_hint : ℕ) (ds : List ℕ)
      → as_u32 size_hint ≤ 2 ^ 31
      → length (encode_all ds) + 4 ≤ 2 ^ 31
      → World m ts xss
      → Returns
          (λ t' m'. World m' (t' ∷ ts) (encode_all ds ∷ xss))
          (from_iter_chars (utf8 classify) size_hint ds m)
  unfolding from_iter_chars
  from_iter_chars_lem size_hint ds hint bound w =
      Returns.then_do (new_lem w)
        (λ t m' (w', _, _). extend_chars_lem size_hint [] ds (omega arith) (omega arith) w')

  pub indices_lem :
      (cs : List ℕ)
      → AreScalars cs
      → (utf8_chars (utf8 classify)).indices (encode_all cs) ≡ positions 0 cs
  indices_lem cs s = char_indices-encode_all cs s

  popped :
      {m : Mem} {t : Tendril} {ts : List Tendril} {xss : List (List ℕ)} (cs : List ℕ)
      → World m (t ∷ ts) (encode_all cs ∷ xss)
      → Returns
          (λ t' m'. World m' (t' ∷ ts) (encode_all (tail cs) ∷ xss))
          ((if not ((first_char (positions 0 cs)).1 == 0)
              then unsafe_pop_front t (first_char (positions 0 cs)).1
              else clear t)
            m)
  unfolding first_char
  popped [] w = clear_lem w
  popped (c ∷ []) w = clear_lem w
  popped {m} {t} {ts} {xss} (c ∷ d ∷ cs) w =
      let size = length-append (encode_utf8 c) (encode_all (d ∷ cs)) in
      let e : as_u32 (0 + length (encode_utf8 c)) ≡ length (encode_utf8 c) =
        as_u32_lem (0 + length (encode_utf8 c)) (omega (arith, length-encode_utf8 c))
        ∙ (omega arith) in
      rw (e, eqb_false (length (encode_utf8 c)) 0 (λ z. omega (arith, z, length-encode_utf8 c)))
        (subst
          (λ l.
            Returns (λ t' m'. World m' (t' ∷ ts) (l ∷ xss))
              (unsafe_pop_front t (length (encode_utf8 c)) m))
          (drop_front (encode_utf8 c) (encode_all (d ∷ cs)))
          (unsafe_pop_front_lem (length (encode_utf8 c)) (omega (arith, size)) w))

  first_char-positions : (cs : List ℕ) → (first_char (positions 0 cs)).0 ≡ head cs
  unfolding first_char
  first_char-positions [] = refl
  first_char-positions (c ∷ []) = refl
  first_char-positions (c ∷ d ∷ cs) = refl

  -- In a memory where every live tendril stands for its bytes and every header counts the tendrils
  -- that point to it, `pop_front_char` on the UTF-8 text of some characters returns the first of
  -- them, if any, and keeps the text of the others.
  pub pop_front_char_lem :
      {m : Mem} {t : Tendril} {ts : List Tendril} {xss : List (List ℕ)} (cs : List ℕ)
      → AreScalars cs
      → World m (t ∷ ts) (encode_all cs ∷ xss)
      → Returns
          (λ (t', c) m'. World m' (t' ∷ ts) (encode_all (tail cs) ∷ xss) × (c ≡ head cs))
          (pop_front_char (utf8_chars (utf8 classify)) t m)
  unfolding pop_front_char
  pop_front_char_lem cs s w =
      rw (as_byte_slice_lem w.reps.0, indices_lem cs s)
        (Returns.then_do (popped cs w) (λ t' m' w'. returned (w', first_char-positions cs)))
