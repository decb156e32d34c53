-- ===== src/World/Surrogates.antt =====
-- A push to a `Tendril<WTF8>` of `src/tendril.rs` with the fixup of `src/fmt.rs`.
use tendril.Common.{
  ℕ, ◌+◌, ◌-◌, ◌*◌, ◌≤◌, ◌<◌, ◌^◌, ◌≡◌, sym, ◌∙◌, ap, subst, some, List, ◌∷◌, ◌++◌, arith, leb-true,
  length, length-overwrite, take, drop, take-overwrite, replicate, overwrite,
}
use tendril.Mem.{Mem}
use tendril.Fmt.{Fixup}
use tendril.Fmt.Utf8.{encode_utf8, length-encode_utf8}
use tendril.Fmt.Unicode.{
  Classify, Codepoint, lead_surrogate, trail_surrogate, char_from_u32, surrogate_fixup, wtf8_fixup,
  wtf8,
}
use tendril.Tendril.{Tendril}
use tendril.Tendril.Edit.{push_bytes_without_validating}
use tendril.World.{World}
use tendril.World.Push.{push_bytes_without_validating_lem}
use tendril.World.Splice.{IsFixup}
use tendril.World.Returns.{Returns}

-- The character that two surrogates stand for.
abbrev pub joined : (hi lo : ℕ) → ℕ
joined hi lo = 0x10000 + hi * 2 ^ 10 + lo

-- The bytes end in a lead surrogate.
pub record EndsInLead (classify : Classify) (hi : ℕ) (xs : List ℕ) : Type 0 where
  pub size : 3 ≤ length xs
  pub code : Codepoint
  pub at : classify xs (length xs - 1) ≡ some code
  pub lead : code.meaning ≡ lead_surrogate hi
  pub range : hi < 0x400

-- They begin with a trail surrogate.
pub record BeginsWithTrail (classify : Classify) (lo : ℕ) (xs : List ℕ) : Type 0 where
  pub size : 3 ≤ length xs
  pub code : Codepoint
  pub at : classify xs 0 ≡ some code
  pub trail : code.meaning ≡ trail_surrogate lo
  pub range : lo < 0x400

abbrev joining : ℕ → Fixup
joining ch = record {
  drop_left = 3;
  drop_right = 3;
  insert_len = length (encode_utf8 ch);
  insert_bytes = overwrite 0 (encode_utf8 ch) (replicate 4 0);
}

char_from_u32_lem : (n : ℕ) → 0x10000 ≤ n → n < 0x110000 → char_from_u32 n ≡ some n
unfolding char_from_u32
char_from_u32_lem n a b = ground arith

surrogate_fixup_of :
    (hi lo ch : ℕ)
    → char_from_u32 (joined hi lo) ≡ some ch
    → surrogate_fixup hi lo ≡ some (joining ch)
unfolding surrogate_fixup
surrogate_fixup_of hi lo ch h = ground arith

surrogate_fixup_lem :
    (hi lo : ℕ) → hi < 0x400 → lo < 0x400 → surrogate_fixup hi lo ≡ some (joining (joined hi lo))
surrogate_fixup_lem hi lo h l =
    surrogate_fixup_of hi lo (joined hi lo)
      (char_from_u32_lem (joined hi lo) (omega arith) (omega arith))

module _ (classify : Classify) (hi lo : ℕ) (xs buf : List ℕ) (left : EndsInLead classify hi xs)
    (right : BeginsWithTrail classify lo buf) where
  wtf8_fixup_lem : wtf8_fixup classify xs buf ≡ some (joining (joined hi lo))
  unfolding wtf8_fixup
  wtf8_fixup_lem =
      rw
        (
          leb-true 3 (length xs) left.size,
          leb-true 3 (length buf) right.size,
          left.at,
          right.at,
          left.lead,
          right.trail,
        )
        (surrogate_fixup_lem hi lo left.range right.range)

  fixed : (wtf8 classify).fixup xs buf ≡ some (joining (joined hi lo))
  unfolding wtf8
  fixed = wtf8_fixup_lem

  inside : IsFixup (joining (joined hi lo)) xs buf
  inside = record {
    left = left.size;
    right = right.size;
    insert =
        let zeros : List ℕ = replicate 4 0 in
        omega (
          arith,
          length-overwrite 0 (encode_utf8 (joined hi lo)) zeros
              (omega (arith, length-encode_utf8 (joined hi lo))),
          length-encode_utf8 (joined hi lo),
        );
  }

  inserted :
      take
        (length (encode_utf8 (joined hi lo)))
        (overwrite 0 (encode_utf8 (joined hi lo)) (replicate 4 0))
      ≡ encode_utf8 (joined hi lo)
  inserted =
      let e : 0 + length (encode_utf8 (joined hi lo)) ≡ length (encode_utf8 (joined hi lo)) =
        omega arith in
      ap (λ k. take k (overwrite 0 (encode_utf8 (joined hi lo)) (replicate 4 0))) (sym e)
      ∙ take-overwrite 0 (encode_utf8 (joined hi lo)) (replicate 4 0) (omega arith)

  -- In a memory where every live tendril stands for its bytes and every header counts the tendrils
  -- that point to it, a push to a WTF-8 tendril that ends in a lead surrogate, of bytes that begin
  -- with a trail surrogate, as `futf::classify` reports them, replaces the two by the UTF-8 text of
  -- the character they stand for. The total is at most 2^31 bytes, less 4.
  pub push_surrogates_lem :
      {m : Mem} {t : Tendril} {ts : List Tendril} {xss : List (List ℕ)}
      → length xs + length buf + 4 ≤ 2 ^ 31
      → World m (t ∷ ts) (xs ∷ xss)
      → Returns
          (λ t' m'.
            World m'
              (t' ∷ ts)
              ((take (length xs - 3) xs ++ (encode_utf8 (joined hi lo) ++ drop 3 buf)) ∷ xss))
          (push_bytes_without_validating (wtf8 classify) t buf m)
  push_surrogates_lem {m} {t} {ts} {xss} bound w =
      subst
        (λ l.
          Returns
            (λ t' m'. World m' (t' ∷ ts) ((take (length xs - 3) xs ++ (l ++ drop 3 buf)) ∷ xss))
            (push_bytes_without_validating (wtf8 classify) t buf m))
        inserted
        (push_bytes_without_validating_lem (wtf8 classify) buf (joining (joined hi lo)) fixed inside
          (omega (arith, bound, length-encode_utf8 (joined hi lo))) w)
