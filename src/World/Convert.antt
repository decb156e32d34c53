-- ===== src/World/Convert.antt =====
-- The conversions of `src/tendril.rs`.
use tendril.Common.{
  ℕ, ◌+◌, ◌-◌, ◌≤◌, ◌<◌, ◌^◌, ◌≡◌, refl, sym, subst, Option, none, some, Result, ok, err, List, [],
  ◌∷◌, ◌++◌, append-nil, append_assoc, arith, min, as_u32_lem, length, length-append,
}
use tendril.Mem.{Mem, ◌>>=◌}
use tendril.Fmt.{Format}
use tendril.Fmt.Utf8.{encode_utf8}
use tendril.Tendril.{Tendril}
use tendril.Tendril.Chars.{push_char}
use tendril.Tendril.Extend.{from_slice}
use tendril.Tendril.Convert.{
  to_tendril, into_string, WriterCall, write_byte, write_bytes, write_char, write_str, writer_hint,
  written, all_written, finished, decode,
}
use tendril.World.{World}
use tendril.World.Read.{as_byte_slice_lem}
use tendril.World.Drop.{drop_tendril_lem}
use tendril.World.Cut.{new_lem}
use tendril.World.Push.{push_plain}
use tendril.World.Reserve.{reserve_lem, from_byte_slice_without_validating_lem}
use tendril.World.Extend.{IsPlain, push_slice_lem}
use tendril.World.Returns
use tendril.World.Returns.{Returns, returned}

-- The bytes that a call on a writer adds, and the room that it asks for.
abbrev pub text_of : WriterCall → List ℕ
text_of (write_byte b) = b ∷ []
text_of (write_bytes v) = v
text_of (write_char c) = encode_utf8 c
text_of (write_str s) = s
text_of (writer_hint n) = []

abbrev pub texts_of : List WriterCall → List ℕ
texts_of [] = []
texts_of (c ∷ cs) = text_of c ++ texts_of cs

abbrev pub asks : WriterCall → ℕ
asks (writer_hint n) = min (2 ^ 32 - 1) n
asks c = length (text_of c)

-- With so many bytes in front, no call goes beyond 2^31 bytes.
abbrev pub AreSmall : ℕ → List WriterCall → Type 0
AreSmall n [] = Unit {0}
AreSmall n (c ∷ cs) = (n + asks c ≤ 2 ^ 31) × AreSmall (n + length (text_of c)) cs

-- The outcome of `decode` and `encode`.
abbrev pub Decodes :
    {E : Type 0}
    → List Tendril
    → List (List ℕ)
    → List ℕ
    → Option E
    → Result Tendril E
    → Mem
    → Type 0
Decodes ts xss text failure (ok ret) m = (failure ≡ none) × World m (ret ∷ ts) (text ∷ xss)
Decodes ts xss text failure (err e) m = (failure ≡ some e) × World m ts xss

module _ (format : Format) (plain : IsPlain format) where
  written_lem :
      {m : Mem} {t : Tendril} {ts : List Tendril} {xs : List ℕ} {xss : List (List ℕ)}
      (c : WriterCall)
      → length xs + asks c ≤ 2 ^ 31
      → World m (t ∷ ts) (xs ∷ xss)
      → Returns (λ t' m'. World m' (t' ∷ ts) ((xs ++ text_of c) ∷ xss)) (written format t c m)
  unfolding written push_char
  written_lem (write_byte b) bound w = push_slice_lem format plain (b ∷ []) bound w
  written_lem (write_bytes v) bound w = push_slice_lem format plain v bound w
  written_lem {xs} (write_char c) bound w =
      push_plain format (encode_utf8 c) (plain xs (encode_utf8 c)) bound w
  written_lem (write_str s) bound w = push_slice_lem format plain s bound w
  written_lem {xs} (writer_hint n) bound w =
      rw (append-nil, as_u32_lem (min (2 ^ 32 - 1) n) (omega arith))
        (Returns.weaken (reserve_lem (min (2 ^ 32 - 1) n) bound w) (λ t' m' p. p.0))

  pub all_written_lem :
      (cs : List WriterCall) {m : Mem} {t : Tendril} {ts : List Tendril} {xs : List ℕ}
      {xss : List (List ℕ)}
      → AreSmall (length xs) cs
      → World m (t ∷ ts) (xs ∷ xss)
      → Returns
          (λ t' m'. World m' (t' ∷ ts) ((xs ++ texts_of cs) ∷ xss))
          (all_written format t cs m)
  unfolding all_written
  all_written_lem [] small w = rw append-nil (returned w)
  all_written_lem (c ∷ cs) {xs = xs} small w =
      Returns.then_do (written_lem c small.0 w) (λ t' m' w'.
        rw (← append_assoc xs (text_of c) (texts_of cs)) (
          all_written_lem cs
            (subst (λ n. AreSmall n cs) (sym (length-append xs (text_of c))) small.1) w'))

  finished_lem :
      {E : Type 0} {m : Mem} {t : Tendril} {ts : List Tendril} {xs : List ℕ} {xss : List (List ℕ)}
      (failure : Option E)
      → World m (t ∷ ts) (xs ∷ xss)
      → Returns (Decodes ts xss xs failure) (finished format t failure m)
  unfolding finished
  finished_lem none w = returned (refl, w)
  finished_lem (some e) w = Returns.then_do (drop_tendril_lem w) (λ _ m' w'. returned (refl, w'))

  -- In a memory where every live tendril stands for its bytes and every header counts the tendrils
  -- that point to it, and for a format without fixups, `decode` and `encode` with a coder that
  -- makes any calls on its writer, within 2^31 bytes and with hints up to there, return: on success
  -- a new tendril with the text of the calls in order; on an error the error, and the text is
  -- dropped. No other tendril changes.
  pub decode_lem :
      {E : Type 0} {m : Mem} {t : Tendril} {ts : List Tendril} {xs : List ℕ} {xss : List (List ℕ)}
      (decode_to : List ℕ → List WriterCall × Option E)
      → AreSmall 0 (decode_to xs).0
      → World m (t ∷ ts) (xs ∷ xss)
      → Returns
          (Decodes (t ∷ ts) (xs ∷ xss) (texts_of (decode_to xs).0) (decode_to xs).1)
          (decode format decode_to t m)
  unfolding decode
  decode_lem {xs} decode_to small w = Returns.then_do (new_lem w) (λ ret m' (w', _, _).
      rw (as_byte_slice_lem w'.reps.1.0) (
        Returns.then_do (all_written_lem (decode_to xs).0 small w')
          (λ ret' m'' w''. finished_lem (decode_to xs).1 w'')))

-- In a memory where every live tendril stands for its bytes and every header counts the tendrils
-- that point to it, a string of fewer than 2^32 bytes that is made into a tendril and back into a
-- `String` is the same as before; the tendril is dropped, and no other tendril changes.
pub into_string-to_tendril :
    {m : Mem} {ts : List Tendril} {xss : List (List ℕ)} (format : Format) (x : List ℕ)
    → length x < 2 ^ 32
    → World m ts xss
    → Returns (λ s m'. (s ≡ x) × World m' ts xss) ((do t ← to_tendril format x; into_string t) m)
unfolding to_tendril from_slice into_string
into_string-to_tendril format x bound w =
    Returns.then_do (from_byte_slice_without_validating_lem x bound w) (λ t m' w'.
      rw (as_byte_slice_lem w'.reps.0)
        (Returns.then_do (drop_tendril_lem w') (λ _ m'' w''. returned (refl, w''))))
