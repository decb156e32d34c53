-- ===== src/Stream/Encoding/Feed.antt =====
-- What the sink of a `LossyDecoder` with a decoder of `encoding` gets.
use tendril.Common.{
  ℕ, zero, suc, ◌+◌, ◌≤◌, ◌^◌, ◌≡◌, inl, inr, refl, sym, ◌∙◌, ap, subst, Option, none, some, List,
  [], ◌∷◌, ◌++◌, append-nil, append_assoc, arith, ltb, Bool-cases, drop, length, length-append,
  nil_of_length, as_u32_lem,
}
use tendril.Mem.{Mem}
use tendril.Fmt.{Format, bytes}
use tendril.Fmt.Utf8.{encode_utf8, length-encode_utf8}
use tendril.Tendril.{Tendril, drop_tendril}
use tendril.Tendril.Chars.{push_char}
use tendril.World.{World}
use tendril.World.Change.{World-swap}
use tendril.World.Cut.{new_lem}
use tendril.World.Drop.{drop_tendril_lem}
use tendril.World.Read.{as_byte_slice_lem, length-lt}
use tendril.World.Push.{push_plain}
use tendril.World.Extend.{IsPlain}
use tendril.World.Unwrapped.{pop_front_lem}
use tendril.World.Convert.{texts_of, AreSmall, all_written_lem}
use tendril.World.Returns
use tendril.World.Returns.{Returns, returned}
use tendril.Stream.{Event, error, cause}
use tendril.Stream.Encoding.{
  CodecError, RawDecoder, emit, feed_round, feed_loop, process_encoding, finish_error,
  finish_encoding,
}
use tendril.Stream.Encoding.Outputs.{Feeds, marked, causes_of, GoesOn, errors, Emits}

-- The loop leaves the output in front of what is left of the input.
abbrev Fed :
    {D : Type 0}
    → List Tendril
    → List (List ℕ)
    → List ℕ
    → List (List ℕ)
    → D
    → D × Tendril × Tendril × List Event
    → Mem
    → Type 0
Fed ts xss text causes d' (d, t, out, events) m =
    (rest : List ℕ) × (d ≡ d')
    × (events ≡ errors causes)
    × World m (out ∷ t ∷ ts) (text ∷ rest ∷ xss)

emit_lem :
    {m : Mem} {out : Tendril} {ts : List Tendril} {text : List ℕ} {xss : List (List ℕ)}
    (causes : List (List ℕ))
    → World m (out ∷ ts) (text ∷ xss)
    → Returns (λ last m'. Emits ts xss text causes (errors causes ++ last) m') (emit out m)
unfolding emit
emit_lem {m} {out} {ts} {text} {xss} causes w =
    rw (as_byte_slice_lem w.reps.0) (elim (Bool-cases (ltb 0 (length text))) [
      | inl some_text ↦ rw some_text (returned (inr (out, refl, w)))
      | inr no_text ↦ rw no_text (
          Returns.then_do (drop_tendril_lem w) (λ _ m' w'.
            returned (inl (nil_of_length text (ground arith), append-nil (errors causes), w'))))
    ])

-- The input is dropped last.
dropped :
    {m : Mem} {ts : List Tendril} {xss : List (List ℕ)} (t : Tendril) (rest : List ℕ)
    (events : List Event) (text : List ℕ) (causes : List (List ℕ))
    → Emits (t ∷ ts) (rest ∷ xss) text causes events m
    → Returns (λ _ m'. Emits ts xss text causes events m') (drop_tendril t m)
dropped t rest events text causes (inl (e, calls, w)) =
    Returns.weaken (drop_tendril_lem w) (λ _ m' w'. inl (e, calls, w'))
dropped t rest events text causes (inr (u, calls, w)) =
    Returns.weaken (drop_tendril_lem (World-swap w)) (λ _ m' w'. inr (u, calls, w'))

finish_error_lem :
    {m : Mem} {out : Tendril} {ts : List Tendril} {xss : List (List ℕ)} (utf8 : Format)
    (front : List ℕ) (failure : Option CodecError)
    → IsPlain utf8
    → length front + 4 ≤ 2 ^ 31
    → World m (out ∷ ts) (front ∷ xss)
    → Returns
        (λ (out', events) m'.
          (events ≡ errors (causes_of failure))
          × World m' (out' ∷ ts) ((front ++ marked failure) ∷ xss))
        (finish_error utf8 out failure m)
unfolding finish_error push_char
finish_error_lem utf8 front none plain bound w = rw append-nil (returned (refl, w))
finish_error_lem utf8 front (some e) plain bound w =
    let four = length-encode_utf8 0xFFFD in
    Returns.then_do
      (push_plain utf8 (encode_utf8 0xFFFD) (plain front (encode_utf8 0xFFFD)) (omega arith) w)
      (λ out' m' w'. returned (refl, w'))

-- `finish` hands the last text over, with a replacement character at an error.
pub finish_encoding_lem :
    {D : Type 0} {m : Mem} {ts : List Tendril} {xss : List (List ℕ)} (utf8 : Format)
    (decoder : RawDecoder D) (d : D)
    → IsPlain utf8
    → AreSmall 0 (decoder.raw_finish d).0
    → length (texts_of (decoder.raw_finish d).0) + 4 ≤ 2 ^ 31
    → World m ts xss
    → Returns
        (Emits ts xss
          (texts_of (decoder.raw_finish d).0 ++ marked (decoder.raw_finish d).1)
          (causes_of (decoder.raw_finish d).1))
        (finish_encoding utf8 decoder d m)
unfolding finish_encoding
finish_encoding_lem {ts} {xss} utf8 decoder d plain small bound w =
    let calls = (decoder.raw_finish d).0 in
    let failure = (decoder.raw_finish d).1 in
    Returns.then_do (new_lem w) (λ out m' (w', _, _).
      Returns.then_do (all_written_lem utf8 plain calls small w') (λ out' m₁ w₁.
        Returns.then_do (finish_error_lem utf8 (texts_of calls) failure plain bound w₁)
          (λ (out₂, events) m₂ (e, w₂).
            rw e (
              Returns.then_do (emit_lem (causes_of failure) w₂)
                (λ last m₃ emits. returned emits)))))

module _ {D : Type 0} (utf8 : Format) (plain : IsPlain utf8) (decoder : RawDecoder D)
    (ts : List Tendril) (xss : List (List ℕ)) (d' : D) where
  -- What `feed_loop` promises of so many rounds.
  abbrev Feeding : ℕ → Type 0
  Feeding rounds =
      (m : Mem) (d : D) (t out : Tendril) (xs front text : List ℕ) (causes : List (List ℕ))
      → Feeds decoder rounds d xs (length front) text causes d'
      → World m (out ∷ t ∷ ts) (front ∷ xs ∷ xss)
      → Returns (Fed ts xss (front ++ text) causes d') (feed_loop utf8 decoder rounds d t out m)

  round_lem :
      {m : Mem} {t out : Tendril} (rounds : ℕ) (d : D) (failure : Option CodecError)
      (xs front text : List ℕ) (causes : List (List ℕ))
      → Feeding rounds
      → GoesOn (Feeds decoder rounds) d xs (length front) failure text causes d'
      → World m (out ∷ t ∷ ts) (front ∷ xs ∷ xss)
      → Returns
          (Fed ts xss (front ++ text) causes d')
          (feed_round utf8 decoder (feed_loop utf8 decoder rounds) t out (d, failure) m)
  unfolding feed_round push_char bytes
  round_lem rounds d none xs front text causes next (e, c, same) w =
      rw (e, c, append-nil) (returned (xs, sym same, refl, w))
  round_lem {t} rounds d (some e) xs front text causes next (rest, more, s, c, inside, small, later)
        w =
      let mark : List ℕ = encode_utf8 0xFFFD in
      let four = length-encode_utf8 0xFFFD in
      let size = length-append front mark in
      Returns.then_do (push_plain utf8 mark (plain front mark) (omega arith) w) (λ out' m' w'.
        rw (as_u32_lem e.upto (omega (arith, length-lt w'.reps.1.0))) (
          Returns.then_do (pop_front_lem bytes e.upto inside refl (World-swap w')) (λ t' m'' w''.
            Returns.then_do
              (next m'' d t' out' (drop e.upto xs) (front ++ mark) rest more
                (subst (λ n. Feeds decoder rounds d (drop e.upto xs) n rest more d') (sym size)
                  later)
                (World-swap w''))
              (λ (d₂, t₂, out₂, events) m₃ (left, same, calls, w₃). returned (
                left,
                same,
                ap (λ l. error (cause e.reason) ∷ l) calls ∙ ap errors (sym c),
                subst (λ l. World m₃ (out₂ ∷ t₂ ∷ ts) (l ∷ left ∷ xss))
                    (append_assoc front mark rest ∙ ap (λ l. front ++ l) (sym s)) w₃,
              )))))

  feed_loop_lem : (rounds : ℕ) → Feeding rounds
  unfolding feed_loop
  feed_loop_lem zero m d t out xs front text causes never w = absurd never
  feed_loop_lem (suc rounds) m d t out xs front text causes (small, rest, e, later) w =
      let calls = (decoder.raw_feed d xs).1 in
      rw (as_byte_slice_lem w.reps.1.0) (
        Returns.then_do (all_written_lem utf8 plain calls small w) (λ out' m' w'.
          rw (e, ← append_assoc front (texts_of calls) rest)
            (round_lem rounds (decoder.raw_feed d xs).0 (decoder.raw_feed d xs).2 xs
              (front ++ texts_of calls) rest causes (feed_loop_lem rounds)
              (subst
                (λ n.
                  GoesOn (Feeds decoder rounds) (decoder.raw_feed d xs).0 xs n
                    (decoder.raw_feed d xs).2 rest causes d')
                (sym (length-append front (texts_of calls))) later)
              w')))

  -- In a memory where every live tendril stands for its bytes and every header counts the tendrils
  -- that point to it, and with a decoder of `encoding` that makes of the bytes a text within so
  -- many calls, with errors inside the input, `LossyDecoder::process` with that many rounds
  -- returns: the sink gets the errors in order and then the text, with U+FFFD at each error, if it
  -- is not empty; the input is dropped and no other tendril changes.
  pub process_encoding_lem :
      {m : Mem} {t : Tendril} {xs : List ℕ} (rounds : ℕ) (d : D) (text : List ℕ)
      (causes : List (List ℕ))
      → Feeds decoder rounds d xs 0 text causes d'
      → World m (t ∷ ts) (xs ∷ xss)
      → Returns
          (λ (d₁, events) m'. (d₁ ≡ d') × Emits ts xss text causes events m')
          (process_encoding utf8 decoder rounds d t m)
  unfolding process_encoding
  process_encoding_lem {t} {xs} rounds d text causes feeds w =
      Returns.then_do (new_lem w) (λ out m' (w', _, _).
        Returns.then_do (feed_loop_lem rounds m' d t out xs [] text causes feeds w')
          (λ (d₁, t₁, out₁, events) m₁ (rest, same, calls, w₁).
            Returns.then_do (emit_lem causes w₁) (λ last m₂ emits. rw calls (
              Returns.then_do (dropped t₁ rest (errors causes ++ last) text causes emits)
                (λ _ m₃ done. returned (same, done))))))
