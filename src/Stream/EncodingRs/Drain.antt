-- ===== src/Stream/EncodingRs/Drain.antt =====
-- What the sink of a `LossyDecoder` with a decoder of `encoding_rs` gets.
use tendril.Common.{
  ℕ, zero, suc, ◌+◌, ◌*◌, ◌≤◌, ◌<◌, ◌^◌, ◌≡◌, refl, ap, subst, true, false, Option, none, some,
  List, [], ◌∷◌, ◌++◌, arith, ltb, ◌==◌, Bool, if◌then◌else◌, take, drop, overwrite, take-overwrite,
  length, length-overwrite, as_u32_lem,
}
use tendril.Mem.{Mem, pure, ◌>>=◌, ◌>>◌}
use tendril.Fmt.{bytes}
use tendril.Fmt.Utf8.{encode_utf8, length-encode_utf8}
use tendril.Tendril.{Tendril, drop_tendril}
use tendril.Tendril.Convert.{reinterpret_without_validating}
use tendril.World.{World}
use tendril.World.Change.{World-swap}
use tendril.World.Cut.{new_lem}
use tendril.World.Drop.{drop_tendril_lem}
use tendril.World.Read.{as_byte_slice_lem, length-lt}
use tendril.World.Shuffle.{World-Shuffle, keep, swap, next, to_front}
use tendril.World.Uninitialized.{push_uninitialized_lem}
use tendril.World.Unwrapped.{pop_front_lem, subtendril_lem}
use tendril.World.Views.{as_mut_byte_slice_lem, write_slice_lem}
use tendril.World.Returns
use tendril.World.Returns.{Returns, returned}
use tendril.Utf8Decode.Run.{from_slice_lem}
use tendril.Stream.{Event, process, error, invalid_sequence}
use tendril.Stream.Same.{texts}
use tendril.Stream.EncodingRs.{
  DecoderResult, input_empty, output_full, malformed, Decoder, room_for, emit_text,
  process_encoding_rs, emit_malformed, next_round, after_decode, decode_to_sink,
}
use tendril.Stream.EncodingRs.Outputs.{
  Output, texts_of, written_text, Remains, Decodes, outcome, Drains, Sent,
}

emit_malformed_lem :
    {m : Mem} {ts : List Tendril} {xss : List (List ℕ)}
    → World m ts xss
    → Returns
        (λ events m'.
          (v : Tendril) × (events ≡ error invalid_sequence ∷ process v ∷ [])
          × World m' (v ∷ ts) (encode_utf8 0xFFFD ∷ xss))
        (emit_malformed m)
unfolding emit_malformed
emit_malformed_lem w =
    let four = length-encode_utf8 0xFFFD in
    Returns.then_do (from_slice_lem (encode_utf8 0xFFFD) (omega arith) w)
      (λ v m' w'. returned (v, refl, w'))

room_for-le : (max_len : Option ℕ) → room_for max_len ≤ 8192
unfolding room_for
room_for-le max_len = omega arith

module _ {D : Type 0} (decoder : Decoder D) (last : Bool) (d' : D) where
  abbrev Draining : ℕ → Type 0
  Draining rounds =
      (m : Mem) (d : D) (t : Tendril) (xs : List ℕ) (os : List Output) (ts : List Tendril)
      (xss : List (List ℕ))
      → Drains decoder last rounds d xs os d'
      → length ts + 2 * rounds + 4 < 2 ^ 64
      → World m (t ∷ ts) (xs ∷ xss)
      → Returns (Sent ts xss os d') (decode_to_sink decoder last rounds d t m)

  -- The next round, or the end.
  left_lem :
      {m : Mem} {t : Tendril} (rounds : ℕ) (d : D) (left : List ℕ) (os : List Output)
      (ts : List Tendril) (xss : List (List ℕ))
      → Draining rounds
      → Remains (Drains decoder last rounds) d left os d'
      → length ts + 2 * rounds + 4 < 2 ^ 64
      → World m (t ∷ ts) (left ∷ xss)
      → Returns (Sent ts xss os d') (
          (if length left == 0
              then (do drop_tendril t; pure (d, []))
              else decode_to_sink decoder last rounds d t)
            m)
  left_lem rounds d [] os ts xss go_on (e, same) few w =
      rw e (Returns.then_do (drop_tendril_lem w) (λ _ m' w'. returned (same, refl, refl, w')))
  left_lem rounds d (x ∷ left) os ts xss go_on remains few w =
      let some_left : (length (x ∷ left) == 0) ≡ false = ground arith in
      rw some_left (go_on _ d _ (x ∷ left) os ts xss remains few w)

  next_round_lem :
      {m : Mem} {t out : Tendril} {xs slack : List ℕ} (rounds : ℕ) (d : D) (read : ℕ)
      (os : List Output) (ts : List Tendril) (xss : List (List ℕ))
      → Draining rounds
      → read ≤ length xs
      → Remains (Drains decoder last rounds) d (drop read xs) os d'
      → length ts + 2 * rounds + 4 < 2 ^ 64
      → World m (t ∷ out ∷ ts) (xs ∷ slack ∷ xss)
      → Returns
          (Sent ts xss os d')
          (next_round decoder last (decode_to_sink decoder last rounds) d t out read m)
  unfolding next_round bytes
  next_round_lem {xs} rounds d read os ts xss go_on inside remains few w =
      rw (as_u32_lem read (omega (arith, length-lt w.reps.0))) (
        Returns.then_do (pop_front_lem bytes read inside refl w) (λ t' m' w'.
          rw (as_byte_slice_lem w'.reps.0) (
            Returns.then_do (drop_tendril_lem (World-swap w'))
              (λ _ m'' w''. left_lem rounds d (drop read xs) os ts xss go_on remains few w''))))

  -- A text that the sink got before the others.
  sent_text :
      {m : Mem} (d : D) (more : List Event) (u : Tendril) (s : List ℕ) (os : List Output)
      (ts : List Tendril) (xss : List (List ℕ))
      → Sent (u ∷ ts) (s ∷ xss) os d' (d, more) m
      → World m (u ∷ texts more ++ ts) (s ∷ texts_of os ++ xss)
  sent_text d more u s os ts xss (same, calls, paired, w) =
      World-Shuffle (to_front u ts s xss (texts more) (texts_of os) paired) w

  after_decode_lem :
      {m : Mem} {t out : Tendril} {xs slack : List ℕ} (rounds : ℕ) (d : D) (read : ℕ)
      (result : DecoderResult) (os : List Output) (ts : List Tendril) (xss : List (List ℕ))
      → Draining rounds
      → read ≤ length xs
      → Decodes (Drains decoder last rounds) result d (drop read xs) os d'
      → length ts + 2 * rounds + 5 < 2 ^ 64
      → World m (t ∷ out ∷ ts) (xs ∷ slack ∷ xss)
      → Returns
          (Sent ts xss os d')
          (after_decode decoder last (decode_to_sink decoder last rounds) d t out read result m)
  unfolding after_decode
  after_decode_lem rounds d read input_empty os ts xss go_on inside (e, same) few w = rw e (
      Returns.then_do (drop_tendril_lem (World-swap w)) (λ _ m' w'.
        Returns.then_do (drop_tendril_lem w') (λ _ m'' w''. returned (same, refl, refl, w''))))
  after_decode_lem rounds d read output_full os ts xss go_on inside remains few w =
      next_round_lem rounds d read os ts xss go_on inside remains (omega arith) w
  after_decode_lem rounds d read malformed os ts xss go_on inside (rest, e, remains) few w = rw e (
      Returns.then_do (emit_malformed_lem w) (λ events m' (v, told, w'). rw told (
        Returns.then_do
          (next_round_lem rounds d read rest (v ∷ ts) (encode_utf8 0xFFFD ∷ xss) go_on inside
            remains (omega arith) (World-Shuffle (keep swap) (World-swap w')))
          (λ (d₁, more) m'' (same, calls, paired, w''). returned (
            same,
            ap (λ l. some invalid_sequence ∷ none ∷ l) calls,
            ap suc paired,
            sent_text d₁ more v (encode_utf8 0xFFFD) rest ts xss (same, calls, paired, w''),
          )))))

  -- What `emit_text` passes on, and where it is.
  abbrev Emitted :
      Tendril
      → List ℕ
      → List Tendril
      → List (List ℕ)
      → (slack : List ℕ) → List ℕ
      → Tendril × List Event
      → Mem
      → Type 0
  Emitted t xs ts xss slack [] (out, events) m =
      (events ≡ []) × World m (t ∷ out ∷ ts) (xs ∷ slack ∷ xss)
  Emitted t xs ts xss slack (b ∷ bs) (out, events) m =
      (u : Tendril) × (events ≡ process u ∷ [])
      × World m (t ∷ out ∷ u ∷ ts) (xs ∷ slack ∷ (b ∷ bs) ∷ xss)

  emit_text_lem :
      {m : Mem} {t out : Tendril} {xs : List ℕ} (slack s : List ℕ) (ts : List Tendril)
      (xss : List (List ℕ))
      → take (length s) slack ≡ s
      → length s ≤ length slack
      → length ts + 3 < 2 ^ 64
      → World m (out ∷ t ∷ ts) (slack ∷ xs ∷ xss)
      → Returns (Emitted t xs ts xss slack s) (emit_text out (length s) m)
  unfolding emit_text reinterpret_without_validating bytes
  emit_text_lem slack [] ts xss front fits few w = returned (refl, World-swap w)
  emit_text_lem {t} {xs} slack (b ∷ bs) ts xss front fits few w =
      let some_text : ltb 0 (length (b ∷ bs)) ≡ true = ground arith in
      rw (some_text, as_u32_lem (length (b ∷ bs)) (omega (arith, length-lt w.reps.0)))
        (Returns.then_do
          (subtendril_lem bytes 0 (length (b ∷ bs)) (omega arith) refl (omega arith) w)
          (λ (out', u) m' w'. returned (
            u,
            refl,
            subst (λ l. World m' (t ∷ out' ∷ u ∷ ts) (xs ∷ slack ∷ l ∷ xss)) front
                (World-Shuffle (next (keep swap) swap) w'),
          )))

  -- The text of a round goes before what follows.
  round_lem :
      (m : Mem) (t out : Tendril) (xs slack : List ℕ) (rounds : ℕ) (d : D) (read : ℕ)
      (result : DecoderResult) (s : List ℕ) (events : List Event) (rest : List Output)
      (ts : List Tendril) (xss : List (List ℕ))
      → Draining rounds
      → read ≤ length xs
      → Decodes (Drains decoder last rounds) result d (drop read xs) rest d'
      → length ts + 2 * rounds + 6 < 2 ^ 64
      → Emitted t xs ts xss slack s (out, events) m
      → Returns (Sent ts xss (written_text s ++ rest) d') (
          (do
            (d, more) ←
                after_decode decoder last (decode_to_sink decoder last rounds) d t out read result
            pure (d, events ++ more))
            m)
  round_lem m t out xs slack rounds d read result [] events rest ts xss go_on inside decodes few
        (e, w) =
      rw e (
        Returns.then_do
          (after_decode_lem rounds d read result rest ts xss go_on inside decodes (omega arith) w)
          (λ r m' sent. returned sent))
  round_lem m t out xs slack rounds d read result (b ∷ bs) events rest ts xss go_on inside decodes
        few (u, e, w) =
      rw e (
        Returns.then_do
          (after_decode_lem rounds d read result rest (u ∷ ts) ((b ∷ bs) ∷ xss) go_on inside decodes
            (omega arith) w)
          (λ (d₁, more) m' (same, calls, paired, w'). returned (
            same,
            ap (λ l. none ∷ l) calls,
            ap suc paired,
            sent_text d₁ more u (b ∷ bs) rest ts xss (same, calls, paired, w'),
          )))

  -- The loop does what it promises, with enough rounds.
  pub decode_to_sink_lem : (rounds : ℕ) → Draining rounds
  unfolding decode_to_sink
  decode_to_sink_lem zero m d t xs os ts xss never few w = absurd never
  decode_to_sink_lem (suc rounds) m d t xs os ts xss (fits, inside, rest, e, decodes) few w =
      let room = room_for (decoder.max_utf8_buffer_length d (length xs)) in
      let small = room_for-le (decoder.max_utf8_buffer_length d (length xs)) in
      let o = outcome decoder last d xs in
      let plus : 0 + length o.text ≡ length o.text = omega arith in
      Returns.then_do (new_lem w) (λ out m₁ (w₁, _, _). rw (as_byte_slice_lem w₁.reps.1.0) (
        Returns.then_do (push_uninitialized_lem room (omega arith) w₁) (λ out₂ m₂ (slack, full, w₂).
          Returns.then_do (as_mut_byte_slice_lem w₂) (λ (out₃, seen) m₃ (w₃, shown, alone).
            rw (shown, full)
              (Returns.then_do (write_slice_lem 0 o.text alone (omega arith) w₃) (λ out₄ m₄ w₄.
                Returns.then_do
                  (emit_text_lem (overwrite 0 o.text slack) o.text ts xss
                    (subst (λ n. take n (overwrite 0 o.text slack) ≡ o.text) plus
                      (take-overwrite 0 o.text slack (omega arith)))
                    (omega (arith, length-overwrite 0 o.text slack (omega arith))) (omega arith) w₄)
                  (λ (out₅, events) m₅ emitted. rw e (
                    round_lem m₅ t out₅ xs (overwrite 0 o.text slack) rounds o.state o.read o.result
                      o.text events rest ts xss (decode_to_sink_lem rounds) inside decodes
                      (omega arith) emitted))))))))

-- In a memory where every live tendril stands for its bytes and every header counts the tendrils
-- that point to it, and with a decoder of `encoding_rs` that uses the bytes up within so many calls
-- and stays inside its buffers, `LossyDecoder::process` with that many rounds returns: the sink
-- gets in order the texts that are not empty, and at each malformed sequence an error and U+FFFD;
-- the input is dropped and no other tendril changes. The number of live tendrils is so small that
-- counts cannot overflow.
pub process_encoding_rs_lem :
    {D : Type 0} {m : Mem} {t : Tendril} {ts : List Tendril} {xs : List ℕ} {xss : List (List ℕ)}
    (decoder : Decoder D) (rounds : ℕ) (d d' : D) (os : List Output)
    → Remains (Drains decoder false rounds) d xs os d'
    → length ts + 2 * rounds + 4 < 2 ^ 64
    → World m (t ∷ ts) (xs ∷ xss)
    → Returns (Sent ts xss os d') (process_encoding_rs decoder false rounds d t m)
unfolding process_encoding_rs
process_encoding_rs_lem {ts} {xs} {xss} decoder rounds d d' os remains few w =
    rw (as_byte_slice_lem w.reps.0) (
      left_lem decoder false d' rounds d xs os ts xss (decode_to_sink_lem decoder false d' rounds)
        remains few w)
