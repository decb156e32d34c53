-- ===== src/Stream/Process.antt =====
-- `process` and `finish` of `Utf8LossyDecoder` in `src/stream.rs`.
use tendril.Common.{
  ℕ, ◌+◌, ◌*◌, ◌<◌, ◌^◌, ◌≡◌, refl, sym, subst, Option, none, some, Result, ok, err, List, [], ◌∷◌,
  ◌++◌, arith, length,
}
use tendril.Mem.{Mem, Run, done, panic, fault}
use tendril.Tendril.{Tendril}
use tendril.Utf8Decode.{Decoded, TryComplete, unwrap_or}
use tendril.Utf8Decode.Lossy.{IsDecoder, Lossy}
use tendril.Utf8Decode.Run.{Pushed, decode_utf8_lossy_lem, from_slice_lem}
use tendril.Utf8Decode.Complete.{IsCompleter, rest_lem}
use tendril.Stream.{
  process, error, incomplete_at_end, Event, Utf8LossyDecoder, process_rest, resumed_events, resume,
  process_with, process_bytes, finish_with, finish,
}
use tendril.Stream.Same.{texts, map_run, pushed_of, process_rest-decode_utf8_lossy}
use tendril.World.{World}
use tendril.World.Drop.{drop_tendril_lem}
use tendril.World.Read.{as_byte_slice_lem}
use tendril.World.Shuffle.{World-Shuffle, swap, to_front}
use tendril.World.Returns
use tendril.World.Returns.{Returns, returned}

abbrev IsDone : {A : Type 0} → Run A → Type 0
IsDone (done a m) = Unit
IsDone panic = ⊥
IsDone fault = ⊥

Returns-IsDone : {A : Type 0} {P : A → Mem → Type 0} {r : Run A} → Returns P r → IsDone r
Returns-IsDone (returned p) = tt

Returns-map_run :
    {A B : Type 0} (P : B → Mem → Type 0) (f : A → B) (r : Run A)
    → Returns P (map_run f r)
    → Returns (λ a m. P (f a) m) r
Returns-map_run P f (done a m) (returned p) = returned p
Returns-map_run P f panic h = absurd (Returns-IsDone h)
Returns-map_run P f fault h = absurd (Returns-IsDone h)

texts-resumed_events :
    (r : Result (List ℕ) (List ℕ)) (u : Tendril) (es : List Event)
    → texts (resumed_events r u ++ es) ≡ u ∷ texts es
unfolding resumed_events
texts-resumed_events (ok c) u es = refl
texts-resumed_events (err c) u es = refl

module _ {I : Type 0} (decode : List ℕ → Decoded I) (replacement : List ℕ)
    (law : IsDecoder decode replacement) where
  -- The texts of the calls are the pieces of the bytes.
  pub process_rest_lem :
      {m : Mem} {t : Tendril} {ts : List Tendril} {xs : List ℕ} {xss : List (List ℕ)}
      → length ts + 2 * length xs + 2 < 2 ^ 64
      → World m (t ∷ ts) (xs ∷ xss)
      → Returns
          (λ r m'. Pushed decode replacement ts xs xss (pushed_of r) m')
          (process_rest decode replacement t m)
  process_rest_lem {m} {t} {ts} {xs} {xss} few w =
      Returns-map_run (Pushed decode replacement ts xs xss) pushed_of
        (process_rest decode replacement t m)
        (subst (Returns (Pushed decode replacement ts xs xss))
          (sym (process_rest-decode_utf8_lossy decode replacement t m))
          (decode_utf8_lossy_lem decode replacement law few w))

  -- What a call does that finds a character broken off, by what `try_complete` made of it.
  abbrev pub Continued :
      List Tendril
      → List (List ℕ)
      → I × Option (Result (List ℕ) (List ℕ) × List ℕ)
      → List Event × Option I
      → Mem
      → Type 0
  Continued ts xss (s, none) (events, pending) m =
      (texts events ≡ []) × (pending ≡ some s) × World m ts xss
  Continued ts xss (s, some (r, rest)) (events, pending) m =
      (pieces : List (List ℕ)) × Lossy decode replacement rest pieces pending
      × World m (texts events ++ ts) (unwrap_or r replacement ∷ pieces ++ xss)

  -- What `process` does in the two states of the decoder.
  abbrev pub Processed :
      TryComplete I
      → List Tendril
      → List ℕ
      → List (List ℕ)
      → Option I
      → List Event × Option I
      → Mem
      → Type 0
  Processed try_complete ts xs xss none r m = Pushed decode replacement ts xs xss (pushed_of r) m
  Processed try_complete ts xs xss (some s) r m = Continued ts xss (try_complete s xs) r m

  module _ (try_complete : TryComplete I) (complete : IsCompleter try_complete replacement) where
    resume_lem :
        {m : Mem} {t : Tendril} {ts : List Tendril} {xs : List ℕ} {xss : List (List ℕ)} (s : I)
        (c : I × Option (Result (List ℕ) (List ℕ) × List ℕ))
        → try_complete s xs ≡ c
        → length ts + 2 * length xs + 4 < 2 ^ 64
        → World m (t ∷ ts) (xs ∷ xss)
        → Returns (Continued ts xss c) (resume decode replacement t xs c m)
    unfolding resume
    resume_lem s (s', none) e few w =
        Returns.then_do (drop_tendril_lem w) (λ _ m' w'. returned (refl, refl, w'))
    resume_lem {ts} {xs} {xss} s (s', some (r, rest)) e few w =
        let small = complete.rest_size s s' xs r rest e in
        Returns.then_do
          (from_slice_lem (unwrap_or r replacement) (complete.char_size s s' xs r rest e) w)
          (λ u m₁ w₁.
            Returns.then_do
              (rest_lem rest small (complete.rest_end s s' xs r rest e) (World-Shuffle swap w₁))
              (λ t₂ m₂ w₂.
                Returns.then_do (process_rest_lem (omega (arith, few, small)) w₂)
                  (λ (more, o) m₃ (pieces, lossy, parallel, w₃). returned (
                    pieces,
                    lossy,
                    subst (λ l. World m₃ (l ++ ts) (unwrap_or r replacement ∷ pieces ++ xss))
                        (sym (texts-resumed_events r u more))
                        (World-Shuffle
                          (to_front u ts (unwrap_or r replacement) xss (texts more) pieces parallel)
                          w₃),
                  ))))

    process_with_lem :
        {m : Mem} {t : Tendril} {ts : List Tendril} {xs : List ℕ} {xss : List (List ℕ)}
        (o : Option I)
        → length ts + 2 * length xs + 4 < 2 ^ 64
        → World m (t ∷ ts) (xs ∷ xss)
        → Returns
            (Processed try_complete ts xs xss o)
            (process_with decode replacement try_complete o t m)
    unfolding process_with
    process_with_lem none few w = process_rest_lem (omega arith) w
    process_with_lem {xs} (some s) few w =
        rw (as_byte_slice_lem w.reps.0) (resume_lem s (try_complete s xs) refl few w)

    -- With a `utf8::decode` whose parts lie inside the input, are valid UTF-8 where it says so, and
    -- whose invalid sequences are not empty, and with a `try_complete` whose rest is an end of the
    -- input, a call of `Utf8LossyDecoder::process` in either state ends: without a pending
    -- character the sink gets the pieces of the bytes; with one that stays incomplete it gets no
    -- text and the decoder keeps it; with one that is completed it gets that character or the
    -- replacement, then the pieces of the rest. No other tendril changes. The number of live
    -- tendrils is so small that counts cannot overflow.
    pub process_bytes_lem :
        {m : Mem} {t : Tendril} {ts : List Tendril} {xs : List ℕ} {xss : List (List ℕ)}
        (decoder : Utf8LossyDecoder I)
        → length ts + 2 * length xs + 4 < 2 ^ 64
        → World m (t ∷ ts) (xs ∷ xss)
        → Returns
            (λ (decoder', events) m'.
              Processed try_complete ts xs xss decoder.incomplete (events, decoder'.incomplete) m')
            (process_bytes decode replacement try_complete decoder t m)
    unfolding process_bytes
    process_bytes_lem decoder few w =
        Returns.then_do (process_with_lem decoder.incomplete few w)
          (λ (events, o) m' done_so. returned done_so)

-- What the end of the stream adds.
abbrev pub Finished :
    {I : Type 0}
    → (replacement : List ℕ) → List Tendril
    → List (List ℕ)
    → Option I
    → List Event
    → Mem
    → Type 0
Finished replacement ts xss none events m = (events ≡ []) × World m ts xss
Finished replacement ts xss (some s) events m =
    (u : Tendril) × (events ≡ error incomplete_at_end ∷ process u ∷ [])
    × World m (u ∷ ts) (replacement ∷ xss)

module _ {I : Type 0} (replacement : List ℕ) (short : length replacement < 2 ^ 32) where
  finish_with_lem :
      {m : Mem} {ts : List Tendril} {xss : List (List ℕ)} (o : Option I)
      → World m ts xss
      → Returns (Finished replacement ts xss o) (finish_with replacement o m)
  unfolding finish_with
  finish_with_lem none w = returned (refl, w)
  finish_with_lem (some s) w =
      Returns.then_do (from_slice_lem replacement short w) (λ u m' w'. returned (u, refl, w'))

  -- In a memory where every live tendril stands for its bytes and every header counts the tendrils
  -- that point to it, and with a replacement text of fewer than 2^32 bytes,
  -- `Utf8LossyDecoder::finish` returns: it calls nothing if no character is pending, and else
  -- reports the incomplete sequence and hands over one replacement text; no other tendril changes.
  pub finish_lem :
      {m : Mem} {ts : List Tendril} {xss : List (List ℕ)} (decoder : Utf8LossyDecoder I)
      → World m ts xss
      → Returns (Finished replacement ts xss decoder.incomplete) (finish replacement decoder m)
  unfolding finish
  finish_lem decoder w = finish_with_lem decoder.incomplete w
