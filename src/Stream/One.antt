-- ===== src/Stream/One.antt =====
-- `TendrilSink::one` of `src/stream.rs` with a fresh `Utf8LossyDecoder`.
use tendril.Common.{
  ℕ, ◌+◌, ◌*◌, ◌<◌, ◌^◌, ◌≡◌, refl, sym, ap, subst, Option, none, some, List, [], ◌∷◌, ◌++◌,
  append-nil, append_assoc, length,
}
use tendril.Mem.{Mem}
use tendril.Tendril.{Tendril}
use tendril.Utf8Decode.{Decoded, TryComplete}
use tendril.Utf8Decode.Lossy.{IsDecoder, Lossy}
use tendril.Utf8Decode.Complete.{IsCompleter}
use tendril.Stream.{Event, process, error, incomplete_at_end, new_decoder, one}
use tendril.Stream.Same.{texts}
use tendril.Stream.Process.{process_bytes_lem, Finished, finish_lem}
use tendril.World.{World}
use tendril.World.Shuffle.{World-Shuffle, to_front, back}
use tendril.World.Returns
use tendril.World.Returns.{Returns, returned}

-- The replacement for a character that the input breaks off in.
abbrev pub last_piece : {I : Type 0} → List ℕ → Option I → List (List ℕ)
last_piece replacement none = []
last_piece replacement (some s) = replacement ∷ []

texts-append : (es fs : List Event) → texts (es ++ fs) ≡ texts es ++ texts fs
texts-append [] fs = refl
texts-append (process t ∷ es) fs = ap (λ l. t ∷ l) (texts-append es fs)
texts-append (error d ∷ es) fs = texts-append es fs

-- The calls at the end come after those before.
ended :
    {I : Type 0} (ts : List Tendril) (xss : List (List ℕ)) (replacement : List ℕ)
    (es last : List Event) (pieces : List (List ℕ)) (o : Option I) (m : Mem)
    → length (texts es) ≡ length pieces
    → Finished replacement (texts es ++ ts) (pieces ++ xss) o last m
    → World m (texts (es ++ last) ++ ts) ((pieces ++ last_piece replacement o) ++ xss)
ended ts xss replacement es last pieces none m h (e, w) =
    subst (λ l. World m (texts (es ++ l) ++ ts) ((pieces ++ []) ++ xss)) (sym e)
      (rw (append-nil es, append-nil pieces) w)
ended ts xss replacement es last pieces (some s) m h (u, e, w) =
    subst (λ l. World m (texts (es ++ l) ++ ts) ((pieces ++ (replacement ∷ [])) ++ xss)) (sym e)
      (rw (texts-append es (error incomplete_at_end ∷ process u ∷ [])) (
        rw (append_assoc (texts es) (u ∷ []) ts, append_assoc pieces (replacement ∷ []) xss)
          (World-Shuffle (back (to_front u ts replacement xss (texts es) pieces h)) w)))

module _ {I : Type 0} (decode : List ℕ → Decoded I) (replacement : List ℕ)
    (law : IsDecoder decode replacement) (try_complete : TryComplete I)
    (complete : IsCompleter try_complete replacement) where
  -- With a `utf8::decode` whose parts lie inside the input, are valid UTF-8 where it says so, and
  -- whose invalid sequences are not empty, and with a `try_complete` whose rest is an end of the
  -- input, `TendrilSink::one` of a new `Utf8LossyDecoder` ends: the texts that the sink gets are in
  -- order the pieces that the bytes decode to, and one replacement text more if they break off in a
  -- character. No other tendril changes. The number of live tendrils is so small that counts cannot
  -- overflow.
  pub one_lem :
      {m : Mem} {t : Tendril} {ts : List Tendril} {xs : List ℕ} {xss : List (List ℕ)}
      → length ts + 2 * length xs + 4 < 2 ^ 64
      → World m (t ∷ ts) (xs ∷ xss)
      → Returns
          (λ events m'.
            (pieces : List (List ℕ)) × (o : Option I) × Lossy decode replacement xs pieces o
            × World m' (texts events ++ ts) ((pieces ++ last_piece replacement o) ++ xss))
          (one decode replacement try_complete new_decoder t m)
  unfolding one new_decoder
  one_lem {ts} {xss} few w =
      Returns.then_do
        (process_bytes_lem decode replacement law try_complete complete
          (record { incomplete = none }) few w)
        (λ (decoder, es) m₁ (pieces, lossy, parallel, w₁).
          Returns.then_do (finish_lem replacement law.replacement_size decoder w₁)
            (λ last m₂ finished. returned (
              pieces,
              decoder.incomplete,
              lossy,
              ended ts xss replacement es last pieces decoder.incomplete m₂ parallel finished,
            )))
