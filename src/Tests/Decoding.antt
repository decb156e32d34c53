-- ===== src/Tests/Decoding.antt =====
-- The theorems on decoding at the memory of `Tests.Memory`, with small functions for those of the
-- crate `utf-8`.
use tendril.Common.{
  ℕ, suc, ◌+◌, ◌-◌, ◌≤◌, ◌<◌, ◌^◌, ◌≡◌, refl, subst, true, Option, none, some, Result, ok, List, [],
  ◌∷◌, ◌++◌, arith, if◌then◌else◌, length, drop,
}
use tendril.Fmt.Utf8.{from_utf8, run, step}
use tendril.World.{World}
use tendril.World.Returns.{Returns}
use tendril.Utf8Decode.{
  Decoded, valid_text, invalid, TryComplete, unwrap_or, decode_utf8_lossy, complete_utf8,
}
use tendril.Utf8Decode.Lossy.{IsDecoder, AllValid}
use tendril.Utf8Decode.Run.{Pushed, decode_utf8_lossy_lem, decode_utf8_lossy-AllValid}
use tendril.Utf8Decode.Complete.{IsCompleter, Completes, complete_utf8_lem}
use tendril.Stream.{Utf8LossyDecoder, process_rest, process_bytes}
use tendril.Stream.Same.{map_run, pushed_of, process_rest-decode_utf8_lossy}
use tendril.Stream.Process.{Processed, process_bytes_lem}
use tendril.Tests.Memory.{mem, front, back, front_bytes, back_bytes, mem-World}
use tendril.Stream.{one, new_decoder}
use tendril.Stream.Same.{texts}
use tendril.Stream.One.{last_piece, one_lem}
use tendril.Utf8Decode.Lossy.{Lossy}

-- Text as it is, and any byte that begins none as a sequence of its own.
abbrev strict : List ℕ → Decoded (Unit {0})
strict xs = if from_utf8 xs then valid_text else invalid 0 1

abbrev replacement : List ℕ
replacement = 0xEF ∷ 0xBF ∷ 0xBD ∷ []

nil_valid : from_utf8 [] ≡ true
unfolding from_utf8 run
nil_valid = refl

replacement-valid : from_utf8 replacement ≡ true
unfolding from_utf8 run step
replacement-valid = refl

strict_inside : (xs : List ℕ) (v i : ℕ) → strict xs ≡ invalid v i → (v + i ≤ length xs) × (0 < i)
strict_inside [] v i h = absurd (ground (arith, h, nil_valid))
strict_inside (x ∷ xs) v i h = ground (arith, h)

strict-IsDecoder : IsDecoder strict replacement
strict-IsDecoder = record {
  all_valid = λ xs h. ground (arith, h);
  invalid_valid = λ xs v i h. ground (arith, h, nil_valid);
  invalid_inside = strict_inside;
  incomplete_valid = λ xs v s h. absurd (ground (arith, h));
  incomplete_inside = λ xs v s h. absurd (ground (arith, h));
  replacement_valid = replacement-valid;
  replacement_size = omega arith;
}

decode_utf8_lossy_example :
    Returns
      (Pushed strict replacement (back ∷ []) front_bytes (back_bytes ∷ []))
      (decode_utf8_lossy strict replacement front mem)
decode_utf8_lossy_example =
    decode_utf8_lossy_lem strict replacement strict-IsDecoder (omega arith) mem-World

decode_utf8_lossy-AllValid_example :
    Returns
      (λ (pushed, o) m'.
        (pieces : List (List ℕ)) × AllValid strict replacement pieces
        × World m' (pushed ++ (back ∷ [])) (pieces ++ (back_bytes ∷ [])))
      (decode_utf8_lossy strict replacement front mem)
decode_utf8_lossy-AllValid_example =
    decode_utf8_lossy-AllValid strict replacement strict-IsDecoder (omega arith) mem-World

-- One byte of the input completes the character.
abbrev byte_completes : TryComplete (Unit {0})
byte_completes s [] = (s, none)
byte_completes s (x ∷ xs) = (s, some (ok (x ∷ []), xs))

abbrev CompletedBy : List ℕ → Result (List ℕ) (List ℕ) → List ℕ → Type 0
CompletedBy xs r rest =
    (length rest ≤ length xs)
    × (drop (length xs - length rest) xs ≡ rest)
    × (length (unwrap_or r replacement) < 2 ^ 32)

abbrev ResultBy : List ℕ → Unit {0} × Option (Result (List ℕ) (List ℕ) × List ℕ) → Type 0
ResultBy xs (s, none) = Unit
ResultBy xs (s, some (r, rest)) = CompletedBy xs r rest

by_one : (x : ℕ) (xs : List ℕ) → CompletedBy (x ∷ xs) (ok (x ∷ [])) xs
by_one x xs =
    let e : suc (length xs) - length xs ≡ 1 = omega arith in (omega arith, rw e refl, omega arith)

completed_by :
    (s s' : Unit {0}) (xs : List ℕ) (r : Result (List ℕ) (List ℕ)) (rest : List ℕ)
    → byte_completes s xs ≡ (s', some (r, rest))
    → CompletedBy xs r rest
completed_by s s' [] r rest h = absurd (ground (arith, h))
completed_by s s' (x ∷ xs) r rest h = subst (ResultBy (x ∷ xs)) h (by_one x xs)

byte-IsCompleter : IsCompleter byte_completes replacement
byte-IsCompleter = record {
  rest_size = λ s s' xs r rest h. (completed_by s s' xs r rest h).0;
  rest_end = λ s s' xs r rest h. (completed_by s s' xs r rest h).1;
  char_size = λ s s' xs r rest h. (completed_by s s' xs r rest h).2;
}

complete_utf8_example :
    Returns
      (Completes replacement (back ∷ []) (back_bytes ∷ []) (byte_completes tt front_bytes))
      (complete_utf8 byte_completes replacement tt front mem)
complete_utf8_example = complete_utf8_lem byte_completes replacement byte-IsCompleter tt mem-World

process_rest-decode_utf8_lossy_example :
    map_run pushed_of (process_rest strict replacement front mem)
    ≡ decode_utf8_lossy strict replacement front mem
process_rest-decode_utf8_lossy_example = process_rest-decode_utf8_lossy strict replacement front mem

abbrev broken : Utf8LossyDecoder (Unit {0})
broken = record { incomplete = some tt }

process_bytes_example :
    Returns
      (λ (decoder', events) m'.
        Processed strict replacement strict-IsDecoder byte_completes
          (back ∷ [])
          front_bytes
          (back_bytes ∷ [])
          (some tt)
          (events, decoder'.incomplete)
          m')
      (process_bytes strict replacement byte_completes broken front mem)
process_bytes_example =
    process_bytes_lem strict replacement strict-IsDecoder byte_completes byte-IsCompleter broken
      (omega arith) mem-World

one_example :
    Returns
      (λ events m'.
        (pieces : List (List ℕ)) × (o : Option (Unit {0})) × Lossy strict replacement front_bytes
          pieces o
        × World m'
            (texts events ++ (back ∷ []))
            ((pieces ++ last_piece replacement o) ++ (back_bytes ∷ [])))
      (one strict replacement byte_completes new_decoder front mem)
one_example =
    one_lem strict replacement strict-IsDecoder byte_completes byte-IsCompleter (omega arith)
      mem-World
