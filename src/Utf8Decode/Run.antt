-- ===== src/Utf8Decode/Run.antt =====
-- The loop of `decode_utf8_lossy` in `src/utf8_decode.rs` ends, and hands over the pieces of the text
-- in order.
use tendril.Common.{
  ℕ, zero, suc, ◌+◌, ◌*◌, ◌≤◌, ◌<◌, ◌^◌, ◌≡◌, refl, sym, subst, inl, inr, true, Option, none, List,
  [], ◌∷◌, ◌++◌, arith, ◌==◌, Bool-cases, length, length-append, length-drop, drop, slice,
  as_u32_lem,
}
use tendril.Mem.{Mem, Run}
use tendril.Fmt.{bytes}
use tendril.Tendril.{Tendril}
use tendril.Tendril.Extend.{from_slice}
use tendril.Utf8Decode.{
  Decoded, valid_text, invalid, incomplete, valid_part, decode_round, decode_loop,
  decode_utf8_lossy,
}
use tendril.Utf8Decode.Lossy.{
  IsDecoder, prefix, AllValid, Lossy-AllValid, Lossy, ended, whole, replaced, broken_off,
}
use tendril.World.{World}
use tendril.World.Drop.{drop_tendril_lem}
use tendril.World.Read.{as_byte_slice_lem, length-lt}
use tendril.World.Reserve.{from_byte_slice_without_validating_lem}
use tendril.World.Unwrapped.{subtendril_lem, pop_front_lem}
use tendril.World.Shuffle.{World-Shuffle, swap, exchange}
use tendril.World.Returns
use tendril.World.Returns.{Returns, returned}

subseq_ok : (xs : List ℕ) → bytes.validate_subseq xs ≡ true
unfolding bytes
subseq_ok xs = refl

pub suffix_ok : (xs : List ℕ) → bytes.validate_suffix xs ≡ true
unfolding bytes
suffix_ok xs = refl

pub from_slice_lem :
    {m : Mem} {ts : List Tendril} {xss : List (List ℕ)} (x : List ℕ)
    → length x < 2 ^ 32
    → World m ts xss
    → Returns (λ t m'. World m' (t ∷ ts) (x ∷ xss)) (from_slice bytes x m)
unfolding from_slice
from_slice_lem x h w = from_byte_slice_without_validating_lem x h w

pub valid_part_lem :
    {m : Mem} {t : Tendril} {ts : List Tendril} {xs : List ℕ} {xss : List (List ℕ)} (v : ℕ)
    → v ≤ length xs
    → length ts + 2 < 2 ^ 64
    → World m (t ∷ ts) (xs ∷ xss)
    → Returns
        (λ (t', out) m'.
          (length out ≡ length (prefix v xs))
          × (length out ≤ 1)
          × World m' (t' ∷ out ++ ts) (xs ∷ prefix v xs ++ xss))
        (valid_part t v m)
unfolding valid_part
valid_part_lem {xs} v inside few w = elim (Bool-cases (v == 0)) [
  | inl e ↦ rw e (returned (refl, omega arith, w))
  | inr e ↦
      rw (e, as_u32_lem v (omega (arith, inside, length-lt w.reps.0)))
        (Returns.then_do (subtendril_lem bytes 0 v (omega arith) (subseq_ok (slice 0 v xs)) few w)
          (λ (t', s) m' w'. returned (refl, omega arith, w')))
]

module _ {I : Type 0} (decode : List ℕ → Decoded I) (replacement : List ℕ) where
  -- The tendrils pushed stand for the pieces of the text.
  abbrev pub Pushed : List Tendril → List ℕ → List (List ℕ) → List Tendril × Option I → Mem → Type 0
  Pushed ts xs xss (pushed, o) m =
      (pieces : List (List ℕ)) × Lossy decode replacement xs pieces o
      × (length pushed ≡ length pieces)
      × World m (pushed ++ ts) (pieces ++ xss)

  -- What the rounds that follow have to do.
  abbrev GoesOn : (Tendril → Mem → Run (List Tendril × Option I)) → List ℕ → Type 0
  GoesOn loop xs =
      (m : Mem) (t : Tendril) (ts : List Tendril) (xss : List (List ℕ))
      → length ts + 2 * length xs + 2 < 2 ^ 64
      → World m (t ∷ ts) (xs ∷ xss)
      → Returns (Pushed ts xs xss) (loop t m)

  module _ (ok : IsDecoder decode replacement) where
    -- A round that replaces an invalid sequence, before rounds that do what they should.
    replaced_lem :
        {m : Mem} {t : Tendril} {ts : List Tendril} {xs : List ℕ} {xss : List (List ℕ)} (v i : ℕ)
        (loop : Tendril → Mem → Run (List Tendril × Option I))
        → decode xs ≡ invalid v i
        → length ts + 2 * length xs + 2 < 2 ^ 64
        → GoesOn loop (drop (v + i) xs)
        → World m (t ∷ ts) (xs ∷ xss)
        → Returns (Pushed ts xs xss) (decode_round decode replacement loop t (invalid v i) m)
    unfolding decode_round
    replaced_lem {ts} {xs} {xss} v i loop e few rest w =
        let (fits, some_bad) = ok.invalid_inside xs v i e in
        let size = length-drop (v + i) xs in
        Returns.then_do (valid_part_lem v (omega (arith, fits)) (omega (arith, few)) w)
          (λ (t₁, out) m₁ (parallel, short, w₁).
            Returns.then_do (from_slice_lem replacement ok.replacement_size w₁) (λ r m₂ w₂.
              rw (as_u32_lem (v + i) (omega (arith, fits, length-lt w.reps.0))) (
                Returns.then_do
                  (pop_front_lem bytes (v + i) fits (suffix_ok (drop (v + i) xs))
                    (World-Shuffle swap w₂))
                  (λ t₃ m₃ w₃.
                    Returns.then_do
                      (rest _ _ _ _
                        (omega (arith, few, fits, some_bad, size, short, length-append out ts)) w₃)
                      (λ (more, o) m₄ (pieces, lossy, same_size, w₄). returned (
                        prefix v xs ++ (replacement ∷ pieces),
                        replaced v i e lossy,
                        omega (
                          arith,
                          length-append out (r ∷ more),
                          length-append (prefix v xs) (replacement ∷ pieces),
                          parallel,
                          same_size,
                        ),
                        World-Shuffle
                            (exchange r ts replacement xss more out pieces (prefix v xs) same_size
                              parallel)
                            w₄,
                      ))))))

    round_lem :
        (rounds : ℕ) {m : Mem} {t : Tendril} {ts : List Tendril} {xs : List ℕ} {xss : List (List ℕ)}
        (d : Decoded I)
        → decode xs ≡ d
        → length ts + 2 * length xs + 2 < 2 ^ 64
        → ((v i : ℕ)
            → decode xs ≡ invalid v i
            → GoesOn (decode_loop decode replacement rounds) (drop (v + i) xs))
        → World m (t ∷ ts) (xs ∷ xss)
        → Returns
            (Pushed ts xs xss)
            (decode_round decode replacement (decode_loop decode replacement rounds) t d m)
    unfolding decode_round
    round_lem rounds {xs} valid_text e few rest w = returned (xs ∷ [], whole e, refl, w)
    round_lem rounds (invalid v i) e few rest w =
        replaced_lem v i (decode_loop decode replacement rounds) e few (rest v i e) w
    round_lem rounds {xs} (incomplete v s) e few rest w =
        Returns.then_do (valid_part_lem v (ok.incomplete_inside xs v s e) (omega (arith, few)) w)
          (λ (t', out) m' (parallel, short, w').
            Returns.then_do (drop_tendril_lem w')
              (λ _ m'' w''. returned (prefix v xs, broken_off v s e, parallel, w'')))

    nil_of_length : (xs : List ℕ) → length xs ≡ 0 → xs ≡ []
    nil_of_length [] h = refl
    nil_of_length (x ∷ xs) h = absurd (omega arith)

    loop_lem :
        (rounds : ℕ) {m : Mem} {t : Tendril} {ts : List Tendril} {xs : List ℕ} {xss : List (List ℕ)}
        → length xs < rounds
        → length ts + 2 * length xs + 2 < 2 ^ 64
        → World m (t ∷ ts) (xs ∷ xss)
        → Returns (Pushed ts xs xss) (decode_loop decode replacement rounds t m)
    unfolding decode_loop
    loop_lem zero enough few w = absurd (omega arith)
    loop_lem (suc rounds) {ts} {xs} {xss} enough few w =
        rw (as_byte_slice_lem w.reps.0) (elim (Bool-cases (length xs == 0)) [
          | inl e ↦
              let none_left : xs ≡ [] = nil_of_length xs (ground arith) in
              rw e (
                Returns.then_do (drop_tendril_lem w) (λ _ m' w'. returned (
                  [],
                  subst (λ l. Lossy decode replacement l [] none) (sym none_left) ended,
                  refl,
                  w',
                )))
          | inr e ↦ rw e (
              round_lem rounds (decode xs) refl few
                (λ v i bad m' t' us yss few' w'.
                  let (fits, some_bad) = ok.invalid_inside xs v i bad in
                  loop_lem rounds (omega (arith, enough, fits, some_bad, length-drop (v + i) xs))
                    few' w')
                w)
        ])

    -- With a `utf8::decode` whose parts lie inside the input, are valid UTF-8 where it says so, and
    -- whose invalid sequences are not empty, with a short replacement text, and in a memory where
    -- every live tendril stands for its bytes and every header counts the tendrils that point to
    -- it, with so few other tendrils that counts cannot overflow, `decode_utf8_lossy` ends, and the
    -- tendrils it pushes stand in order for the pieces that its bytes decode to.
    pub decode_utf8_lossy_lem :
        {m : Mem} {t : Tendril} {ts : List Tendril} {xs : List ℕ} {xss : List (List ℕ)}
        → length ts + 2 * length xs + 2 < 2 ^ 64
        → World m (t ∷ ts) (xs ∷ xss)
        → Returns (Pushed ts xs xss) (decode_utf8_lossy decode replacement t m)
    unfolding decode_utf8_lossy
    decode_utf8_lossy_lem {xs} few w =
        rw (as_byte_slice_lem w.reps.0) (loop_lem (suc (length xs)) (omega arith) few w)

    -- With a `utf8::decode` whose parts lie inside the input, are valid UTF-8 where it says so, and
    -- whose invalid sequences are not empty, and under the conditions of the refinement above, all
    -- tendrils that `decode_utf8_lossy` pushes are valid UTF-8, although it does not validate them.
    pub decode_utf8_lossy-AllValid :
        {m : Mem} {t : Tendril} {ts : List Tendril} {xs : List ℕ} {xss : List (List ℕ)}
        → length ts + 2 * length xs + 2 < 2 ^ 64
        → World m (t ∷ ts) (xs ∷ xss)
        → Returns
            (λ (pushed, o) m'.
              (pieces : List (List ℕ)) × AllValid decode replacement pieces
              × World m' (pushed ++ ts) (pieces ++ xss))
            (decode_utf8_lossy decode replacement t m)
    decode_utf8_lossy-AllValid few w =
        Returns.weaken (decode_utf8_lossy_lem few w)
          (λ (pushed, o) m' (pieces, lossy, same_size, w').
            (pieces, Lossy-AllValid decode replacement ok lossy, w'))
