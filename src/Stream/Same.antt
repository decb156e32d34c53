-- ===== src/Stream/Same.antt =====
-- `Utf8LossyDecoder` of `src/stream.rs` against `decode_utf8_lossy` of `src/utf8_decode.rs`.
use tendril.Common.{
  ℕ, zero, suc, ◌+◌, ◌≡◌, refl, ◌∙◌, ap, inl, inr, Option, some, List, [], ◌∷◌, ◌++◌, map, ◌==◌,
  Bool-cases, length, as_u32,
}
use tendril.Mem.{Mem, Run, done, panic, fault, M, continue, pure}
use tendril.Fmt.{bytes}
use tendril.Tendril.{Tendril, as_byte_slice, drop_tendril}
use tendril.Tendril.Checked.{pop_front}
use tendril.Tendril.Extend.{from_slice}
use tendril.Utf8Decode.{
  valid_part, Decoded, valid_text, invalid, incomplete, decode_round, decode_loop,
  decode_utf8_lossy,
}
use tendril.Stream.{
  Event, process, error, invalid_byte_sequence, process_round, process_loop, process_rest,
}

-- The tendrils that a sink is asked to process.
abbrev pub texts : List Event → List Tendril
texts [] = []
texts (process t ∷ es) = t ∷ texts es
texts (error d ∷ es) = texts es

-- A run with its result changed.
abbrev pub map_run : {A B : Type 0} → (A → B) → Run A → Run B
map_run f (done a m) = done (f a) m
map_run f panic = panic
map_run f fault = fault

module _ {A B C : Type 0} (f : B → C) where
  -- It is enough to compare what follows the same start.
  continue-map_run :
      (r : Run A) (k : A → M B) (l : A → M C)
      → ((a : A) (m : Mem) → map_run f (k a m) ≡ l a m)
      → map_run f (continue r k) ≡ continue r l
  continue-map_run (done a m) k l h = h a m
  continue-map_run panic k l h = refl
  continue-map_run fault k l h = refl

texts-append :
    (pushed : List Tendril) (es : List Event)
    → texts (map process pushed ++ es) ≡ pushed ++ texts es
texts-append [] es = refl
texts-append (t ∷ pushed) es = ap (λ l. t ∷ l) (texts-append pushed es)

texts-map : (pushed : List Tendril) → texts (map process pushed) ≡ pushed
texts-map [] = refl
texts-map (t ∷ pushed) = ap (λ l. t ∷ l) (texts-map pushed)

abbrev pub pushed_of : {I : Type 0} → List Event × Option I → List Tendril × Option I
pushed_of (es, o) = (texts es, o)

-- The result of the rounds that follow goes behind that of the round before them.
behind :
    {I : Type 0} (pushed : List Tendril) (r : Tendril) (a : Run (List Event × Option I))
    → map_run pushed_of (
        continue a λ (more, o).
          pure (map process pushed ++ (error invalid_byte_sequence ∷ process r ∷ more), o))
      ≡ continue (map_run pushed_of a) λ (more, o). pure (pushed ++ (r ∷ more), o)
behind pushed r (done (more, o) m) =
    ap (λ l. done (l, o) m) (texts-append pushed (error invalid_byte_sequence ∷ process r ∷ more))
behind pushed r panic = refl
behind pushed r fault = refl

module _ {I : Type 0} (decode : List ℕ → Decoded I) (replacement : List ℕ) where
  round_same :
      (d : Decoded I) (loop : Tendril → M (List Event × Option I))
      (loop' : Tendril → M (List Tendril × Option I))
      → ((t : Tendril) (m : Mem) → map_run pushed_of (loop t m) ≡ loop' t m)
      → (t : Tendril) (m : Mem)
      → map_run pushed_of (process_round decode replacement loop t d m)
        ≡ decode_round decode replacement loop' t d m
  unfolding process_round decode_round
  round_same valid_text loop loop' ih t m = refl
  round_same (invalid v i) loop loop' ih t m =
      continue-map_run pushed_of (valid_part t v m) _ _ λ (t₁, pushed) m₁.
        continue-map_run pushed_of (from_slice bytes replacement m₁) _ _ λ r m₂.
          continue-map_run pushed_of (pop_front bytes t₁ (as_u32 (v + i)) m₂) _ _ λ t₃ m₃.
            behind pushed r (loop t₃ m₃)
            ∙ ap (λ b. continue b λ (more, o). pure (pushed ++ (r ∷ more), o)) (ih t₃ m₃)
  round_same (incomplete v s) loop loop' ih t m =
      continue-map_run pushed_of (valid_part t v m) _ _ λ (t₁, pushed) m₁.
        continue-map_run pushed_of (drop_tendril t₁ m₁) _ _
          λ _ m₂. ap (λ l. done (l, some s) m₂) (texts-map pushed)

  loop_same :
      (rounds : ℕ) (t : Tendril) (m : Mem)
      → map_run pushed_of (process_loop decode replacement rounds t m)
        ≡ decode_loop decode replacement rounds t m
  unfolding process_loop decode_loop
  loop_same zero t m = refl
  loop_same (suc rounds) t m = continue-map_run pushed_of (as_byte_slice t m) _ _ λ input m₁.
      elim (Bool-cases (length input == 0)) [
        | inl e ↦ rw e (continue-map_run pushed_of (drop_tendril t m₁) _ _ λ _ m₂. refl)
        | inr e ↦ rw e (
            round_same (decode input) (process_loop decode replacement rounds)
              (decode_loop decode replacement rounds) (loop_same rounds) t m₁)
      ]

  -- The loop of `Utf8LossyDecoder::process` runs as that of `decode_utf8_lossy` in every memory,
  -- panics and faults included, for any `utf8::decode`: the tendrils the sink gets are those that
  -- are pushed, and the pending character is the one returned.
  pub process_rest-decode_utf8_lossy :
      (t : Tendril) (m : Mem)
      → map_run pushed_of (process_rest decode replacement t m)
        ≡ decode_utf8_lossy decode replacement t m
  unfolding process_rest decode_utf8_lossy
  process_rest-decode_utf8_lossy t m =
      continue-map_run pushed_of (as_byte_slice t m) _ _
        λ input m₁. loop_same (suc (length input)) t m₁
