-- ===== src/Stream/Sinks/Reads.antt =====
-- `read_from` of `src/stream.rs`.
use tendril.Common.{
  ℕ, zero, suc, ◌+◌, ◌-◌, ◌≤◌, ◌<◌, ◌≡◌, sym, ◌∙◌, ap, subst, Option, none, some, Result, ok, err,
  true, List, [], ◌∷◌, ◌++◌, append-nil, append_assoc, arith, take, length, length-overwrite,
  take-overwrite, as_u32, sub32, overwrite, All, sub32_lem, as_u32_lem,
}
use tendril.Mem.{Mem, ◌>>=◌}
use tendril.Fmt.{Format}
use tendril.Tendril.{Tendril}
use tendril.Tendril.Checked.{pop_back}
use tendril.Tendril.Reading.{Reply, got, interrupted, failed}
use tendril.World.{World}
use tendril.World.Cut.{new_lem}
use tendril.World.Drop.{drop_tendril_lem}
use tendril.World.Extend.{concat}
use tendril.World.Uninitialized.{push_uninitialized_lem}
use tendril.World.Unwrapped.{pop_back_lem}
use tendril.World.Views.{IsUnshared, as_mut_byte_slice_lem, write_slice_lem}
use tendril.World.Replies.{Ending, ended, broken, Delivers, Brings}
use tendril.World.Returns
use tendril.World.Returns.{Returns, returned}
use tendril.Stream.Sinks.{TendrilSink, buffer_size, fresh_buffer, on_read, fill_loop, read_from}
use tendril.Stream.Sinks.Laws.{Owns, Beside, IsSink, behind, ahead}

-- A piece that one read can bring.
abbrev pub IsPiece : List ℕ → Type 0
IsPiece xs = (0 < length xs) × (length xs ≤ 4096)

fresh_buffer_lem :
    {m : Mem} {ts : List Tendril} {xss : List (List ℕ)}
    → World m ts xss
    → Returns
        (λ t m'. (slack : List ℕ) × (length slack ≡ 4096) × World m' (t ∷ ts) (slack ∷ xss))
        (fresh_buffer m)
unfolding fresh_buffer
fresh_buffer_lem w =
    Returns.then_do (new_lem w) (λ t m' (w', _, _). push_uninitialized_lem 4096 (omega arith) w')

concat-append : (cs : List (List ℕ)) (x : List ℕ) → concat (cs ++ (x ∷ [])) ≡ concat cs ++ x
concat-append [] x = append-nil x
concat-append (c ∷ cs) x = rw (concat-append cs x) (sym (append_assoc c (concat cs) x))

All-append :
    (cs : List (List ℕ)) (x : List ℕ) → All IsPiece cs → IsPiece x → All IsPiece (cs ++ (x ∷ []))
All-append [] x h k = (k, tt)
All-append (c ∷ cs) x h k = (h.0, All-append cs x h.1 k)

-- What `read_from` returns: at the end the result of `finish`, and the pieces that the sink got are
-- the bytes `ys`; at an error that error, and the sink has been dropped.
abbrev pub Fed :
    {R O E : Type 0}
    → (Ends : O → List (List ℕ) → Owns → Type 0) → List Tendril
    → List (List ℕ)
    → List ℕ
    → Ending E
    → Option (R × Result O E)
    → Mem
    → Type 0
Fed Ends ts xss ys o none m = ⊥
Fed Ends ts xss ys o (some (r, ok out)) m =
    (o ≡ ended)
    × (cs : List (List ℕ)) × (owns : Owns) × (concat cs ≡ ys)
    × All IsPiece cs
    × Ends out cs owns
    × Beside m owns ts xss
Fed Ends ts xss ys o (some (r, err e)) m = (o ≡ broken e) × World m ts xss

module _ {S O R E : Type 0} {sink : TendrilSink S O} {Holds : S → List (List ℕ) → Owns → Type 0}
    {Ends : O → List (List ℕ) → Owns → Type 0} (laws : IsSink sink Holds Ends) (format : Format)
    (any : (xs : List ℕ) → format.validate_prefix xs ≡ true) (read : R → ℕ → Reply E × R)
    (ts : List Tendril) (xss : List (List ℕ)) where
  -- What `fill_loop` promises of so many reads.
  abbrev Filling : ℕ → Type 0
  Filling calls =
      (m : Mem) (t : Tendril) (s : S) (r : R) (cs : List (List ℕ)) (owns : Owns) (slack ys : List ℕ)
      (o : Ending E)
      → length slack ≡ 4096
      → All IsPiece cs
      → Holds s cs owns
      → Delivers read calls r ys o
      → World m (t ∷ owns.tendrils ++ ts) (slack ∷ owns.texts ++ xss)
      → Returns (Fed Ends ts xss (concat cs ++ ys) o) (fill_loop sink format read calls t s r m)

  -- A piece goes to the sink, and a new buffer is made.
  fed :
      {m : Mem} {t : Tendril} (calls : ℕ) (s : S) (r : R) (cs : List (List ℕ)) (owns : Owns)
      (slack piece rest : List ℕ) (o : Ending E)
      → Filling calls
      → length slack ≡ 4096
      → IsPiece piece
      → All IsPiece cs
      → Holds s cs owns
      → Delivers read calls r rest o
      → World m (t ∷ owns.tendrils ++ ts) (overwrite 0 piece slack ∷ owns.texts ++ xss)
      → Returns (Fed Ends ts xss (concat cs ++ (piece ++ rest)) o) (
          (do
            t ← pop_back format t (sub32 buffer_size (as_u32 (length piece)))
            s ← sink.process s t
            t ← fresh_buffer
            fill_loop sink format read calls t s r)
            m)
  fed {m} {t} calls s r cs owns slack piece rest o next full fits pieces h later w =
      let long = length-overwrite 0 piece slack (omega arith) in
      let cut : length (overwrite 0 piece slack) - (4096 - length piece) ≡ 0 + length piece =
        omega arith in
      rw
        (
          as_u32_lem (length piece) (omega arith),
          sub32_lem 4096 (length piece) (omega arith) (omega arith),
        )
        (Returns.then_do (pop_back_lem format (4096 - length piece) (omega arith) (any _) w)
          (λ t' m' w'.
            let shown =
              subst
                (λ k.
                  World m' (t' ∷ owns.tendrils ++ ts)
                    (take k (overwrite 0 piece slack) ∷ owns.texts ++ xss))
                cut w' in
            let exact =
              subst (λ l. World m' (t' ∷ owns.tendrils ++ ts) (l ∷ owns.texts ++ xss))
                (take-overwrite 0 piece slack (omega arith)) shown in
            Returns.then_do (laws.processes m' s t' cs piece owns ts xss h exact)
              (λ s' m'' (owns', h', w'').
                Returns.then_do (fresh_buffer_lem w'') (λ t₂ m₂ (slack₂, full₂, w₂).
                  rw (← append_assoc (concat cs) piece rest, ← concat-append cs piece)
                    (next m₂ t₂ s' r (cs ++ (piece ∷ [])) owns' slack₂ rest o full₂
                      (All-append cs piece pieces fits) h' later w₂)))))

  on_read_lem :
      {m : Mem} {t : Tendril} (calls : ℕ) (s : S) (reply : Reply E × R) (cs : List (List ℕ))
      (owns : Owns) (slack ys : List ℕ) (o : Ending E)
      → Filling calls
      → length slack ≡ 4096
      → IsUnshared t
      → All IsPiece cs
      → Holds s cs owns
      → Brings (Delivers read calls) 4096 reply ys o
      → World m (t ∷ owns.tendrils ++ ts) (slack ∷ owns.texts ++ xss)
      → Returns (Fed Ends ts xss (concat cs ++ ys) o) (
          on_read sink format read
            (fill_loop sink format read calls)
            (λ s r. do t ← fresh_buffer; fill_loop sink format read calls t s r)
            t
            s
            reply
            m)
  unfolding on_read
  on_read_lem calls s (got [], r) cs owns slack ys o next full alone pieces h (last, e) w =
      Returns.then_do (laws.finishes _ s cs owns _ _ h (ahead laws ts xss owns w))
        (λ out m' (owns', h', w').
          Returns.then_do (drop_tendril_lem (behind laws ts xss owns' w')) (λ u m'' w''. returned (
            e,
            cs,
            owns',
            sym (append-nil (concat cs)) ∙ ap (λ l. concat cs ++ l) (sym last),
            pieces,
            h',
            w'',
          )))
  on_read_lem calls s (got (b ∷ bs), r) cs owns slack ys o next full alone pieces h
        (rest, e, fits, later) w =
      Returns.then_do (write_slice_lem 0 (b ∷ bs) alone (omega arith) w) (λ t' m' w'. rw e (
        fed calls s r cs owns slack (b ∷ bs) rest o next full (omega arith, fits) pieces h later
          w'))
  on_read_lem calls s (interrupted, r) cs owns slack ys o next full alone pieces h later w =
      next _ _ s r cs owns slack ys o full pieces h later w
  on_read_lem calls s (failed f, r) cs owns slack ys o next full alone pieces h (last, e) w =
      Returns.then_do (drop_tendril_lem w) (λ u m' w'.
        Returns.then_do (laws.discards m' s cs owns ts xss h w') (λ v m'' w''. returned (e, w'')))

  fill_loop_lem : (calls : ℕ) → Filling calls
  unfolding fill_loop
  fill_loop_lem zero m t s r cs owns slack ys o full pieces h never w = absurd never
  fill_loop_lem (suc calls) m t s r cs owns slack ys o full pieces h delivers w =
      Returns.then_do (as_mut_byte_slice_lem w) (λ (t', seen) m' (w', e, alone).
        rw (e, full)
          (on_read_lem calls s (read r 4096) cs owns slack ys o (fill_loop_lem calls) full alone
            pieces h (delivers 4096 (omega arith)) w'))

  -- With a sink that takes tendrils over and touches no others, a format that accepts every prefix,
  -- and a reader that delivers the bytes `ys` in pieces of any size within so many calls and then
  -- ends or fails, the two loops of `read_from` with that many rounds end: at the end of the input
  -- the sink has got pieces of 1 to 4096 bytes that are `ys` in order, and has finished; at an
  -- error it has been dropped, and the error is returned. All other tendrils keep their bytes.
  pub read_from_lem :
      {m : Mem} (calls : ℕ) (s : S) (owns : Owns) (r : R) (ys : List ℕ) (o : Ending E)
      → Holds s [] owns
      → Delivers read calls r ys o
      → Beside m owns ts xss
      → Returns (Fed Ends ts xss ys o) (read_from sink format read calls s r m)
  unfolding read_from
  read_from_lem calls s owns r ys o h delivers w =
      Returns.then_do (fresh_buffer_lem w) (λ t m' (slack, full, w').
        fill_loop_lem calls m' t s r [] owns slack ys o full tt h delivers w')
