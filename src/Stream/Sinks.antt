-- ===== src/Stream/Sinks.antt =====
-- The methods that `trait TendrilSink` of `src/stream.rs` provides, for any sink: `from_iter` and
-- `read_from`.
pub mod Laws
pub mod Reads
use tendril.Common.{
  ℕ, zero, suc, ◌*◌, Option, none, some, Result, ok, err, List, [], ◌∷◌, length, as_u32, sub32,
}
use tendril.Mem.{M, pure, ◌>>=◌, ◌>>◌}
use tendril.Fmt.{Format}
use tendril.Tendril.{Tendril, drop_tendril}
use tendril.Tendril.Edit.{new, push_uninitialized}
use tendril.Tendril.Checked.{pop_back}
use tendril.Tendril.Views.{as_mut_byte_slice, write_slice}
use tendril.Tendril.Reading.{Reply, got, interrupted, failed}

-- The methods that an implementation of the trait gives, and the drop of a sink.
pub record TendrilSink (S O : Type 0) : Type 0 where
  pub process : S → Tendril → M S
  pub finish : S → M O
  pub discard : S → M (Unit {0})

abbrev pub buffer_size : ℕ
buffer_size = 4 * 1024

-- `new`, and room for a read
unfoldable pub fresh_buffer : M Tendril
fresh_buffer = do t ← new; push_uninitialized t buffer_size

module _ {S O : Type 0} (sink : TendrilSink S O) where
  unfoldable pub from_iter : S → List Tendril → M O
  from_iter s [] = sink.finish s
  from_iter s (t ∷ rest) = do s ← sink.process s t; from_iter s rest

  module _ {R E : Type 0} (format : Format) (read : R → ℕ → Reply E × R) where
    -- What `read_from` does with a reply. The two functions are the rounds that follow: of the
    -- inner loop, and of the outer one, which begins with a new buffer.
    unfoldable pub on_read :
        (again : Tendril → S → R → M (Option (R × Result O E)))
        → (outer : S → R → M (Option (R × Result O E))) → Tendril
        → S
        → Reply E × R
        → M (Option (R × Result O E))
    on_read again outer t s (got [], r) = do
      out ← sink.finish s
      drop_tendril t
      pure (some (r, ok out))
    on_read again outer t s (got (b ∷ bs), r) = do
      t ← write_slice t 0 (b ∷ bs)
      t ← pop_back format t (sub32 buffer_size (as_u32 (length (b ∷ bs))))
      s ← sink.process s t
      outer s r
    on_read again outer t s (interrupted, r) = again t s r
    on_read again outer t s (failed e, r) = do
      drop_tendril t
      sink.discard s
      pure (some (r, err e))

    -- The inner loop, in the buffer `t`, with at most `rounds` reads in both loops.
    unfoldable pub fill_loop : (rounds : ℕ) → Tendril → S → R → M (Option (R × Result O E))
    fill_loop zero t s r = pure none
    fill_loop (suc rounds) t s r = do
      (t, slice) ← as_mut_byte_slice t
      on_read (fill_loop rounds) (λ s r. do t ← fresh_buffer; fill_loop rounds t s r) t s
          (read r (length slice))

    unfoldable pub read_from : (rounds : ℕ) → S → R → M (Option (R × Result O E))
    read_from rounds s r = do t ← fresh_buffer; fill_loop rounds t s r
