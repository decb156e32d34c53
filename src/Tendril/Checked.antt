-- ===== src/Tendril/Checked.antt =====
-- The public methods of `impl Tendril` in `src/tendril.rs` that check bounds or the format first.
use tendril.Common.{ℕ, ◌||◌, Result, ok, err, List, ltb, ◌==◌, if◌then◌else◌, sub32}
use tendril.Mem.{M, pure, panic, ◌>>=◌}
use tendril.Mem.Util.{unsafe_slice}
use tendril.Fmt.{Format}
use tendril.Tendril.{Tendril, len32, as_byte_slice}
use tendril.Tendril.Edit.{
  from_byte_slice_without_validating, push_bytes_without_validating, unsafe_subtendril,
  unsafe_pop_front, unsafe_pop_back,
}

pub data SubtendrilError : Type 0 where
  out_of_bounds validation_failed : SubtendrilError

-- `Result::unwrap`
abbrev pub unwrap : {A E : Type 0} → Result A E → M A
unwrap (ok a) = pure a
unwrap (err e) = λ m. panic

module _ (format : Format) where
  unfoldable pub try_from_byte_slice : List ℕ → M (Result Tendril (Unit {0}))
  try_from_byte_slice x =
      if format.validate x
      then (do t ← from_byte_slice_without_validating x; pure (ok t))
      else pure (err tt)

  unfoldable pub try_push_bytes : Tendril → List ℕ → M (Tendril × Result (Unit {0}) (Unit {0}))
  try_push_bytes t buf =
      if format.validate buf
      then (do t ← push_bytes_without_validating format t buf; pure (t, ok tt))
      else pure (t, err tt)

  unfoldable pub try_subtendril :
      Tendril → (offset length : ℕ) → M (Tendril × Result Tendril SubtendrilError)
  try_subtendril t offset length =
      if ltb (len32 t) offset || ltb (sub32 (len32 t) offset) length
      then pure (t, err out_of_bounds)
      else (do
        bytes ← as_byte_slice t
        part ← unsafe_slice bytes offset length
        if format.validate_subseq part
            then (do (t, sub) ← unsafe_subtendril t offset length; pure (t, ok sub))
            else pure (t, err validation_failed))

  unfoldable pub subtendril : Tendril → (offset length : ℕ) → M (Tendril × Tendril)
  subtendril t offset length = do
    (t, result) ← try_subtendril t offset length
    sub ← unwrap result
    pure (t, sub)

  unfoldable pub try_pop_front : Tendril → ℕ → M (Tendril × Result (Unit {0}) SubtendrilError)
  try_pop_front t n =
      if n == 0
      then pure (t, ok tt)
      else if ltb (len32 t) n
      then pure (t, err out_of_bounds)
      else (do
        bytes ← as_byte_slice t
        part ← unsafe_slice bytes n (sub32 (len32 t) n)
        if format.validate_suffix part
            then (do t ← unsafe_pop_front t n; pure (t, ok tt))
            else pure (t, err validation_failed))

  unfoldable pub pop_front : Tendril → ℕ → M Tendril
  pop_front t n = do (t, result) ← try_pop_front t n; _ ← unwrap result; pure t

  unfoldable pub try_pop_back : Tendril → ℕ → M (Tendril × Result (Unit {0}) SubtendrilError)
  try_pop_back t n =
      if n == 0
      then pure (t, ok tt)
      else if ltb (len32 t) n
      then pure (t, err out_of_bounds)
      else (do
        bytes ← as_byte_slice t
        part ← unsafe_slice bytes 0 (sub32 (len32 t) n)
        if format.validate_prefix part
            then (do t ← unsafe_pop_back t n; pure (t, ok tt))
            else pure (t, err validation_failed))

  unfoldable pub pop_back : Tendril → ℕ → M Tendril
  pop_back t n = do (t, result) ← try_pop_back t n; _ ← unwrap result; pure t

  -- `try_reinterpret` and `try_reinterpret_view`, `format` being the other format: the tendril is
  -- returned on both branches, and only its type changes.
  unfoldable pub try_reinterpret : Tendril → M (Result Tendril Tendril)
  try_reinterpret t = do
    bytes ← as_byte_slice t
    if format.validate bytes then pure (ok t) else pure (err t)
