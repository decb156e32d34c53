-- ===== src/Tendril/Convert.antt =====
-- The conversions of `src/tendril.rs`: between formats, from and to slices and strings, and with the
-- crate `encoding`, whose encoders and decoders are a parameter: the calls that one makes on its
-- writer, and whether it succeeds.
use tendril.Common.{
  ℕ, ◌-◌, ◌^◌, Bool, Option, none, some, Result, ok, err, List, [], ◌∷◌, if◌then◌else◌, min, as_u32,
}
use tendril.Mem.{M, pure, ◌>>=◌, ◌>>◌}
use tendril.Fmt.{Format}
use tendril.Tendril.{Tendril, as_byte_slice, drop_tendril}
use tendril.Tendril.Edit.{new, reserve}
use tendril.Tendril.Chars.{push_char}
use tendril.Tendril.Extend.{from_slice, push_slice}

-- `as_superset`, `into_superset`, `as_bytes`, `into_bytes`, `reinterpret_without_validating`: only
-- the type changes.
unfoldable pub reinterpret_without_validating : Tendril → Tendril
reinterpret_without_validating t = t

unfoldable pub into_superset : Tendril → Tendril
into_superset t = t

-- `try_as_subset` and `try_into_subset`: the tendril is returned on both branches.
unfoldable pub try_into_subset :
    (revalidate_subset : List ℕ → Bool) → Tendril → M (Result Tendril Tendril)
try_into_subset revalidate_subset t = do
  bytes ← as_byte_slice t
  if revalidate_subset bytes then pure (ok t) else pure (err t)

-- `SubsetOf::revalidate_subset`, which no format overrides
unfoldable pub revalidate_subset : Format → List ℕ → Bool
revalidate_subset sub x = sub.validate x

module _ (format : Format) where
  -- `SliceExt::to_tendril`, `From<&F::Slice>`, `From<String>` and `FromStr`
  unfoldable pub to_tendril : List ℕ → M Tendril
  to_tendril x = from_slice format x

  unfoldable pub from_str : List ℕ → M (Result Tendril (Unit {0}))
  from_str s = do t ← from_slice format s; pure (ok t)

-- `From<Tendril<UTF8, A>> for String` drops the tendril, `From<&Tendril<UTF8, A>>` does not.
unfoldable pub into_string : Tendril → M (List ℕ)
into_string t = do s ← as_byte_slice t; drop_tendril t; pure s

unfoldable pub string_of : Tendril → M (List ℕ)
string_of t = as_byte_slice t

-- A call on an `encoding::ByteWriter` or an `encoding::StringWriter`.
pub data WriterCall : Type 0 where
  write_byte : ℕ → WriterCall
  write_bytes : List ℕ → WriterCall
  write_char : ℕ → WriterCall
  write_str : List ℕ → WriterCall
  writer_hint : ℕ → WriterCall

module _ (format : Format) where
  unfoldable pub written : Tendril → WriterCall → M Tendril
  written t (write_byte b) = push_slice format t (b ∷ [])
  written t (write_bytes v) = push_slice format t v
  written t (write_char c) = push_char format t c
  written t (write_str s) = push_slice format t s
  written t (writer_hint additional) = reserve t (as_u32 (min (2 ^ 32 - 1) additional))

  unfoldable pub all_written : Tendril → List WriterCall → M Tendril
  all_written t [] = pure t
  all_written t (c ∷ cs) = do t ← written t c; all_written t cs

  -- The end of `decode` and of `encode`: on an error the text so far is dropped.
  unfoldable pub finished : {E : Type 0} → Tendril → Option E → M (Result Tendril E)
  finished ret none = pure (ok ret)
  finished ret (some e) = do drop_tendril ret; pure (err e)

  -- `decode` to `UTF8` and `encode` to `Bytes`, `format` being that of the result.
  unfoldable pub decode :
      {E : Type 0}
      → (decode_to : List ℕ → List WriterCall × Option E) → Tendril
      → M (Result Tendril E)
  decode decode_to t = do
    ret ← new
    bytes ← as_byte_slice t
    let (calls, failure) = decode_to bytes
    ret ← all_written ret calls
    finished ret failure
