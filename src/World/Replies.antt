-- ===== src/World/Replies.antt =====
-- What a reader delivers to `read_to_tendril`, whatever the sizes of its buffers.
use tendril.Common.{ℕ, zero, suc, ◌≤◌, ◌<◌, ◌≡◌, Result, ok, err, List, [], ◌∷◌, ◌++◌, length}
use tendril.Tendril.Reading.{Reply, got, interrupted, failed}

-- What comes after the last bytes of a reader.
pub data Ending (E : Type 0) : Type 0 where
  ended : Ending E
  broken : E → Ending E

-- A reply that is right for a buffer of `size` bytes if `ys` and then `o` are to come: `Later` says
-- the same of the replies after it.
abbrev pub Brings :
    {R E : Type 0}
    → (R → List ℕ → Ending E → Type 0)
    → (size : ℕ) → Reply E × R
    → List ℕ
    → Ending E
    → Type 0
Brings Later size (got [], r) ys o = (ys ≡ []) × (o ≡ ended)
Brings Later size (got (b ∷ bs), r) ys o =
    (rest : List ℕ) × (ys ≡ (b ∷ bs) ++ rest) × (length (b ∷ bs) ≤ size) × Later r rest o
Brings Later size (interrupted, r) ys o = Later r ys o
Brings Later size (failed e, r) ys o = (ys ≡ []) × (o ≡ broken e)

module _ {R E : Type 0} (read : R → ℕ → Reply E × R) where
  -- Whatever the sizes of the buffers are, the reader delivers the bytes `ys` in pieces and then
  -- the ending `o`, within so many calls.
  abbrev pub Delivers : (calls : ℕ) → R → List ℕ → Ending E → Type 0
  Delivers zero r ys o = ⊥
  Delivers (suc calls) r ys o =
      (size : ℕ) → 0 < size → Brings (Delivers calls) size (read r size) ys o

-- `read_to_tendril` returns the number of bytes read, or the error.
abbrev pub result_of : {E : Type 0} → ℕ → Ending E → Result ℕ E
result_of n ended = ok n
result_of n (broken e) = err e
