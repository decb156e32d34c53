-- ===== src/World/Send.antt =====
-- `SendTendril` of `src/tendril.rs`: nobody else holds the buffer of one that was just made, until
-- it is cloned.
use tendril.Common.{ℕ, ◌+◌, ◌%◌, ◌<◌, ◌^◌, ◌≡◌, subst, List, [], ◌∷◌, arith, length}
use tendril.Mem.{Mem}
use tendril.Tendril.{Tendril, clear_low_bit}
use tendril.Tendril.Send.{SendTendril, send, receive, send_clone}
use tendril.World.{refs, World, is_owned, is_shared, is_inline, Rep}
use tendril.World.Share.{clone-shared}
use tendril.World.Reserve.{into_send_lem}
use tendril.World.Returns
use tendril.World.Returns.{Returns, returned}

alone :
    {m : Mem} {t : Tendril} {ts : List Tendril} {xs : List ℕ} {xss : List (List ℕ)}
    → Rep m t xs
    → 15 < t.ptr
    → t.ptr % 2 ≡ 0
    → World m (t ∷ ts) (xs ∷ xss)
    → refs (clear_low_bit t.ptr) ts ≡ 0
alone (is_inline tag size e) big even w = absurd (omega arith)
alone {m} {ts} (is_owned {a} b adr at one sized fits e) big even w =
    let alone_there : refs a ts ≡ 0 = ground (arith, at, one, w.counts a) in
    subst (λ p. refs p ts ≡ 0) (omega arith) alone_there
alone (is_shared b adr tag at sized fits e) big even w = absurd (omega arith)

-- In a memory where every live tendril stands for its bytes and every header counts the tendrils
-- that point to it, the conversion to a `SendTendril` keeps the bytes; the result has a buffer, its
-- pointer has no shared bit, and no other live tendril points to that buffer. No other tendril
-- changes.
pub send_lem :
    {m : Mem} {t : Tendril} {ts : List Tendril} {xs : List ℕ} {xss : List (List ℕ)}
    → World m (t ∷ ts) (xs ∷ xss)
    → Returns
        (λ s m'.
          World m' (receive s ∷ ts) (xs ∷ xss)
          × (15 < (receive s).ptr)
          × ((receive s).ptr % 2 ≡ 0)
          × (refs (clear_low_bit (receive s).ptr) ts ≡ 0))
        (send t m)
unfolding send receive
send_lem w =
    Returns.then_do (into_send_lem w)
      (λ t' m' (w', big, even). returned (w', big, even, alone w'.reps.0 big even w'))

-- In a memory where every live tendril stands for its bytes and every header counts the tendrils
-- that point to it, and with fewer than 2^64 - 2 other tendrils, the derived `Clone` of a
-- `SendTendril` with a buffer leaves the original and the copy standing for the same bytes, and
-- both point to one and the same buffer.
pub send_clone-shared :
    {m : Mem} (s : SendTendril) {ts : List Tendril} {xs : List ℕ} {xss : List (List ℕ)}
    → 15 < (receive s).ptr
    → length ts + 2 < 2 ^ 64
    → World m (receive s ∷ ts) (xs ∷ xss)
    → Returns
        (λ (s', copy) m'.
          World m' (receive s' ∷ receive copy ∷ ts) (xs ∷ xs ∷ xss)
          × (refs (clear_low_bit (receive s').ptr) (receive s' ∷ []) ≡ 1)
          × (refs (clear_low_bit (receive s').ptr) (receive copy ∷ []) ≡ 1))
        (send_clone s m)
unfolding send_clone receive
send_clone-shared s big few w =
    Returns.then_do (clone-shared big few w) (λ (t', copy) m' (w', e, large).
      returned (w', ground (arith, e, large), ground (arith, e, large)))
