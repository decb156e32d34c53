-- ===== src/World/Uninitialized.antt =====
-- `push_uninitialized` of `src/tendril.rs`.
use tendril.Common.{
  ℕ, ◌+◌, ◌≤◌, ◌^◌, ◌≡◌, refl, sym, ◌∙◌, ap, subst, inl, inr, ◌&&◌, List, ◌∷◌, ◌++◌, arith, leb,
  Bool-cases, length, length-take, length-drop, take, take-take, drop, take-append-drop,
  checked_add32_lem,
}
use tendril.Mem.{Mem}
use tendril.Tendril.{Tendril, inline, inline_tag, set_len, aux}
use tendril.Tendril.Edit.{push_uninitialized}
use tendril.World.{Rep, IsTag, is_inline, is_owned, is_shared, World}
use tendril.World.Change
use tendril.World.Change.{heap_at}
use tendril.World.Read.{len32_lem, IsSized-le}
use tendril.World.Create.{inline_tag-IsTag}
use tendril.World.Cut.{set_len_lem}
use tendril.World.Own.{IsRoomy, make_owned_with_capacity_lem}
use tendril.World.Returns
use tendril.World.Returns.{Returns, returned}

-- The bytes are followed by as many as were asked for, whatever they are.
abbrev pub Longer : Mem → Tendril → List Tendril → List ℕ → List (List ℕ) → ℕ → Type 0
Longer m t ts xs xss n =
    (fresh : List ℕ) × (length fresh ≡ n) × World m (t ∷ ts) ((xs ++ fresh) ∷ xss)

-- A longer part of the same bytes.
longer :
    (m : Mem) (t : Tendril) (ts : List Tendril) (xss : List (List ℕ)) (xs bs : List ℕ) (k n : ℕ)
    → xs ≡ take k bs
    → k + n ≤ length bs
    → World m (t ∷ ts) (take (k + n) bs ∷ xss)
    → Longer m t ts xs xss n
longer m t ts xss xs bs k n e fits w = (
  drop k (take (k + n) bs),
  omega (arith, length-drop k (take (k + n) bs), length-take (k + n) bs, fits),
  subst (λ l. World m (t ∷ ts) (l ∷ xss)) parts w,
)
  where
    parts : take (k + n) bs ≡ xs ++ drop k (take (k + n) bs)
    parts =
        sym (take-append-drop k (take (k + n) bs))
        ∙ ap (λ l. l ++ drop k (take (k + n) bs)) (take-take k (k + n) bs (omega arith) ∙ sym e)

aux-owned : (a len cap : ℕ) → aux (heap_at a len cap) ≡ cap
unfolding aux
aux-owned a len cap = refl

set-Longer :
    {m : Mem} {t : Tendril} {ts : List Tendril} {xs : List ℕ} {xss : List (List ℕ)} (n : ℕ)
    → Rep m t xs
    → IsRoomy (length xs + n) t
    → World m (t ∷ ts) (xs ∷ xss)
    → Longer m (set_len t (length xs + n)) ts xs xss n
set-Longer n (is_inline tag size e) roomy w = absurd (omega (arith, roomy.0))
set-Longer {m} {ts} {xs} {xss} n (is_owned {a} {len} {cap} b adr at one sized fits e) roomy w =
    let room = IsSized-le sized in
    let size : length xs ≡ len = ap length e ∙ omega (arith, length-take len b.bytes, room) in
    let enough : length xs + n ≤ cap = omega (arith, roomy.2, aux-owned a len cap) in
    rw (set_len_lem, aux-owned a len cap)
      (longer m (heap_at a (length xs + n) cap) ts xss xs b.bytes (length xs) n
        (e ∙ ap (λ k. take k b.bytes) (sym size)) (omega (arith, enough, room))
        (Change.World-resize refl (is_owned b adr at one sized enough refl) w))
set-Longer n (is_shared b adr tag at sized fits e) roomy w = absurd (omega (arith, roomy.1))

tag_small : {p n : ℕ} → IsTag p n → p ≤ 15
tag_small tag = ground arith

-- An inline tendril that stays one has its tag changed.
inline-Longer :
    {m : Mem} {t : Tendril} {ts : List Tendril} {xs : List ℕ} {xss : List (List ℕ)} (n : ℕ)
    → Rep m t xs
    → length xs + n ≤ 8
    → t.ptr ≤ 15
    → World m (t ∷ ts) (xs ∷ xss)
    → Longer m (record t { ptr = inline_tag (length xs + n) }) ts xs xss n
inline-Longer {m} {ts} {xs} {xss} n (is_inline {n = k} {bs} tag size e) short small w =
    let count : length xs ≡ k = ap length e ∙ ground (arith, length-take k bs) in
    longer m (record { ptr = inline_tag (length xs + n); buf = inline bs }) ts xss xs bs (length xs)
      n (e ∙ ap (λ k. take k bs) (sym count)) (omega arith)
      (Change.World-cons_inline (tag_small (inline_tag-IsTag (length xs + n) short))
        (is_inline {n = length xs + n} (inline_tag-IsTag (length xs + n) short) size refl)
        (Change.World-inline small w))
inline-Longer n (is_owned b adr at one sized fits e) short small w = absurd (omega arith)
inline-Longer n (is_shared b adr tag at sized fits e) short small w = absurd (omega arith)

-- In a memory where every live tendril stands for its bytes and every header counts the tendrils
-- that point to it, and for a total of at most 2^31 bytes, `push_uninitialized` returns: the
-- receiver keeps its bytes and has `n` unspecified ones behind them, and no other tendril changes.
pub push_uninitialized_lem :
    {m : Mem} {t : Tendril} {ts : List Tendril} {xs : List ℕ} {xss : List (List ℕ)} (n : ℕ)
    → length xs + n ≤ 2 ^ 31
    → World m (t ∷ ts) (xs ∷ xss)
    → Returns (λ t' m'. Longer m' t' ts xs xss n) (push_uninitialized t n m)
unfolding push_uninitialized
push_uninitialized_lem {t} {xs} n bound w =
    rw (len32_lem w.reps.0, checked_add32_lem (length xs) n (omega arith))
      (elim (Bool-cases (leb (length xs + n) 8 && leb t.ptr 15)) [
        | inl small ↦ rw small (returned (inline-Longer n w.reps.0 (ground arith) (ground arith) w))
        | inr large ↦ rw large (
            Returns.then_do (make_owned_with_capacity_lem (length xs + n) bound w)
              (λ t' m' (w', roomy). returned (set-Longer n w'.reps.0 roomy w')))
      ])
