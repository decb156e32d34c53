-- ===== src/World/Shuffle.antt =====
-- The order of the live tendrils does not matter; with it `Extend` over references to tendrils of
-- `src/tendril.rs`, which may name one tendril many times.
use tendril.Common.{
  ℕ, ◌+◌, ◌≤◌, ◌^◌, ◌≡◌, refl, sym, ◌∙◌, List, [], ◌∷◌, ◌++◌, append-nil, append_assoc, arith,
  length, length-append,
}
use tendril.Mem.{Mem}
use tendril.Fmt.{Format}
use tendril.Tendril.{Tendril}
use tendril.Tendril.Edit.{push_tendril}
use tendril.Tendril.Extend.{extend_tendrils}
use tendril.World.{Reps, refs, World}
use tendril.World.Join.{push_tendril_lem}
use tendril.World.Extend.{IsPlain, concat}
use tendril.World.Returns
use tendril.World.Returns.{Returns, returned}

-- One list of tendrils with their bytes in another order.
pub data Shuffle : List Tendril → List (List ℕ) → List Tendril → List (List ℕ) → Type 0 where
  same : {ts : List Tendril} {xss : List (List ℕ)} → Shuffle ts xss ts xss
  keep :
      {t : Tendril} {ts us : List Tendril} {x : List ℕ} {xss yss : List (List ℕ)}
      → Shuffle ts xss us yss
      → Shuffle (t ∷ ts) (x ∷ xss) (t ∷ us) (x ∷ yss)
  swap :
      {t u : Tendril} {ts : List Tendril} {x y : List ℕ} {xss : List (List ℕ)}
      → Shuffle (t ∷ u ∷ ts) (x ∷ y ∷ xss) (u ∷ t ∷ ts) (y ∷ x ∷ xss)
  next :
      {ts us vs : List Tendril} {xss yss zss : List (List ℕ)}
      → Shuffle ts xss us yss
      → Shuffle us yss vs zss
      → Shuffle ts xss vs zss

pub back :
    {ts us : List Tendril} {xss yss : List (List ℕ)} → Shuffle ts xss us yss → Shuffle us yss ts xss
back same = same
back (keep s) = keep (back s)
back swap = swap
back (next s r) = next (back r) (back s)

module _ (t : Tendril) (ts : List Tendril) (x : List ℕ) (xss : List (List ℕ)) where
  -- One tendril moves in front of others.
  pub to_front :
      (us : List Tendril) (yss : List (List ℕ))
      → length us ≡ length yss
      → Shuffle (us ++ (t ∷ ts)) (yss ++ (x ∷ xss)) (t ∷ us ++ ts) (x ∷ yss ++ xss)
  to_front [] [] h = same
  to_front [] (y ∷ yss) h = absurd (omega arith)
  to_front (u ∷ us) [] h = absurd (omega arith)
  to_front (u ∷ us) (y ∷ yss) h = next (keep (to_front us yss (omega arith))) swap

-- Two runs of tendrils change places, with one between them.
pub exchange :
    (t : Tendril) (ts : List Tendril) (x : List ℕ) (xss : List (List ℕ)) (us vs : List Tendril)
    (yss zss : List (List ℕ))
    → length us ≡ length yss
    → length vs ≡ length zss
    → Shuffle
        (us ++ (t ∷ vs ++ ts))
        (yss ++ (x ∷ zss ++ xss))
        ((vs ++ (t ∷ us)) ++ ts)
        ((zss ++ (x ∷ yss)) ++ xss)
exchange t ts x xss us [] yss [] h k = to_front t ts x xss us yss h
exchange t ts x xss us [] yss (z ∷ zss) h k = absurd (omega arith)
exchange t ts x xss us (v ∷ vs) yss [] h k = absurd (omega arith)
exchange t ts x xss us (v ∷ vs) yss (z ∷ zss) h k =
    let first = to_front t (v ∷ vs ++ ts) x (z ∷ zss ++ xss) us yss h in
    let second = to_front v (vs ++ ts) z (zss ++ xss) us yss h in
    let third = back (to_front t (vs ++ ts) x (zss ++ xss) us yss h) in
    next first (
      next (keep second)
        (next swap (keep (next third (exchange t ts x xss us vs yss zss h (omega arith))))))

refs-Shuffle :
    {ts us : List Tendril} {xss yss : List (List ℕ)} (a : ℕ)
    → Shuffle ts xss us yss
    → refs a ts ≡ refs a us
refs-Shuffle a same = refl
refs-Shuffle a (keep s) = omega (arith, refs-Shuffle a s)
refs-Shuffle a swap = omega arith
refs-Shuffle a (next s r) = refs-Shuffle a s ∙ refs-Shuffle a r

Reps-Shuffle :
    (m : Mem) {ts us : List Tendril} {xss yss : List (List ℕ)}
    → Shuffle ts xss us yss
    → Reps m ts xss
    → Reps m us yss
Reps-Shuffle m same r = r
Reps-Shuffle m (keep s) r = (r.0, Reps-Shuffle m s r.1)
Reps-Shuffle m swap r = (r.1.0, (r.0, r.1.1))
Reps-Shuffle m (next s q) r = Reps-Shuffle m q (Reps-Shuffle m s r)

pub World-Shuffle :
    {m : Mem} {ts us : List Tendril} {xss yss : List (List ℕ)}
    → Shuffle ts xss us yss
    → World m ts xss
    → World m us yss
World-Shuffle {m} s w = record {
  fresh = w.fresh;
  reps = Reps-Shuffle m s w.reps;
  counts = λ a. sym (refs-Shuffle a s) ∙ w.counts a;
  live = w.live;
}

-- A live tendril, among the others.
pub data In (t : Tendril) (xs : List ℕ) : List Tendril → List (List ℕ) → Type 0 where
  here : {ts : List Tendril} {xss : List (List ℕ)} → In t xs (t ∷ ts) (xs ∷ xss)
  there :
      {u : Tendril} {ts : List Tendril} {ys : List ℕ} {xss : List (List ℕ)}
      → In t xs ts xss
      → In t xs (u ∷ ts) (ys ∷ xss)

record Front (t : Tendril) (xs : List ℕ) (ts : List Tendril) (xss : List (List ℕ)) : Type 0 where
  pub others : List Tendril
  pub bytes : List (List ℕ)
  pub order : Shuffle ts xss (t ∷ others) (xs ∷ bytes)

Front-of_In :
    {t : Tendril} {xs : List ℕ} {ts : List Tendril} {xss : List (List ℕ)}
    → In t xs ts xss
    → Front t xs ts xss
Front-of_In here = record { others = _; bytes = _; order = same }
Front-of_In (there {u} {ys = ys} i) =
    let f = Front-of_In i in
    record { others = u ∷ f.others; bytes = ys ∷ f.bytes; order = next (keep f.order) swap }

-- A push of any live tendril.
pub push_tendril-In :
    {m : Mem} {t other : Tendril} {ts : List Tendril} {xs ys : List ℕ} {xss : List (List ℕ)}
    (format : Format)
    → IsPlain format
    → length xs + length ys ≤ 2 ^ 31
    → In other ys ts xss
    → World m (t ∷ ts) (xs ∷ xss)
    → Returns (λ t' m'. World m' (t' ∷ ts) ((xs ++ ys) ∷ xss)) (push_tendril format t other m)
push_tendril-In {xs} {ys} format plain bound i w =
    let f = Front-of_In i in
    Returns.weaken (push_tendril_lem format (plain xs ys) bound (World-Shuffle (keep f.order) w))
      (λ t' m' w'. World-Shuffle (keep (back f.order)) w')

pub data AllIn (ts : List Tendril) (xss : List (List ℕ))
    : List Tendril → List (List ℕ) → Type 0 where
  none_left : AllIn ts xss [] []
  and_in :
      {u : Tendril} {us : List Tendril} {ys : List ℕ} {yss : List (List ℕ)}
      → In u ys ts xss
      → AllIn ts xss us yss
      → AllIn ts xss (u ∷ us) (ys ∷ yss)

-- In a memory where every live tendril stands for its bytes and every header counts the tendrils
-- that point to it, `extend` with references to live tendrils, which may repeat, appends their
-- bytes in order and changes no other tendril, for a format without fixups and a total of at most
-- 2^31 bytes.
pub extend_tendrils_lem :
    {ts : List Tendril} {xss : List (List ℕ)} {m : Mem} {t : Tendril} {us : List Tendril}
    {xs : List ℕ} {yss : List (List ℕ)} (format : Format)
    → IsPlain format
    → AllIn ts xss us yss
    → length xs + length (concat yss) ≤ 2 ^ 31
    → World m (t ∷ ts) (xs ∷ xss)
    → Returns
        (λ t' m'. World m' (t' ∷ ts) ((xs ++ concat yss) ∷ xss))
        (extend_tendrils format t us m)
unfolding extend_tendrils
extend_tendrils_lem format plain none_left bound w = rw append-nil (returned w)
extend_tendrils_lem {xs} format plain (and_in {ys} {yss} i all) bound w =
    let size = length-append ys (concat yss) in
    Returns.then_do (push_tendril-In format plain (omega (arith, bound, size)) i w) (λ t' m' w'.
      rw (← append_assoc xs ys (concat yss))
        (extend_tendrils_lem format plain all (omega (arith, bound, size, length-append xs ys)) w'))
