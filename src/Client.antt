-- ===== src/Client.antt =====
-- A program that uses the tendrils of one format of `src/tendril.rs`: a list of calls on the
-- tendrils that it holds, and what it may think that the calls do, which knows nothing of buffers.
pub mod Pull
pub mod Refine
pub mod Leaks
pub mod Valid
use tendril.Common.{
  ℕ, zero, suc, ◌+◌, ◌-◌, ◌≤◌, ◌<◌, ◌^◌, Result, ok, err, List, [], ◌∷◌, ◌++◌, ◌==◌, ◌&&◌, ◌||◌,
  not, ◌≡◌, true, ltb, leb, if◌then◌else◌, length, take, drop, slice, overwrite,
}
use tendril.Mem.{M, pure, ◌>>=◌, ◌>>◌}
use tendril.Fmt.{Format}
use tendril.Tendril.{Tendril, clone, drop_tendril}
use tendril.Tendril.Edit.{clear, reserve, push_tendril}
use tendril.Tendril.Checked.{
  SubtendrilError, try_from_byte_slice, try_push_bytes, try_subtendril, try_pop_front, try_pop_back,
}
use tendril.Tendril.Send.{send, receive}
use tendril.Tendril.Views.{as_mut_byte_slice, write_slice}

-- `focus` brings a tendril to the front; the calls after it are on the one in front, and
-- `push_second` pushes the one behind it.
pub data Call : Type 0 where
  create : List ℕ → Call
  focus : ℕ → Call
  copy : Call
  cut : (offset length : ℕ) → Call
  push : List ℕ → Call
  push_second : Call
  shorten_front shorten_back : ℕ → Call
  empty : Call
  make_room : ℕ → Call
  write : (at : ℕ) → List ℕ → Call
  move_away : Call
  release : Call

module _ {ℓ} {A : Type ℓ} where
  abbrev pub insert_second : A → List A → List A
  insert_second x [] = x ∷ []
  insert_second x (y ∷ ys) = y ∷ x ∷ ys

  -- The `n`th element, in front of the others.
  abbrev pub pull : ℕ → List A → List A
  pull n [] = []
  pull zero (x ∷ xs) = x ∷ xs
  pull (suc n) (x ∷ xs) = insert_second x (pull n xs)

-- The new tendril, where there is one.
abbrev pub with_new : {E : Type 0} → List Tendril → Result Tendril E → List Tendril
with_new ts (ok s) = s ∷ ts
with_new ts (err _) = ts

abbrev pub with_slice : {E : Type 0} → List Tendril → Tendril × Result Tendril E → List Tendril
with_slice ts (t, ok s) = t ∷ s ∷ ts
with_slice ts (t, err _) = t ∷ ts

module _ (format : Format) where
  abbrev pub call : Call → List Tendril → M (List Tendril)
  call (create x) ts = do r ← try_from_byte_slice format x; pure (with_new ts r)
  call (focus n) ts = pure (pull n ts)
  call c [] = pure []
  call copy (t ∷ ts) = do (t, c) ← clone t; pure (t ∷ c ∷ ts)
  call (cut offset length) (t ∷ ts) = do
    r ← try_subtendril format t offset length
    pure (with_slice ts r)
  call (push buf) (t ∷ ts) = do (t, _) ← try_push_bytes format t buf; pure (t ∷ ts)
  call push_second (t ∷ []) = pure (t ∷ [])
  call push_second (t ∷ u ∷ ts) = do t ← push_tendril format t u; pure (t ∷ u ∷ ts)
  call (shorten_front n) (t ∷ ts) = do (t, _) ← try_pop_front format t n; pure (t ∷ ts)
  call (shorten_back n) (t ∷ ts) = do (t, _) ← try_pop_back format t n; pure (t ∷ ts)
  call empty (t ∷ ts) = do t ← clear t; pure (t ∷ ts)
  call (make_room n) (t ∷ ts) = do t ← reserve t n; pure (t ∷ ts)
  call (write at src) (t ∷ ts) = do
    (t, _) ← as_mut_byte_slice t
    t ← write_slice t at src
    pure (t ∷ ts)
  call move_away (t ∷ ts) = do s ← send t; pure (receive s ∷ ts)
  call release (t ∷ ts) = do drop_tendril t; pure ts

  abbrev pub run : List Call → List Tendril → M (List Tendril)
  run [] ts = pure ts
  run (c ∷ cs) ts = do ts ← call c ts; run cs ts

  -- What is left in front of or behind a cut.
  abbrev pub without_front : ℕ → List ℕ → List ℕ
  without_front n xs =
      if ltb (length xs) n
      then xs
      else if (n == 0) || format.validate_suffix (drop n xs)
      then drop n xs
      else xs

  abbrev pub without_back : ℕ → List ℕ → List ℕ
  without_back n xs =
      if ltb (length xs) n
      then xs
      else if (n == 0) || format.validate_prefix (take (length xs - n) xs)
      then take (length xs - n) xs
      else xs

  -- The same calls on byte strings.
  abbrev pub effect : Call → List (List ℕ) → List (List ℕ)
  effect (create x) xss = if format.validate x then x ∷ xss else xss
  effect (focus n) xss = pull n xss
  effect c [] = []
  effect copy (xs ∷ xss) = xs ∷ xs ∷ xss
  effect (cut offset n) (xs ∷ xss) =
      if ltb (length xs) (offset + n)
      then xs ∷ xss
      else if format.validate_subseq (slice offset n xs)
      then xs ∷ slice offset n xs ∷ xss
      else xs ∷ xss
  effect (push buf) (xs ∷ xss) = (if format.validate buf then xs ++ buf else xs) ∷ xss
  effect push_second (xs ∷ []) = xs ∷ []
  effect push_second (xs ∷ ys ∷ xss) = (xs ++ ys) ∷ ys ∷ xss
  effect (shorten_front n) (xs ∷ xss) = without_front n xs ∷ xss
  effect (shorten_back n) (xs ∷ xss) = without_back n xs ∷ xss
  effect empty (xs ∷ xss) = [] ∷ xss
  effect (make_room n) (xs ∷ xss) = xs ∷ xss
  effect (write at src) (xs ∷ xss) = overwrite at src xs ∷ xss
  effect move_away (xs ∷ xss) = xs ∷ xss
  effect release (xs ∷ xss) = xss

  abbrev pub effects : List Call → List (List ℕ) → List (List ℕ)
  effects [] xss = xss
  effects (c ∷ cs) xss = effects cs (effect c xss)

  -- What a caller has to see to: the sizes and the number of tendrils, and a store inside the bytes
  -- that keeps the format.
  abbrev pub IsAllowed : Call → List (List ℕ) → Type 0
  IsAllowed (create x) xss = length x < 2 ^ 32
  IsAllowed copy xss = length xss + 1 < 2 ^ 64
  IsAllowed (cut offset n) xss = length xss + 1 < 2 ^ 64
  IsAllowed (push buf) (xs ∷ xss) = length xs + length buf ≤ 2 ^ 31
  IsAllowed push_second (xs ∷ ys ∷ xss) = length xs + length ys ≤ 2 ^ 31
  IsAllowed (make_room n) (xs ∷ xss) = length xs + n ≤ 2 ^ 31
  IsAllowed (write at src) (xs ∷ xss) =
      (at + length src ≤ length xs) × (format.validate (overwrite at src xs) ≡ true)
  IsAllowed c xss = Unit {0}

  abbrev pub AreAllowed : List Call → List (List ℕ) → Type 0
  AreAllowed [] xss = Unit {0}
  AreAllowed (c ∷ cs) xss = IsAllowed c xss × AreAllowed cs (effect c xss)
