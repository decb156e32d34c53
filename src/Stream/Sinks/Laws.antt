-- ===== src/Stream/Sinks/Laws.antt =====
-- The contract of a sink of `src/stream.rs`, and `from_iter` of one that keeps it.
use tendril.Common.{ℕ, ◌≡◌, List, [], ◌∷◌, ◌++◌, append-nil, append_assoc, arith, length}
use tendril.Mem.{Mem}
use tendril.Tendril.{Tendril}
use tendril.World.{World}
use tendril.World.Shuffle.{World-Shuffle, to_front, back}
use tendril.World.Returns
use tendril.World.Returns.{Returns, returned}
use tendril.Stream.Sinks.{TendrilSink, from_iter}

-- What a sink owns: some tendrils with their bytes.
pub record Owns : Type 0 where
  pub tendrils : List Tendril
  pub texts : List (List ℕ)
  pub paired : length tendrils ≡ length texts

-- The tendrils of a sink beside all others.
abbrev pub Beside : Mem → Owns → List Tendril → List (List ℕ) → Type 0
Beside m owns ts xss = World m (owns.tendrils ++ ts) (owns.texts ++ xss)

-- The contract of a sink that got the pieces `cs`: it takes a tendril over, gives its own up when it
-- is dropped, and touches no other one. `Holds` and `Ends` say what it owns before and after
-- `finish`.
pub record IsSink {S O : Type 0} (sink : TendrilSink S O)
    (Holds : S → List (List ℕ) → Owns → Type 0) (Ends : O → List (List ℕ) → Owns → Type 0)
    : Type 0 where
  pub processes :
      (m : Mem) (s : S) (t : Tendril) (cs : List (List ℕ)) (xs : List ℕ) (owns : Owns)
      (ts : List Tendril) (xss : List (List ℕ))
      → Holds s cs owns
      → World m (t ∷ owns.tendrils ++ ts) (xs ∷ owns.texts ++ xss)
      → Returns
          (λ s' m'. (owns' : Owns) × Holds s' (cs ++ (xs ∷ [])) owns' × Beside m' owns' ts xss)
          (sink.process s t m)
  pub finishes :
      (m : Mem) (s : S) (cs : List (List ℕ)) (owns : Owns) (ts : List Tendril) (xss : List (List ℕ))
      → Holds s cs owns
      → Beside m owns ts xss
      → Returns
          (λ out m'. (owns' : Owns) × Ends out cs owns' × Beside m' owns' ts xss)
          (sink.finish s m)
  pub discards :
      (m : Mem) (s : S) (cs : List (List ℕ)) (owns : Owns) (ts : List Tendril) (xss : List (List ℕ))
      → Holds s cs owns
      → Beside m owns ts xss
      → Returns (λ _ m'. World m' ts xss) (sink.discard s m)

module _ {S O : Type 0} {sink : TendrilSink S O} {Holds : S → List (List ℕ) → Owns → Type 0}
    {Ends : O → List (List ℕ) → Owns → Type 0} (laws : IsSink sink Holds Ends) where
  -- A buffer in front of the tendrils of the sink.
  pub behind :
      {m : Mem} {t : Tendril} {xs : List ℕ} (ts : List Tendril) (xss : List (List ℕ)) (owns : Owns)
      → Beside m owns (t ∷ ts) (xs ∷ xss)
      → World m (t ∷ owns.tendrils ++ ts) (xs ∷ owns.texts ++ xss)
  behind {t} {xs} ts xss owns w =
      World-Shuffle (to_front t ts xs xss owns.tendrils owns.texts owns.paired) w

  -- `from_iter` hands all pieces over in order and then finishes.
  pub from_iter_lem :
      {m : Mem} {ts : List Tendril} {xss : List (List ℕ)} (s : S) (cs : List (List ℕ)) (owns : Owns)
      (us : List Tendril) (yss : List (List ℕ))
      → length us ≡ length yss
      → Holds s cs owns
      → World m (owns.tendrils ++ (us ++ ts)) (owns.texts ++ (yss ++ xss))
      → Returns
          (λ out m'. (owns' : Owns) × Ends out (cs ++ yss) owns' × Beside m' owns' ts xss)
          (from_iter sink s us m)
  unfolding from_iter
  from_iter_lem s cs owns [] [] paired h w = rw append-nil (laws.finishes _ s cs owns _ _ h w)
  from_iter_lem s cs owns [] (y ∷ yss) paired h w = absurd (omega arith)
  from_iter_lem s cs owns (u ∷ us) [] paired h w = absurd (omega arith)
  from_iter_lem s cs owns (u ∷ us) (y ∷ yss) paired h w =
      Returns.then_do (laws.processes _ s u cs y owns _ _ h (behind _ _ owns w))
        (λ s' m' (owns', h', w').
          rw (← append_assoc cs (y ∷ []) yss)
            (from_iter_lem s' (cs ++ (y ∷ [])) owns' us yss (omega arith) h' w'))

  -- The buffer goes behind the tendrils of the sink.
  pub ahead :
      {m : Mem} {t : Tendril} {xs : List ℕ} (ts : List Tendril) (xss : List (List ℕ)) (owns : Owns)
      → World m (t ∷ owns.tendrils ++ ts) (xs ∷ owns.texts ++ xss)
      → Beside m owns (t ∷ ts) (xs ∷ xss)
  ahead {t} {xs} ts xss owns w =
      World-Shuffle (back (to_front t ts xs xss owns.tendrils owns.texts owns.paired)) w
