-- ===== src/Tests/Reading.antt =====
-- Readers and a sink, and the theorems on them at the memory of `Tests.Memory`.
use tendril.Common.{
  ℕ, ◌≡◌, refl, ap, subst, true, List, [], ◌∷◌, ◌++◌, append_assoc, arith, length, length-append,
}
use tendril.Mem.{Mem, M, pure, ◌>>◌}
use tendril.Fmt.{bytes}
use tendril.Tendril.{Tendril, drop_tendril}
use tendril.Tendril.Reading.{Reply, got, interrupted, read_to_tendril}
use tendril.World.{World}
use tendril.World.Drop.{drop_tendril_lem}
use tendril.World.Shuffle.{World-Shuffle, to_front, back}
use tendril.World.Replies.{ended, Delivers}
use tendril.World.Reading.{Reads, read_to_tendril_lem}
use tendril.World.Returns
use tendril.World.Returns.{Returns, returned}
use tendril.Stream.Sinks.{TendrilSink, read_from}
use tendril.Stream.Sinks.Laws.{Owns, IsSink}
use tendril.Stream.Sinks.Reads.{Fed, read_from_lem}
use tendril.Tests.Memory
use tendril.Tests.Memory.{mem, front_bytes, back_bytes, mem-World}

-- A reader that gives one byte at a time, is interrupted once, and then fails or ends.
abbrev next_reply : List (Reply ℕ) → ℕ → Reply ℕ × List (Reply ℕ)
next_reply [] size = (got [], [])
next_reply (reply ∷ script) size = (reply, script)

abbrev hi : List (Reply ℕ)
hi = got (104 ∷ []) ∷ interrupted ∷ got (105 ∷ []) ∷ []

abbrev hi_bytes : List ℕ
hi_bytes = 104 ∷ 105 ∷ []

hi-Delivers : Delivers next_reply 4 hi hi_bytes ended
hi-Delivers size some_room = (
  105 ∷ [],
  refl,
  omega arith,
  λ size₂ room₂. λ size₃ room₃. ([], refl, omega arith, λ size₄ room₄. (refl, refl)),
)

read_to_tendril_example :
    Returns
      (Reads (Memory.back ∷ []) (back_bytes ∷ []) (front_bytes ++ hi_bytes) 2 ended)
      (read_to_tendril next_reply 4 hi Memory.front mem)
read_to_tendril_example =
    read_to_tendril_lem next_reply 4 hi hi_bytes ended hi-Delivers (omega arith) mem-World

-- A sink that keeps what it gets.
abbrev drop_each : List Tendril → M (Unit {0})
drop_each [] = pure tt
drop_each (t ∷ ts) = do drop_tendril t; drop_each ts

abbrev collector : TendrilSink (List Tendril) (List Tendril)
collector = record {
  process = λ s t. pure (s ++ (t ∷ []));
  finish = λ s. pure s;
  discard = drop_each;
}

-- It owns the pieces in their order.
abbrev Keeps : List Tendril → List (List ℕ) → Owns → Type 0
Keeps s cs owns = (owns.tendrils ≡ s) × (owns.texts ≡ cs)

abbrev nothing : Owns
nothing = record { tendrils = []; texts = []; paired = refl }

drop_each_lem :
    {m : Mem} {ts : List Tendril} {xss : List (List ℕ)} (us : List Tendril) (yss : List (List ℕ))
    → length us ≡ length yss
    → World m (us ++ ts) (yss ++ xss)
    → Returns (λ _ m'. World m' ts xss) (drop_each us m)
drop_each_lem [] [] h w = returned w
drop_each_lem [] (y ∷ yss) h w = absurd (omega arith)
drop_each_lem (u ∷ us) [] h w = absurd (omega arith)
drop_each_lem (u ∷ us) (y ∷ yss) h w =
    Returns.then_do (drop_tendril_lem w) (λ _ m' w'. drop_each_lem us yss (omega arith) w')

collector-IsSink : IsSink collector Keeps Keeps
collector-IsSink = record {
  processes = λ m s t cs xs owns ts xss (e, f) w. returned (
    record {
      tendrils = owns.tendrils ++ (t ∷ []);
      texts = owns.texts ++ (xs ∷ []);
      paired = omega (
        arith,
        length-append owns.tendrils (t ∷ []),
        length-append owns.texts (xs ∷ []),
        owns.paired,
      );
    },
    (ap (λ l. l ++ (t ∷ [])) e, ap (λ l. l ++ (xs ∷ [])) f),
    rw (append_assoc owns.tendrils (t ∷ []) ts, append_assoc owns.texts (xs ∷ []) xss)
        (World-Shuffle (back (to_front t ts xs xss owns.tendrils owns.texts owns.paired)) w),
  );
  finishes = λ m s cs owns ts xss h w. returned (owns, h, w);
  discards = λ m s cs owns ts xss (e, f) w.
      subst (λ us. Returns (λ _ m'. World m' ts xss) (drop_each us m)) e
        (drop_each_lem owns.tendrils owns.texts owns.paired w);
}

any_prefix : (xs : List ℕ) → bytes.validate_prefix xs ≡ true
unfolding bytes
any_prefix xs = refl

read_from_example :
    Returns
      (Fed Keeps (Memory.front ∷ Memory.back ∷ []) (front_bytes ∷ back_bytes ∷ []) hi_bytes ended)
      (read_from collector bytes next_reply 4 [] hi mem)
read_from_example =
    read_from_lem collector-IsSink bytes any_prefix next_reply (Memory.front ∷ Memory.back ∷ [])
      (front_bytes ∷ back_bytes ∷ []) 4 [] nothing hi hi_bytes ended (refl, refl) hi-Delivers
      mem-World
