-- ===== src/World/SpliceHeap.antt =====
-- The pieces of `push_bytes_without_validating` of `src/tendril.rs` that go into a buffer with room.
use tendril.Common.{
  ℕ, ◌+◌, ◌-◌, ◌≤◌, ◌<◌, ◌^◌, ◌≡◌, sym, ◌∙◌, ap, subst, some, List, ◌∷◌, ◌++◌, arith, take, drop,
  overwrite, length, length-append, length-take, length-overwrite, take-take, drop-eq-slice,
  sub64_lem,
}
use tendril.Mem.{Block, Mem}
use tendril.Fmt.{Fixup}
use tendril.Tendril.{Tendril, set_len, aux}
use tendril.Tendril.Edit.{splice_heap}
use tendril.World.{Rep, is_inline, is_owned, is_shared, World, IsAddress, IsSized}
use tendril.World.Alone
use tendril.World.Change
use tendril.World.Change.{owned_at, heap_at, put}
use tendril.World.Read.{unsafe_slice_lem, assume_buf-owned, IsSized-le}
use tendril.World.Create.{write_bytes_lem}
use tendril.World.Own.{IsRoomy}
use tendril.World.Returns.{Returns, returned}
use tendril.World.Splice.{spliced, IsFixup, take-overwrite_twice}

-- The block after two writes in a row behind its first `at` bytes.
abbrev written_twice : Block → (at : ℕ) → (i p : List ℕ) → Block
written_twice b at i p = record b { bytes = overwrite (at + length i) p (overwrite at i b.bytes) }

-- An owned tendril after them.
written_twice-Rep :
    {m : Mem} {xs : List ℕ} (a len cap at : ℕ) (b : Block) (i p : List ℕ)
    → IsAddress a
    → m.cell a ≡ some (written_twice b at i p)
    → b.refcount ≡ 1
    → IsSized b cap
    → len ≤ cap
    → xs ≡ take len b.bytes
    → at ≤ len
    → at + length i + length p ≤ cap
    → Rep m (owned_at a (at + length i + length p) cap) (take at xs ++ (i ++ p))
written_twice-Rep {xs} a len cap at b i p adr here one sized fits e low high =
    let inner = length-overwrite at i b.bytes (omega (arith, IsSized-le sized)) in
    is_owned (written_twice b at i p) adr here one
      (record {
        units = sized.units;
        room =
            length-overwrite (at + length i) p (overwrite at i b.bytes)
              (omega (arith, inner, IsSized-le sized))
            ∙ inner
            ∙ sized.room;
        min = sized.min;
        max = sized.max;
      })
      high
      (sym (
        take-overwrite_twice at i p b.bytes (omega (arith, IsSized-le sized))
        ∙ ap (λ l. l ++ (i ++ p)) (sym (ap (take at) e ∙ take-take at len b.bytes low))))

-- The owned tendril with room gets the two writes behind what is kept of it.
splice_owned :
    {m : Mem} {ts : List Tendril} {xs : List ℕ} {xss : List (List ℕ)} {fx : Fixup} {buf : List ℕ}
    (a len cap : ℕ) (b : Block)
    → IsAddress a
    → m.cell a ≡ some b
    → b.refcount ≡ 1
    → IsSized b cap
    → len ≤ cap
    → xs ≡ take len b.bytes
    → length xs ≡ len
    → length (spliced fx xs buf) ≤ cap
    → IsFixup fx xs buf
    → length buf < 2 ^ 32
    → World m (owned_at a len cap ∷ ts) (xs ∷ xss)
    → Returns
        (λ _ m'.
          World m' (owned_at a (length (spliced fx xs buf)) cap ∷ ts) (spliced fx xs buf ∷ xss))
        (splice_heap fx (owned_at a len cap) buf m)
unfolding splice_heap
splice_owned {m} {ts} {xs} {xss} {fx} {buf} a len cap b adr at one sized fits e size high ok lb w =
    rw
      (
        assume_buf-owned a len cap m adr (omega (arith, sized.max)),
        sub64_lem len fx.drop_left (omega (arith, ok.left)) (omega (arith, sized.max)),
        ← size,
        unsafe_slice_lem fx.insert_bytes 0 fx.insert_len m (omega (arith, ok.insert)),
        write_bytes_lem a keep inserted m b at (omega (arith, room, IsSized-le sized)),
        sub64_lem (length buf) fx.drop_right ok.right (omega arith),
        unsafe_slice_lem buf fx.drop_right (length buf - fx.drop_right) m₁
            (omega (arith, ok.right)),
        ← drop-eq-slice fx.drop_right buf,
        write_bytes_lem a (keep + length inserted) pushed m₁ b₁ (Change.update_self _ _ _) (
            omega (
              arith,
              length-overwrite keep inserted b.bytes (omega (arith, room, IsSized-le sized)),
              room,
              IsSized-le sized,
            )),
      )
      (returned (
        subst (λ k. World m₂ (owned_at a k cap ∷ ts) (spliced fx xs buf ∷ xss)) (sym total)
          (Alone.World-of_alone
            (Alone.Apart-put (Alone.Apart-put (Alone.Apart-of_owned b adr at one w) (some b₁))
              (some b₂))
            b₂ there one (omega arith)
            (written_twice-Rep a len cap keep b inserted pushed adr there one sized fits e
              (omega arith) room))))
  where
    keep : ℕ
    keep = length xs - fx.drop_left

    inserted : List ℕ
    inserted = take fx.insert_len fx.insert_bytes

    pushed : List ℕ
    pushed = drop fx.drop_right buf

    total : length (spliced fx xs buf) ≡ keep + length inserted + length pushed
    total =
        length-append (take keep xs) (inserted ++ pushed)
        ∙ omega (arith, length-append inserted pushed, length-take keep xs)

    room : keep + length inserted + length pushed ≤ cap
    room = omega (arith, total, high)

    b₁ : Block
    b₁ = record b { bytes = overwrite keep inserted b.bytes }

    m₁ : Mem
    m₁ = put m a (some b₁)

    b₂ : Block
    b₂ = written_twice b keep inserted pushed

    m₂ : Mem
    m₂ = put m₁ a (some b₂)

    there : m₂.cell a ≡ some b₂
    there = Change.update_self _ _ _

pub splice_heap_lem :
    {m : Mem} {t : Tendril} {ts : List Tendril} {xs : List ℕ} {xss : List (List ℕ)} {fx : Fixup}
    {buf : List ℕ}
    → Rep m t xs
    → IsRoomy (length (spliced fx xs buf)) t
    → IsFixup fx xs buf
    → length buf < 2 ^ 32
    → World m (t ∷ ts) (xs ∷ xss)
    → Returns
        (λ _ m'. World m' (set_len t (length (spliced fx xs buf)) ∷ ts) (spliced fx xs buf ∷ xss))
        (splice_heap fx t buf m)
unfolding set_len aux
splice_heap_lem (is_inline tag size e) roomy ok lb w = absurd (omega arith)
splice_heap_lem (is_owned {a} {len} {cap} b adr at one sized fits e) roomy ok lb w =
    splice_owned a len cap b adr at one sized fits e
      (rw e (omega (arith, length-take len b.bytes, IsSized-le sized))) roomy.2 ok lb w
splice_heap_lem (is_shared b adr tag at sized fits e) roomy ok lb w = absurd (omega arith)
