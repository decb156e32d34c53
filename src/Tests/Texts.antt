-- ===== src/Tests/Texts.antt =====
-- The theorems on text, on decoding and on the C interface at the memory of `Tests.Memory`.
use tendril.Common.{
  ℕ, zero, suc, as_u32, ◌+◌, ◌-◌, ◌%◌, ◌≤◌, ◌<◌, ◌^◌, ◌≡◌, refl, Bool, true, false, none, some,
  List, [], ◌∷◌, ◌++◌, arith, leb, length, take, drop, slice,
}
use tendril.Mem.{done, panic}
use tendril.Buf32.{grow}
use tendril.Buf32.Growth.{grow-panic}
use tendril.Fmt.{bytes}
use tendril.Fmt.Utf8.{encode_utf8}
use tendril.Fmt.Utf8.Text.{encode_all, AreScalars}
use tendril.Fmt.Unicode.{Classify, lead_surrogate, trail_surrogate, utf8, wtf8}
use tendril.Tendril.{as_byte_slice, clear_low_bit}
use tendril.Tendril.Edit.{push_bytes_without_validating}
use tendril.Tendril.Chars.{utf8_chars, pop_front_char_run}
use tendril.Tendril.Extend.{extend_chars}
use tendril.Tendril.Send.{SendTendril, send, receive, send_clone}
use tendril.World.{World, refs}
use tendril.World.Returns.{Returns}
use tendril.World.Share.{View, View-of_Rep}
use tendril.World.Runs.{PopRun, pop_front_char_run_lem}
use tendril.World.Chars.{extend_chars_lem}
use tendril.World.Extend.{IsPlain}
use tendril.World.Shuffle.{AllIn, none_left, and_in, here}
use tendril.World.Surrogates.{joined, EndsInLead, BeginsWithTrail, push_surrogates_lem}
use tendril.World.Send.{send_lem, send_clone-shared}
use tendril.Capi.{tendril_bytes}
use tendril.Capi.Laws.{tendril_bytes_lem}
use tendril.Tests.Memory.{mem, front, back, front_bytes, back_bytes, mem-World}

-- No code points are known; the methods on `UTF8` here do not ask.
abbrev no_classify : Classify
no_classify buf i = none

text-World : World mem (front ∷ back ∷ []) (encode_all front_bytes ∷ back_bytes ∷ [])
unfolding encode_utf8
text-World = mem-World

front-AreScalars : AreScalars front_bytes
front-AreScalars = ground arith

abbrev two_chars : List ℕ
two_chars = 0x20AC ∷ 0x41 ∷ []

two-AreScalars : AreScalars two_chars
two-AreScalars = ground arith

abbrev same_bool : Bool → Bool → Bool
same_bool true b = b
same_bool false true = false
same_bool false false = true

abbrev is_digit : ℕ → Bool
is_digit c = leb c 57

pop_front_char_run_example :
    Returns
      (PopRun same_bool is_digit (back ∷ []) (back_bytes ∷ []) front_bytes)
      (pop_front_char_run (utf8_chars (utf8 no_classify)) same_bool is_digit front mem)
pop_front_char_run_example =
    pop_front_char_run_lem no_classify same_bool is_digit front_bytes front-AreScalars (omega arith)
      text-World

text-encoded : length (encode_all front_bytes) + length (encode_all two_chars) + 4 ≤ 2 ^ 31
unfolding encode_utf8
text-encoded = omega arith

hinted : length (encode_all front_bytes) + as_u32 2 ≤ 2 ^ 31
unfolding encode_utf8 as_u32
hinted = omega arith

extend_chars_example :
    Returns
      (λ t' m'. World m' (t' ∷ back ∷ []) (encode_all (front_bytes ++ two_chars) ∷ back_bytes ∷ []))
      (extend_chars (utf8 no_classify) front 2 two_chars mem)
extend_chars_example =
    extend_chars_lem no_classify 2 front_bytes two_chars hinted text-encoded text-World

bytes-IsPlain : IsPlain bytes
unfolding bytes
bytes-IsPlain old buf = refl

abbrev text : List ℕ
text = 120 ∷ 121 ∷ 122 ∷ []

-- The same tendril twice.
abbrev both : AllIn (back ∷ []) (back_bytes ∷ []) (back ∷ back ∷ []) (back_bytes ∷ back_bytes ∷ [])
both = and_in here (and_in here none_left)

-- A trail surrogate at the start, and a lead surrogate elsewhere.
abbrev surrogates : Classify
surrogates buf zero = some (record { bytes = []; meaning = trail_surrogate 2 })
surrogates buf (suc i) = some (record { bytes = []; meaning = lead_surrogate 1 })

lead : EndsInLead surrogates 1 front_bytes
lead = record { size = omega arith; code = _; at = refl; lead = refl; range = omega arith }

trail : BeginsWithTrail surrogates 2 text
trail = record { size = omega arith; code = _; at = refl; trail = refl; range = omega arith }

push_surrogates_example :
    Returns
      (λ t' m'. World m' (t' ∷ back ∷ []) (
        (take (length front_bytes - 3) front_bytes ++ (encode_utf8 (joined 1 2) ++ drop 3 text))
        ∷ back_bytes
        ∷ []))
      (push_bytes_without_validating (wtf8 surrogates) front text mem)
push_surrogates_example =
    push_surrogates_lem surrogates 1 2 front_bytes text lead trail (omega arith) mem-World

send_example :
    Returns
      (λ s m'.
        World m' (receive s ∷ back ∷ []) (front_bytes ∷ back_bytes ∷ [])
        × (15 < (receive s).ptr)
        × ((receive s).ptr % 2 ≡ 0)
        × (refs (clear_low_bit (receive s).ptr) (back ∷ []) ≡ 0))
      (send front mem)
send_example = send_lem mem-World

abbrev sent : SendTendril
sent = record { tendril = front }

big_sent : 15 < (receive sent).ptr
unfolding receive
big_sent = omega arith

sent-World : World mem (receive sent ∷ back ∷ []) (front_bytes ∷ back_bytes ∷ [])
unfolding receive
sent-World = mem-World

send_clone-shared_example :
    Returns
      (λ (s', copy) m'.
        World m'
          (receive s' ∷ receive copy ∷ back ∷ [])
          (front_bytes ∷ front_bytes ∷ back_bytes ∷ [])
        × (refs (clear_low_bit (receive s').ptr) (receive s' ∷ []) ≡ 1)
        × (refs (clear_low_bit (receive s').ptr) (receive copy ∷ []) ≡ 1))
      (send_clone sent mem)
send_clone-shared_example = send_clone-shared sent big_sent (omega arith) sent-World

grow-panic_example : grow (record { ptr = 16; len = 12; cap = 20 }) (2 ^ 31 + 1) mem ≡ panic
grow-panic_example =
    grow-panic (record { ptr = 16; len = 12; cap = 20 }) (2 ^ 31 + 1) mem (omega arith)
      (omega arith)

back-View : View mem back back_bytes
back-View = View-of_Rep mem-World.reps.1.0 (omega arith) (omega arith)

tendril_bytes_example :
    (tendril_bytes back mem ≡ done (slice 0 back-View.len back-View.block.bytes) mem)
    × (as_byte_slice back mem ≡ done (slice back-View.off back-View.len back-View.block.bytes) mem)
tendril_bytes_example = tendril_bytes_lem back-View
