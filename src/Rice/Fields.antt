-- ===== src/Rice/Fields.antt =====
-- zimage/rice.rs: what the writer has written, read through the decoder's buffer.
use rustfits.Prelude.{
  ℕ, ◌^◌, ◌≤◌, ◌<◌, ◌≡◌, refl, sym, ap, ◌∙◌, List, [], ◌∷◌, ◌++◌, map, append_assoc, All, Outcome,
  ok, ◌>>=◌, arith,
}
use native.Mathlib.Nat.{mod-eq_of_lt}
use mathlib.Core.Path.{subst}
use rustfits.Rice.{RiceError, new_writer}
use rustfits.Rice.Writer.{Field, bits_of, unary_of, write_fields}
use rustfits.Rice.Digits.{to_bits}
use rustfits.Rice.Stream.{field_bits, all_bits, finish-write_fields, write_fields-IsBytes}
use rustfits.Rice.Buffer.{Buffer, refill, take_bits, take_unary}
use rustfits.Rice.Filled.{Holds, refill-Holds}
use rustfits.Rice.Taken.{take_bits-Holds}
use rustfits.Rice.Unary.{to_bits_zero}
use rustfits.Rice.Count.{take_unary-Holds}
use rustfits.Rice

-- What the decoder asks of its buffer: some bits, or a unary code.
pub data Request : Type 0 where
  next_bits : ℕ → Request
  next_unary : Request

unfoldable pub answer : Request → Buffer → Outcome RiceError (ℕ × Buffer)
answer (next_bits n) s = take_bits n s
answer next_unary s = take_unary s

unfoldable pub answer_all : List Request → Buffer → Outcome RiceError (List ℕ)
answer_all [] s = ok []
answer_all (r ∷ rs) s =
    answer r s >>= λ first. answer_all rs first.1 >>= λ rest. ok (first.0 ∷ rest)

-- The buffer before the first request, with the data behind the seed.
unfoldable pub start_buffer : List ℕ → Buffer
start_buffer bytes = refill (record { buf = 0; nbits = 0; rest = bytes })

-- The request that a field answers, and the answer.
abbrev pub request : Field → Request
request (bits_of value n) = next_bits n
request (unary_of n) = next_unary

abbrev pub content : Field → ℕ
content (bits_of value n) = value
content (unary_of n) = n

-- A value that fits its bits, as many as a read takes, or a unary code that is not too long.
abbrev pub IsReadable : Field → Type 0
IsReadable (bits_of value n) = (n ≤ 56) × (value < 2 ^ n)
IsReadable (unary_of n) = n ≤ 1024

pub answer-Holds :
    (f : Field) (s : Buffer) (more : List ℕ)
    → IsReadable f
    → Holds s (field_bits f ++ more)
    → (t : Buffer) × (answer (request f) s ≡ ok (content f, t)) × Holds t more
unfolding answer
answer-Holds (bits_of value n) s more (few, small) h =
    let (t, ran, rest, _) =
      take_bits-Holds n value s more few small
        (subst (λ (v : ℕ). Holds s (to_bits n v ++ more)) (mod-eq_of_lt small) h) in
    (t, ran, rest)
answer-Holds (unary_of n) s more short h = take_unary-Holds n s more short (
    subst (λ (bits : List ℕ). Holds s bits)
      (append_assoc (to_bits n 0) (1 ∷ []) more
        ∙ ap (λ (z : List ℕ). z ++ 1 ∷ more) (to_bits_zero n))
      h)

answer_all-Holds :
    (fs : List Field) (s : Buffer) (more : List ℕ)
    → All IsReadable fs
    → Holds s (all_bits fs ++ more)
    → answer_all (map request fs) s ≡ ok (map content fs)
unfolding answer_all
answer_all-Holds [] s more readable h = refl
answer_all-Holds (f ∷ fs) s more (here, readable) h =
    let (t, ran, rest) = answer-Holds f s (all_bits fs ++ more) here (
      subst (λ (bits : List ℕ). Holds s bits) (append_assoc (field_bits f) (all_bits fs) more) h) in
    let later = answer_all-Holds fs t more readable rest in rw (ran, later) refl

-- The buffer of the decoder reads back what the encoder's writer has written: each value, and each
-- unary code, in order. A value fits the bits it is written in, at most 56 of them, and a unary code
-- has at most 1024 zeros.
pub answer_all-write_fields :
    (fs : List Field)
    → All IsReadable fs
    → answer_all (map request fs) (start_buffer (Rice.finish (write_fields fs new_writer)))
      ≡ ok (map content fs)
unfolding start_buffer
answer_all-write_fields fs readable =
    let bytes = Rice.finish (write_fields fs new_writer) in
    let (pad, _, stream) = finish-write_fields fs in
    let all_left : Holds (record { buf = 0; nbits = 0; rest = bytes })
        (all_bits fs ++ to_bits pad 0) =
      record {
        high = 0;
        room = omega arith;
        value = omega arith;
        small = omega arith;
        stream = sym stream;
        bytes = write_fields-IsBytes fs;
      } in
    let (filled, _, _) =
      refill-Holds (record { buf = 0; nbits = 0; rest = bytes }) (all_bits fs ++ to_bits pad 0)
        all_left in
    answer_all-Holds fs (refill (record { buf = 0; nbits = 0; rest = bytes })) (to_bits pad 0)
      readable filled
