-- ===== src/Storage/Taint.antt =====
-- common.rs: operations that set the taint flag when they fail.
use rustfits.Prelude.{
  ℕ, zero, suc, ◌+◌, ◌-◌, ◌≡◌, refl, min, Bool, true, false, ltb, Outcome, ok, err, replicate,
  if◌then◌else◌,
}
use rustfits.Storage.{Done, seek, read_exact, write_all, flush}
use rustfits.Storage.World.{
  FileError, World, FileIo, done, continue, ◌>=>◌, ◌>>>◌, on_file, or_taint, taint_on_error,
}
use rustfits.Storage.Shift.{move_chunk, shift_loop, move_tail, add_u64, zero_loop, backward_loop}

-- An error has set the taint flag.
abbrev pub IsMarked : {A : Type 0} → Outcome FileError A × World → Type 0
IsMarked (ok a, w) = Unit
IsMarked (err e, w) = w.tainted ≡ true

abbrev pub Taints : {A : Type 0} → FileIo A → Type 0
Taints m = (w : World) → IsMarked (m w)

IsMarked-taint_on_error :
    {A : Type 0} → (r : Outcome FileError A × World) → IsMarked (taint_on_error r)
IsMarked-taint_on_error (ok a, w) = tt
IsMarked-taint_on_error (err e, w) = refl

pub or_taint-Taints : {A : Type 0} → (m : FileIo A) → Taints (or_taint m)
unfolding or_taint
or_taint-Taints m w = IsMarked-taint_on_error (m w)

pub IsMarked-continue :
    {A B : Type 0}
    → (r : Outcome FileError A × World) (k : A → FileIo B) → IsMarked r
    → ((a : A) → Taints (k a))
    → IsMarked (continue r k)
IsMarked-continue (ok a, w) k m h = h a w
IsMarked-continue (err e, w) k m h = m

pub and_then-Taints :
    {A B : Type 0}
    → (m : FileIo A) (k : A → FileIo B) → Taints m
    → ((a : A) → Taints (k a))
    → Taints (m >=> k)
and_then-Taints m k first rest w = IsMarked-continue (m w) k (first w) rest

if-Taints : (c : Bool) (m k : FileIo Done) → Taints m → Taints k → Taints (if c then m else k)
if-Taints true m k first other = first
if-Taints false m k first other = other

done-Taints : Taints done
done-Taints w = tt

pub then-Taints : (m k : FileIo Done) → Taints m → Taints k → Taints (m >>> k)
then-Taints m k first rest = and_then-Taints m (λ _. k) first (λ _. rest)

move_chunk-Taints : (src dst n : ℕ) → Taints (move_chunk src dst n)
unfolding move_chunk
move_chunk-Taints src dst n =
    and_then-Taints (or_taint (on_file (seek src)) >>> or_taint (on_file (read_exact n)))
      (λ chunk. or_taint (on_file (seek dst)) >>> or_taint (on_file (write_all chunk)))
      (and_then-Taints (or_taint (on_file (seek src))) (λ _. or_taint (on_file (read_exact n)))
        (or_taint-Taints (on_file (seek src))) (λ _. or_taint-Taints (on_file (read_exact n))))
      (λ chunk.
        then-Taints (or_taint (on_file (seek dst))) (or_taint (on_file (write_all chunk)))
          (or_taint-Taints (on_file (seek dst))) (or_taint-Taints (on_file (write_all chunk))))

pub shift_loop-Taints :
    (chunk after delta fuel left : ℕ) → Taints (shift_loop chunk after delta fuel left)
unfolding shift_loop
shift_loop-Taints chunk after delta zero left = done-Taints
shift_loop-Taints chunk after delta (suc fuel) left =
    let n = min left chunk in
    let src = after + left - n in
    let first = move_chunk src (add_u64 src delta) n in
    let rest = shift_loop chunk after delta fuel (left - n) in
    if-Taints (ltb 0 left) (first >>> rest) done
      (then-Taints first rest (move_chunk-Taints src (add_u64 src delta) n)
        (shift_loop-Taints chunk after delta fuel (left - n)))
      done-Taints

pub backward_loop-Taints :
    (chunk after delta fuel moved left : ℕ)
    → Taints (backward_loop chunk after delta fuel moved left)
unfolding backward_loop
backward_loop-Taints chunk after delta zero moved left = done-Taints
backward_loop-Taints chunk after delta (suc fuel) moved left =
    let n = min left chunk in
    let src = after + moved in
    let first = move_chunk src (src - delta) n in
    let rest = backward_loop chunk after delta fuel (moved + n) (left - n) in
    if-Taints (ltb 0 left) (first >>> rest) done
      (then-Taints first rest (move_chunk-Taints src (src - delta) n)
        (backward_loop-Taints chunk after delta fuel (moved + n) (left - n)))
      done-Taints

pub zero_loop-Taints : (chunk fuel left : ℕ) → Taints (zero_loop chunk fuel left)
unfolding zero_loop
zero_loop-Taints chunk zero left = done-Taints
zero_loop-Taints chunk (suc fuel) left =
    let n = min left chunk in
    let first = or_taint (on_file (write_all (replicate n 0))) in
    let rest = zero_loop chunk fuel (left - n) in
    if-Taints (ltb 0 left) (first >>> rest) done
      (then-Taints first rest (or_taint-Taints (on_file (write_all (replicate n 0))))
        (zero_loop-Taints chunk fuel (left - n)))
      done-Taints

pub move_tail-Taints :
    (loop : ℕ → ℕ → FileIo Done) (count : ℕ)
    → ((fuel left : ℕ) → Taints (loop fuel left))
    → Taints (move_tail loop count)
unfolding move_tail
move_tail-Taints loop count h =
    if-Taints (ltb 0 count) (loop count count >>> or_taint (on_file flush)) done
      (then-Taints (loop count count) (or_taint (on_file flush)) (h count count)
        (or_taint-Taints (on_file flush)))
      done-Taints
