-- ===== src/Storage/Explained.antt =====
-- common.rs: an error, and what became of the bytes.
use rustfits.Prelude.{
  ℕ, ◌≡◌, refl, ◌⊎◌, inl, inr, Bool, true, false, List, [], ◌∷◌, map, Outcome, ok, err,
  if◌then◌else◌,
}
use rustfits.Storage.{
  Storage, Done, IoResult, disk, mem, http_range, Backend, Fault, works, fails, len, set_len,
}
use rustfits.Storage.World.{
  FileError, layout_lock_poisoned, Handle, gone, locked_out, opened, World, FileIo, continue,
  on_file, held, outcome_of,
}
use rustfits.Storage.Shift.{update_offsets, shift_offsets}
use rustfits.Storage.Taint.{IsMarked}

abbrev bytes_of : Handle → List ℕ
bytes_of gone = []
bytes_of locked_out = []
bytes_of (opened s) = s.bytes

abbrev pub bytes_in : World → List ℕ
bytes_in w = bytes_of w.file

-- An error, where the bytes were `before`: it has set the taint flag, or the file is as it was, or
-- the lock of the layout is poisoned.
abbrev pub IsExplained : {A : Type 0} → List ℕ → Outcome FileError A × World → Type 0
IsExplained before (ok a, w) = Unit
IsExplained before (err e, w) =
    (w.tainted ≡ true) ⊎ ((bytes_in w ≡ before) ⊎ (e ≡ layout_lock_poisoned))

pub IsMarked-IsExplained :
    {A : Type 0}
    → (before : List ℕ) (r : Outcome FileError A × World) → IsMarked r
    → IsExplained before r
IsMarked-IsExplained before (ok a, w) m = tt
IsMarked-IsExplained before (err e, w) m = inl m

-- The bytes are kept, whether the operation fails or not.
abbrev pub Keeps : {A : Type 0} → FileIo A → Type 0
Keeps m = (w : World) → bytes_in (m w).1 ≡ bytes_in w

-- Behind an operation that keeps the bytes.
pub IsExplained-kept :
    {A B : Type 0}
    → (before : List ℕ) (r : Outcome FileError A × World) (k : A → FileIo B) → bytes_in r.1 ≡ before
    → ((a : A) (w : World) → bytes_in w ≡ before → IsExplained before (k a w))
    → IsExplained before (continue r k)
IsExplained-kept before (ok a, w) k same h = h a w same
IsExplained-kept before (err e, w) k same h = inr (inl same)

-- Before operations whose errors are explained whatever the bytes were.
pub IsExplained-continue :
    {A B : Type 0}
    → (before : List ℕ) (r : Outcome FileError A × World) (k : A → FileIo B) → IsExplained before r
    → ((a : A) (w : World) → IsExplained before (k a w))
    → IsExplained before (continue r k)
IsExplained-continue before (ok a, w) k m h = h a w
IsExplained-continue before (err e, w) k m h = m

if-IsExplained :
    (before : List ℕ) (c : Bool) (r other : Outcome FileError Done × World)
    → IsExplained before r
    → IsExplained before other
    → IsExplained before (if c then r else other)
if-IsExplained before true r other m m' = m
if-IsExplained before false r other m m' = m'

pub choice-IsExplained :
    (before : List ℕ) (c : Bool) (m k : FileIo Done) (w : World)
    → IsExplained before (m w)
    → IsExplained before (k w)
    → IsExplained before ((if c then m else k) w)
choice-IsExplained before true m k w first other = first
choice-IsExplained before false m k w first other = other

pub update_offsets-IsExplained :
    (before : List ℕ) (move : ℕ → ℕ) (after : ℕ) (w : World)
    → IsExplained before (update_offsets move after w)
unfolding update_offsets
update_offsets-IsExplained before move after w =
    if-IsExplained before w.layout_poisoned (err layout_lock_poisoned, w)
      (ok tt, record w { hdus = map (shift_offsets move after) w.hdus }) (inr (inr refl)) tt

-- The parts of a store, to split on.
abbrev store : Backend → List ℕ → ℕ → Bool → List Fault → Storage
store b xs p d fs = record { backend = b; bytes = xs; pos = p; dirty = d; faults = fs }

len-bytes :
    (b : Backend) (xs : List ℕ) (p : ℕ) (d : Bool) (fs : List Fault)
    → (len (store b xs p d fs)).1.bytes ≡ xs
unfolding len
len-bytes disk xs p d [] = refl
len-bytes disk xs p d (works ∷ fs) = refl
len-bytes disk xs p d (fails k ∷ fs) = refl
len-bytes mem xs p d fs = refl
len-bytes http_range xs p d fs = refl

-- An error has not changed the bytes.
abbrev IsWhole : {A : Type 0} → List ℕ → IoResult A → Type 0
IsWhole before (ok a, s) = Unit
IsWhole before (err e, s) = s.bytes ≡ before

set_len-IsWhole :
    (n : ℕ) (b : Backend) (xs : List ℕ) (p : ℕ) (d : Bool) (fs : List Fault)
    → IsWhole xs (set_len n (store b xs p d fs))
unfolding set_len
set_len-IsWhole n disk xs p d [] = tt
set_len-IsWhole n disk xs p d (works ∷ fs) = tt
set_len-IsWhole n disk xs p d (fails k ∷ fs) = refl
set_len-IsWhole n mem xs p d fs = tt
set_len-IsWhole n http_range xs p d fs = refl

IsWhole-IsExplained :
    {A : Type 0}
    → (before : List ℕ) (w : World) (r : IoResult A) → IsWhole before r
    → IsExplained before (outcome_of r.0, record w { file = opened r.1 })
IsWhole-IsExplained before w (ok a, s) h = tt
IsWhole-IsExplained before w (err e, s) h = inr (inl h)

on_file-IsExplained :
    {A : Type 0}
    → (op : Storage → IoResult A) (w : World) (h : Handle)
    → ((s : Storage) → IsWhole s.bytes (op s))
    → IsExplained (bytes_of h) (on_file op (record w { file = h }))
unfolding on_file
on_file-IsExplained op w gone whole = inr (inl refl)
on_file-IsExplained op w locked_out whole = inr (inl refl)
on_file-IsExplained op w (opened s) whole = IsWhole-IsExplained s.bytes w (op s) (whole s)

on_file-Keeps :
    {A : Type 0}
    → (op : Storage → IoResult A) (w : World) (h : Handle)
    → ((s : Storage) → (op s).1.bytes ≡ s.bytes)
    → bytes_in (on_file op (record w { file = h })).1 ≡ bytes_of h
unfolding on_file
on_file-Keeps op w gone same = refl
on_file-Keeps op w locked_out same = refl
on_file-Keeps op w (opened s) same = same s

pub set_len-IsExplained :
    (before : List ℕ) (n : ℕ) (w : World)
    → bytes_in w ≡ before
    → IsExplained before (on_file (set_len n) w)
set_len-IsExplained before n w same = rw⁻¹ same (
    on_file-IsExplained (set_len n) w w.file
      (λ s. set_len-IsWhole n s.backend s.bytes s.pos s.dirty s.faults))

pub held-IsExplained : (w : World) → IsExplained (bytes_in w) (held w)
held-IsExplained w = on_file-IsExplained (λ s. (ok tt, s)) w w.file (λ s. tt)

pub len-Keeps : Keeps (on_file len)
len-Keeps w = on_file-Keeps len w w.file (λ s. len-bytes s.backend s.bytes s.pos s.dirty s.faults)
