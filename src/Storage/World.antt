-- ===== src/Storage/World.antt =====
-- common.rs: the shared file handle, the taint flag, and the offsets of the HDUs.
use rustfits.Prelude.{
  ℕ, ◌+◌, ◌≡◌, refl, Bool, true, false, List, [], ◌∷◌, Outcome, ok, err, length, leb, ◌≤◌, take,
  drop, if◌then◌else◌, arith,
}
use rustfits.Storage.{
  Backend, disk, mem, http_range, Storage, IoError, IoResult, Done, is_remote, set_len, len, seek,
  read_exact, write_all, flush,
}
use rustfits.Storage.Bytes.{resize, overwrite}

pub data FileError : Type 0 where
  lock_poisoned closed layout_lock_poisoned delta_exceeds_offset tainted_file : FileError
  io_error : IoError → FileError

-- A handle is `None` after `close()`, and its lock is poisoned when a thread panics that holds it.
pub data Handle : Type 0 where
  gone locked_out : Handle
  opened : Storage → Handle

pub record HduOffsets : Type 0 where
  pub header_offset : ℕ
  pub header_block_count : ℕ
  pub data_offset : ℕ

pub record World : Type 0 where
  pub file : Handle
  pub hdus : List HduOffsets
  pub layout_poisoned : Bool
  pub tainted : Bool

abbrev pub FileIo : Type 0 → Type 0
FileIo A = World → Outcome FileError A × World

abbrev pub done : FileIo Done
done w = (ok tt, w)

abbrev pub fail_with : {A : Type 0} → FileError → FileIo A
fail_with e w = (err e, w)

abbrev pub continue :
    {A B : Type 0} → Outcome FileError A × World → (A → FileIo B) → Outcome FileError B × World
continue (ok a, w) k = k a w
continue (err e, w) k = (err e, w)

infixl 5 ◌>>>◌ ◌>=>◌
abbrev pub ◌>=>◌ : {A B : Type 0} → FileIo A → (A → FileIo B) → FileIo B
(m >=> k) w = continue (m w) k

abbrev pub ◌>>>◌ : {A B : Type 0} → FileIo A → FileIo B → FileIo B
m >>> k = m >=> λ _. k

abbrev pub outcome_of : {A : Type 0} → Outcome IoError A → Outcome FileError A
outcome_of (ok a) = ok a
outcome_of (err e) = err (io_error e)

-- An operation on the store behind the handle.
unfoldable pub on_file : {A : Type 0} → (Storage → IoResult A) → FileIo A
on_file op w = elim w.file [
  | gone ↦ (err closed, w)
  | locked_out ↦ (err lock_poisoned, w)
  | opened s ↦ (outcome_of (op s).0, record w { file = opened (op s).1 })
]

-- The lock taken, and the handle open.
abbrev pub held : FileIo Done
held = on_file (λ s. (ok tt, s))

abbrev pub taint : World → World
taint w = record w { tainted = true }

-- `map_err(|e| { tainted.store(true); ... })`
abbrev pub taint_on_error : {A : Type 0} → Outcome FileError A × World → Outcome FileError A × World
taint_on_error (ok a, w) = (ok a, w)
taint_on_error (err e, w) = (err e, taint w)

unfoldable pub or_taint : {A : Type 0} → FileIo A → FileIo A
or_taint m w = taint_on_error (m w)

unfoldable pub check_not_tainted : FileIo Done
check_not_tainted w = if w.tainted then (err tainted_file, w) else (ok tt, w)

-- A store that nothing fails on.
abbrev pub quiet : Backend → List ℕ → ℕ → Bool → Storage
quiet b xs pos dirty = record { backend = b; bytes = xs; pos = pos; dirty = dirty; faults = [] }

-- A world whose handle is open on such a store.
abbrev pub at : World → Backend → List ℕ → ℕ → Bool → World
at w b xs pos dirty = record w { file = opened (quiet b xs pos dirty) }

abbrev pub dirty_after : Backend → Bool → Bool
dirty_after mem dirty = true
dirty_after _ dirty = dirty

abbrev pub dirty_written : Backend → List ℕ → Bool → Bool
dirty_written b [] dirty = dirty
dirty_written b (c ∷ cs) dirty = dirty_after b dirty

remote : is_remote http_range ≡ false → ⊥
remote h = cc

-- On such a store the operations do what they are for.
module _ (w : World) (xs : List ℕ) (p : ℕ) (d : Bool) where
  pub seek-at :
      (b : Backend) (q : ℕ)
      → is_remote b ≡ false
      → on_file (seek q) (at w b xs p d) ≡ (ok tt, at w b xs q d)
  unfolding on_file seek
  seek-at disk q h = refl
  seek-at mem q h = refl
  seek-at http_range q h = absurd (remote h)

  pub held-at : (b : Backend) → held (at w b xs p d) ≡ (ok tt, at w b xs p d)
  unfolding on_file
  held-at b = refl

  pub read-at :
      (b : Backend) (n : ℕ)
      → is_remote b ≡ false
      → p + n ≤ length xs
      → on_file (read_exact n) (at w b xs p d) ≡ (ok (take n (drop p xs)), at w b xs (p + n) d)
  unfolding on_file read_exact
  read-at disk n h inside = let t : leb (p + n) (length xs) ≡ true = ground arith in rw t refl
  read-at mem n h inside = let t : leb (p + n) (length xs) ≡ true = ground arith in rw t refl
  read-at http_range n h inside = absurd (remote h)

  pub write-at :
      (b : Backend) (buf : List ℕ)
      → is_remote b ≡ false
      → on_file (write_all buf) (at w b xs p d)
        ≡ (ok tt, at w b (overwrite xs p buf) (p + length buf) (dirty_written b buf d))
  unfolding on_file write_all
  write-at b [] h = let e : p + 0 ≡ p = omega arith in rw e refl
  write-at disk (c ∷ cs) h = refl
  write-at mem (c ∷ cs) h = refl
  write-at http_range (c ∷ cs) h = absurd (remote h)

  pub flush-at :
      (b : Backend) → is_remote b ≡ false → on_file flush (at w b xs p d) ≡ (ok tt, at w b xs p d)
  unfolding on_file flush
  flush-at disk h = refl
  flush-at mem h = refl
  flush-at http_range h = absurd (remote h)

  pub len-at :
      (b : Backend)
      → is_remote b ≡ false
      → on_file len (at w b xs p d) ≡ (ok (length xs), at w b xs p d)
  unfolding on_file len
  len-at disk h = refl
  len-at mem h = refl
  len-at http_range h = absurd (remote h)

  pub set_len-at :
      (b : Backend) (size : ℕ)
      → is_remote b ≡ false
      → on_file (set_len size) (at w b xs p d)
        ≡ (ok tt, at w b (resize size xs) p (dirty_after b d))
  unfolding on_file set_len
  set_len-at disk size h = refl
  set_len-at mem size h = refl
  set_len-at http_range size h = absurd (remote h)
