-- ===== src/Storage.antt =====
-- common.rs: the backing store of an open file, and what its operations do to its bytes.
pub mod Bytes
pub mod World
pub mod Shift
pub mod Move
pub mod Forward
pub mod Opened
pub mod Zero
pub mod Backward
pub mod Remove
pub mod Taint
pub mod Explained
pub mod Errors
pub mod Next
pub mod Grow
mod Tests
pub mod Insert
use rustfits.Prelude.{
  ℕ, zero, suc, ◌+◌, ◌-◌, ◌≤◌, Bool, true, false, ◌||◌, leb, if◌then◌else◌, List, [], ◌∷◌, ◌++◌,
  length, take, drop, replicate, Outcome, ok, err,
}
use Bytes.{resize, overwrite}

pub data Backend : Type 0 where
  disk mem http_range : Backend

-- What the operating system makes of the next operation on a disk file: it works, or it fails,
-- a write after some of its bytes.
pub data Fault : Type 0 where
  works : Fault
  fails : ℕ → Fault

pub data IoError : Type 0 where
  read_only whole_download os_error unexpected_eof : IoError

-- A store is one of three variants; each has bytes and a position. `faults` are the next results
-- of the operating system, which works when none is left.
pub record Storage : Type 0 where
  pub backend : Backend
  pub bytes : List ℕ
  pub pos : ℕ
  pub dirty : Bool
  pub faults : List Fault

abbrev pub IoResult : Type 0 → Type 0
IoResult A = Outcome IoError A × Storage

abbrev pub Done : Type 0
Done = Unit {0}

abbrev pub next_fault : List Fault → Fault
next_fault [] = works
next_fault (f ∷ fs) = f

abbrev pub later_faults : List Fault → List Fault
later_faults [] = []
later_faults (f ∷ fs) = fs

-- An operation of the operating system: `run` when it works, `broken k` when it fails.
abbrev pub on_disk :
    {A : Type 0} → Storage → (Storage → IoResult A) → (ℕ → Storage → IoResult A) → IoResult A
on_disk s run broken =
    let t = record s { faults = later_faults s.faults } in
    elim (next_fault s.faults) [ works ↦ run t | fails k ↦ broken k t ]

abbrev pub os_fails : {A : Type 0} → ℕ → Storage → IoResult A
os_fails k s = (err os_error, s)

abbrev pub resize_to : ℕ → Storage → Storage
resize_to size s = record s { bytes = resize size s.bytes }

unfoldable pub set_len : ℕ → Storage → IoResult Done
set_len size s = elim s.backend [
  | disk ↦ on_disk s (λ t. (ok tt, resize_to size t)) os_fails
  | mem ↦ (ok tt, record (resize_to size s) { dirty = true })
  | http_range ↦ (err read_only, s)
]

unfoldable pub len : Storage → IoResult ℕ
len s = elim s.backend [
  | disk ↦ on_disk s (λ t. (ok (length t.bytes), t)) os_fails
  | _ ↦ (ok (length s.bytes), s)
]

unfoldable pub sync : Storage → IoResult Done
sync s = elim s.backend [ disk ↦ on_disk s (λ t. (ok tt, t)) os_fails | _ ↦ (ok tt, s) ]

unfoldable pub is_dirty : Storage → Bool
is_dirty s = elim s.backend [ mem ↦ s.dirty | _ ↦ false ]

unfoldable pub mark_clean : Storage → Storage
mark_clean s = elim s.backend [ mem ↦ record s { dirty = false } | _ ↦ s ]

unfoldable pub mark_dirty : Storage → Storage
mark_dirty s = elim s.backend [ mem ↦ record s { dirty = true } | _ ↦ s ]

-- `seek(SeekFrom::Start(pos))`
unfoldable pub seek : ℕ → Storage → IoResult Done
seek pos s = elim s.backend [
  | disk ↦ on_disk s (λ t. (ok tt, record t { pos = pos })) os_fails
  | _ ↦ (ok tt, record s { pos = pos })
]

-- `read_exact` of `n` bytes: fewer are an error, which leaves the position at the end.
abbrev pub read_bytes : ℕ → Storage → IoResult (List ℕ)
read_bytes n s =
    if leb (s.pos + n) (length s.bytes)
    then (ok (take n (drop s.pos s.bytes)), record s { pos = s.pos + n })
    else (err unexpected_eof, record s { pos = length s.bytes })

unfoldable pub read_exact : ℕ → Storage → IoResult (List ℕ)
read_exact n s = elim s.backend [ disk ↦ on_disk s (read_bytes n) os_fails | _ ↦ read_bytes n s ]

abbrev pub write_bytes : List ℕ → Storage → Storage
write_bytes buf s = record s { bytes = overwrite s.bytes s.pos buf; pos = s.pos + length buf }

-- `write_all` of no bytes makes no call.
unfoldable pub write_all : List ℕ → Storage → IoResult Done
write_all [] s = (ok tt, s)
write_all (c ∷ cs) s =
    let buf = c ∷ cs in
    elim s.backend [
      | disk ↦
          on_disk s (λ t. (ok tt, write_bytes buf t))
            (λ k t. (err os_error, write_bytes (take k buf) t))
      | mem ↦ (ok tt, record (write_bytes buf s) { dirty = true })
      | http_range ↦ (err read_only, s)
    ]

unfoldable pub flush : Storage → IoResult Done
flush s = elim s.backend [ disk ↦ on_disk s (λ t. (ok tt, t)) os_fails | _ ↦ (ok tt, s) ]

infixl 5 ◌then_io◌
abbrev pub ◌then_io◌ : {A B : Type 0} → IoResult A → (A → Storage → IoResult B) → IoResult B
(ok a, s) then_io k = k a s
(err e, s) then_io k = (err e, s)

abbrev pub is_remote : Backend → Bool
is_remote http_range = true
is_remote _ = false

unfoldable pub read_all : Storage → IoResult (List ℕ)
read_all s =
    let whole = len s then_io (λ n t. seek 0 t then_io (λ _ u. read_exact n u)) in
    if is_remote s.backend then (err whole_download, s) else whole

-- `read_to_end` from byte 0 on a disk file, the buffer itself in memory.
unfoldable pub into_vec : Storage → Outcome IoError (List ℕ)
into_vec s = elim s.backend [
  | disk ↦ (seek 0 s then_io (λ _ t. on_disk t (λ u. (ok u.bytes, u)) os_fails)).0
  | mem ↦ ok s.bytes
  | http_range ↦ err whole_download
]
