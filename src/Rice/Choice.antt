-- ===== src/Rice/Choice.antt =====
-- zimage/rice.rs: a block as encode_rice chooses to write it, read by decode_rice_int_u32buf.
use rustfits.Prelude.{
  ℕ, zero, suc, ◌+◌, ◌%◌, ◌^◌, ◌<◌, ◌≤◌, ◌≡◌, refl, sym, ap, ◌∙◌, ◌==◌, Bool, true, false, ◌&&◌,
  leb, if◌then◌else◌, List, [], ◌∷◌, ◌++◌, All, IsU32, length, replicate, ok, arith,
}
use rustfits.Rice.Diff.{undiffs, unzigzag_u32}
use rustfits.Rice.Writer.{bits_of}
use rustfits.Rice.Stream.{all_bits}
use rustfits.Rice.Buffer.{Buffer, take_bits}
use rustfits.Rice.Filled.{Holds}
use rustfits.Rice.Tile.{RiceParams, last_of}
use rustfits.Rice.Encoded.{raw_fields, codes_fields, block_fields}
use rustfits.Rice.Untile.{decoded, read_raw, read_codes, read_block}
use rustfits.Rice.Blocks.{IsShort, next_bits-Holds, read_codes-Holds, read_raw-Holds}

-- What the proofs use of the parameters of a pixel size.
pub record Fits (p : RiceParams) : Type 0 where
  pub narrow : p.bbits ≤ 56
  pub few : p.fsbits ≤ 56
  pub some : 0 < p.fsbits
  pub marks : p.fsmax + 1 < 2 ^ p.fsbits
  pub low : p.fsmax ≤ 56

abbrev pub IsZero : ℕ → Type 0
IsZero d = d ≡ 0

pub undiffs-IsZero :
    (lastpix : ℕ) (ds : List ℕ)
    → IsU32 lastpix
    → All IsZero ds
    → undiffs lastpix ds ≡ replicate (length ds) lastpix
unfolding undiffs unzigzag_u32
undiffs-IsZero lastpix [] small none = refl
undiffs-IsZero lastpix (d ∷ ds) small (here, there) =
    let same : (lastpix + unzigzag_u32 d) % 2 ^ 32 ≡ lastpix =
      ap (λ (v : ℕ). (lastpix + unzigzag_u32 v) % 2 ^ 32) here ∙ omega arith in
    rw same (ap (λ (l : List ℕ). lastpix ∷ l) (undiffs-IsZero lastpix ds small there))

last_of-replicate : (n lastpix : ℕ) → last_of lastpix (replicate n lastpix) ≡ lastpix
last_of-replicate zero lastpix = refl
last_of-replicate (suc n) lastpix = last_of-replicate n lastpix

read_block_suc :
    (p : RiceParams) (fs n lastpix : ℕ) (s : Buffer)
    → read_block p (fs + 1) n lastpix s
      ≡ (if fs == p.fsmax then read_raw p.bbits n lastpix s else read_codes fs n lastpix s)
unfolding read_block
read_block_suc p fs n lastpix s = let e : fs + 1 ≡ suc fs = omega arith in rw e refl

read_flat :
    (p : RiceParams) (lastpix : ℕ) (ds : List ℕ) (s : Buffer)
    → IsU32 lastpix
    → All IsZero ds
    → read_block p 0 (length ds) lastpix s
      ≡ ok (decoded (undiffs lastpix ds) (last_of lastpix (undiffs lastpix ds)) s)
unfolding read_block
read_flat p lastpix ds s small none =
    let same = undiffs-IsZero lastpix ds small none in
    rw same (
      ap (λ (last : ℕ). ok (decoded (replicate (length ds) lastpix) last s))
        (sym (last_of-replicate (length ds) lastpix)))

right_true : (a b : Bool) → ◌≡◌ {A = Bool} (a && b) true → b ≡ true
right_true true b e = e
right_true false b e = absurd (cc)

-- A block read back, after its `stored`.
pub record IsBlockRead (p : RiceParams) (lastpix : ℕ) (ds : List ℕ) (s : Buffer) (more : List ℕ)
    : Type 0 where
  pub stored : ℕ
  pub middle : Buffer
  pub left : Buffer
  pub read : take_bits p.fsbits s ≡ ok (stored, middle)
  pub block :
      read_block p stored (length ds) lastpix middle
      ≡ ok (decoded (undiffs lastpix ds) (last_of lastpix (undiffs lastpix ds)) left)
  pub holds : Holds left more

module _ (p : RiceParams) (fits : Fits p) where
  chosen-IsBlockRead :
      (raw low : Bool) (fs lastpix : ℕ) (ds : List ℕ) (s : Buffer) (more : List ℕ)
      → leb p.fsmax fs ≡ raw
      → (◌≡◌ {A = Bool} low true → All IsZero ds)
      → All (λ (d : ℕ). d < 2 ^ p.bbits) ds
      → All IsU32 ds
      → All (IsShort fs) ds
      → IsU32 lastpix
      → Holds s (
          all_bits (
            if raw
            then bits_of (p.fsmax + 1) p.fsbits ∷ raw_fields p.bbits ds
            else if low
            then bits_of 0 p.fsbits ∷ []
            else bits_of (fs + 1) p.fsbits ∷ codes_fields fs ds)
          ++ more)
      → IsBlockRead p lastpix ds s more
  chosen-IsBlockRead true low fs lastpix ds s more test flat fit u32 short small h =
      let (t, ran, rest) =
        next_bits-Holds (p.fsmax + 1) p.fsbits (raw_fields p.bbits ds) s more fits.few fits.marks
          h in
      let (u, ran', rest') = read_raw-Holds p.bbits lastpix ds t more fits.narrow fit rest in
      let same : (p.fsmax == p.fsmax) ≡ true = ground arith in
      record {
        stored = p.fsmax + 1;
        middle = t;
        left = u;
        read = ran;
        block = rw (read_block_suc p p.fsmax (length ds) lastpix t, same) ran';
        holds = rest';
      }
  chosen-IsBlockRead false true fs lastpix ds s more test flat fit u32 short small h =
      let marks = fits.marks in
      let (t, ran, rest) = next_bits-Holds 0 p.fsbits [] s more fits.few (omega arith) h in
      record {
        stored = 0;
        middle = t;
        left = t;
        read = ran;
        block = read_flat p lastpix ds t small (flat refl);
        holds = rest;
      }
  chosen-IsBlockRead false false fs lastpix ds s more test flat fit u32 short small h =
      let below : fs < p.fsmax = ground arith in
      let marks = fits.marks in
      let low = fits.low in
      let (t, ran, rest) =
        next_bits-Holds (fs + 1) p.fsbits (codes_fields fs ds) s more fits.few (omega arith) h in
      let (u, ran', rest') = read_codes-Holds fs lastpix ds t more (omega arith) u32 short rest in
      let other : (fs == p.fsmax) ≡ false = ground arith in
      record {
        stored = fs + 1;
        middle = t;
        left = u;
        read = ran;
        block = rw (read_block_suc p fs (length ds) lastpix t, other) ran';
        holds = rest';
      }

  -- Whatever the parameter and the test say.
  pub block_fields-IsBlockRead :
      (fs lastpix : ℕ) (flat : Bool) (ds : List ℕ) (s : Buffer) (more : List ℕ)
      → (◌≡◌ {A = Bool} flat true → All IsZero ds)
      → All (λ (d : ℕ). d < 2 ^ p.bbits) ds
      → All IsU32 ds
      → All (IsShort fs) ds
      → IsU32 lastpix
      → Holds s (all_bits (block_fields fs flat p ds) ++ more)
      → IsBlockRead p lastpix ds s more
  block_fields-IsBlockRead fs lastpix flat ds s more none fit u32 short small h =
      chosen-IsBlockRead (leb p.fsmax fs) ((fs == 0) && flat) fs lastpix ds s more refl
        (λ e. none (right_true (fs == 0) flat e)) fit u32 short small h
