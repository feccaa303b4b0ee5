-- ===== src/Rice/Decoded.antt =====
-- zimage/rice.rs: decode_rice_int_u32buf over the blocks of encode_rice.
use rustfits.Prelude.{
  ℕ, zero, suc, ◌+◌, ◌-◌, ◌%◌, ◌^◌, ◌<◌, ◌≤◌, ◌≡◌, refl, sym, ap, ◌∙◌, true, min, List, [], ◌∷◌,
  ◌++◌, map, append_assoc, All, All-take, All-drop, IsU32, length, take, drop, length-take,
  length-drop, take-append-drop, ok, arith,
}
use mathlib.Core.Path.{subst}
use rustfits.Rice.Diff.{diffs, undiffs, unzigzag_u32, values, undiffs-diffs, IsRice}
use rustfits.Rice.Stream.{all_bits}
use rustfits.Rice.Buffer.{Buffer, take_bits}
use rustfits.Rice.Filled.{Holds}
use rustfits.Rice.Tile.{RiceParams, Floating, sum_loop, rice_fs, last_of}
use rustfits.Rice.Encoded.{block_fields, is_flat, tile_fields}
use rustfits.Rice.Untile.{Decoded, read_block, decode_blocks}
use rustfits.Rice.Blocks.{all_bits-append, IsShort}
use rustfits.Rice.Choice.{Fits, IsZero, block_fields-IsBlockRead}

-- What the encoder relies on when it tests the sum of the codes for zero: a sum of conversions of
-- integers is zero only when both parts are, and only 0 converts to zero.
pub record IsSumming (f : Floating) : Type 1 where
  pub IsAmount : f.F → Type 0
  pub amount : (n : ℕ) → IsAmount (f.of_int n)
  pub adds : (a b : f.F) → IsAmount a → IsAmount b → IsAmount (f.add a b)
  pub parts :
      (a b : f.F)
      → IsAmount a
      → IsAmount b
      → f.equal (f.add a b) (f.of_int 0) ≡ true
      → (f.equal a (f.of_int 0) ≡ true) × (f.equal b (f.of_int 0) ≡ true)
  pub only_zero : (n : ℕ) → f.equal (f.of_int n) (f.of_int 0) ≡ true → n ≡ 0

sum_loop-IsZero :
    (f : Floating) (laws : IsSumming f) (sum : f.F) (ds : List ℕ)
    → laws.IsAmount sum
    → f.equal (sum_loop f sum ds) (f.of_int 0) ≡ true
    → (f.equal sum (f.of_int 0) ≡ true) × All IsZero ds
unfolding sum_loop
sum_loop-IsZero f laws sum [] amount e = (e, tt)
sum_loop-IsZero f laws sum (d ∷ ds) amount e =
    let (both, rest) =
      sum_loop-IsZero f laws (f.add sum (f.of_int d)) ds
        (laws.adds sum (f.of_int d) amount (laws.amount d)) e in
    let (left, right) = laws.parts sum (f.of_int d) amount (laws.amount d) both in
    (left, (laws.only_zero d right, rest))

-- No code of a block has a unary part of more than 1024.
abbrev pub AreShort : Floating → ℕ → ℕ → ℕ → ℕ → List ℕ → Type 0
AreShort f bytepix blocksize zero last pixels = Unit
AreShort f bytepix blocksize (suc fuel) last [] = Unit
AreShort f bytepix blocksize (suc fuel) last (next ∷ pixels) =
    let block = take blocksize (next ∷ pixels) in
    All (IsShort (rice_fs f bytepix (diffs bytepix last block))) (diffs bytepix last block)
    × AreShort f bytepix blocksize fuel (last_of last block) (drop blocksize (next ∷ pixels))

length-diffs :
    (bytepix last : ℕ) (pixels : List ℕ) → length (diffs bytepix last pixels) ≡ length pixels
unfolding diffs
length-diffs bytepix last [] = refl
length-diffs bytepix last (next ∷ pixels) = ap suc (length-diffs bytepix next pixels)

All-below : (a b : ℕ) (ds : List ℕ) → a ≤ b → All (λ (d : ℕ). d < a) ds → All (λ (d : ℕ). d < b) ds
All-below a b [] more h = tt
All-below a b (d ∷ ds) more (h, hs) = (omega arith, All-below a b ds more hs)

map-append : (g : ℕ → ℕ) (xs ys : List ℕ) → map g (xs ++ ys) ≡ map g xs ++ map g ys
map-append g [] ys = refl
map-append g (x ∷ xs) ys = ap (λ (l : List ℕ). g x ∷ l) (map-append g xs ys)

last_of-map :
    (g : ℕ → ℕ) (last : ℕ) (xs : List ℕ) → last_of (g last) (map g xs) ≡ g (last_of last xs)
last_of-map g last [] = refl
last_of-map g last (x ∷ xs) = last_of-map g x xs

last_of_same :
    (g : ℕ → ℕ) (last last' : ℕ) (xs ys : List ℕ)
    → g last ≡ g last'
    → map g xs ≡ map g ys
    → g (last_of last xs) ≡ g (last_of last' ys)
last_of_same g last last' xs ys e e' =
    sym (last_of-map g last xs) ∙ (λ i. last_of (e i) (e' i)) ∙ last_of-map g last' ys

IsU32-last_of : (last : ℕ) (xs : List ℕ) → IsU32 last → All IsU32 xs → IsU32 (last_of last xs)
IsU32-last_of last [] h hs = h
IsU32-last_of last (x ∷ xs) h (h', hs) = IsU32-last_of x xs h' hs

undiffs-IsU32 : (last : ℕ) (ds : List ℕ) → All IsU32 (undiffs last ds)
unfolding undiffs
undiffs-IsU32 last [] = tt
undiffs-IsU32 last (d ∷ ds) = (omega arith, undiffs-IsU32 ((last + unzigzag_u32 d) % 2 ^ 32) ds)

decode_step :
    (p : RiceParams) (nblock fuel n lastpix stored : ℕ) (s middle : Buffer) (d : Decoded)
    (rest : List ℕ)
    → take_bits p.fsbits s ≡ ok (stored, middle)
    → read_block p stored (min nblock (suc n)) lastpix middle ≡ ok d
    → decode_blocks p nblock fuel (suc n - min nblock (suc n)) d.lastpix d.left ≡ ok rest
    → decode_blocks p nblock (suc fuel) (suc n) lastpix s ≡ ok (d.pixels ++ rest)
unfolding decode_blocks
decode_step p nblock fuel n lastpix stored s middle d rest e e' e'' = rw (e, e', e'') refl

module _ (f : Floating) (laws : IsSumming f) (bytepix : ℕ) (rice : IsRice bytepix) (p : RiceParams)
    (fits : Fits p) (size : values bytepix ≡ 2 ^ p.bbits) (word : values bytepix ≤ 2 ^ 32)
    (blocksize : ℕ) (some : 0 < blocksize) where
  pub decode_blocks-tile :
      (fuel last lastpix : ℕ) (pixels : List ℕ) (s : Buffer) (more : List ℕ)
      → length pixels ≤ fuel
      → IsU32 last
      → IsU32 lastpix
      → lastpix % values bytepix ≡ last % values bytepix
      → All IsU32 pixels
      → AreShort f bytepix blocksize fuel last pixels
      → Holds s (all_bits (tile_fields f bytepix p blocksize fuel last pixels) ++ more)
      → (out : List ℕ) × (decode_blocks p blocksize fuel (length pixels) lastpix s ≡ ok out)
        × (map (λ (v : ℕ). v % values bytepix) out ≡ map (λ (v : ℕ). v % values bytepix) pixels)
  unfolding decode_blocks
  decode_blocks-tile zero last lastpix [] s more enough u32 u32' same us short h = ([], refl, refl)
  decode_blocks-tile zero last lastpix (x ∷ xs) s more enough u32 u32' same us short h =
      absurd (omega arith)
  decode_blocks-tile (suc fuel) last lastpix [] s more enough u32 u32' same us short h =
      ([], refl, refl)
  decode_blocks-tile (suc fuel) last lastpix (next ∷ pixels) s more enough u32 u32' same us
        (short, shorts) h =
      let all : List ℕ = next ∷ pixels in
      let block = take blocksize all in
      let later = drop blocksize all in
      let ds = diffs bytepix last block in
      let fs = rice_fs f bytepix ds in
      let fields = block_fields fs (is_flat f ds) p ds in
      let behind = tile_fields f bytepix p blocksize fuel (last_of last block) later in
      let block_u32 : All IsU32 block = All-take IsU32 blocksize all us in
      let (fit, back) = undiffs-diffs bytepix last lastpix block rice u32 block_u32 same in
      let bits : all_bits (fields ++ behind) ++ more
          ≡ all_bits fields ++ (all_bits behind ++ more) =
        ap (λ (l : List ℕ). l ++ more) (all_bits-append fields behind)
        ∙ append_assoc (all_bits fields) (all_bits behind) more in
      let r =
        block_fields-IsBlockRead p fits fs lastpix (is_flat f ds) ds s (all_bits behind ++ more)
          (λ e. (sum_loop-IsZero f laws (f.of_int 0) ds (laws.amount 0) e).1)
          (All-below (values bytepix) (2 ^ p.bbits) ds (omega (arith, size)) fit)
          (All-below (values bytepix) (2 ^ 32) ds word fit) short u32'
          (subst (λ (l : List ℕ). Holds s l) bits h) in
      let len_block = length-take blocksize all in
      let len_later = length-drop blocksize all in
      let count : min blocksize (suc (length pixels)) ≡ length ds =
        sym (length-diffs bytepix last block ∙ len_block) in
      let left : suc (length pixels) - min blocksize (suc (length pixels)) ≡ length later =
        omega arith in
      let outs = undiffs lastpix ds in
      let lasts : last_of lastpix outs % values bytepix ≡ last_of last block % values bytepix =
        last_of_same (λ (v : ℕ). v % values bytepix) lastpix last outs block same back in
      let (rest, ran, equal) =
        decode_blocks-tile fuel (last_of last block) (last_of lastpix outs) later r.left more
          (omega arith) (IsU32-last_of last block u32 block_u32)
          (IsU32-last_of lastpix outs u32' (undiffs-IsU32 lastpix ds)) lasts
          (All-drop IsU32 blocksize all us) shorts r.holds in
      (
        outs ++ rest,
        decode_step p blocksize fuel (length pixels) lastpix r.stored s r.middle
            (record { pixels = outs; lastpix = last_of lastpix outs; left = r.left }) rest r.read
            (ap (λ (k : ℕ). read_block p r.stored k lastpix r.middle) count ∙ r.block)
            (ap (λ (k : ℕ). decode_blocks p blocksize fuel k (last_of lastpix outs) r.left) left
              ∙ ran),
        map-append (λ (v : ℕ). v % values bytepix) outs rest
            ∙ (λ i. back i ++ equal i)
            ∙ sym (map-append (λ (v : ℕ). v % values bytepix) block later)
            ∙ ap (map (λ (v : ℕ). v % values bytepix)) (take-append-drop blocksize all),
      )
