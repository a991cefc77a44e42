-- ===== src/Protocol/Layout.antt =====
-- The bytes of a header: what `put_header` writes, `read_header` reads back, and the other way.
use vm_sync.Base.{ℕ, zero, suc, ◌+◌, ◌<◌, ◌^◌, ◌≡◌, refl, ◌∙◌, ap, arith, List, [], ◌∷◌, ◌++◌}
use vm_sync.Base.{length, take, drop, length-take, length-drop, All}
use vm_sync.Base.{take-append-drop, ◌≤◌}
use vm_sync.Base.{drop-drop, All-take, All-drop}
use vm_sync.Protocol.Bytes.{
  IsByte, put_be, be_value, be_loop, be_value-put_be, put_be-be_value, be_value-lt,
}
use vm_sync.Protocol.Frame.{Header}
use vm_sync.Protocol.Codec.{put_header, read_header, first}

-- Each field fits its width.
pub record Fits (h : Header) : Type 0 where
  pub magic : h.magic < 2 ^ 16
  pub version : h.version < 2 ^ 8
  pub type : h.type < 2 ^ 8
  pub seq : h.seq < 2 ^ 64
  pub length : h.length < 2 ^ 32
  pub crc : h.crc < 2 ^ 32

pub length-put_header : (h : Header) → length (put_header h) ≡ 20
unfolding put_header put_be
length-put_header h = refl

pub read_header-put_header : (h : Header) → Fits h → read_header (put_header h) ≡ h
unfolding read_header put_header put_be be_loop
read_header-put_header h f = λ i. record {
  magic = be_value-put_be 2 h.magic f.magic i;
  version = h.version;
  type = h.type;
  seq = be_value-put_be 8 h.seq f.seq i;
  length = be_value-put_be 4 h.length f.length i;
  crc = be_value-put_be 4 h.crc f.crc i;
}

-- One field of a buffer that is long enough, written again.
module _ (k i : ℕ) (buf : List ℕ) (h : All IsByte buf) (fits : i + k ≤ length buf) where
  length-part : length (take k (drop i buf)) ≡ k
  length-part = omega (arith, length-take k (drop i buf), length-drop i buf)

  part-IsByte : All IsByte (take k (drop i buf))
  part-IsByte = All-take IsByte k (drop i buf) (All-drop IsByte i buf h)

  put_be-slice : put_be k (be_value (take k (drop i buf))) ≡ take k (drop i buf)
  put_be-slice = rw length-part at (put_be-be_value (take k (drop i buf)) part-IsByte)

  slice-lt : be_value (take k (drop i buf)) < 256 ^ k
  slice-lt = rw length-part at (be_value-lt (take k (drop i buf)) part-IsByte)

first_two :
    (i : ℕ) (buf : List ℕ)
    → suc i < length buf
    → first (drop i buf) ∷ first (drop (suc i) buf) ∷ [] ≡ take 2 (drop i buf)
first_two i [] h = absurd (omega arith)
first_two zero (a ∷ []) h = absurd (omega arith)
first_two zero (a ∷ b ∷ bs) h = refl
first_two (suc i) (a ∷ bs) h = first_two i bs (omega arith)

take_all : (n : ℕ) (xs : List ℕ) → length xs ≤ n → take n xs ≡ xs
take_all zero [] h = refl
take_all (suc n) [] h = refl
take_all zero (x ∷ xs) h = absurd (omega arith)
take_all (suc n) (x ∷ xs) h = ap (λ (r : List ℕ). x ∷ r) (take_all n xs (omega arith))

take_next :
    (a b : ℕ) (buf : List ℕ) {xs ys : List ℕ}
    → xs ≡ take a (drop b buf)
    → ys ≡ drop (b + a) buf
    → xs ++ ys ≡ drop b buf
take_next a b buf ex ey = rw (ex, ey, ← drop-drop a b buf) (take-append-drop a (drop b buf))

-- Writing the fields that were read gives the bytes of the header.
pub put_header-read_header :
    (buf : List ℕ) → All IsByte buf → length buf ≡ 20 → put_header (read_header buf) ≡ buf
unfolding put_header read_header
put_header-read_header buf h len = take_next 2 0 buf (put_be-slice 2 0 buf h (omega arith)) (
    take_next 2 2 buf (first_two 2 buf (omega arith)) (
      take_next 8 4 buf (put_be-slice 8 4 buf h (omega arith))
        (take_next 4 12 buf (put_be-slice 4 12 buf h (omega arith)) last)))
  where
    last : put_be 4 (be_value (take 4 (drop 16 buf))) ≡ drop 16 buf
    last =
        put_be-slice 4 16 buf h (omega arith)
        ∙ take_all 4 (drop 16 buf) (omega (arith, length-drop 16 buf))

pub read_header-Fits : (buf : List ℕ) → All IsByte buf → length buf ≡ 20 → Fits (read_header buf)
unfolding read_header
read_header-Fits buf h len = record {
  magic = slice-lt 2 0 buf h (omega arith);
  version = first-lt (drop 2 buf) (All-drop IsByte 2 buf h);
  type = first-lt (drop 3 buf) (All-drop IsByte 3 buf h);
  seq = slice-lt 8 4 buf h (omega arith);
  length = slice-lt 4 12 buf h (omega arith);
  crc = slice-lt 4 16 buf h (omega arith);
}
  where
    first-lt : (xs : List ℕ) → All IsByte xs → first xs < 2 ^ 8
    first-lt [] k = omega arith
    first-lt (x ∷ xs) k = omega (arith, k.0)
