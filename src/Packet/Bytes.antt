-- ===== src/Packet/Bytes.antt =====
-- Memory as a little-endian host (x86) reads it: `unsigned short` loads and stores, `htons`.
use file_system_homework.Base.{
  ℕ, zero, suc, ◌+◌, ◌*◌, ◌/◌, ◌%◌, ◌≤◌, ◌<◌, ◌≡◌, ◌∙◌, ap, ◌⊎◌, inl, inr, List, [], ◌∷◌, arith,
  length, get_or, set, slice, length-set, get_or-set_self, get_or-set_ne, slice-set_in,
  slice-set_out, take, drop, get_or-drop, Bool, true, ltb, ◌&&◌, ◌++◌, replicate, overwrite,
}

abbrev pub byte_at : List ℕ → ℕ → ℕ
byte_at buf i = get_or buf i 0

-- `*(unsigned short *)(buf + off)`
abbrev pub load16 : List ℕ → ℕ → ℕ
load16 buf off = byte_at buf off + 256 * byte_at buf (off + 1)

-- `*(unsigned short *)(buf + off) = v`
abbrev pub store16 : List ℕ → ℕ → ℕ → List ℕ
store16 buf off v = set (set buf off (v % 256)) (off + 1) (v / 256 % 256)

-- `htons` and `ntohs` swap the two bytes.
abbrev pub htons : ℕ → ℕ
htons v = v % 256 * 256 + v / 256 % 256

abbrev pub IsBytes : List ℕ → Type 0
IsBytes buf = (i : ℕ) → byte_at buf i < 256

pub htons-htons : (v : ℕ) → v < 65536 → htons (htons v) ≡ v
htons-htons v h = omega arith

-- A field that is read back in network order is the number that was written.
pub ntohs_of_bytes :
    (buf : List ℕ) (off : ℕ)
    → IsBytes buf
    → htons (load16 buf off) ≡ 256 * byte_at buf off + byte_at buf (off + 1)
ntohs_of_bytes buf off h = omega (arith, h off, h (off + 1))

pub IsBytes-set : (buf : List ℕ) (i v : ℕ) → v < 256 → IsBytes buf → IsBytes (set buf i v)
IsBytes-set [] i v h b j = b j
IsBytes-set (x ∷ xs) zero v h b zero = h
IsBytes-set (x ∷ xs) zero v h b (suc j) = b (suc j)
IsBytes-set (x ∷ xs) (suc i) v h b zero = b zero
IsBytes-set (x ∷ xs) (suc i) v h b (suc j) = IsBytes-set xs i v h (λ k. b (suc k)) j

pub IsBytes-store16 : (buf : List ℕ) (off v : ℕ) → IsBytes buf → IsBytes (store16 buf off v)
IsBytes-store16 buf off v b =
    IsBytes-set _ (off + 1) _ (omega arith) (IsBytes-set buf off _ (omega arith) b)

IsBytes-take : (n : ℕ) (buf : List ℕ) → IsBytes buf → IsBytes (take n buf)
IsBytes-take zero buf b i = omega arith
IsBytes-take (suc n) [] b i = b i
IsBytes-take (suc n) (x ∷ xs) b zero = b zero
IsBytes-take (suc n) (x ∷ xs) b (suc i) = IsBytes-take n xs (λ k. b (suc k)) i

IsBytes-drop : (n : ℕ) (buf : List ℕ) → IsBytes buf → IsBytes (drop n buf)
IsBytes-drop n buf b i = rw (get_or-drop n buf i 0) (b (n + i))

pub IsBytes-slice : (off len : ℕ) (buf : List ℕ) → IsBytes buf → IsBytes (slice off len buf)
IsBytes-slice off len buf b = IsBytes-take len (drop off buf) (IsBytes-drop off buf b)

pub length-store16 : (buf : List ℕ) (off v : ℕ) → length (store16 buf off v) ≡ length buf
length-store16 buf off v = length-set _ (off + 1) _ ∙ length-set buf off _

pub load16-store16 :
    (buf : List ℕ) (off v : ℕ)
    → off + 1 < length buf
    → v < 65536
    → load16 (store16 buf off v) off ≡ v
load16-store16 buf off v h w = ground (
  arith,
  get_or-set_ne (set buf off (v % 256)) (off + 1) off (v / 256 % 256) 0,
  get_or-set_self buf off (v % 256) 0,
  get_or-set_self (set buf off (v % 256)) (off + 1) (v / 256 % 256) 0,
  length-set buf off (v % 256),
)

pub byte_at-store16 :
    (buf : List ℕ) (off v j : ℕ)
    → (j < off) ⊎ (off + 1 < j)
    → byte_at (store16 buf off v) j ≡ byte_at buf j
byte_at-store16 buf off v j h = ground (
  arith,
  get_or-set_ne (set buf off (v % 256)) (off + 1) j (v / 256 % 256) 0,
  get_or-set_ne buf off j (v % 256) 0,
)

pub slice-store16_in :
    (off len : ℕ) (buf : List ℕ) (i v : ℕ)
    → i + 1 < len
    → slice off len (store16 buf (off + i) v) ≡ store16 (slice off len buf) i v
slice-store16_in off len buf i v h =
    let e : off + i + 1 ≡ off + (i + 1) = omega arith in
    rw e (
      slice-set_in off len _ (i + 1) _ h
      ∙ ap (λ (l : List ℕ). set l (i + 1) (v / 256 % 256))
          (slice-set_in off len buf i (v % 256) (omega arith)))

pub slice-store16_out :
    (off len : ℕ) (buf : List ℕ) (j v : ℕ)
    → (j + 1 < off) ⊎ (off + len ≤ j)
    → slice off len (store16 buf j v) ≡ slice off len buf
slice-store16_out off len buf j v (inl h) =
    slice-set_out off len _ (j + 1) _ (inl h) ∙ slice-set_out off len buf j _ (inl (omega arith))
slice-store16_out off len buf j v (inr h) =
    slice-set_out off len _ (j + 1) _ (inr (omega arith)) ∙ slice-set_out off len buf j _ (inr h)

-- The bytes of a block of constants are checked by evaluation.
abbrev pub all_bytes : List ℕ → Bool
all_bytes [] = true
all_bytes (x ∷ xs) = ltb x 256 && all_bytes xs

pub all_bytes-IsBytes : (buf : List ℕ) → all_bytes buf ≡ true → IsBytes buf
all_bytes-IsBytes [] h i = omega arith
all_bytes-IsBytes (x ∷ xs) h zero = ground arith
all_bytes-IsBytes (x ∷ xs) h (suc i) = all_bytes-IsBytes xs (ground arith) i

pub IsBytes-append : (xs ys : List ℕ) → IsBytes xs → IsBytes ys → IsBytes (xs ++ ys)
IsBytes-append [] ys hx hy i = hy i
IsBytes-append (x ∷ xs) ys hx hy zero = hx 0
IsBytes-append (x ∷ xs) ys hx hy (suc i) = IsBytes-append xs ys (λ k. hx (suc k)) hy i

pub IsBytes-replicate : (n v : ℕ) → v < 256 → IsBytes (replicate n v)
IsBytes-replicate zero v h i = omega arith
IsBytes-replicate (suc n) v h zero = h
IsBytes-replicate (suc n) v h (suc i) = IsBytes-replicate n v h i

pub IsBytes-overwrite :
    (off : ℕ) (xs buf : List ℕ) → IsBytes xs → IsBytes buf → IsBytes (overwrite off xs buf)
unfolding overwrite
IsBytes-overwrite off [] buf h b = b
IsBytes-overwrite off (x ∷ xs) buf h b =
    IsBytes-overwrite (suc off) xs (set buf off x) (λ i. h (suc i)) (IsBytes-set buf off x (h 0) b)
