-- ===== src/Bench/Laws.antt =====
-- hw1: the workloads of the three programs compared.
use file_system_homework.Base.{
  append_empty, ℕ, zero, suc, ◌+◌, ◌-◌, ◌*◌, ◌/◌, ◌≡◌, ◌≤◌, ◌<◌, inl, inr, ◌∙◌, refl, sym, ap,
  subst, arith, List, [], ◌∷◌, ◌++◌, length, drop, replicate, overwrite, get_or, get_or_ext,
  length-overwrite, length-replicate, length-append, get_or-overwrite_in, get_or-overwrite_out,
  overwrite_front, overwrite-suc, length-drop, dec_lt,
}
use native.Mathlib.Nat.{mod-lt, mul-le-mul_right, div-mul-le_self, mul-div_cancel}
use file_system_homework.Copy.Async.{write_at}
use file_system_homework.Copy.Async.Writes.{
  length-write_at, get_or-write_at_front, get_or-write_at_in, get_or-write_at_back,
}
use file_system_homework.Bench.{
  write_blocks, map_blocks, create_file, sequential_write, sequential_write_mapped, random_offset,
  random_write, random_write_mapped,
}

-- In the file a `write` does what a copy into the mapping does.
write_at-overwrite :
    (offset : ℕ) (bytes file : List ℕ)
    → offset + length bytes ≤ length file
    → write_at offset bytes file ≡ overwrite offset bytes file
write_at-overwrite offset bytes file h =
    get_or_ext 0 (write_at offset bytes file) (overwrite offset bytes file)
      (omega (arith, same_length, length-overwrite offset bytes file))
      (λ j k.
        at j (dec_lt j offset) (dec_lt j (offset + length bytes)) (omega (arith, k, same_length)))
  where
    lengths :
        (length file ≤ length (write_at offset bytes file))
        × (offset + length bytes ≤ length (write_at offset bytes file))
        × ((n : ℕ)
            → length file ≤ n
            → offset + length bytes ≤ n
            → length (write_at offset bytes file) ≤ n)
    lengths = length-write_at offset bytes file

    same_length : length (write_at offset bytes file) ≡ length file
    same_length = omega (arith, lengths.0, lengths.2 (length file) (omega arith) h)

    at :
        (j : ℕ)
        → Dec (j < offset)
        → Dec (j < offset + length bytes)
        → j < length file
        → get_or (write_at offset bytes file) j 0 ≡ get_or (overwrite offset bytes file) j 0
    at j (yes p) q k =
        get_or-write_at_front offset bytes file j p k
        ∙ sym (get_or-overwrite_out offset bytes file j 0 (inl p))
    at j (no p) (yes q) k =
        let back : offset + (j - offset) ≡ j = omega (arith, p) in
        subst
          (λ n. get_or (write_at offset bytes file) n 0 ≡ get_or (overwrite offset bytes file) n 0)
          back
          (get_or-write_at_in offset bytes file (j - offset) (omega (arith, p, q))
            ∙ sym (get_or-overwrite_in offset bytes file (j - offset) 0 (omega (arith, p, q)) h))
    at j (no p) (no q) k =
        let m : ℕ = j - (offset + length bytes) in
        let back : offset + (length bytes + m) ≡ j = omega (arith, q) in
        let same : offset + length bytes + m ≡ j = omega (arith, q) in
        subst
          (λ n. get_or (write_at offset bytes file) n 0 ≡ get_or (overwrite offset bytes file) j 0)
          back
          (get_or-write_at_back offset bytes file m
            ∙ subst (λ n. get_or file n 0 ≡ get_or (overwrite offset bytes file) j 0) (sym same)
                (sym (get_or-overwrite_out offset bytes file j 0 (inr (omega (arith, q))))))

pub random_offset_lem :
    (file_size block_size write_size r : ℕ)
    → 0 < file_size / block_size
    → write_size ≤ block_size
    → random_offset file_size block_size r + write_size ≤ file_size
random_offset_lem file_size block_size write_size r pos h =
    omega
      (arith, h, mul-le-mul_right block_size (mod-lt r pos), div-mul-le_self file_size block_size)

-- On a file of the size given, random writes by `fwrite` or `write` and random copies into the mapping leave the same
-- file, of that size, if a write is no longer than a block and the file has room for one.
pub random_write-same :
    (file_size block_size write_size : ℕ) (rs file : List ℕ)
    → 0 < file_size / block_size
    → write_size ≤ block_size
    → length file ≡ file_size
    → (random_write file_size block_size write_size rs file
        ≡ random_write_mapped file_size block_size write_size rs file)
      × (length (random_write file_size block_size write_size rs file) ≡ file_size)
unfolding random_write random_write_mapped
random_write-same file_size block_size write_size [] file pos h l = (refl, l)
random_write-same file_size block_size write_size (r ∷ rs) file pos h l = rw same (
    random_write-same file_size block_size write_size rs
      (overwrite offset (replicate write_size b'4') file) pos h
      (length-overwrite offset (replicate write_size b'4') file ∙ l))
  where
    offset : ℕ
    offset = random_offset file_size block_size r

    same :
        write_at offset (replicate write_size b'4') file
        ≡ overwrite offset (replicate write_size b'4') file
    same = write_at-overwrite offset (replicate write_size b'4') file (
        omega (
          arith,
          random_offset_lem file_size block_size write_size r pos h,
          length-replicate {A = ℕ} write_size b'4',
          l,
        ))

overwrite_behind :
    (pre xs rest : List ℕ)
    → length xs ≤ length rest
    → overwrite (length pre) xs (pre ++ rest) ≡ (pre ++ xs) ++ drop (length xs) rest
overwrite_behind [] xs rest h = overwrite_front xs rest h
overwrite_behind (x ∷ pre) xs rest h =
    overwrite-suc (length pre) xs x (pre ++ rest) ∙ ap (◌∷◌ x) (overwrite_behind pre xs rest h)

map_blocks-write_blocks :
    (block : List ℕ) (i n : ℕ) (pre rest : List ℕ)
    → length pre ≡ i * length block
    → length rest ≡ n * length block
    → map_blocks block i n (pre ++ rest) ≡ write_blocks block n pre
unfolding map_blocks write_blocks
map_blocks-write_blocks block i zero pre rest h k = sym (append_empty rest pre (omega (arith, k)))
map_blocks-write_blocks block i (suc n) pre rest h k =
    ap (λ o. map_blocks block (suc i) n (overwrite o block (pre ++ rest))) (sym h)
    ∙ ap (map_blocks block (suc i) n) (overwrite_behind pre block rest (omega (arith, k)))
    ∙ map_blocks-write_blocks block (suc i) n (pre ++ block) (drop (length block) rest)
        (omega (arith, h, length-append pre block))
        (omega (arith, k, length-drop (length block) rest))

write_blocks-replicate :
    (n m k : ℕ) (c : ℕ) → write_blocks (replicate m c) n (replicate k c) ≡ replicate (k + n * m) c
unfolding write_blocks
write_blocks-replicate zero m k c = ap (λ t. replicate t c) (same k m)
  where
    same : (k m : ℕ) → k ≡ k + 0 * m
    same k m = omega arith
write_blocks-replicate (suc n) m k c =
    ap (write_blocks (replicate m c) n) (replicate-append k m)
    ∙ write_blocks-replicate n m (k + m) c
    ∙ ap (λ t. replicate t c) (total k m n)
  where
    replicate-append : (k m : ℕ) → replicate k c ++ replicate m c ≡ replicate (k + m) c
    replicate-append zero m = ap (λ t. replicate t c) (zero_left m)
      where
        zero_left : (m : ℕ) → m ≡ 0 + m
        zero_left m = omega arith
    replicate-append (suc k) m =
        let e : suc k + m ≡ suc (k + m) = omega arith in rw e (ap (◌∷◌ c) (replicate-append k m))

    total : (k m n : ℕ) → k + m + n * m ≡ k + suc n * m
    total k m n = omega arith

-- `create_file` fills the file with '1', and both ways to write it in sequence leave '2' in all of it, whatever the
-- mapped file held before, if the size of the file is a number of blocks and a block is not empty.
pub sequential_write-same :
    (n block_size : ℕ) (file : List ℕ)
    → 0 < block_size
    → length file ≡ n * block_size
    → (create_file (n * block_size) block_size ≡ replicate (n * block_size) b'1')
      × (sequential_write (n * block_size) block_size ≡ replicate (n * block_size) b'2')
      × (sequential_write_mapped (n * block_size) block_size file ≡ replicate (n * block_size) b'2')
unfolding create_file sequential_write sequential_write_mapped
sequential_write-same n block_size file pos l = (
  filled b'1',
  filled b'2',
  ap (λ q. map_blocks (replicate block_size b'2') 0 q file) blocks
      ∙ map_blocks-write_blocks (replicate block_size b'2') 0 n [] file (omega arith)
          (l ∙ ap (λ t. n * t) (sym (length-replicate {A = ℕ} block_size b'2')))
      ∙ all b'2',
)
  where
    blocks : n * block_size / block_size ≡ n
    blocks = mul-div_cancel n pos

    zero_left : 0 + n * block_size ≡ n * block_size
    zero_left = omega arith

    all : (c : ℕ) → write_blocks (replicate block_size c) n [] ≡ replicate (n * block_size) c
    all c = write_blocks-replicate n block_size 0 c ∙ ap (λ t. replicate t c) zero_left

    filled :
        (c : ℕ)
        → write_blocks (replicate block_size c) (n * block_size / block_size) []
          ≡ replicate (n * block_size) c
    filled c = ap (λ q. write_blocks (replicate block_size c) q []) blocks ∙ all c
