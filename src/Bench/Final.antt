-- ===== src/Bench/Final.antt =====
-- hw1: the world after the workloads, byte by byte.
use native.Mathlib.Nat.{div-mul-le_self}
use file_system_homework.Base.{
  ℕ, ◌+◌, ◌-◌, ◌/◌, ◌≡◌, ◌≤◌, ◌<◌, inl, inr, ◌∙◌, refl, ap, ap₂, subst, arith, Bool, false, ◌&&◌,
  ◌||◌, List, [], ◌∷◌, ◌++◌, some, length, length-replicate, length-overwrite, get_or,
  get_or-replicate, get_or-overwrite_in, get_or-overwrite_out, overwrite, replicate, ltb, leb,
  if◌then◌else◌, dec_lt,
}
use file_system_homework.Bench.{random_offset, random_write_mapped}
use file_system_homework.Bench.Laws.{random_offset_lem}
use file_system_homework.Bench.World.{Sizes, World, draws}
use file_system_homework.Bench.Reads.{read_blocks-replicate, random_blocks-replicate, length-draws}
use file_system_homework.Bench.Effects.{IsSizes}
use file_system_homework.Bench.Workloads.{read, written, read_at_random, written_at_random}

-- Whether the write at the offset that `r` gives covers a byte, and whether one of several does.
abbrev pub covers : Sizes → ℕ → ℕ → Bool
covers z j r =
    let offset = random_offset z.file_size z.block_size r in
    leb offset j && ltb j (offset + z.write_size)

abbrev pub any_covers : Sizes → ℕ → List ℕ → Bool
any_covers z j [] = false
any_covers z j (r ∷ rs) = covers z j r || any_covers z j rs

overwrite-byte :
    (offset k c : ℕ) (file : List ℕ) (j : ℕ)
    → offset + k ≤ length file
    → get_or (overwrite offset (replicate k c) file) j 0
      ≡ (if leb offset j && ltb j (offset + k) then c else get_or file j 0)
overwrite-byte offset k c file j h = at (dec_lt j offset) (dec_lt j (offset + k))
  where
    len : length (replicate k c) ≡ k
    len = length-replicate {A = ℕ} k c

    at :
        Dec (j < offset)
        → Dec (j < offset + k)
        → get_or (overwrite offset (replicate k c) file) j 0
          ≡ (if leb offset j && ltb j (offset + k) then c else get_or file j 0)
    at (yes p) q = ground (arith, p, get_or-overwrite_out offset (replicate k c) file j 0 (inl p))
    at (no p) (yes q) =
        let back : offset + (j - offset) ≡ j = omega (arith, p) in
        let inside : j - offset < k = omega (arith, p, q) in
        let found : get_or (overwrite offset (replicate k c) file) j 0 ≡ c =
          subst (λ n. get_or (overwrite offset (replicate k c) file) n 0 ≡ c) back
            (get_or-overwrite_in offset (replicate k c) file (j - offset) 0
                (omega (arith, inside, len)) (omega (arith, h, len))
              ∙ get_or-replicate k c (j - offset) 0 inside) in
        ground (arith, p, q, found)
    at (no p) (no q) = ground (
      arith,
      p,
      q,
      get_or-overwrite_out offset (replicate k c) file j 0 (inr (omega (arith, q, len))),
    )

either :
    (a b : Bool) (y x : ℕ)
    → x ≡ (if b then b'4' else y)
    → (if a then b'4' else x) ≡ (if b || a then b'4' else y)
either a b y x e = ground (arith, e)

module _ (z : Sizes) (sizes : IsSizes z) where
  random_write_mapped-byte :
      (rs file : List ℕ) (j : ℕ)
      → length file ≡ z.file_size
      → (get_or (random_write_mapped z.file_size z.block_size z.write_size rs file) j 0
          ≡ (if any_covers z j rs then b'4' else get_or file j 0))
        × (length (random_write_mapped z.file_size z.block_size z.write_size rs file) ≡ z.file_size)
  unfolding random_write_mapped
  random_write_mapped-byte [] file j l = (refl, l)
  random_write_mapped-byte (r ∷ rs) file j l =
      let ih =
        random_write_mapped-byte rs (overwrite offset fours file) j
          (length-overwrite offset fours file ∙ l) in
      (
        ih.0
            ∙ either (any_covers z j rs) (covers z j r) (get_or file j 0) _ (
                overwrite-byte offset z.write_size b'4' file j (
                  omega (
                    arith,
                    l,
                    random_offset_lem z.file_size z.block_size z.write_size r sizes.4 sizes.3,
                  ))),
        ih.1,
      )
    where
      offset : ℕ
      offset = random_offset z.file_size z.block_size r

      fours : List ℕ
      fours = replicate z.write_size b'4'

  -- What `main` leaves, if all calls succeed.
  module _ (rand : ℕ → ℕ) (w : World) where
    -- The offsets of the two workloads that write at random.
    abbrev pub buffered : List ℕ
    buffered = draws rand z.times (w.drawn + z.times)

    abbrev pub synchronous : List ℕ
    synchronous = draws rand z.times (w.drawn + z.times + z.times)

    abbrev pub Leaves : World → Type 0
    Leaves w' =
        ((bytes : List ℕ) × (w'.file ≡ some bytes)
          × (length bytes ≡ z.file_size)
          × ((j : ℕ)
              → j < z.file_size
              → get_or bytes j 0
                ≡ (if any_covers z j buffered || any_covers z j synchronous then b'4' else b'2')))
        × (w'.reads
            ≡ (w.reads ++ replicate (z.file_size / z.block_size) (replicate z.block_size b'1'))
              ++ replicate z.times (replicate z.block_size b'2'))
        × (w'.open_fds ≡ w.open_fds)
        × (w'.mappings ≡ w.mappings)
        × (w'.drawn ≡ w.drawn + z.times + z.times + z.times)

    abbrev pub created : World
    created = record w { file = some (replicate z.file_size b'1') }

    abbrev pub ended : World
    ended =
        written_at_random z rand
          (written_at_random z rand (read_at_random z rand (written z rand (read z rand created))))

    pub ended-Leaves : Leaves ended
    ended-Leaves = (
      (second, refl, (after_second 0).1, byte),
      ap₂ (λ a b. (w.reads ++ a) ++ b)
          (read_blocks-replicate (z.file_size / z.block_size) z.block_size 0 z.file_size b'1'
            (omega (arith, div-mul-le_self z.file_size z.block_size)))
          (random_blocks-replicate z.file_size z.block_size (draws rand z.times w.drawn) b'2'
              sizes.4
            ∙ ap (λ n. replicate n (replicate z.block_size b'2'))
                (length-draws rand z.times w.drawn)),
      refl,
      refl,
      refl,
    )
      where
        twos : List ℕ
        twos = replicate z.file_size b'2'

        first : List ℕ
        first = random_write_mapped z.file_size z.block_size z.write_size buffered twos

        second : List ℕ
        second = random_write_mapped z.file_size z.block_size z.write_size synchronous first

        after_first :
            (j : ℕ)
            → (get_or first j 0 ≡ (if any_covers z j buffered then b'4' else get_or twos j 0))
              × (length first ≡ z.file_size)
        after_first j =
            random_write_mapped-byte buffered twos j (length-replicate {A = ℕ} z.file_size b'2')

        after_second :
            (j : ℕ)
            → (get_or second j 0 ≡ (if any_covers z j synchronous then b'4' else get_or first j 0))
              × (length second ≡ z.file_size)
        after_second j = random_write_mapped-byte synchronous first j (after_first 0).1

        byte :
            (j : ℕ)
            → j < z.file_size
            → get_or second j 0
              ≡ (if any_covers z j buffered || any_covers z j synchronous then b'4' else b'2')
        byte j h =
            (after_second j).0
            ∙ either (any_covers z j synchronous) (any_covers z j buffered) b'2' (get_or first j 0)
                ((after_first j).0
                  ∙ ap (λ c. if any_covers z j buffered then b'4' else c)
                      (get_or-replicate z.file_size b'2' j 0 h))
