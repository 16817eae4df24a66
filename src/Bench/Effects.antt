-- ===== src/Bench/Effects.antt =====
-- hw1: what each workload does to a file of the right size, in all three programs.
use file_system_homework.Base.{
  ℕ, suc, ◌-◌, ◌*◌, ◌/◌, ◌≡◌, ◌≤◌, ◌<◌, ◌∙◌, refl, sym, ap, ap₂, subst, arith, Bool, true, false,
  ◌&&◌, List, some, length,
}
use file_system_homework.Bench.World.{
  Sizes, World, Calls, Result, returned, exited, close_fd, open_fd, unmap_file, Workload, can_open,
  with_file, with_mapping,
}

-- The file is a number of blocks of either size, and a write is no longer than a block.
abbrev pub IsSizes : Sizes → Type 0
IsSizes z =
    ((n : ℕ) × (z.file_size ≡ n * z.block_size))
    × ((m : ℕ) × (z.file_size ≡ m * z.write_size))
    × (0 < z.write_size)
    × (z.write_size ≤ z.block_size)
    × (0 < z.file_size / z.block_size)

abbrev pub HasFile : Sizes → World → Type 0
HasFile z w = (bytes : List ℕ) × (w.file ≡ some bytes) × (length bytes ≡ z.file_size)

abbrev pub Effect : Type 0
Effect = World → World

-- What a workload does when its calls succeed, and when they do not.
abbrev pub Acts : Sizes → (Calls → Bool) → Effect → Workload → Type 0
Acts z works effect f =
    (c : Calls) (w : World)
    → HasFile z w
    → ((works c ≡ true) → (f c w ≡ returned (effect w)) × HasFile z (effect w))
      × ((works c ≡ false) → (w' : World) × (f c w ≡ exited w') × (w'.file ≡ w.file))

-- A descriptor that is opened and closed.
opened : (w : World) → suc w.open_fds - 1 ≡ w.open_fds
opened w = omega arith

mapped : (w : World) → suc w.mappings - 1 ≡ w.mappings
mapped w = omega arith

-- A body that leaves the descriptors and mappings alone.
abbrev pub IsBody : Effect → Type 0
IsBody body =
    (w : World) (m n : ℕ)
    → body (record w { open_fds = m; mappings = n })
      ≡ record (body w) { open_fds = m; mappings = n }

pub with_file-returned :
    (body : Effect) (w : World) → IsBody body → with_file true body w ≡ returned (body w)
with_file-returned body w h =
    ap (λ v. returned (close_fd v)) (h w (suc w.open_fds) w.mappings)
    ∙ ap (λ n. returned (record (body w) { open_fds = n; mappings = w.mappings })) (opened w)
    ∙ ap returned (sym (h w w.open_fds w.mappings))

with_mapping-returned :
    (body : Effect) (w : World) → IsBody body → with_mapping true true body w ≡ returned (body w)
with_mapping-returned body w h =
    ap (λ v. returned (close_fd (unmap_file v))) (h w (suc w.open_fds) (suc w.mappings))
    ∙ ap₂ (λ m n. returned (record (body w) { open_fds = m; mappings = n })) (opened w) (mapped w)
    ∙ ap returned (sym (h w w.open_fds w.mappings))

-- A workload that opens the file by name, and one that maps it, with the body `body`, which does what `effect` does.
module _ (z : Sizes) (effect body : Effect) (is_body : IsBody body)
    (same : (w : World) → HasFile z w → body w ≡ effect w)
    (keeps : (w : World) → HasFile z w → HasFile z (effect w)) where
  -- The two outcomes of a call, by whether it works.
  abbrev Outcome : World → Bool → Result → Type 0
  Outcome w b r =
      ((b ≡ true) → (r ≡ returned (effect w)) × HasFile z (effect w))
      × ((b ≡ false) → (w' : World) × (r ≡ exited w') × (w'.file ≡ w.file))

  made-Outcome : (w : World) → HasFile z w → (b : Bool) → Outcome w b (with_file b body w)
  made-Outcome w file true = (
    (λ e. (with_file-returned body w is_body ∙ ap returned (same w file), keeps w file)),
    λ e. absurd cc,
  )
  made-Outcome w file false = ((λ e. absurd cc), λ e. (w, refl, refl))

  there : (c : Calls) (w : World) → HasFile z w → can_open c w ≡ c.opens
  there c w (bytes, e, l) = rw e refl

  pub made-Acts : Acts z (λ c. c.opens) effect (λ c. with_file c.opens body)
  made-Acts c w file = made-Outcome w file c.opens

  pub opened-Acts : Acts z (λ c. c.opens) effect (λ c w. with_file (can_open c w) body w)
  opened-Acts c w file =
      subst (λ b. Outcome w c.opens (with_file b body w)) (sym (there c w file))
        (made-Outcome w file c.opens)

  map-Outcome :
      (w : World) → HasFile z w → (b m : Bool) → Outcome w (b && m) (with_mapping b m body w)
  map-Outcome w file true true = (
    (λ e. (with_mapping-returned body w is_body ∙ ap returned (same w file), keeps w file)),
    λ e. absurd cc,
  )
  map-Outcome w file true false = ((λ e. absurd cc), λ e. (open_fd w, refl, refl))
  map-Outcome w file false m = ((λ e. absurd cc), λ e. (w, refl, refl))

  pub mapped-Acts :
      Acts z (λ c. c.opens && c.maps) effect (λ c w. with_mapping (can_open c w) c.maps body w)
  mapped-Acts c w file =
      subst (λ b. Outcome w (c.opens && c.maps) (with_mapping b c.maps body w))
        (sym (there c w file)) (map-Outcome w file c.opens c.maps)
