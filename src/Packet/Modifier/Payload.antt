-- ===== src/Packet/Modifier/Payload.antt =====
-- What `modify_payload_same_length` writes, byte by byte.
use file_system_homework.Base.{
  ℕ, ◌+◌, ◌≤◌, ◌<◌, ◌≡◌, ◌⊎◌, inr, refl, sym, ◌∙◌, arith, List, ltb, if◌then◌else◌, length, slice,
  take, replicate, overwrite, length-overwrite, length-take, length-replicate, get_or-overwrite_out,
  slice-overwrite_out, get_or-overwrite_in, get_or-replicate, get_or_default, get_or_beyond,
  get_or-take, get_or, dec_lt,
}
use file_system_homework.Packet.Bytes.{
  byte_at, IsBytes, IsBytes-slice, all_bytes-IsBytes, IsBytes-overwrite, IsBytes-replicate,
}
use file_system_homework.Packet.Modifier.{modify_text, modify_payload_same_length}

modify_text-IsBytes : IsBytes modify_text
modify_text-IsBytes = all_bytes-IsBytes modify_text refl

-- The payload is replaced in place: nothing before or after it changes.
module _ (payload len : ℕ) (buffer : List ℕ) where
  abbrev written : ℕ
  written = if ltb len (length modify_text) then len else length modify_text

  written-le : length (take written modify_text) ≤ len
  written-le = ground (arith, length-take written modify_text)

  pub length-modify_payload : length (modify_payload_same_length payload len buffer) ≡ length buffer
  unfolding modify_payload_same_length
  length-modify_payload = length-overwrite payload _ _ ∙ length-overwrite payload _ buffer

  pub IsBytes-modify_payload :
      IsBytes buffer → IsBytes (modify_payload_same_length payload len buffer)
  unfolding modify_payload_same_length
  IsBytes-modify_payload b =
      IsBytes-overwrite payload _ _ (IsBytes-slice 0 written modify_text modify_text-IsBytes)
        (IsBytes-overwrite payload _ buffer (IsBytes-replicate len b' ' (omega arith)) b)

  pub byte_at-modify_payload_out :
      (j : ℕ)
      → (j < payload) ⊎ (payload + len ≤ j)
      → byte_at (modify_payload_same_length payload len buffer) j ≡ byte_at buffer j
  unfolding modify_payload_same_length
  byte_at-modify_payload_out j h =
      get_or-overwrite_out payload _ _ j 0 (ground (arith, written-le))
      ∙ get_or-overwrite_out payload (replicate len b' ') buffer j 0
          (ground (arith, length-replicate len (let c : ℕ = b' ' in c)))

  pub slice-modify_payload_out :
      (lo n : ℕ)
      → (payload + len ≤ lo) ⊎ (lo + n ≤ payload)
      → slice lo n (modify_payload_same_length payload len buffer) ≡ slice lo n buffer
  unfolding modify_payload_same_length
  slice-modify_payload_out lo n h =
      slice-overwrite_out lo n payload _ _ (ground (arith, written-le))
      ∙ slice-overwrite_out lo n payload (replicate len b' ') buffer
          (ground (arith, length-replicate len (let c : ℕ = b' ' in c)))

  pub byte_at-modify_payload_in :
      (j : ℕ)
      → j < len
      → payload + len ≤ length buffer
      → byte_at (modify_payload_same_length payload len buffer) (payload + j)
        ≡ get_or modify_text j b' '
  unfolding modify_payload_same_length
  byte_at-modify_payload_in j h fits = elim (dec_lt j (length text)) [
    | yes inside ↦
        get_or-overwrite_in payload text blanked j 0 inside
          (omega (arith, written-le, length_blanked))
        ∙ get_or-take written modify_text j 0 (omega (arith, length-take written modify_text))
        ∙ get_or_default modify_text j 0 b' ' (omega (arith, length-take written modify_text))
    | no beyond ↦
        get_or-overwrite_out payload text blanked (payload + j) 0 (inr (omega arith))
        ∙ get_or-overwrite_in payload (replicate len b' ') buffer j 0 (omega (arith, blanks))
            (omega (arith, blanks))
        ∙ get_or-replicate len b' ' j 0 h
        ∙ sym (get_or_beyond modify_text j b' ' (ground (arith, length-take written modify_text)))
  ]
    where
      text : List ℕ
      text = take written modify_text

      blanked : List ℕ
      blanked = overwrite payload (replicate len b' ') buffer

      blanks : length (replicate len (let c : ℕ = b' ' in c)) ≡ len
      blanks = length-replicate len b' '

      length_blanked : length blanked ≡ length buffer
      length_blanked = length-overwrite payload (replicate len b' ') buffer
