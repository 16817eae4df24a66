-- ===== src/Listing/Options.antt =====
-- hw2/hw2_1: the words on the command line of HW2_1_3.
use file_system_homework.Base.{
  ℕ, ◌≡◌, arith, Bool, true, false, ◌||◌, List, [], ◌∷◌, same_text, if◌then◌else◌,
}
use file_system_homework.Listing.{Asked, dash_l, read_options, ask}

-- Whether the option is among the words, and the last word that is not the option.
pub has_option : List (List ℕ) → Bool
has_option [] = false
has_option (w ∷ ws) = same_text w dash_l || has_option ws

pub last_path : List ℕ → List (List ℕ) → List ℕ
last_path path [] = path
last_path path (w ∷ ws) = last_path (if same_text w dash_l then path else w) ws

read_options_lem :
    (ws : List (List ℕ)) (a : Asked)
    → read_options ws a
      ≡ record { is_l = a.is_l || has_option ws; target_path = last_path a.target_path ws }
unfolding read_options has_option last_path
read_options_lem [] a = ground arith
read_options_lem (w ∷ ws) a = ground (
  arith,
  read_options_lem ws (record a { is_l = true }),
  read_options_lem ws (record a { target_path = w }),
)

-- The long form is asked for if -l is among the words, in any place, and the directory is the last word that is not -l,
-- or the current one.
pub ask_lem :
    (ws : List (List ℕ))
    → ask ws ≡ record { is_l = has_option ws; target_path = last_path (b'.' ∷ []) ws }
unfolding ask
ask_lem ws = read_options_lem ws (record { is_l = false; target_path = b'.' ∷ [] })
