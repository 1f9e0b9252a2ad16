-- ===== src/Shell/Tests.antt =====
-- Runs of the number parser and of the history.
use runix_os.Prelude.{ℕ, ◌<◌, ◌≤◌, ◌≡◌, ◌⊎◌, some, none, List, ◌∷◌, [], length, get_or}
use runix_os.Shell.History.{new as no_history, get}
use runix_os.Shell.History.Entered.{push_all, after_commands, get-push_all}
use runix_os.Shell.Number.{parse_usize, are_digits, value_from, parse_usize-value}

parse_usize-value_example : parse_usize (52 ∷ 50 ∷ []) ≡ some 42
unfolding are_digits value_from
parse_usize-value_example = parse_usize-value (52 ∷ 50 ∷ [])

-- Three commands, the last like the one before it.
abbrev entered : List (List ℕ)
entered = (108 ∷ []) ∷ (112 ∷ []) ∷ (112 ∷ []) ∷ []

get-push_all_example :
    let recent = after_commands [] entered in
    ((1 < length recent) × (get (push_all no_history entered) 2 ≡ some (get_or recent 1 [])))
    ⊎ ((length recent ≤ 1) × (get (push_all no_history entered) 2 ≡ none))
get-push_all_example = get-push_all entered 1
