-- ===== src/Shell/History/Entered.antt =====
-- The history after all the commands that were entered.
use runix_os.Prelude.{
  ℕ, suc, ◌<◌, ◌≤◌, ◌≡◌, ◌⊎◌, inl, inr, arith, Bool-cases, none, some, List, [], ◌∷◌, ltb, length,
  get_or,
}
use runix_os.Shell.History.{History, new, push, get}
use runix_os.Shell.History.Recent.{Shows, new-Shows, after_command, push-Shows, get-Shows}

-- A history after commands, the first one first, and the list that it is to show.
unfoldable pub push_all : History → List (List ℕ) → History
push_all h [] = h
push_all h (cmd ∷ cmds) = push_all (push h cmd) cmds

unfoldable pub after_commands : List (List ℕ) → List (List ℕ) → List (List ℕ)
after_commands recent [] = recent
after_commands recent (cmd ∷ cmds) = after_commands (after_command recent cmd) cmds

push_all-Shows :
    (h : History) (recent cmds : List (List ℕ))
    → Shows h recent
    → Shows (push_all h cmds) (after_commands recent cmds)
unfolding push_all after_commands
push_all-Shows h recent [] s = s
push_all-Shows h recent (cmd ∷ cmds) s =
    push_all-Shows (push h cmd) (after_command recent cmd) cmds (push-Shows h cmd recent s)

-- Whatever commands were entered since the start: going back by one step more than `k` gives entry `k`,
-- counted from 0 for the latest, of the list of commands in which an empty command and one like the
-- latest entry are left out, each is cut to 128 bytes, and only the last sixteen are kept; and it gives
-- nothing past the end of that list.
pub get-push_all :
    (cmds : List (List ℕ)) (k : ℕ)
    → let recent = after_commands [] cmds in
      ((k < length recent) × (get (push_all new cmds) (suc k) ≡ some (get_or recent k [])))
      ⊎ ((length recent ≤ k) × (get (push_all new cmds) (suc k) ≡ none))
get-push_all cmds k =
    let recent = after_commands [] cmds in
    let shows = get-Shows (push_all new cmds) recent k (push_all-Shows new [] cmds new-Shows) in
    elim (Bool-cases (ltb k (length recent))) [
      | inl e ↦ let lt : k < length recent = ground (arith, e) in inl (lt, shows.1 lt)
      | inr e ↦ let ge : length recent ≤ k = ground (arith, e) in inr (ge, shows.2 ge)
    ]
