-- ===== src/Options.antt =====
-- `uct_get_options` (src/umicat.c): the options of the command line. The words behind the program's
-- name are lists of bytes; behind the last stands a null pointer.
pub mod Given
use umicat.Base.{ℕ, Bool, true, false, List, [], ◌∷◌, ◌==◌, ◌||◌, if◌then◌else◌, Option, none, some}

-- `uct_show_version`, `uct_show_help`, `uct_conf_file` and `uct_log_file`.
pub record Options : Type 0 where
  pub show_version : Bool
  pub show_help : Bool
  pub conf_file : Option (List ℕ)
  pub log_file : Option (List ℕ)

-- What the letters of one word come to: `goto next` or the end of the word, a file name that is
-- wanted from the next word, or an invalid letter.
pub data Letters : Type 0 where
  over : Options → Letters
  wants_conf : Options → Letters
  wants_log : Options → Letters
  invalid : Letters

-- `if (*p)` for an option with a file name: the rest of the word is the name, if there is any.
abbrev pub with_name : Letters → (List ℕ → Options) → List ℕ → Letters
with_name wanted given [] = wanted
with_name wanted given (c ∷ p) = over (given (c ∷ p))

-- `while (*p)`.
unfoldable pub letters : Options → List ℕ → Letters
letters o [] = over o
letters o (c ∷ p) =
    let help = letters (record o { show_version = true; show_help = true }) p in
    let version = letters (record o { show_version = true }) p in
    if c == b'?' || c == b'h'
    then help
    else if c == b'v'
    then version
    else if c == b'c'
    then with_name (wants_conf o) (λ name. record o { conf_file = some name }) p
    else if c == b'l'
    then with_name (wants_log o) (λ name. record o { log_file = some name }) p
    else invalid

-- One word of `argv`.
unfoldable pub option_word : Options → List ℕ → Letters
unfolding letters
option_word o [] = invalid
option_word o (c ∷ p) = if c == b'-' then letters o p else invalid

-- The loop over the words; `none` is `UCT_ERROR`.
unfoldable pub get_options : Options → List (List ℕ) → Option Options
get_options o [] = some o
get_options o (word ∷ []) = elim (option_word o word) [
  | over o' ↦ some o'
  | wants_conf o' ↦ none
  | wants_log o' ↦ none
  | invalid ↦ none
]
get_options o (word ∷ name ∷ words) = elim (option_word o word) [
  | over o' ↦ get_options o' (name ∷ words)
  | wants_conf o' ↦ get_options (record o' { conf_file = some name }) words
  | wants_log o' ↦ get_options (record o' { log_file = some name }) words
  | invalid ↦ none
]
