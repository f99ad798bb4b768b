-- ===== src/Options/Given.antt =====
-- A command line that is written as the help text of src/umicat.c says, read back.
use umicat.Base.{ℕ, ◌≡◌, refl, ◌∙◌, true, List, [], ◌∷◌, ◌++◌, some}
use umicat.Strings.Bytes.{codes}
use umicat.Options.{Options, over, letters, option_word, get_options}

-- The letters of `[-?hv]`.
pub data Flag : Type 0 where
  question : Flag
  help : Flag
  version : Flag

-- An option as the user means it: one flag or more in one word, or a file name, in a word of its own
-- or in the same word.
pub data Given : Type 0 where
  flags : (first : Flag) (others : List Flag) → Given
  conf : (name : List ℕ) → Given
  log : (name : List ℕ) → Given
  conf_joined : (first : ℕ) (name : List ℕ) → Given
  log_joined : (first : ℕ) (name : List ℕ) → Given

abbrev pub letter : Flag → ℕ
letter question = b'?'
letter help = b'h'
letter version = b'v'

abbrev pub all_letters : List Flag → List ℕ
all_letters [] = []
all_letters (f ∷ fs) = letter f ∷ all_letters fs

abbrev pub words : Given → List (List ℕ)
words (flags first others) = (b'-' ∷ all_letters (first ∷ others)) ∷ []
words (conf name) = codes "-c" ∷ name ∷ []
words (log name) = codes "-l" ∷ name ∷ []
words (conf_joined first name) = (b'-' ∷ b'c' ∷ first ∷ name) ∷ []
words (log_joined first name) = (b'-' ∷ b'l' ∷ first ∷ name) ∷ []

abbrev pub command_line : List Given → List (List ℕ)
command_line [] = []
command_line (g ∷ gs) = words g ++ command_line gs

-- What each asks for; of two names the last counts.
abbrev pub raised : Options → Flag → Options
raised o question = record o { show_version = true; show_help = true }
raised o help = record o { show_version = true; show_help = true }
raised o version = record o { show_version = true }

abbrev pub all_raised : Options → List Flag → Options
all_raised o [] = o
all_raised o (f ∷ fs) = all_raised (raised o f) fs

abbrev pub asked : Options → Given → Options
asked o (flags first others) = all_raised o (first ∷ others)
asked o (conf name) = record o { conf_file = some name }
asked o (log name) = record o { log_file = some name }
asked o (conf_joined first name) = record o { conf_file = some (first ∷ name) }
asked o (log_joined first name) = record o { log_file = some (first ∷ name) }

abbrev pub all_asked : Options → List Given → Options
all_asked o [] = o
all_asked o (g ∷ gs) = all_asked (asked o g) gs

-- A word that is read whole.
get_options-over :
    (o o' : Options) (word : List ℕ) (rest : List (List ℕ))
    → option_word o word ≡ over o'
    → get_options o (word ∷ rest) ≡ get_options o' rest
unfolding get_options
get_options-over o o' word [] e = rw (e, get_options)
get_options-over o o' word (name ∷ rest) e = rw (e, get_options)

letters_flags : (o : Options) (fs : List Flag) → letters o (all_letters fs) ≡ over (all_raised o fs)
unfolding letters
letters_flags o [] = refl
letters_flags o (question ∷ fs) = letters_flags (raised o question) fs
letters_flags o (help ∷ fs) = letters_flags (raised o help) fs
letters_flags o (version ∷ fs) = letters_flags (raised o version) fs

get_options-given :
    (o : Options) (g : Given) (rest : List (List ℕ))
    → get_options o (words g ++ rest) ≡ get_options (asked o g) rest
unfolding option_word letters
get_options-given o (flags first others) rest =
    get_options-over o _ (b'-' ∷ all_letters (first ∷ others)) rest
      (letters_flags o (first ∷ others))
get_options-given o (conf name) rest = unfold get_options in refl
get_options-given o (log name) rest = unfold get_options in refl
get_options-given o (conf_joined first name) rest =
    get_options-over o _ (b'-' ∷ b'c' ∷ first ∷ name) rest refl
get_options-given o (log_joined first name) rest =
    get_options-over o _ (b'-' ∷ b'l' ∷ first ∷ name) rest refl

-- Any options that are written in the forms of the usage text are accepted, in any order and number,
-- and set what they ask for: the flags -?, -h and -v, alone or several in one word, and -c and -l
-- with a file name in the next word or, not empty, in the same word. The last file name of each kind
-- counts.
pub get_options-command_line :
    (o : Options) (gs : List Given) → get_options o (command_line gs) ≡ some (all_asked o gs)
get_options-command_line o [] = unfold get_options in refl
get_options-command_line o (g ∷ gs) =
    get_options-given o g (command_line gs) ∙ get_options-command_line (asked o g) gs
