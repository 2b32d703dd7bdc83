-- ===== src/Config/DotEnv.antt =====
-- loadDotEnv of internal/infra/config/config.go, and Load after it.
pub mod Found
use go_challenge_fc.Base.{
  ◌==◌, ℕ, Bool, true, false, List, [], ◌∷◌, Option, none, some, String, str_eq, ◌||◌,
  if◌then◌else◌,
}
use go_challenge_fc.Base.Int.{ℤ}
use go_challenge_fc.Base.Text.{codes, has}
use go_challenge_fc.Config.{Config, Environment, load}
use Prim.Native.Char.{Char, code}

-- The variables of the process: os.Getenv, os.Setenv (whose error is ignored), os.ReadFile (none
-- where it fails), strings.TrimSpace and time.ParseDuration.
pub record Os (V : Type 0) : Type 0 where
  pub get_env : V → String → String
  pub set_env : V → String → String → V
  pub read_file : String → Option String
  pub trim_space : String → String
  pub parse_duration : String → Option ℤ

-- strings.SplitN(line, "=", 2): what stands before the first such character, and after it.
abbrev pub before : ℕ → String → String
before c String.[] = String.[]
before c (String.◌∷◌ d s) =
    let rest = before c s in if code d == c then String.[] else String.◌∷◌ d rest

abbrev pub after : ℕ → String → String
after c String.[] = String.[]
after c (String.◌∷◌ d s) = let rest = after c s in if code d == c then s else rest

-- strings.Split(s, "\n")
abbrev pub prepend : Char → List String → List String
prepend d [] = []
prepend d (x ∷ xs) = String.◌∷◌ d x ∷ xs

unfoldable pub split_on : ℕ → String → List String
split_on c String.[] = String.[] ∷ []
split_on c (String.◌∷◌ d s) =
    let rest = split_on c s in if code d == c then String.[] ∷ rest else prepend d rest

-- strings.HasPrefix(line, "#")
abbrev pub is_comment : String → Bool
is_comment String.[] = false
is_comment (String.◌∷◌ d s) = code d == b'#'

module _ {V : Type 0} (os : Os V) where
  -- The key and the value that a trimmed line assigns, if it does.
  unfoldable pub assignment : String → Option (String × String)
  assignment line =
      if str_eq line "" || is_comment line
      then none
      else if has b'=' (codes line)
      then some (os.trim_space (before b'=' line), os.trim_space (after b'=' line))
      else none

  -- `if os.Getenv(k) == ""`
  unfoldable pub assign : Option (String × String) → V → V
  assign none v = v
  assign (some (k, x)) v = if str_eq (os.get_env v k) "" then os.set_env v k x else v

  -- The loop over the lines.
  unfoldable pub load_lines : List String → V → V
  load_lines [] v = v
  load_lines (line ∷ lines) v = load_lines lines (assign (assignment (os.trim_space line)) v)

  -- The loop over the files, which ends with the first one that is there.
  unfoldable pub load_file : Option String → V → V → V
  load_file none rest v = rest
  load_file (some content) rest v = load_lines (split_on b'\n' content) v

  unfoldable pub load_files : List String → V → V
  load_files [] v = v
  load_files (name ∷ names) v = load_file (os.read_file name) (load_files names v) v

  unfoldable pub load_dot_env : V → V
  load_dot_env v = load_files (".env" ∷ ".env.example" ∷ []) v

  abbrev pub environment : V → Environment
  environment v = record { get = os.get_env v; parse_duration = os.parse_duration }

  -- Load; none for the panic of mustGetEnv.
  unfoldable pub load_config : V → Option Config
  load_config v = load (environment (load_dot_env v))
