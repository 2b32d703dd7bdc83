-- ===== src/Config/DotEnv/Found.antt =====
-- What a variable is once the files are read: its value in the process, or else the first value
-- that the file gives it.
use go_challenge_fc.Base.{
  ◌≡◌, refl, ◌∙◌, Bool, List, [], ◌∷◌, Option, none, some, String, str_eq, ◌&&◌, not, arith,
  if◌then◌else◌, eq_iff,
}
use go_challenge_fc.Config.DotEnv.{
  Os, assignment, assign, load_lines, load_file, load_files, load_dot_env, split_on,
}

-- os.Setenv sets the variable for keys and values that it accepts, and no other.
pub record IsSetting {V : Type 0} (os : Os V) (accepts : String → String → Bool) : Type 0 where
  pub sets :
      (v : V) (k x j : String)
      → os.get_env (os.set_env v k x) j ≡ (if str_eq j k && accepts k x then x else os.get_env v j)

module _ {V : Type 0} (os : Os V) (accepts : String → String → Bool) where
  -- The value that an assignment gives a variable: none for an empty one, which counts as not set.
  abbrev pub given : String → Option (String × String) → Option String
  given key none = none
  given key (some (k, x)) =
      if str_eq key k && accepts k x && not (str_eq x "") then some x else none

  abbrev pub or_given : Option String → Option String → Option String
  or_given none later = later
  or_given (some x) later = some x

  -- The first value that the lines give it.
  abbrev pub first_given : String → List String → Option String
  first_given key [] = none
  first_given key (line ∷ lines) =
      or_given (given key (assignment os (os.trim_space line))) (first_given key lines)

  -- The lines of the first file that is there.
  abbrev pub lines_or : Option String → List String → List String
  lines_or none later = later
  lines_or (some content) later = split_on b'\n' content

  abbrev pub lines_of : List String → List String
  lines_of [] = []
  lines_of (name ∷ names) = lines_or (os.read_file name) (lines_of names)

  abbrev pub text_or : String → Option String → String
  text_or current none = current
  text_or current (some x) = x

  abbrev pub settled : String → Option String → String
  settled current found = if str_eq current "" then text_or current found else current

  abbrev pub value_of : V → String → String
  value_of v key =
      settled (os.get_env v key) (first_given key (lines_of (".env" ∷ ".env.example" ∷ [])))

  module _ (law : IsSetting os accepts) where
    assign_lem :
        (a : Option (String × String)) (v : V) (key : String) (later : Option String)
        → settled (os.get_env (assign os a v) key) later
          ≡ settled (os.get_env v key) (or_given (given key a) later)
    unfolding assign
    assign_lem none v key later = refl
    assign_lem (some (k, x)) v key later =
        ground (arith, law.sets v k x key, eq_iff key k, eq_iff x "", eq_iff (os.get_env v key) "")

    load_lines_lem :
        (lines : List String) (v : V) (key : String)
        → os.get_env (load_lines os lines v) key
          ≡ settled (os.get_env v key) (first_given key lines)
    unfolding load_lines
    load_lines_lem [] v key = ground arith
    load_lines_lem (line ∷ lines) v key =
        load_lines_lem lines _ key ∙ assign_lem (assignment os (os.trim_space line)) v key _

    load_file_lem :
        (file : Option String) (v rest : V) (key : String) (later : List String)
        → os.get_env rest key ≡ settled (os.get_env v key) (first_given key later)
        → os.get_env (load_file os file rest v) key
          ≡ settled (os.get_env v key) (first_given key (lines_or file later))
    unfolding load_file
    load_file_lem none v rest key later h = h
    load_file_lem (some content) v rest key later h = load_lines_lem (split_on b'\n' content) v key

    load_files_lem :
        (names : List String) (v : V) (key : String)
        → os.get_env (load_files os names v) key
          ≡ settled (os.get_env v key) (first_given key (lines_of names))
    unfolding load_files load_lines
    load_files_lem [] v key = load_lines_lem [] v key
    load_files_lem (name ∷ names) v key =
        load_file_lem (os.read_file name) v _ key _ (load_files_lem names v key)

    -- Where os.Setenv sets the variable for the keys and the values that it accepts, and no other:
    -- a variable that is set keeps its value, and another has the first value that the first file
    -- that is there gives it, empty and refused ones left out, or stays unset.
    pub load_dot_env-eq-value :
        (v : V) (key : String) → os.get_env (load_dot_env os v) key ≡ value_of v key
    unfolding load_dot_env
    load_dot_env-eq-value v key = load_files_lem (".env" ∷ ".env.example" ∷ []) v key
