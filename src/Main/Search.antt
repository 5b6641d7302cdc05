-- ===== src/Main/Search.antt =====
-- The choice of the configuration file in `main` of src/main.c: the places it is looked for, and the
-- scan of the arguments for --config.
use serv_mark.Base.{
  Bool, true, false, ◌&&◌, Option, none, some, List, [], ◌∷◌, ◌++◌, ◌≡◌, refl, if◌then◌else◌, Text,
  codes, text_eq, starts_with, drop, take, All,
}

abbrev pub fallback : Text
fallback = codes "config/default.cfg"

-- `xdg`: the variable, or a path below the home directory, cut to the 511 characters of `xdg_path`.
unfoldable pub xdg_of : Option Text → Option Text → Option Text
xdg_of (some xdg) home = some xdg
xdg_of none none = none
xdg_of none (some home) = some (take 511 (home ++ codes "/.config/servmark/default.cfg"))

-- The loop over `search`, where a null pointer is passed over; `readable` is `access(…, R_OK) == 0`.
unfoldable pub first_readable : (Text → Bool) → List (Option Text) → Text
first_readable readable [] = fallback
first_readable readable (none ∷ rest) = first_readable readable rest
first_readable readable (some path ∷ rest) =
    let later = first_readable readable rest in if readable path then path else later

unfoldable pub search_config : (Text → Bool) → Option Text → Option Text → Text
search_config readable xdg home =
    first_readable readable
      (xdg_of xdg home ∷ some (codes "/etc/servmark/default.cfg") ∷ some fallback ∷ [])

abbrev pub has_more : List Text → Bool
has_more [] = false
has_more (arg ∷ args) = true

abbrev pub first_or : Text → List Text → Text
first_or path [] = path
first_or path (arg ∷ args) = arg

-- The scan of the arguments behind the program's name.
unfoldable pub prescan : Text → List Text → Text
prescan path [] = path
prescan path (arg ∷ args) =
    let rest = prescan path args in
    if text_eq arg (codes "--config") && has_more args
    then first_or path args
    else if starts_with arg (codes "--config=")
    then drop 9 arg
    else if text_eq arg (codes "-C") && has_more args
    then first_or path args
    else rest

-- The file that is loaded, before the options are read.
unfoldable pub config_file : (Text → Bool) → Option Text → Option Text → List Text → Text
config_file readable xdg home args = prescan (search_config readable xdg home) args

-- An argument that does not name a configuration file.
abbrev pub IsPlain : Text → Type 0
IsPlain arg =
    (text_eq arg (codes "--config") ≡ false)
    × (starts_with arg (codes "--config=") ≡ false)
    × (text_eq arg (codes "-C") ≡ false)

-- The first --config with an argument behind it decides which file is loaded, whatever stands behind it
-- and wherever else a file is found, if no argument in front of it names a configuration file.
pub prescan-config :
    (path file : Text) (args rest : List Text)
    → All IsPlain args
    → prescan path (args ++ codes "--config" ∷ file ∷ rest) ≡ file
unfolding prescan
prescan-config path file [] rest plain = refl
prescan-config path file (arg ∷ args) rest ((long, equals, short), plain) =
    rw (long, equals, short) (prescan-config path file args rest plain)
