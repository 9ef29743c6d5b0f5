-- ===== src/SearchPath.antt =====
-- framework/jsoncpp/sconsign.py and scons.py: the header that the two scripts share, which puts the
-- directories of the SCons library before the others of the search path.
use domq.Prelude.{
  ℕ, ◌-◌, ◌==◌, if◌then◌else◌, Bool, true, ◌||◌, ◌&&◌, Option, none, some, List, [], ◌∷◌, ◌++◌, map,
  length, take, index_error, Result, ok, raise, Text, codes, same_text,
}
use domq.JsonTests.Outcome.{basename}

-- What the header asks of the system. `os_file` is `os.__file__`, and `egg` the place of the
-- distribution that pkg_resources finds.
pub record System : Type 0 where
  pub scons_lib_dir : Option Text
  pub is_windows : Bool
  pub sys_prefix : Text
  pub getcwd : Text
  pub version : Text
  pub os_file : Option Text
  pub egg : Option Text
  pub join : Text → Text → Text
  pub abspath : Text → Text

abbrev pub listed : Option Text → List Text
listed none = []
listed (some t) = t ∷ []

abbrev pub in_script_dir : System → Text → Text → Text
in_script_dir s [] name = name
in_script_dir s (c ∷ dir) name = s.join (c ∷ dir) name

-- The directories of the environment and of the script.
unfoldable pub first_libs : System → Text → List Text
first_libs s script_dir =
    listed s.scons_lib_dir
    ++ (s.abspath (in_script_dir s script_dir (codes "scons-local-1.3.0"))
        ∷ s.abspath (in_script_dir s script_dir (codes "scons-local"))
        ∷ [])

abbrev pub all_slashes : Text → Bool
all_slashes [] = true
all_slashes (c ∷ t) = c == b'/' && all_slashes t

abbrev pub slash_behind : ℕ → Text → Text
slash_behind c [] = if c == b'/' then [] else c ∷ []
slash_behind c (d ∷ rest) = c ∷ d ∷ rest

unfoldable pub without_slashes : Text → Text
without_slashes [] = []
without_slashes (c ∷ t) = slash_behind c (without_slashes t)

abbrev pub head_of : Text → Text
head_of head = if all_slashes head then head else without_slashes head

-- `os.path.split(path)`, on systems other than Windows.
unfoldable pub split : Text → Text × Text
unfolding without_slashes basename
split path = (head_of (take (length path - length (basename path)) path), basename path)

-- The directory beside which the library of a script in `bin` stands.
abbrev pub beside_bin : Text × Text → List Text
beside_bin (head, tail) = if same_text tail (codes "bin") then head ∷ [] else []

unfoldable pub script_prefs : System → Text → List Text
unfolding split same_text
script_prefs s script_dir =
    if same_text script_dir (codes "bin")
    then s.getcwd ∷ []
    else beside_bin (
        split (
          if same_text script_dir (codes ".") || same_text script_dir []
          then s.getcwd
          else script_dir))

abbrev pub of_local : System → Text → Text × Text → List Text
of_local s head (h, t) =
    if same_text t (codes "usr") then s.sys_prefix ∷ head ∷ [] else s.sys_prefix ∷ []

abbrev pub of_prefix : System → Text × Text → List Text
of_prefix s (head, tail) =
    if same_text tail (codes "usr")
    then s.sys_prefix ∷ s.join s.sys_prefix (codes "local") ∷ []
    else (if same_text tail (codes "local")
        then of_local s head (split head)
        else s.sys_prefix ∷ [])

-- The places for `sys.prefix`.
unfoldable pub prefix_prefs : System → List Text
unfolding split same_text
prefix_prefs s = of_prefix s (split s.sys_prefix)

-- The library's directories below a place.
abbrev pub lib_of : System → Text → Text
lib_of s x = s.join x (codes "lib")

abbrev pub site_packages_of : System → Text → Text
site_packages_of s x =
    s.join (s.join (s.join x (codes "lib")) (codes "python" ++ take 3 s.version))
      (codes "site-packages")

abbrev pub python_lib : Option Text → List Text
python_lib none = []
python_lib (some libpath) = (split (split libpath).0).0 ∷ []

abbrev pub unix_prefs : System → List Text → List Text
unix_prefs s places =
    (map (lib_of s) places ++ map (site_packages_of s) places)
    ++ (python_lib s.os_file ++ listed s.egg)

unfoldable pub prefs : System → Text → List Text
unfolding script_prefs prefix_prefs
prefs s script_dir =
    if s.is_windows
    then s.sys_prefix ∷ s.join (s.join s.sys_prefix (codes "Lib")) (codes "site-packages") ∷ []
    else unix_prefs s (script_prefs s script_dir ++ prefix_prefs s)

-- The directories that are put before the search path.
unfoldable pub libs : System → Text → List Text
unfolding first_libs prefs
libs s script_dir =
    first_libs s script_dir
    ++ (map (λ x. s.join x (codes "scons-1.3.0")) (prefs s script_dir)
        ++ map (λ x. s.join x (codes "scons")) (prefs s script_dir))

-- The search path that the header sets. The directory of the script is its first element, which the
-- header removes.
unfoldable pub search_path : System → List Text → Result (List Text)
unfolding libs
search_path s [] = raise index_error
search_path s (script_dir ∷ others) = ok (libs s script_dir ++ others)
