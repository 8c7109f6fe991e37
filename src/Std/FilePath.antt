-- ===== src/Std/FilePath.antt =====
-- `PathBuf::join` and `Path::extension` on Unix paths.
use rust_kernel_engine.Base.{
  ◌≡◌, refl, List, [], ◌∷◌, ◌++◌, Bool, true, false, ◌||◌, Option, none, some, ◌==◌, if◌then◌else◌,
}
use rust_kernel_engine.Std.Keys.{Text, text_eq}
use rust_kernel_engine.Std.Str.{codes, split}

abbrev starts_with_slash : Text → Bool
starts_with_slash [] = false
starts_with_slash (c ∷ s) = c == b'/'

-- Does `join` put a separator behind this text? Not behind nothing, nor behind a separator.
abbrev needs_separator : Text → Bool
needs_separator [] = false
needs_separator (c ∷ []) = if c == b'/' then false else true
needs_separator (c ∷ d ∷ s) = needs_separator (d ∷ s)

-- An absolute path replaces the base.
unfoldable pub join : Text → Text → Text
join base path =
    if starts_with_slash path
    then path
    else if needs_separator base
    then base ++ b'/' ∷ path
    else base ++ path

pub join_absolute : (base rest : Text) → join base (b'/' ∷ rest) ≡ b'/' ∷ rest
unfolding join
join_absolute base rest = refl

-- The last component that is not empty and not `.`.
last_component : List Text → Option Text
last_component [] = none
last_component (part ∷ parts) = elim (last_component parts) [
  | some later ↦ some later
  | none ↦ if text_eq part [] || text_eq part (codes ".") then none else some part
]

-- The text behind the last dot, if there is a dot.
behind_last_dot : Text → Option Text
behind_last_dot [] = none
behind_last_dot (c ∷ s) = elim (behind_last_dot s) [
  | some later ↦ some later
  | none ↦ if c == b'.' then some s else none
]

-- A dot at the start of a name makes no extension.
extension_of_name : Text → Option Text
extension_of_name [] = none
extension_of_name (c ∷ s) = behind_last_dot s

unfoldable pub extension : Text → Option Text
unfolding last_component extension_of_name behind_last_dot split
extension path = elim (last_component (split b'/' path)) [
  | none ↦ none
  | some name ↦ if text_eq name (codes "..") then none else extension_of_name name
]

path_tests :
    (join (codes "./static") (codes "a.txt") ≡ codes "./static/a.txt")
    × (join (codes "./static/") [] ≡ codes "./static/")
    × (join (codes "./static") (codes "/etc/passwd") ≡ codes "/etc/passwd")
    × (extension (codes "./static/x.tar.gz") ≡ some (codes "gz"))
    × (extension (codes "./static/.profile") ≡ none)
    × (extension (codes "./static/a.d/..") ≡ none)
    × (extension (codes "./static/a.d/.") ≡ some (codes "d"))
unfolding join extension
path_tests = (refl, refl, refl, refl, refl, refl, refl)
