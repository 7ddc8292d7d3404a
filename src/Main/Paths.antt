-- ===== src/Main/Paths.antt =====
-- src/main.rs: the operations of `Path` that the log directory is resolved with, on Unix, on paths
-- without `.` components.
use kafka_proxy.Base.{Bool, [], ◌∷◌, ◌++◌, Option, none, some, ◌==◌, ◌&&◌, is_empty, if◌then◌else◌}
use kafka_proxy.Text.{Text, codes, rsplit_once, starts_with_char}

unfoldable pub is_absolute : Text → Bool
is_absolute p = starts_with_char b'/' p

abbrev pub without_slashes : Text → Text
without_slashes [] = []
without_slashes (c ∷ s) =
    let rest = without_slashes s in if is_empty rest && c == b'/' then [] else c ∷ rest

abbrev pub or_root : Text → Text
or_root p = if is_empty p then codes "/" else p

-- All but the last component; nothing for the root and the empty path.
unfoldable pub parent : Text → Option Text
parent p =
    let q = without_slashes p in
    if is_empty q then none else elim (rsplit_once b'/' q) [
      | none ↦ some []
      | some (before, last) ↦ some (or_root (without_slashes before))
    ]

abbrev pub ends_with_slash : Text → Bool
ends_with_slash [] = Bool.false
ends_with_slash (c ∷ []) = c == b'/'
ends_with_slash (c ∷ d ∷ s) = ends_with_slash (d ∷ s)

unfoldable pub join : Text → Text → Text
unfolding is_absolute
join a b =
    if is_absolute b
    then b
    else if is_empty a
    then b
    else if ends_with_slash a
    then a ++ b
    else a ++ (b'/' ∷ b)
