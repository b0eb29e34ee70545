-- ===== src/Common/FilePath.antt =====
-- std::filesystem::path on POSIX, as the text of the path.
use mathlib.Core.Bool.{Bool, true, false}
use mathlib.Core.List.{[], ◌∷◌, ◌++◌}
use tjtools.Common.Bools.{◌==◌, if◌then◌else◌}
use tjtools.Common.Lists.{Bytes}

abbrev pub is_absolute : Bytes → Bool
is_absolute [] = false
is_absolute (c ∷ _) = c == b'/'

-- Does the path end in a file name?
unfoldable pub has_filename : Bytes → Bool
has_filename [] = false
has_filename (c ∷ []) = if c == b'/' then false else true
has_filename (_ ∷ c ∷ rest) = has_filename (c ∷ rest)

-- `path / other`: an absolute path replaces what stands before it.
unfoldable pub join : Bytes → Bytes → Bytes
unfolding has_filename
join path other =
    if is_absolute other
    then other
    else if has_filename path
    then path ++ b'/' ∷ other
    else path ++ other
