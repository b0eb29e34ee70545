-- ===== src/ExtractFw/Program.antt =====
-- main of src/extract_bmi260_fw.cpp, over the file that is named and the file that is written.
use tjtools.Common.{Bool, not, Option, none, some, Bytes, if◌then◌else◌}
use tjtools.Common.Int.{ℤ, pos, negsuc}
use tjtools.Common.Result.{Result, ok, err}
use tjtools.ExtractFw.{ExtractError, extract}

-- The path that is named: canonical() gives a path, that of a regular file, whose content can be read; and
-- whether the output file can be opened and written to.
pub record Input : Type 0 where
  pub exists : Bool
  pub is_regular_file : Bool
  pub content : Option Bytes
  pub writable : Bool

-- `uncaught` is the exception of canonical(), which stands in front of the try block; `searching` is a
-- search that has not come to its end.
pub data End : Type 0 where
  uncaught searching : End
  exited : ℤ → End

-- The exception of a stream is a std::system_error, and so a std::runtime_error as well. The file that is
-- written is the second component.
abbrev written : Bool → Option (Result ExtractError Bytes) → End × Option Bytes
written writable none = (searching, none)
written writable (some (err e)) = (exited (negsuc 2), none)
written writable (some (ok blob)) =
    if writable then (exited (pos 0), some blob) else (exited (negsuc 2), none)

abbrev of_content : Bool → Option Bytes → End × Option Bytes
of_content writable none = (exited (negsuc 2), none)
of_content writable (some buffer) = written writable (extract buffer)

unfoldable pub extract_main : Option Input → End × Option Bytes
extract_main none = (exited (negsuc 0), none)
extract_main (some input) =
    let run = of_content input.writable input.content in
    if not input.exists
    then (uncaught, none)
    else if not input.is_regular_file
    then (exited (negsuc 1), none)
    else run
