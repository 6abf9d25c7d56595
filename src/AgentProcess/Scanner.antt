-- ===== src/AgentProcess/Scanner.antt =====
-- The bufio.Scanner of StreamLogs (agent/docker.go): the lines of a stream of bytes, each without its
-- newline and a carriage return before that, until one does not fit the scanner's buffer of 64 KB.
use game_server_manager.Base.{
  ◌<◌, ◌≡◌, ◌≢◌, Bool, true, false, not, ◌&&◌, Option, some, List, [], ◌∷◌, ◌++◌, String,
  if◌then◌else◌, leb, nat_eq, length, All,
}
use game_server_manager.Rcon.{Bytes}

unfoldable pub without_cr : Bytes → Bytes
without_cr [] = []
without_cr (b ∷ []) = if nat_eq b 13 then [] else b ∷ []
without_cr (b ∷ c ∷ rest) = b ∷ without_cr (c ∷ rest)

-- The lines, and whether the scanner gave up on one that is too long.
abbrev pub Scanned : Type 0
Scanned = List Bytes × Bool

abbrev pub line_ends : Bool → Bytes → Scanned → Scanned
line_ends true held (lines, gave_up) = (without_cr held ∷ lines, gave_up)
line_ends false held rest = rest

-- At the end of the stream, what is left is a line too.
abbrev pub last_line : Bytes → List Bytes
last_line [] = []
last_line (b ∷ held) = without_cr (b ∷ held) ∷ []

unfoldable pub scan_from : (held : Bytes) → Bytes → Scanned
scan_from held [] = (last_line held, false)
scan_from held (b ∷ bs) =
    let rest = scan_from (if nat_eq b 10 then [] else held ++ b ∷ []) bs in
    if not (nat_eq b 10) && leb 65535 (length held)
    then ([], true)
    else line_ends (nat_eq b 10) held rest

-- scanner.Scan, until it is false
abbrev pub scan_lines : Bytes → Scanned
scan_lines = scan_from []

-- scanner.Err()
abbrev pub scan_error : Scanned → (read_error : Option String) → Option String
scan_error (lines, true) e = some "bufio.Scanner: token too long"
scan_error (lines, false) e = e

-- A line as a program writes it: no newline in it, no carriage return at its end, and short enough.
pub record IsLine (line : Bytes) : Type 0 where
  pub no_newline : All (λ b. b ≢ 10) line
  pub no_cr : without_cr line ≡ line
  pub short : length line < 65536

unfoldable pub write_lines : List Bytes → Bytes
write_lines [] = []
write_lines (line ∷ lines) = line ++ 10 ∷ write_lines lines
