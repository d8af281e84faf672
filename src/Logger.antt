-- ===== src/Logger.antt =====
-- logger.h and logger.cpp: which lines are written, and where. The streams are lists of lines, oldest
-- first. Whether the file can be opened, and the time as `strftime` writes it, are arguments.
use multi_constraint_iot_edg.Common.{
  refl, Bool-cases, inl, inr, ltb, append-nil, ◌≡◌, Bool, true, false, not, ◌&&◌, List, [], ◌∷◌,
  ◌++◌, Option, none, some, Text, codes, if◌then◌else◌, ℕ, arith,
}

pub data Level : Type 0 where
  debug info warn error : Level

abbrev pub level_rank : Level → ℕ
level_rank debug = 0
level_rank info = 1
level_rank warn = 2
level_rank error = 3

unfoldable pub level_to_string : Level → Text
level_to_string debug = codes "DEBUG"
level_to_string info = codes "INFO"
level_to_string warn = codes "WARN"
level_to_string error = codes "ERROR"

-- A stream that has failed is open, and what is written to it is lost.
pub record Logger : Type 0 where
  pub min_level : Level
  pub file_enabled : Bool
  pub file_open : Bool
  pub file_failed : Bool
  pub out_lines : List Text
  pub err_lines : List Text
  pub file_lines : List Text

unfoldable pub new_logger : Logger
new_logger = record {
  min_level = info;
  file_enabled = false;
  file_open = false;
  file_failed = false;
  out_lines = [];
  err_lines = [];
  file_lines = [];
}

abbrev pub set_min_level : Level → Logger → Logger
set_min_level level l = record l { min_level = level }

-- To open a stream that is open fails and leaves it open.
unfoldable pub set_log_file : Bool → Logger → Logger
set_log_file can_open l =
    if l.file_open
    then record l { file_enabled = true; file_failed = true }
    else record l { file_enabled = can_open; file_open = can_open; file_failed = not can_open }

-- `none` where `strftime` has written nothing.
unfoldable pub current_timestamp : Option Text → Text
current_timestamp none = codes "0000-00-00 00:00:00"
current_timestamp (some time) = time

unfoldable pub log_line : Option Text → Level → Text → Text → Text
log_line time level component message =
    codes "["
    ++ current_timestamp time
    ++ codes "] ["
    ++ level_to_string level
    ++ codes "] ["
    ++ component
    ++ codes "] "
    ++ message

unfoldable pub goes_to_stderr : Level → Bool
goes_to_stderr error = true
goes_to_stderr warn = true
goes_to_stderr info = false
goes_to_stderr debug = false

write_console : Level → Text → Logger → Logger
write_console level line l =
    if goes_to_stderr level
    then record l { err_lines = l.err_lines ++ line ∷ [] }
    else record l { out_lines = l.out_lines ++ line ∷ [] }

write_file : Text → Logger → Logger
write_file line l =
    if l.file_enabled && l.file_open && not l.file_failed
    then record l { file_lines = l.file_lines ++ line ∷ [] }
    else l

unfoldable pub log : Option Text → Level → Text → Text → Logger → Logger
unfolding write_console write_file
log time level component message l =
    if ltb (level_rank level) (level_rank l.min_level)
    then l
    else write_file (log_line time level component message)
        (write_console level (log_line time level component message) l)

unfoldable pub log_debug : Option Text → Text → Text → Logger → Logger
log_debug time component message l = log time debug component message l

unfoldable pub log_info : Option Text → Text → Text → Logger → Logger
log_info time component message l = log time info component message l

unfoldable pub log_warn : Option Text → Text → Text → Logger → Logger
log_warn time component message l = log time warn component message l

unfoldable pub log_error : Option Text → Text → Text → Logger → Logger
log_error time component message l = log time error component message l

-- Which messages a least level lets through: errors always, debugging messages only at the lowest level.
abbrev pub lets_through : Level → Level → Bool
lets_through least error = true
lets_through error warn = false
lets_through _ warn = true
lets_through debug info = true
lets_through info info = true
lets_through _ info = false
lets_through debug debug = true
lets_through _ debug = false

-- What a line reads.
abbrev pub reads : Text → Text → Text → Text → Text
reads time label component message =
    codes "[" ++ time ++ codes "] [" ++ label ++ codes "] [" ++ component ++ codes "] " ++ message

-- The lines that a message adds to the two consoles and to the file.
abbrev pub Adds : List Text → List Text → List Text → Logger → Logger → Type 0
Adds out err file l l' = l' ≡ record l {
  out_lines = l.out_lines ++ out;
  err_lines = l.err_lines ++ err;
  file_lines = l.file_lines ++ file;
}

-- What a message does that is let through, or is not.
written :
    (time : Option Text) (level : Level) (component message : Text) (l : Logger)
    → ltb (level_rank level) (level_rank l.min_level) ≡ false
    → let line = log_line time level component message ∷ [] in
      Adds
        (if goes_to_stderr level then [] else line)
        (if goes_to_stderr level then line else [])
        (if l.file_enabled && l.file_open && not l.file_failed then line else [])
        l
        (log time level component message l)
unfolding log
written time level component message l h =
    ground (arith, append-nil l.out_lines, append-nil l.err_lines, append-nil l.file_lines)

dropped :
    (time : Option Text) (level : Level) (component message : Text) (l : Logger)
    → ltb (level_rank level) (level_rank l.min_level) ≡ true
    → log time level component message l ≡ l
unfolding log
dropped time level component message l h = rw h refl

not_above : (least : Level) → ltb 3 (level_rank least) ≡ false
not_above debug = refl
not_above info = refl
not_above warn = refl
not_above error = refl

lets_through-eq :
    (least level : Level)
    → lets_through least level ≡ not (ltb (level_rank level) (level_rank least))
lets_through-eq debug debug = refl
lets_through-eq debug info = refl
lets_through-eq debug warn = refl
lets_through-eq debug error = refl
lets_through-eq info debug = refl
lets_through-eq info info = refl
lets_through-eq info warn = refl
lets_through-eq info error = refl
lets_through-eq warn debug = refl
lets_through-eq warn info = refl
lets_through-eq warn warn = refl
lets_through-eq warn error = refl
lets_through-eq error debug = refl
lets_through-eq error info = refl
lets_through-eq error warn = refl
lets_through-eq error error = refl

weighed :
    (time : Option Text) (level : Level) (component message : Text) (l : Logger) (P : Type 0)
    → (ltb (level_rank level) (level_rank l.min_level) ≡ false → P)
    → if lets_through l.min_level level then P else (log time level component message l ≡ l)
weighed time level component message l P f =
    rw (lets_through-eq l.min_level level)
      (elim (Bool-cases (ltb (level_rank level) (level_rank l.min_level))) [
        | inl low ↦ rw low (dropped time level component message l low)
        | inr high ↦ rw high (f high)
      ])

-- A message that the least level lets through adds one line with its time, its level, its component and
-- its text: errors and warnings to the error console, the others to the output, and all to the file where
-- that is enabled and has not failed. One that it does not let through adds none; errors pass always,
-- warnings unless only errors do, information at the two lowest levels, and debugging at the lowest.
pub log_lem :
    (now component message : Text) (l : Logger)
    → let file = λ (label : Text).
      if l.file_enabled && l.file_open && not l.file_failed
      then reads now label component message ∷ []
      else [] in
      let line = λ (label : Text). reads now label component message ∷ [] in
      let run = λ (level : Level). log (some now) level component message l in
      Adds [] (line (codes "ERROR")) (file (codes "ERROR")) l (run error)
      × (if lets_through l.min_level warn
          then Adds [] (line (codes "WARN")) (file (codes "WARN")) l (run warn)
          else (run warn ≡ l))
      × (if lets_through l.min_level info
          then Adds (line (codes "INFO")) [] (file (codes "INFO")) l (run info)
          else (run info ≡ l))
      × (if lets_through l.min_level debug
          then Adds (line (codes "DEBUG")) [] (file (codes "DEBUG")) l (run debug)
          else (run debug ≡ l))
unfolding log log_line current_timestamp level_to_string goes_to_stderr
log_lem now component message l = (
  written (some now) error component message l (not_above l.min_level),
  weighed (some now) warn component message l _ (written (some now) warn component message l),
  weighed (some now) info component message l _ (written (some now) info component message l),
  weighed (some now) debug component message l _ (written (some now) debug component message l),
)
