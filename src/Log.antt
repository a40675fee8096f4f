-- ===== src/Log.antt =====
-- src/netter/simple_log.h and simple_log.cpp. Texts are the lists of their bytes. The clock, the
-- calendar and the file system are given; a failed assertion and an exception that nothing catches are
-- a fault.
pub mod Days
pub mod Folders
pub mod Start
mod Tests
use netter.Common.{
  ℕ, ◌+◌, ◌-◌, ◌/◌, ◌%◌, Bool, true, false, not, ◌&&◌, List, [], ◌∷◌, ◌++◌, Option, none, some,
  Result, ok, fault, ◌>>=◌, if◌then◌else◌, ltb, ◌==◌, length, take,
}
use netter.Http.{codes, same_text}

pub data LogLevel : Type 0 where
  error warning info debug : LogLevel

unfoldable pub rank : LogLevel → ℕ
rank error = 0
rank warning = 1
rank info = 2
rank debug = 3

-- `kLogLevelName`.
unfoldable pub level_name : LogLevel → List ℕ
level_name error = codes "[ERROR]"
level_name warning = codes "[WARNING]"
level_name info = codes "[INFO]"
level_name debug = codes "[DEBUG]"

abbrev pub k_max_log_line_size : ℕ
k_max_log_line_size = 4096

-- What `localtime_r` gives: the year, with its four digits, the month from 1 on, the day and the time.
pub record LocalTime : Type 0 where
  pub year : ℕ
  pub mon : ℕ
  pub mday : ℕ
  pub hour : ℕ
  pub min : ℕ
  pub sec : ℕ

-- `log_file` is the name of the open file.
pub record SimpleLog : Type 0 where
  pub log_level : LogLevel
  pub log_path : List ℕ
  pub log_file : Option (List ℕ)
  pub last_log_time : ℕ

-- The folders that exist, and what was written: the name of a file and a text, in order.
pub record Disk : Type 0 where
  pub folders : List (List ℕ)
  pub written : List (List ℕ × List ℕ)

unfoldable pub simple_log : SimpleLog
simple_log = record { log_level = debug; log_path = []; log_file = none; last_log_time = 0 }

-- `%02d` of a number below 100, `%03d` and `%04d` of such as they are long enough for.
unfoldable pub two_digits : ℕ → List ℕ
two_digits n = (48 + n / 10 % 10) ∷ (48 + n % 10) ∷ []

unfoldable pub three_digits : ℕ → List ℕ
unfolding two_digits
three_digits n = (48 + n / 100 % 10) ∷ two_digits n

unfoldable pub four_digits : ℕ → List ℕ
unfolding three_digits
four_digits n = (48 + n / 1000 % 10) ∷ three_digits n

-- The name that `OpenFile` gives a day's file.
unfoldable pub date_name : LocalTime → List ℕ
unfolding four_digits two_digits
date_name t =
    four_digits t.year
    ++ (b'-' ∷ (two_digits t.mon ++ (b'-' ∷ (two_digits t.mday ++ codes ".log"))))

-- The bytes of a C string.
unfoldable pub c_string : List ℕ → List ℕ
c_string [] = []
c_string (c ∷ cs) = let later = c_string cs in if c == 0 then [] else c ∷ later

pub record Message : Type 0 where
  pub level : LogLevel
  pub text : List ℕ  -- what the format makes of its arguments
  pub curr_time : ℕ  -- `time(&curr_time)`
  pub open_time : ℕ  -- `time(NULL)` in `OpenFile`, if it is called
  pub millis : ℕ  -- the milliseconds of `gettimeofday`
  pub thread : List ℕ  -- the digits of `pthread_self()`

module _ (localtime : ℕ → LocalTime) (can_open : List ℕ → Bool) where
  -- `IsNewDay(current_time)`.
  unfoldable pub is_new_day : SimpleLog → ℕ → Bool
  is_new_day s current_time =
      let last = localtime s.last_log_time in
      let now = localtime current_time in
      not ((last.year == now.year) && ((last.mon == now.mon) && (last.mday == now.mday)))

  -- `OpenFile()`, at the time `now`.
  unfoldable pub open_file : SimpleLog → ℕ → Result SimpleLog
  open_file s now =
      let file = s.log_path ++ date_name (localtime now) in
      if can_open file then ok (record s { log_file = some file }) else fault

  -- The line in `log_buf_`: the prefix and the message, cut to the buffer, up to a byte that is 0.
  unfoldable pub line : Message → List ℕ
  unfolding two_digits three_digits level_name c_string
  line m =
      let t = localtime m.curr_time in
      let prefix =
        two_digits t.hour
        ++ (b':'
            ∷ (two_digits t.min
                ++ (b':'
                    ∷ (two_digits t.sec
                        ++ (b'.'
                            ∷ (three_digits m.millis
                                ++ (codes "(tid="
                                    ++ (m.thread
                                        ++ (codes ") "
                                            ++ (level_name m.level ++ codes " ")))))))))) in
      c_string (take (k_max_log_line_size - 1) (prefix ++ m.text))

  abbrev write_line : Option (List ℕ) → List ℕ → Disk → Disk
  write_line none bytes disk = disk
  write_line (some file) bytes disk = record disk { written = disk.written ++ ((file, bytes) ∷ []) }

  -- `LogMessage`.
  unfoldable pub log_message : SimpleLog → Disk → Message → Result (SimpleLog × Disk)
  unfolding is_new_day open_file line rank
  log_message s disk m = if ltb (rank s.log_level) (rank m.level) then ok (s, disk) else do
    s' ← if is_new_day s m.curr_time then open_file s m.open_time else ok s
    ok (record s' { last_log_time = m.curr_time }, write_line s'.log_file (line m) disk)

  unfoldable pub log_messages : SimpleLog → Disk → List Message → Result (SimpleLog × Disk)
  log_messages s disk [] = ok (s, disk)
  log_messages s disk (m ∷ rest) = do (s', disk') ← log_message s disk m; log_messages s' disk' rest

unfoldable pub has_folder : List ℕ → List (List ℕ) → Bool
unfolding same_text
has_folder path [] = false
has_folder path (f ∷ folders) =
    let later = has_folder path folders in if same_text f path then true else later

-- What `Init` does at one byte of the path, with the path up to it: `can_make` says where `mkdir`
-- succeeds.
unfoldable pub make_folder : (List ℕ → Bool) → ℕ → List ℕ → List (List ℕ) → Result (List (List ℕ))
unfolding has_folder
make_folder can_make ch parent_path folders =
    if ch == b'/'
    then if has_folder parent_path folders
      then ok folders
      else if can_make parent_path
      then ok (parent_path ∷ folders)
      else fault
    else ok folders

-- The loop of `Init` that makes the folders of a path, behind `parent_path`.
unfoldable pub make_folders :
    (List ℕ → Bool) → List ℕ → List ℕ → List (List ℕ) → Result (List (List ℕ))
unfolding make_folder
make_folders can_make parent_path [] folders = ok folders
make_folders can_make parent_path (ch ∷ rest) folders = do
  let parent = parent_path ++ (ch ∷ [])
  folders' ← make_folder can_make ch parent folders
  make_folders can_make parent rest folders'

-- The last byte of a text, which `at(len - 1)` gives.
unfoldable pub last_byte : List ℕ → Result ℕ
last_byte [] = fault
last_byte (c ∷ []) = ok c
last_byte (c ∷ (d ∷ rest)) = last_byte (d ∷ rest)

-- `Init(level, path)`, at the times `now` and then `open_time`.
unfoldable pub init :
    (ℕ → LocalTime)
    → (List ℕ → Bool)
    → (List ℕ → Bool)
    → SimpleLog
    → Disk
    → LogLevel
    → List ℕ
    → ℕ
    → ℕ
    → Result (SimpleLog × Disk)
unfolding make_folders
init localtime can_open can_make s disk level path now open_time =
    if s.last_log_time == 0
    then (do
      last ← last_byte path
      let log_path = if last == b'/' then path else path ++ (b'/' ∷ [])
      folders ← make_folders can_make [] log_path disk.folders
      s' ←
          open_file localtime can_open
            (record s { log_level = level; log_path = log_path; last_log_time = now }) open_time
      ok (s', record disk { folders = folders }))
    else ok (s, disk)
