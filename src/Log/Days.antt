-- ===== src/Log/Days.antt =====
-- Every message goes to the file of its day (src/netter/simple_log.cpp).
use netter.Http.{codes}
use netter.Common.{
  ℕ, zero, suc, ◌+◌, ◌/◌, ◌%◌, Result, not, take, ◌≢◌, ap₂, ◌<◌, Bool, true, false, List, [], ◌∷◌,
  ◌++◌, append_assoc, append-nil, some, ok, if◌then◌else◌, ltb, ◌==◌, ne→==, All, ◌≡◌, refl, ap,
  sym, ◌∙◌, arith, Returns, Returns-mono, Bool-cases, inl, inr,
}
use netter.Log.{
  LogLevel, debug, info, warning, rank, level_name, c_string, two_digits, three_digits, four_digits,
  LocalTime, SimpleLog, simple_log, Disk, Message, date_name, is_new_day, open_file, line,
  log_message, log_messages, init,
}

-- Two times of the same day.
abbrev pub SameDay : LocalTime → LocalTime → Type 0
SameDay s t = (s.year ≡ t.year) × (s.mon ≡ t.mon) × (s.mday ≡ t.mday)

pub date_name-day : (s t : LocalTime) → SameDay s t → date_name s ≡ date_name t
unfolding date_name
date_name-day s t (y, m, d) = rw (y, m, d) refl

abbrev digit : ℕ → ℕ
digit n = 48 + n % 10

-- The file of a day: year-month-day.log.
unfoldable pub day_file : LocalTime → List ℕ
day_file t =
    digit (t.year / 1000)
    ∷ digit (t.year / 100)
    ∷ digit (t.year / 10)
    ∷ digit t.year
    ∷ b'-'
    ∷ digit (t.mon / 10)
    ∷ digit t.mon
    ∷ b'-'
    ∷ digit (t.mday / 10)
    ∷ digit t.mday
    ∷ codes ".log"

pub date_name-day_file : (t : LocalTime) → date_name t ≡ day_file t
unfolding date_name day_file four_digits three_digits two_digits
date_name-day_file t = refl

-- Whether a level lets a message of another level pass.
unfoldable pub lets : LogLevel → LogLevel → Bool
lets debug m = true
lets info debug = false
lets info _ = true
lets warning LogLevel.error = true
lets warning warning = true
lets warning _ = false
lets LogLevel.error LogLevel.error = true
lets LogLevel.error _ = false

rank-lets : (level m : LogLevel) → ltb (rank level) (rank m) ≡ not (lets level m)
unfolding rank lets
rank-lets debug LogLevel.error = refl
rank-lets debug warning = refl
rank-lets debug info = refl
rank-lets debug debug = refl
rank-lets info LogLevel.error = refl
rank-lets info warning = refl
rank-lets info info = refl
rank-lets info debug = refl
rank-lets warning LogLevel.error = refl
rank-lets warning warning = refl
rank-lets warning info = refl
rank-lets warning debug = refl
rank-lets LogLevel.error LogLevel.error = refl
rank-lets LogLevel.error warning = refl
rank-lets LogLevel.error info = refl
rank-lets LogLevel.error debug = refl

unfoldable pub name_of : LogLevel → List ℕ
name_of LogLevel.error = codes "[ERROR]"
name_of warning = codes "[WARNING]"
name_of info = codes "[INFO]"
name_of debug = codes "[DEBUG]"

level_name-name_of : (level : LogLevel) → level_name level ≡ name_of level
unfolding level_name name_of
level_name-name_of LogLevel.error = refl
level_name-name_of warning = refl
level_name-name_of info = refl
level_name-name_of debug = refl

-- A message as text: hour:minute:second.millisecond(tid=thread) [LEVEL] message. No newline is added.
unfoldable pub text_of : LocalTime → Message → List ℕ
text_of t m =
    (digit (t.hour / 10)
      ∷ digit t.hour
      ∷ b':'
      ∷ digit (t.min / 10)
      ∷ digit t.min
      ∷ b':'
      ∷ digit (t.sec / 10)
      ∷ digit t.sec
      ∷ b'.'
      ∷ digit (m.millis / 100)
      ∷ digit (m.millis / 10)
      ∷ digit m.millis
      ∷ (codes "(tid=" ++ (m.thread ++ (codes ") " ++ (name_of m.level ++ codes " ")))))
    ++ m.text

-- The text has no byte that is 0.
abbrev pub IsText : (ℕ → LocalTime) → Message → Type 0
IsText localtime m = All (λ c. c ≢ 0) (text_of (localtime m.curr_time) m)

c_string-take :
    (n : ℕ) (text : List ℕ) → All (λ c. c ≢ 0) text → c_string (take n text) ≡ take n text
unfolding c_string
c_string-take zero text h = refl
c_string-take (suc n) [] h = refl
c_string-take (suc n) (c ∷ text) (ne, h) =
    rw (ne→== c 0 ne) (ap (λ q. c ∷ q) (c_string-take n text h))

line-text_of :
    (localtime : ℕ → LocalTime) (can_open : List ℕ → Bool) (m : Message)
    → IsText localtime m
    → line localtime can_open m ≡ take 4095 (text_of (localtime m.curr_time) m)
unfolding line text_of two_digits three_digits
line-text_of localtime can_open m h =
    rw (level_name-name_of m.level) (c_string-take 4095 (text_of (localtime m.curr_time) m) h)

-- The open file is that of the day of the last message.
abbrev pub IsOfDay : (ℕ → LocalTime) → SimpleLog → Type 0
IsOfDay localtime s = s.log_file ≡ some (s.log_path ++ day_file (localtime s.last_log_time))

module _ (localtime : ℕ → LocalTime) (can_open : List ℕ → Bool) where
  -- What is to be written: for each message that the level lets pass, the first 4095 bytes of its text,
  -- in its day's file.
  unfoldable pub entries : LogLevel → List ℕ → List Message → List (List ℕ × List ℕ)
  entries level path [] = []
  entries level path (m ∷ rest) =
      let later = entries level path rest in
      if lets level m.level
      then (path ++ day_file (localtime m.curr_time), take 4095 (text_of (localtime m.curr_time) m))
        ∷ later
      else later

  -- No midnight passes between the two times that a message is logged at.
  abbrev pub OpensToday : Message → Type 0
  OpensToday m = SameDay (localtime m.open_time) (localtime m.curr_time)

  is_new_day-same :
      (s : SimpleLog) (t : ℕ)
      → is_new_day localtime can_open s t ≡ false
      → SameDay (localtime s.last_log_time) (localtime t)
  unfolding is_new_day
  is_new_day-same s t e = ground arith

  -- Where a message passes, the file of its day is open afterwards, and its line is written there.
  log_message_passed :
      (opens : (file : List ℕ) → can_open file ≡ true) (s : SimpleLog) (disk : Disk) (m : Message)
      → IsOfDay localtime s
      → OpensToday m
      → ltb (rank s.log_level) (rank m.level) ≡ false
      → let file = s.log_path ++ date_name (localtime m.curr_time) in
        log_message localtime can_open s disk m
        ≡ ok (
          record s { log_file = some file; last_log_time = m.curr_time },
          record disk { written = disk.written ++ ((file, line localtime can_open m) ∷ []) },
        )
  unfolding log_message open_file
  log_message_passed opens s disk m today opened passes =
      elim (Bool-cases (is_new_day localtime can_open s m.curr_time)) [
        | inl new ↦
            let name = date_name-day (localtime m.open_time) (localtime m.curr_time) opened in
            rw
              (
                passes,
                log_message,
                new,
                opens (s.log_path ++ date_name (localtime m.open_time)),
                name,
              )
              refl
        | inr old ↦
            let name =
              date_name-day (localtime s.last_log_time) (localtime m.curr_time)
                (is_new_day-same s m.curr_time old) in
            let file =
              today
              ∙ ap (λ q. some (s.log_path ++ q))
                  (sym (date_name-day_file (localtime s.last_log_time)))
              ∙ ap (λ q. some (s.log_path ++ q)) name in
            rw (passes, log_message, old, file) refl
      ]

  log_message-writes :
      (opens : (file : List ℕ) → can_open file ≡ true) (s : SimpleLog) (disk : Disk) (m : Message)
      → IsOfDay localtime s
      → OpensToday m
      → IsText localtime m
      → ltb (rank s.log_level) (rank m.level) ≡ false
      → let file = s.log_path ++ day_file (localtime m.curr_time) in
        let text = take 4095 (text_of (localtime m.curr_time) m) in
        log_message localtime can_open s disk m
        ≡ ok (
          record s { log_file = some file; last_log_time = m.curr_time },
          record disk { written = disk.written ++ ((file, text) ∷ []) },
        )
  log_message-writes opens s disk m today opened is_text passes =
      log_message_passed opens s disk m today opened passes
      ∙ ap₂ {C = Result (SimpleLog × Disk)}
          (λ name text. ok (
            record s { log_file = some (s.log_path ++ name); last_log_time = m.curr_time },
            record disk { written = disk.written ++ ((s.log_path ++ name, text) ∷ []) },
          ))
          (date_name-day_file (localtime m.curr_time)) (line-text_of localtime can_open m is_text)

  log_message_dropped :
      (s : SimpleLog) (disk : Disk) (m : Message)
      → ltb (rank s.log_level) (rank m.level) ≡ true
      → log_message localtime can_open s disk m ≡ ok (s, disk)
  unfolding log_message
  log_message_dropped s disk m dropped = rw (dropped, log_message) refl

  -- The messages are written in order, each that the level lets pass with its time, thread and level
  -- before it, cut to 4095 bytes, in the file of its day; the others are not. This holds of a log whose
  -- file is that of the day of the last message, where files can be opened, no text has a byte that is
  -- 0, and no midnight passes while a message opens its file; and the file stays that of the day.
  pub log_messages-entries :
      (opens : (file : List ℕ) → can_open file ≡ true) (s : SimpleLog) (disk : Disk)
      (messages : List Message)
      → IsOfDay localtime s
      → All OpensToday messages
      → All (IsText localtime) messages
      → Returns (log_messages localtime can_open s disk messages) (λ (s', disk').
        (disk'.written ≡ disk.written ++ entries s.log_level s.log_path messages)
        × (disk'.folders ≡ disk.folders)
        × IsOfDay localtime s'
        × (s'.log_level ≡ s.log_level)
        × (s'.log_path ≡ s.log_path))
  unfolding log_messages entries
  log_messages-entries opens s disk [] today all texts =
      (sym (append-nil disk.written), refl, today, refl, refl)
  log_messages-entries opens s disk (m ∷ rest) today (opened, all) (is_text, texts) =
      elim (Bool-cases (lets s.log_level m.level)) [
        | inl passes ↦
            let file = s.log_path ++ day_file (localtime m.curr_time) in
            let entry : List ℕ × List ℕ = (file, take 4095 (text_of (localtime m.curr_time) m)) in
            let s' : SimpleLog = record s { log_file = some file; last_log_time = m.curr_time } in
            let disk' : Disk = record disk { written = disk.written ++ (entry ∷ []) } in
            rw
              (
                passes,
                log_message-writes opens s disk m today opened is_text
                    (rank-lets s.log_level m.level ∙ ap not passes),
                log_messages,
              )
              (Returns-mono
                (λ (t, d).
                  (d.written ≡ disk'.written ++ entries s.log_level s.log_path rest)
                  × (d.folders ≡ disk.folders)
                  × IsOfDay localtime t
                  × (t.log_level ≡ s.log_level)
                  × (t.log_path ≡ s.log_path))
                _ (log_messages localtime can_open s' disk' rest)
                (λ (t, d) (w, f, o, l, p). (
                  w ∙ append_assoc disk.written (entry ∷ []) (entries s.log_level s.log_path rest),
                  f,
                  o,
                  l,
                  p,
                ))
                (log_messages-entries opens s' disk' rest refl all texts))
        | inr dropped ↦
            rw
              (
                dropped,
                log_message_dropped s disk m (rank-lets s.log_level m.level ∙ ap not dropped),
                log_messages,
              )
              (log_messages-entries opens s disk rest today all texts)
      ]

  log_message-keeps :
      (opens : (file : List ℕ) → can_open file ≡ true) (s : SimpleLog) (disk : Disk) (m : Message)
      → ltb (rank s.log_level) (rank m.level) ≡ false
      → Returns (log_message localtime can_open s disk m) (λ (s', disk').
        (s'.log_level ≡ s.log_level)
        × (s'.log_path ≡ s.log_path)
        × (s'.last_log_time ≡ m.curr_time))
  unfolding log_message open_file
  log_message-keeps opens s disk m passes =
      elim (Bool-cases (is_new_day localtime can_open s m.curr_time)) [
        | inl new ↦
            rw (passes, log_message, new, opens (s.log_path ++ date_name (localtime m.open_time)))
              (refl, refl, refl)
        | inr old ↦ rw (passes, log_message, old) (refl, refl, refl)
      ]

  init_late :
      (can_make : List ℕ → Bool) (s : SimpleLog) (disk : Disk) (level : LogLevel) (path : List ℕ)
      (now open_time : ℕ)
      → (s.last_log_time == 0) ≡ false
      → init localtime can_open can_make s disk level path now open_time ≡ ok (s, disk)
  unfolding init
  init_late can_make s disk level path now open_time late = rw (late, init) refl

  debug_passes : (level : LogLevel) → ltb (rank simple_log.log_level) (rank level) ≡ false
  unfolding rank simple_log
  debug_passes LogLevel.error = refl
  debug_passes LogLevel.warning = refl
  debug_passes LogLevel.info = refl
  debug_passes debug = refl

  -- A message that is logged before `Init`, at a time that is not 0, makes `Init` do nothing: the
  -- level stays the lowest and the path empty. (Files can be opened.)
  pub init-log_message :
      (opens : (file : List ℕ) → can_open file ≡ true) (can_make : List ℕ → Bool) (disk : Disk)
      (m : Message) (level : LogLevel) (path : List ℕ) (now open_time : ℕ)
      → 0 < m.curr_time
      → Returns (log_message localtime can_open simple_log disk m) (λ (s, disk').
        (init localtime can_open can_make s disk' level path now open_time ≡ ok (s, disk'))
        × (s.log_level ≡ debug)
        × (s.log_path ≡ []))
  unfolding simple_log
  init-log_message opens can_make disk m level path now open_time late =
      Returns-mono
        (λ (s, disk'). (s.log_level ≡ debug) × (s.log_path ≡ []) × (s.last_log_time ≡ m.curr_time))
        _ (log_message localtime can_open simple_log disk m)
        (λ (s, disk') (l, p, t). (
          init_late can_make s disk' level path now open_time
              (ne→== s.last_log_time 0 (λ z. absurd (omega (arith, z, t, late)))),
          l,
          p,
        ))
        (log_message-keeps opens simple_log disk m (debug_passes m.level))
