-- ===== src/Log/Tests.antt =====
-- The log of src/netter/simple_log.cpp at concrete values.
use netter.Common.{
  ℕ, ◌/◌, ◌%◌, Bool, true, List, [], ◌∷◌, ◌++◌, some, ok, ◌≡◌, refl, Returns, arith, All, not, ◌&&◌,
  ◌==◌, ◌≢◌,
}
use netter.Log.{
  LogLevel, LocalTime, SimpleLog, Disk, Message, log_message, log_messages, init, simple_log, info,
  debug, error, last_byte,
}
use netter.Log.Days.{
  IsText, day_file, text_of, name_of, IsOfDay, entries, log_messages-entries, init-log_message,
}
use netter.Log.Start.{IsReady, init-IsReady}

-- Days of a hundred seconds, in one month.
abbrev localtime : ℕ → LocalTime
localtime t = record { year = 2016; mon = 3; mday = t / 100; hour = 0; min = 0; sec = t % 100 }

abbrev always : List ℕ → Bool
always name = true

abbrev message : LogLevel → ℕ → Message
message level time = record {
  level = level;
  text = b'h' ∷ b'i' ∷ [];
  curr_time = time;
  open_time = time;
  millis = 7;
  thread = b'1' ∷ [];
}

abbrev path : List ℕ
path = b'l' ∷ []

abbrev log : SimpleLog
log = record {
  log_level = info;
  log_path = b'l' ∷ b'/' ∷ [];
  log_file = some ((b'l' ∷ b'/' ∷ []) ++ day_file (localtime 1401));
  last_log_time = 1401;
}

abbrev disk : Disk
disk = record { folders = []; written = [] }

abbrev has_no_zero : List ℕ → Bool
has_no_zero [] = true
has_no_zero (c ∷ cs) = not (c == 0) && has_no_zero cs

has_no_zero-All : (text : List ℕ) → has_no_zero text ≡ true → All (λ c. c ≢ 0) text
has_no_zero-All [] h = tt
has_no_zero-All (c ∷ cs) h = ((λ e. ground (arith, e, h)), has_no_zero-All cs (ground arith))

texts : (m : Message) → has_no_zero (text_of (localtime m.curr_time) m) ≡ true → IsText localtime m
texts m h = has_no_zero-All (text_of (localtime m.curr_time) m) h

log_messages-entries_example :
    Returns
      (log_messages localtime always log disk
        (message info 1402 ∷ message debug 1403 ∷ message error 1501 ∷ []))
      (λ (s', disk').
        (disk'.written
          ≡ disk.written
            ++ entries localtime always info
                (b'l' ∷ b'/' ∷ [])
                (message info 1402 ∷ message debug 1403 ∷ message error 1501 ∷ []))
        × (disk'.folders ≡ disk.folders)
        × IsOfDay localtime s'
        × (s'.log_level ≡ info)
        × (s'.log_path ≡ b'l' ∷ b'/' ∷ []))
unfolding text_of name_of
log_messages-entries_example =
    log_messages-entries localtime always (λ f. refl) log disk
      (message info 1402 ∷ message debug 1403 ∷ message error 1501 ∷ []) refl
      ((refl, refl, refl), ((refl, refl, refl), ((refl, refl, refl), tt)))
      (
        texts (message info 1402) refl,
        (texts (message debug 1403) refl, (texts (message error 1501) refl, tt)),
      )

init-log_message_example :
    Returns (log_message localtime always simple_log disk (message debug 1402)) (λ (s, disk').
      (init localtime always always s disk' info path 1500 1500 ≡ ok (s, disk'))
      × (s.log_level ≡ debug)
      × (s.log_path ≡ []))
init-log_message_example =
    init-log_message localtime always (λ f. refl) always disk (message debug 1402) info path 1500
      1500 (omega arith)

init-IsReady_example :
    Returns
      (init localtime always always simple_log disk info path 1500 1501)
      (IsReady localtime info path disk)
unfolding simple_log last_byte
init-IsReady_example =
    init-IsReady localtime always always (λ f. refl) (λ p. refl) simple_log disk info path 1500 1501
      b'l' refl refl (refl, refl, refl)
