-- ===== src/Log/Start.antt =====
-- The first `Init` of src/netter/simple_log.cpp.
use netter.Common.{
  ℕ, Bool, true, List, [], ◌∷◌, ◌++◌, some, ok, if◌then◌else◌, ◌==◌, ==_iff, All, ◌≡◌, refl, ap,
  ◌∙◌, ◌⊎◌, inl, inr, Returns, Bool-cases, Returns-value,
}
use netter.Log.{
  LogLevel, LocalTime, SimpleLog, Disk, date_name, has_folder, make_folders, last_byte, open_file,
  init,
}
use netter.Log.Days.{IsOfDay, SameDay, date_name-day, date_name-day_file}
use netter.Log.Folders.{parents, make_folders-parents}

-- The log is ready: its path is the given one with a '/' at its end, where every folder exists, and the
-- file of the day of its start is open.
abbrev pub IsReady : (ℕ → LocalTime) → LogLevel → List ℕ → Disk → SimpleLog × Disk → Type 0
IsReady localtime level path disk (s, disk') =
    IsOfDay localtime s
    × (s.log_level ≡ level)
    × ((s.log_path ≡ path) ⊎ (s.log_path ≡ path ++ (b'/' ∷ [])))
    × (last_byte s.log_path ≡ ok b'/')
    × All (λ p. has_folder p disk'.folders ≡ true) (parents [] s.log_path)
    × (disk'.written ≡ disk.written)

last_byte-append : (xs : List ℕ) (c : ℕ) → last_byte (xs ++ (c ∷ [])) ≡ ok c
unfolding last_byte
last_byte-append [] c = refl
last_byte-append (x ∷ []) c = refl
last_byte-append (x ∷ (y ∷ ys)) c = last_byte-append (y ∷ ys) c

-- The path that `Init` keeps.
abbrev kept_path : ℕ → List ℕ → List ℕ
kept_path last path = if last == b'/' then path else path ++ (b'/' ∷ [])

kept_path_lem :
    (last : ℕ) (path : List ℕ)
    → last_byte path ≡ ok last
    → ((kept_path last path ≡ path) ⊎ (kept_path last path ≡ path ++ (b'/' ∷ [])))
      × (last_byte (kept_path last path) ≡ ok b'/')
kept_path_lem last path e = elim (Bool-cases (last == b'/')) [
  | inl slash ↦ rw slash (inl refl, e ∙ ap ok ((==_iff last b'/').0 slash))
  | inr other ↦ rw other (inr refl, last_byte-append path b'/')
]

-- `Init` on a log that was not used, with a path that is not empty, where folders can be made and files
-- opened, and no midnight passes while it runs: the log is ready, and nothing was written.
pub init-IsReady :
    (localtime : ℕ → LocalTime) (can_open can_make : List ℕ → Bool)
    (opens : (file : List ℕ) → can_open file ≡ true) (makes : (p : List ℕ) → can_make p ≡ true)
    (s : SimpleLog) (disk : Disk) (level : LogLevel) (path : List ℕ) (now open_time last : ℕ)
    → s.last_log_time ≡ 0
    → last_byte path ≡ ok last
    → SameDay (localtime open_time) (localtime now)
    → Returns
        (init localtime can_open can_make s disk level path now open_time)
        (IsReady localtime level path disk)
unfolding init open_file
init-IsReady localtime can_open can_make opens makes s disk level path now open_time last unused e
      today =
    let full = kept_path last path in
    let (folders, made, all) =
      Returns-value (λ fs. All (λ p. has_folder p fs ≡ true) (parents [] full))
        (make_folders can_make [] full disk.folders)
        (make_folders-parents can_make makes full disk.folders) in
    let (shape, ends) = kept_path_lem last path e in
    rw
      (
        init,
        (==_iff s.last_log_time 0).1 unused,
        e,
        made,
        opens (full ++ date_name (localtime open_time)),
      )
      (
        ap (λ q. some (full ++ q))
            (date_name-day (localtime open_time) (localtime now) today
              ∙ date_name-day_file (localtime now)),
        refl,
        shape,
        ends,
        all,
        refl,
      )
