-- ===== src/Logger/Tests.antt =====
-- The logger on a clock of days, with months of 30 days.
use calabash.Base.{
  ℕ, ◌≡◌, ◌+◌, ◌%◌, refl, Bool, true, false, List, [], ◌∷◌, ◌++◌, Bytes, codes, ok, throw, fault,
  Outcome,
}
use calabash.Logger.{LocalTime, Disk, Logger, log_base_dir, new_logger, put_file, log}
use calabash.Logger.Rotation.{IsWell, open_on}
use calabash.Logger.Days.{Day, Call, log_each, calls, log_each-days, written, left_open, lines}
use calabash.Logger.Lost.{shut_on, log_each-unopened, log_each-same_mday}

abbrev local : LocalTime ℕ
local = record { tm_mday = λ n. n % 30 + 1; date = λ n. n ∷ []; time_str = λ n. (n + 100) ∷ [] }

abbrev disk : Disk
disk = record { has_dir = true; opens = λ name. true; takes = λ name. true }

disk-IsWell : IsWell disk
disk-IsWell = record { dir = refl; files = λ name. refl; lines = λ name. refl }

abbrev call : ℕ → Bytes → Call ℕ
call day text = record { text = text; readings = λ n. day }

abbrev day : ℕ → Day ℕ
day n = record {
  name = n ∷ [];
  mday = n % 30 + 1;
  opening = call n (codes "a");
  later = call n (codes "b") ∷ [];
}

abbrev no_files : Bytes → Bytes
no_files name = []

abbrev two_days : List (Day ℕ)
two_days = day 3 ∷ day 4 ∷ []

abbrev file_of : Bytes → Outcome (Bool × Logger × (Bytes → Bytes)) → Bytes
file_of name (ok (returned, l, files)) = files name
file_of name (throw e) = []
file_of name fault = []

first_file :
    file_of
      (log_base_dir ++ 3 ∷ [])
      (log_each local disk 2 (calls local disk two_days) new_logger no_files)
    ≡ 103
      ∷ (codes " SYSTEM  | defined LOGGER_CLEAR_FILE_AT_START\n"
          ++ 103 ∷ (codes " a\n" ++ 103 ∷ codes " b\n"))
unfolding log_each log
first_file = refl

log_each-days_example :
    log_each local disk 2 (calls local disk two_days) new_logger no_files
    ≡ ok (true, left_open local disk new_logger two_days, written local disk two_days no_files)
log_each-days_example =
    log_each-days local disk disk-IsWell 0 two_days new_logger no_files (refl, (refl, tt))
      (
        ((λ n. (refl, refl)), ((λ n. (refl, refl)), tt)),
        (((λ n. (refl, refl)), ((λ n. (refl, refl)), tt)), tt),
      )

abbrev full_disk : Disk
full_disk = record { has_dir = true; opens = λ name. false; takes = λ name. true }

log_each-unopened_example :
    log_each local full_disk 2 ((day 3).opening ∷ (day 3).later) new_logger no_files
    ≡ ok (true, shut_on 4, no_files)
log_each-unopened_example =
    log_each-unopened local full_disk 0 (day 3) new_logger no_files refl refl refl refl
      ((λ n. (refl, refl)), ((λ n. (refl, refl)), tt))

log_each-same_mday_example :
    log_each local disk 1
      (call 33 (codes "c") ∷ [])
      (open_on 4 (3 ∷ []))
      (put_file (log_base_dir ++ 3 ∷ []) (codes "x") no_files)
    ≡ ok (
      true,
      open_on 4 (3 ∷ []),
      put_file
          (log_base_dir ++ 3 ∷ [])
          (codes "x" ++ lines local disk (call 33 (codes "c") ∷ []))
          no_files,
    )
log_each-same_mday_example =
    log_each-same_mday local disk disk-IsWell 0 4 (3 ∷ []) (call 33 (codes "c") ∷ []) no_files
      (codes "x") ((λ n. refl), tt)
