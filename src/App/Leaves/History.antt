-- ===== src/App/Leaves/History.antt =====
-- Any sequence of requests, of those that change leaves and those that only read.
use calabash.Base.{subst, ℕ, ◌≡◌, ℤ, some, Outcome, ok}
use calabash.App.{Env, Did}
use calabash.App.Notes.{app_approval, app_release, app_leave}
use calabash.App.Leaves.{LeaveRow, LeaveTable}
use calabash.App.Leaves.Approval.{
  Follow, Keeps, faults, ends, Follow-refl, app_approval-Keeps, app_release-Keeps,
}
use calabash.App.Leaves.Filing.{app_leave-Keeps}
use calabash.App.Leaves.Looking.{looks_up, looks_up-Keeps}
use calabash.App.Leaves.Moves.{Kept, Moved-Kept, Moved-trans, AllSound, Moved-AllSound}

module _ {J F D : Type 0} (env : Env J F D) (table : LeaveTable env) where
  -- The application at another time.
  abbrev pub at_time : (year mon now later : ℕ) → Env J F D
  at_time year mon now later = record env { tm_year = year; tm_mon = mon; now = now; later = later }

  abbrev table_at : (year mon now later : ℕ) → LeaveTable (at_time year mon now later)
  table_at year mon now later = record {
    zero = table.zero;
    leave = table.leave;
    select_status = table.select_status;
    select_teachers = table.select_teachers;
    set_leave_status = table.set_leave_status;
    update = table.update;
    leave-set_leave_status = table.leave-set_leave_status;
    student = table.student;
    select_student = table.select_student;
    new_key = table.new_key;
    insert_leave = table.insert_leave;
    insert = table.insert;
    leave-new_key = table.leave-new_key;
    leave-insert_leave = table.leave-insert_leave;
    teacher_info = table.teacher_info;
    teacher_password = table.teacher_password;
    student_password = table.student_password;
    leave_info_instructor = table.leave_info_instructor;
    leave_info_mentor = table.leave_info_mentor;
    leave_info_student = table.leave_info_student;
  }

  -- The database before and after a sequence of requests, whatever each of them answered.
  pub data Served : D → D → Type 0 where
    idle : (d : D) → Served d d
    approves :
        (body : J) (x : Did J Unit) (d d' last : D)
        → app_approval env body d ≡ ok (x, d')
        → Served d' last
        → Served d last
    releases :
        (body : J) (x : Did J Unit) (d d' last : D)
        → app_release env body d ≡ ok (x, d')
        → Served d' last
        → Served d last
    files :
        (year mon now later : ℕ) (body : J) (x : Did J Unit) (d d' last : D)
        → app_leave (at_time year mon now later) body d ≡ ok (x, d')
        → Served d' last
        → Served d last
    looks :
        (year mon now later : ℕ) (n : ℕ) (body : J) (x : Did J Unit) (d d' last : D)
        → looks_up (at_time year mon now later) (table_at year mon now later) n body d ≡ ok (x, d')
        → Served d' last
        → Served d last

  Keeps-ok :
      {o : Outcome (Did J Unit × D)} {d d' : D} (x : Did J Unit)
      → Keeps env table Unit d o
      → o ≡ ok (x, d')
      → Follow env table d d'
  Keeps-ok x faults e = absurd (cc)
  Keeps-ok {d = d} {d' = d'} x (ends y d'' h) e =
      let same : d'' ≡ d' = cc in subst (Follow env table d) same h

  Keeps-at_time :
      (year mon now later : ℕ) {o : Outcome (Did J Unit × D)} {d : D}
      → Keeps (at_time year mon now later) (table_at year mon now later) Unit d o
      → Keeps env table Unit d o
  Keeps-at_time year mon now later faults = faults
  Keeps-at_time year mon now later (ends x d' h) = ends x d' h

  Served-Follow : {d d' : D} → Served d d' → Follow env table d d'
  Served-Follow (idle d) i = Follow-refl env table d i
  Served-Follow (approves body x d d' last e rest) i =
      Moved-trans (Keeps-ok x (app_approval-Keeps env table body d) e i) (Served-Follow rest i)
  Served-Follow (releases body x d d' last e rest) i =
      Moved-trans (Keeps-ok x (app_release-Keeps env table body d) e i) (Served-Follow rest i)
  Served-Follow (files year mon now later body x d d' last e rest) i =
      let then = at_time year mon now later in
      let kept =
        Keeps-at_time year mon now later
          (app_leave-Keeps then (table_at year mon now later) body d) in
      Moved-trans (Keeps-ok x kept e i) (Served-Follow rest i)
  Served-Follow (looks year mon now later n body x d d' last e rest) i =
      let then = at_time year mon now later in
      let kept =
        Keeps-at_time year mon now later
          (looks_up-Keeps then (table_at year mon now later) n body d) in
      Moved-trans (Keeps-ok x kept e i) (Served-Follow rest i)

  -- Whatever requests are served one after another, each to its end before the next begins, at any
  -- times, of those for filing, approving and releasing a leave, logging in, and looking up accounts
  -- and lists of leaves, a leave stays in the table with its teachers; a teacher's decision on it, once
  -- made, does not change, and a release is not taken back. Requests that are handled at the same time
  -- are not covered.
  pub Served-Kept :
      (d d' : D) (i : ℤ) (r : LeaveRow)
      → Served d d'
      → table.leave d i ≡ some r
      → Kept r (table.leave d' i)
  Served-Kept d d' i r served e = Moved-Kept (Served-Follow served i) r e

  -- In a table where only leaves that both teachers passed are released, this stays so, whatever
  -- requests are served one after another, each to its end before the next begins, at any times, of
  -- those for filing, approving and releasing a leave, logging in, and looking up accounts and lists of
  -- leaves. Requests that are handled at the same time are not covered.
  pub Served-AllSound :
      (d d' : D)
      → Served d d'
      → ((i : ℤ) → AllSound (table.leave d i))
      → (i : ℤ) → AllSound (table.leave d' i)
  Served-AllSound d d' served h i = Moved-AllSound (Served-Follow served i) (h i)
