-- ===== src/App/Leaves/Looking.antt =====
-- The handlers that only read: for accounts and for lists of leaves.
use calabash.Base.{
  Option-cases, ℕ, zero, suc, ◌+◌, ◌-◌, ◌*◌, ℤ, int, bits_of, Option, some, none, Bytes, codes,
  get_elem?, is_empty, Outcome, Bool-cases, inl, inr,
}
use calabash.App.{Env, Did, returned, raised}
use calabash.App.Act.{Act}
use calabash.App.Business.{app_self, app_student_info, app_login, is_teacher, leave_columns}
use calabash.App.Leaves.{LeaveTable}
use calabash.App.Leaves.Approval.{Keeps, ends, faults, Follow-refl}
use calabash.App.Leaves.Reads.{
  no_read, stops, gives, and_then-Reads, get_text_at-Reads, get_int_at-Reads, lift-Reads,
}
use calabash.App.Search.{
  or_mentor, find_leaves, push_next, push_rows, page_of, show_page, app_search_leave,
  app_search_leave_num,
}
use calabash.Sqlite3.{Rows}
use calabash.App.Leaves.Accounts.{
  Looked, query-Reads, show_row-Reads, app_self-Reads, app_student_info-Reads, app_login-Reads,
}

module _ {J F D : Type 0} (env : Env J F D) (table : LeaveTable env) where
  -- Whatever a piece that only reads comes to, the table stays.
  Reads-Keeps :
      {A : Type 0} {d : D} {o : Outcome (Did J A × D)}
      → Looked env table A d o
      → Keeps env table A d o
  Reads-Keeps no_read = faults
  Reads-Keeps {d = d} (stops e) = ends (raised e) d (Follow-refl env table d)
  Reads-Keeps {d = d} (gives a u) = ends (returned a) d (Follow-refl env table d)

  or_mentor-Reads :
      (user : Bytes) (rows : Rows F) (d : D)
      → Looked env table (Rows F) d (or_mentor env user rows d)
  unfolding or_mentor
  or_mentor-Reads user rows d = elim (Bool-cases (is_empty rows)) [
    | inl e ↦
        rw e
          (query-Reads env table (codes "select_leave_info_mentor") table.leave_info_mentor user d)
    | inr e ↦ rw e (gives rows tt)
  ]

  find_leaves-Reads : (user : Bytes) (d : D) → Looked env table (Rows F) d (find_leaves env user d)
  unfolding find_leaves
  find_leaves-Reads user d = elim (Bool-cases (is_teacher user)) [
    | inl e ↦ rw e (
        and_then-Reads env _
          (query-Reads env table (codes "select_leave_info_instructor") table.leave_info_instructor
            user d)
          (λ rows u. or_mentor-Reads user rows d))
    | inr e ↦
        rw e (
          query-Reads env table (codes "select_leave_info_student") table.leave_info_student user d)
  ]

  push_rows-Reads :
      (left i : ℕ) (rows : Rows F) (j : J) (d : D)
      → Looked env table J d (push_rows env left i rows j d)
  unfolding push_rows push_next
  push_rows-Reads zero i rows j d = gives j tt
  push_rows-Reads (suc left) i rows j d = elim (Option-cases (get_elem? rows i)) [
    | inl e ↦ rw e (gives j tt)
    | inr (row, e) ↦ rw e (
        and_then-Reads env _ (show_row-Reads env table leave_columns row d)
          (λ leave u. push_rows-Reads left (i + 1) rows (env.json.push_back j leave) d))
  ]

  page_of-Reads :
      (o : Option J) (body : J) (d : D) → Looked env table (ℕ × ℕ) d (page_of env o body d)
  unfolding page_of
  page_of-Reads none body d = gives (1, 50) tt
  page_of-Reads (some p) body d =
      and_then-Reads env _ (get_int_at-Reads env (codes "page") body d) (λ page u.
        and_then-Reads env _ (get_int_at-Reads env (codes "max_num") body d)
          (λ max_num v. gives _ tt))

  show_page-Reads :
      (page max_num : ℕ) (rows : Rows F) (d : D)
      → Looked env table Unit d (show_page env page max_num rows d)
  unfolding show_page
  show_page-Reads page max_num rows d =
      and_then-Reads env _ (lift-Reads env (int (ℤ.pos ((page - 1) * max_num))) d) (λ bg u.
        and_then-Reads env _ (lift-Reads env (int (ℤ.pos (page * max_num))) d) (λ ed v.
          and_then-Reads env _
            (push_rows-Reads (bits_of ed - bits_of bg) (bits_of bg) rows env.json.null d)
            (λ j w. stops _)))

  app_search_leave-Reads :
      (body : J) (d : D) → Looked env table Unit d (app_search_leave env body d)
  unfolding app_search_leave
  app_search_leave-Reads body d =
      and_then-Reads env _ (get_text_at-Reads env (codes "user") body d) (λ user u.
        and_then-Reads env _ (page_of-Reads (env.json.find (codes "page") body) body d) (λ page v.
          and_then-Reads env _ (find_leaves-Reads user d)
            (λ rows w. show_page-Reads page.0 page.1 rows d)))

  app_search_leave_num-Reads :
      (body : J) (d : D) → Looked env table Unit d (app_search_leave_num env body d)
  unfolding app_search_leave_num
  app_search_leave_num-Reads body d =
      and_then-Reads env _ (get_text_at-Reads env (codes "user") body d)
        (λ user u. and_then-Reads env _ (find_leaves-Reads user d) (λ rows w. stops _))

  -- The handlers that only read.
  abbrev pub looks_up : ℕ → J → Act J D Unit
  looks_up zero = app_login env
  looks_up (suc zero) = app_self env
  looks_up (suc (suc zero)) = app_student_info env
  looks_up (suc (suc (suc zero))) = app_search_leave env
  looks_up (suc (suc (suc (suc n)))) = app_search_leave_num env

  pub looks_up-Keeps : (n : ℕ) (body : J) (d : D) → Keeps env table Unit d (looks_up n body d)
  looks_up-Keeps zero body d = Reads-Keeps (app_login-Reads env table body d)
  looks_up-Keeps (suc zero) body d = Reads-Keeps (app_self-Reads env table body d)
  looks_up-Keeps (suc (suc zero)) body d = Reads-Keeps (app_student_info-Reads env table body d)
  looks_up-Keeps (suc (suc (suc zero))) body d = Reads-Keeps (app_search_leave-Reads body d)
  looks_up-Keeps (suc (suc (suc (suc n)))) body d = Reads-Keeps (app_search_leave_num-Reads body d)
