-- ===== src/App/Leaves/Filing.antt =====
-- `app_leave` on the table of leaves.
use calabash.Base.{
  ℕ, ◌<◌, ◌≡◌, sym, subst, ℤ, eq_int, Bool, true, false, not, none, List, Bytes, codes, get_elem?,
  int, minus, add_ℕ, or_fault, Bool-cases, inl, inr, arith,
}
use calabash.App.{Env, returned}
use calabash.App.Act.{http}
use calabash.App.Notes.{app_leave, is_graduate, set_junior, new_status, leave_params}
use calabash.App.Leaves.{LeaveTable, status_of}
use calabash.App.Leaves.Approval.{eq_int_sound, Follow, Keeps, ends, and_then-Keeps}
use calabash.App.Leaves.Moves.{filed, Moved-refl, Sound}
use calabash.App.Leaves.Reads.{
  lift-Reads, only_row-Reads, Reads, gives, Anything, and_then-Reads, get_text_at-Reads,
  get_bool_at-Reads, test_json_param-Reads,
}
use calabash.Leave.{status, bit}
use calabash.Leave.Status.{of_status-status}
use calabash.Sqlite3.{Sqlite3Data}

set_junior-lt : (b : Bool) → (set_junior b new_status).mentor < 4
unfolding set_junior
set_junior-lt true = omega arith
set_junior-lt false = omega arith

set_junior-Sound : (b : Bool) → Sound (set_junior b new_status)
unfolding set_junior
set_junior-Sound b h = absurd (cc)

-- The status that is filed is not released, so that it is sound.
filed-Sound :
    (b : Bool) (i m : Bytes)
    → Sound (
        status_of (record {
          status_data = ℤ.pos (status (set_junior b new_status));
          instructor_id = i;
          mentor_id = m;
        }))
unfolding set_junior
filed-Sound b i m =
    subst Sound (sym (of_status-status (set_junior b new_status) (omega arith) (set_junior-lt b)))
      (set_junior-Sound b)

module _ {J F D : Type 0} (env : Env J F D) (table : LeaveTable env) where
  is_graduate-Reads : (z : ℤ) (d : D) → Reads env Bool Anything d (is_graduate env z d)
  unfolding is_graduate
  is_graduate-Reads z d = and_then-Reads env _ (lift-Reads env (int (add_ℕ z 4)) d) (λ year u.
      and_then-Reads env _ (lift-Reads env (int (minus env.tm_year year)) d)
        (λ since w. gives _ tt))

  insert_leave-Follow :
      (student_id mentor_id instructor_id leave_type leave_reason time_begin time_end : Bytes)
      (is_school : ℤ) (b : Bool) (d : D)
      → Follow env table d (
          table.insert_leave student_id mentor_id instructor_id leave_type leave_reason time_begin
            time_end is_school
            (ℤ.pos (status (set_junior b new_status)))
            d)
  insert_leave-Follow student_id mentor_id instructor_id leave_type leave_reason time_begin time_end
        is_school b d i =
      let z = ℤ.pos (status (set_junior b new_status)) in
      let law =
        table.leave-insert_leave student_id mentor_id instructor_id leave_type leave_reason
          time_begin time_end is_school z i d in
      elim (Bool-cases (eq_int (table.new_key d) i)) [
        | inl new ↦
            let free : table.leave d i ≡ none =
              subst (λ k. table.leave d k ≡ none) (eq_int_sound env table (table.new_key d) i new)
                (table.leave-new_key d) in
            rw (law, new, free)
              (filed
                (record { status_data = z; instructor_id = instructor_id; mentor_id = mentor_id })
                (filed-Sound b instructor_id mentor_id))
        | inr old ↦ rw (law, old) (Moved-refl (table.leave d i))
      ]

  -- Filing a leave, whoever asks for it and with whatever body, adds at most one leave, which is not
  -- released; all others stay as they are.
  pub app_leave-Keeps : (body : J) (d : D) → Keeps env table Unit d (app_leave env body d)
  unfolding app_leave
  app_leave-Keeps body d =
      let text_at = λ (k : Bytes). get_text_at-Reads env k body d in
      let cell =
        λ (i : ℕ) (row : List (Sqlite3Data F)). lift-Reads env (or_fault (get_elem? row i)) d in
      and_then-Keeps env table _ (text_at (codes "user")) (λ user_id u0.
        and_then-Keeps env table _ (test_json_param-Reads env leave_params body d) (λ l u1.
          rw (table.select_student user_id d) (
            and_then-Keeps env table _
              (only_row-Reads env (http env.json 404 (codes "Not found student's teachers"))
                (table.student d user_id) d)
              (λ row u2. and_then-Keeps env table _ (cell 8 row) (λ mentor u3.
                and_then-Keeps env table _ (cell 7 row) (λ instructor u4.
                  and_then-Keeps env table _ (text_at (codes "leave_type")) (λ leave_type u5.
                    and_then-Keeps env table _ (text_at (codes "leave_reason")) (λ leave_reason u6.
                      and_then-Keeps env table _ (text_at (codes "time_begin")) (λ time_begin u7.
                        and_then-Keeps env table _ (text_at (codes "time_end")) (λ time_end u8.
                          and_then-Keeps env table _
                            (get_bool_at-Reads env (codes "is_school") body d)
                            (λ is_school u9.
                              and_then-Keeps env table _ (cell 3 row) (λ class_column u10.
                                and_then-Keeps env table _
                                  (is_graduate-Reads class_column.int_data d)
                                  (λ graduate u11.
                                    rw
                                      (table.insert user_id mentor.text_data instructor.text_data
                                        leave_type leave_reason time_begin time_end
                                        (ℤ.pos (bit is_school))
                                        (ℤ.pos (status (set_junior (not graduate) new_status))) d)
                                      (ends (returned tt) _ (
                                        insert_leave-Follow user_id mentor.text_data
                                          instructor.text_data leave_type leave_reason time_begin
                                          time_end (ℤ.pos (bit is_school)) (not graduate)
                                          d)))))))))))))))
