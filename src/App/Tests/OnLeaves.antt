-- ===== src/App/Tests/OnLeaves.antt =====
-- The theorems on the table of leaves, at a leave that waits for its teachers.
use calabash.Base.{zero, suc, ◌≡◌, refl, true, ℤ, [], ◌∷◌, codes, ok, arith}
use calabash.App.{returned}
use calabash.App.Act.{
  index_found, get_text_at, get_int_at, get_bool_at, only_row, test_json_param, lost_params,
  lost_one,
}
use calabash.App.Leaves.History.{Served, approves, idle, Served-Kept, Served-AllSound}
use calabash.App.Leaves.Decision.{Decision, decided_status, app_approval-writes}
use calabash.App.Leaves.Junior.{Complete, app_leave-files}
use calabash.App.Leaves.Moves.{Kept, AllSound}
use calabash.App.Notes.{app_leave, app_approval, approve_status, decide}
use calabash.App.Tests.Library.{Json, text_json, number_json, truth_json, no_fields, field}
use calabash.App.Tests.Table.{set_status_at, Store, leave_at, env, table, new_row, cell}
use calabash.Leave.{of_status, status}

abbrev waiting : Store
waiting = new_row (codes "m") (codes "i") (ℤ.pos 0) ∷ []

abbrev half_passed : Store
half_passed = new_row (codes "m") (codes "i") (ℤ.pos 1) ∷ []

abbrev approval_body : Json
approval_body = field (codes "user") (text_json (codes "i")) (
    field (codes "note_id") (number_json (ℤ.pos 0))
      (field (codes "status") (truth_json true) no_fields))

approved : app_approval env approval_body waiting ≡ ok (returned tt, half_passed)
unfolding app_approval approve_status decide get_text_at get_int_at get_bool_at index_found only_row
    test_json_param lost_params lost_one of_status status
approved = refl

one_approval : Served env table waiting half_passed
one_approval =
    approves approval_body (returned tt) waiting half_passed half_passed approved (idle half_passed)

waiting-AllSound : (i : ℤ) → AllSound (leave_at waiting i)
unfolding of_status
waiting-AllSound (ℤ.pos zero) = λ h. absurd (cc)
waiting-AllSound (ℤ.pos (suc n)) = tt
waiting-AllSound (ℤ.negsuc n) = tt

Served-Kept_example :
    Kept (new_row (codes "m") (codes "i") (ℤ.pos 0)) (leave_at half_passed (ℤ.pos 0))
Served-Kept_example =
    Served-Kept env table waiting half_passed (ℤ.pos 0) (new_row (codes "m") (codes "i") (ℤ.pos 0))
      one_approval refl

Served-AllSound_example : AllSound (leave_at half_passed (ℤ.pos 0))
Served-AllSound_example =
    Served-AllSound env table waiting half_passed one_approval waiting-AllSound (ℤ.pos 0)

abbrev leave_body : Json
leave_body = field (codes "user") (text_json (codes "s")) (
    field (codes "leave_type") (text_json (codes "t")) (
      field (codes "leave_reason") (text_json (codes "r")) (
        field (codes "time_begin") (text_json (codes "b")) (
          field (codes "time_end") (text_json (codes "e"))
            (field (codes "is_school") (truth_json true) no_fields)))))

leave_body-Complete : Complete env table leave_body
leave_body-Complete = record {
  user = codes "s";
  leave_type = codes "t";
  leave_reason = codes "r";
  time_begin = codes "b";
  time_end = codes "e";
  is_school = true;
  user_j = text_json (codes "s");
  type_j = text_json (codes "t");
  reason_j = text_json (codes "r");
  begin_j = text_json (codes "b");
  end_j = text_json (codes "e");
  school_j = truth_json true;
  user_at = refl;
  type_at = refl;
  reason_at = refl;
  begin_at = refl;
  end_at = refl;
  school_at = refl;
  user_text = refl;
  type_text = refl;
  reason_text = refl;
  begin_text = refl;
  end_text = refl;
  school_bool = refl;
}

-- A student of 2019 in the year 2023: the mentor has passed the leave from the start.
app_leave-files_example :
    app_leave env leave_body [] ≡ ok (returned tt, new_row (8 ∷ []) (7 ∷ []) (ℤ.pos 4) ∷ [])
app_leave-files_example =
    app_leave-files env table leave_body leave_body-Complete cell 2019 [] refl refl (omega arith)
      (omega arith)

approval_body-Decision : Decision env table approval_body
approval_body-Decision = record {
  user = codes "i";
  note_id = ℤ.pos 0;
  approves = true;
  note_double = ℤ.pos 0;
  user_j = text_json (codes "i");
  note_j = number_json (ℤ.pos 0);
  status_j = truth_json true;
  user_at = refl;
  note_at = refl;
  status_at = refl;
  user_text = refl;
  note_number = refl;
  note_int = refl;
  status_bool = refl;
}

app_approval-writes_example :
    (let t =
        decided_status env table (codes "i") true (new_row (codes "m") (codes "i") (ℤ.pos 0)) in
      (app_approval env approval_body waiting
        ≡ ok (returned tt, set_status_at (ℤ.pos 0) (ℤ.pos (status t)) waiting))
      × (of_status (status t) ≡ t))
unfolding approval_body-Decision of_status
app_approval-writes_example =
    app_approval-writes env table approval_body approval_body-Decision
      (new_row (codes "m") (codes "i") (ℤ.pos 0)) waiting refl refl (λ e. refl) (λ e. absurd (cc))
