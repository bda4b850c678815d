-- ===== src/App/Tests.antt =====
-- The theorems at a small JSON library, whose doubles are integers, and a table of leaves that is a
-- list; the keys of leaves count from 0.
mod Library
mod Table
mod OnLeaves
mod OnWire
mod OnStatements
use calabash.Base.{
  All, zero, suc, ℕ, ◌*◌, ◌≡◌, ◌≢◌, refl, Bool, true, false, ℤ, Option, some, none, List, [], ◌∷◌,
  Bytes, codes, take, Outcome, ok, fault, arith,
}
use calabash.App.{Env, got, Did, returned, raised}
use calabash.App.Act.{
  http, http_body, index_found, get_text_at, get_int_at, get_bool_at, only_row, test_json_param,
  lost_params, lost_one,
}
use calabash.App.Business.{token_key, app_login, app_self}
use calabash.App.Guard.{Valid, handle-Valid, Answers, new_server}
use calabash.App.Guard.Refusal.{Refused, no_token, handle-Refused}
use calabash.App.Leaves.{LeaveRow}
use calabash.App.Leaves.History.{Served, approves, idle, Served-Kept, Served-AllSound}
use calabash.App.Leaves.Decision.{Decision, decided_status, app_approval-writes}
use calabash.App.Leaves.Junior.{Complete, app_leave-files}
use calabash.App.Login.{token_back, app_login-token_user, let_through}
use calabash.App.Leaves.Moves.{Kept, AllSound}
use calabash.App.Notes.{app_leave, app_approval, approve_status, decide}
use calabash.App.Paging.{
  LeaveCells, row_of, page_rows, show_page-eq, app_search_leave-no_max_num, app_search_leave-page,
  push_all, leave_json,
}
use calabash.App.Routes.{token_user, World, init, guarded, enter}
use calabash.App.Search.{app_search_leave_num, app_search_leave, show_page, find_leaves, or_mentor}
use calabash.App.Tests.Library.{
  Json, null_json, text_json, number_json, truth_json, no_fields, field, json_lib,
}
use calabash.App.Tests.Table.{set_status_at, Store, leave_at, env, table, new_row, cell, leave_rows}
use calabash.App.Statements.{data_base_init, data_base_init-Runs, fresh, Runs, statements}
use calabash.App.Connected.{connected, initialised, student_json, app_self-student}
use calabash.Sqlite3.Rows.{Run, next, finished}
use calabash.Sqlite3.Calls.{after_call}
use calabash.Sqlite3.{
  Sqlite3Data, integer, row, read_row, read_columns, fmt_data, fmt_type, bind_compiled_sql_param,
  SqliteLib, Sqlite3, run_sql, run_compiled, get_data_from_stmt, collect,
}
use calabash.Sqlite3.Tests.{step_text, text_lib}
use calabash.Token.{Token, issue, encode, parse}
use calabash.Token.RoundTrip.{read_back}
use calabash.Token.Tests.{strokes, strokes-IsPlain}
use calabash.Dict.{lookup, assign}
use calabash.Leave.{of_status, status}
use calabash.Request.{Request, empty_request}
use calabash.Server.{Files, handle, bind, bind_all}

abbrev pub files : Files
files = record { is_regular_file = λ p. false; extension = λ p. []; read_file = λ p. [] }

abbrev self_request : Request
self_request = record empty_request { method = codes "POST"; path = codes "/self" }

abbrev pub first_world : World Json Store
first_world = record { body_json = no_fields; db = []; in_flight = none }

handle-Refused_example :
    Answers env 403 [] [] (handle files (init env new_server) self_request [] first_world)
unfolding init bind bind_all assign lookup enter
handle-Refused_example =
    handle-Refused env files self_request [] first_world (guarded env (app_self env))
      (http json_lib 403 (codes "Unauthorized, not found token")) [] refl
      (λ e. absurd (ground arith)) (no_token no_fields refl refl) refl

abbrev login_body : Json
login_body =
    field (codes "user") (text_json (codes "ab"))
      (field (codes "password") (text_json (7 ∷ [])) no_fields)

app_login-token_user_example :
    (t : Bytes) × (app_login env login_body []
      ≡ ok (raised (http_body json_lib (json_lib.object ((codes "token", text_json t) ∷ []))), []))
    × ((clock : ℕ) (j v : Json) (e : Store)
        → json_lib.get_text v ≡ got t
        → token_user (record env { now = clock }) (some v) j e
          ≡ let_through env (λ w i. refl) clock (codes "ab") j e)
app_login-token_user_example =
    app_login-token_user env (λ w i. refl) login_body (text_json (7 ∷ [])) (text_json (codes "ab"))
      (codes "ab") (cell 7) [] [] refl refl refl refl refl (ground arith, (ground arith, tt))
      (omega arith) (strokes-IsPlain _)

abbrev pub login_token : Token
login_token = read_back 5 (issue strokes (λ w i. []) (codes "ab") (24 * 3600) 5 6)

pub issued :
    (t : Bytes) × (encode strokes
        (λ w i. [])
        (issue strokes (λ w i. []) (codes "ab") (24 * 3600) 5 6)
        token_key
      ≡ ok t)
    × (parse strokes (λ w i. []) 5 t token_key ≡ ok login_token)
issued =
    token_back env (λ w i. refl) (codes "ab") (ground arith, (ground arith, tt)) (omega arith)
      (strokes-IsPlain _) 5

abbrev pub num_request : Request
num_request = record empty_request { method = codes "POST"; path = codes "/search_leave_num" }

abbrev pub token_body : Json
token_body = field (codes "token") (text_json issued.0) no_fields

abbrev pub token_world : World Json Store
token_world = record { body_json = token_body; db = []; in_flight = none }

valid : Valid env num_request token_world
unfolding enter
valid = record {
  body = token_body;
  value = text_json issued.0;
  text = issued.0;
  token = login_token;
  entered = refl;
  found = refl;
  is_text = refl;
  parsed = issued.2;
  useful = refl;
  in_time = refl;
}

handle-Valid_example :
    Answers env 200 [] [] (handle files (init env new_server) num_request [] token_world)
unfolding valid init bind bind_all assign lookup app_search_leave_num find_leaves or_mentor
    get_text_at index_found
handle-Valid_example =
    handle-Valid env files (init env new_server) (app_search_leave_num env) num_request []
      token_world valid []
      (raised (http_body json_lib (json_lib.object ((codes "num", number_json (ℤ.pos 1)) ∷ [])))) []
      refl refl refl refl refl

abbrev some_cells : LeaveCells ℤ
some_cells = record {
  inform_id = cell 0;
  student_id = cell 1;
  mentor_id = cell 2;
  instructor_id = cell 3;
  leave_type = cell 4;
  leave_reason = cell 5;
  time_begin = cell 6;
  time_end = cell 7;
  is_school = cell 8;
  leave_status = cell 9;
}

show_page-eq_example : show_page env 3 1073741824 (row_of some_cells ∷ []) [] ≡ fault
show_page-eq_example = show_page-eq env 3 1073741824 (some_cells ∷ []) [] (omega arith)

abbrev page_body : Json
page_body =
    field (codes "user") (text_json (codes "i"))
      (field (codes "page") (number_json (ℤ.pos 1)) no_fields)

abbrev full_page_body : Json
full_page_body = field (codes "max_num") (number_json (ℤ.negsuc 3)) page_body
