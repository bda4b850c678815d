-- ===== src/App.antt =====
-- The student application: example/app/app_business.cpp, example/app/student_mange_server.cpp,
-- example/include/app/student_mange_server.h, and the exceptions of src/web/exception.cpp. The JSON
-- library is the parameter `JsonLib`; a C++ exception is a value of `Did`.
pub mod Act
pub mod Business
pub mod Notes
pub mod Search
pub mod Routes
pub mod Guard
pub mod Login
pub mod Leaves
pub mod Paging
pub mod Statements
pub mod Connected
pub mod Wire
mod Tests
use calabash.Base.{ℕ, ◌≡◌, ◌≢◌, ℤ, Bool, true, Option, some, List, Bytes, Outcome}
use calabash.Sqlite3.{Value, Rows}
use calabash.Token.{Calendar}

-- What a function of the JSON library returns, or the text of the exception that it throws.
pub data Got (A : Type 0) : Type 0 where
  got : A → Got A
  failed : Bytes → Got A

-- The functions of nlohmann::json that the application calls, on a type of values and a type of
-- doubles, with what the library documents of them. `find` is none where it gives `end()`; `put` is
-- an assignment through `operator[]` to an object; `dump` throws on a text that is not UTF-8;
-- `to_int` is the conversion of a double, which is undefined out of range.
pub record JsonLib (J F : Type 0) : Type 0 where
  pub null : J
  pub object : List (Bytes × J) → J
  pub text : Bytes → J
  pub number : ℤ → J
  pub truth : Bool → J
  pub push_back : J → J → J
  pub parse : Bytes → Got J
  pub dump : J → Got Bytes
  pub is_object : J → Bool
  pub find : Bytes → J → Option J
  pub put : Bytes → J → J → J
  pub index_error : J → Bytes
  pub get_text : J → Got Bytes
  pub get_bool : J → Got Bool
  pub get_double : J → Got F
  pub to_int : F → Option ℤ
  pub same : J → J → Bool
  pub find-IsObject : (k : Bytes) (j v : J) → find k j ≡ some v → is_object j ≡ true
  pub find-put : (k : Bytes) (v j : J) → is_object j ≡ true → find k (put k v j) ≡ some v
  pub find-put_other :
      (k l : Bytes) (v j : J) → is_object j ≡ true → k ≢ l → find l (put k v j) ≡ find l j
  pub get_text-text : (s : Bytes) → get_text (text s) ≡ got s

pub record HttpException (J : Type 0) : Type 0 where
  pub base_code : ℕ
  pub code : ℕ
  pub msg : Bytes
  pub body : J

-- The exceptions that the application tells apart; the text of the last is only printed.
pub data Exception (J : Type 0) : Type 0 where
  http_exception : HttpException J → Exception J
  json_exception : Bytes → Exception J
  std_exception : Exception J

pub data Did (J A : Type 0) : Type 0 where
  returned : A → Did J A
  raised : Exception J → Did J A

-- What a handler reads beside the request: the libraries, the connection of the database, the clock
-- at its first and its second reading, and the calendar's year since 1900 and month from 0.
pub record Env (J F D : Type 0) : Type 0 where
  pub json : JsonLib J F
  pub call : Bytes → List (Value F) → D → Outcome (Rows F × D)
  pub calendar : Calendar
  pub beyond : ℕ → ℕ → Bytes
  pub now : ℕ
  pub later : ℕ
  pub tm_year : ℕ
  pub tm_mon : ℕ
