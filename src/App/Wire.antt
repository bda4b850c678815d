-- ===== src/App/Wire.antt =====
-- A request of the application, from the chunks that its client sends to the bytes that it gets.
use calabash.Base.{
  ℕ, ◌≡◌, ◌≢◌, refl, ap, ◌∙◌, false, List, [], ◌∷◌, ◌++◌, Bytes, codes, All, length, is_empty,
  append-nil, Outcome, ok, some, none,
}
use calabash.App.{Env, Did, got, Exception}
use calabash.App.Act.{Act}
use calabash.App.Guard.{
  Answers, Valid, answer_code, answer_json, json_of, code_of, handle-Valid, new_server, with_user,
}
use calabash.App.Guard.Refusal.{Refused, handle-Refused}
use calabash.App.Routes.{World, guarded, app_process_exception, init}
use calabash.DataReader.{DataReader}
use calabash.DataReader.Delivery.{Accepts, Available}
use calabash.Dict.{lookup}
use calabash.HttpTask.{Peer, Finished, attached, http_task}
use calabash.HttpTask.Answer.{http_task-answers}
use calabash.Request.{Request, empty_request, header, parse_target, test_content_type_multipart}
use calabash.Request.Body.{flatten}
use calabash.Request.Head.{IsWord, request_text}
use calabash.Request.Headers.{Header, IsHeader, emplace_all}
use calabash.Request.Whole.{finished}
use calabash.Response.{Types, make_http_head}
use calabash.Server.{Exchange, Server, ServerFunc, Files, handle}

-- What a peer's chunks are where it sends a request: plain words and headers, a target that is read to
-- `read`, no multipart type, and a body as long as `Content-Length` says. The first chunk holds the whole
-- head, and no chunk is empty.
pub record Posts (peer : Peer) (read : Request) : Type 0 where
  pub method : Bytes
  pub target : Bytes
  pub version : Bytes
  pub first : Bytes
  pub h : Header
  pub hs : List Header
  pub chunks : List Bytes
  pub method-IsWord : IsWord method
  pub target-IsWord : IsWord target
  pub version-IsWord : IsWord version
  pub headers-All : All IsHeader (h ∷ hs)
  pub is_read :
      parse_target target (record empty_request {
        method = method;
        path = target;
        version = version;
        headers = emplace_all (h ∷ hs) [];
      })
      ≡ ok read
  pub not_multipart : test_content_type_multipart (header read (codes "Content-Type")) ≡ false
  pub sized : peer.strtol (header read (codes "Content-Length")) ≡ length (first ++ flatten chunks)
  pub not_empty : All (λ c. is_empty c ≡ false) chunks
  pub sent : peer.chunks ≡ request_text method target version (h ∷ hs) first ∷ chunks

-- The request that the parser makes of it.
abbrev pub arrived : {peer : Peer} {read : Request} → Posts peer read → Request
arrived {peer} {read} p =
    let body = p.first ++ flatten p.chunks in finished read peer.ip (length body) body

module _ {J F D : Type 0} (env : Env J F D) (peer : Peer) (files : Files)
    (accepts : Accepts peer.send) (available : Available peer.readsome) where
  -- The task ends with the socket attached again, that status and that database; what went over the
  -- wire is the response's head, with the length of that text, and the text.
  abbrev pub Wired : ℕ → Bytes → D → Outcome (Finished (World J D)) → Type 0
  Wired code text db o =
      (x : Exchange (World J D)) × (o
        ≡ ok (record {
          place = attached;
          wire = make_http_head peer.show (length text) x.resp ++ text;
          types = x.types;
          world = x.world;
        }))
      × (x.resp.code ≡ code)
      × (x.world.db ≡ db)

  Answers-Wired :
      (s : Server (World J D)) {read : Request} (p : Posts peer read) (types : Types)
      (w : World J D) (code : ℕ) (text : Bytes) (db : D)
      → Answers env code text db (handle files s (arrived p) types w)
      → Wired code text db (http_task peer files s types w)
  Answers-Wired s {read} p types w code text db (x, handled, is_code, is_text, is_db, no_file) =
      let done =
        http_task-answers peer files s accepts available p.method p.target p.version p.first p.h
          p.hs p.chunks read types w x p.method-IsWord p.target-IsWord p.version-IsWord
          p.headers-All p.is_read p.not_multipart p.sized p.not_empty p.sent handled
          (rw no_file refl) in
      let content : x.resp.body_data ++ x.resp.data_reader.input_file_stream ≡ text =
        ap (λ (r : DataReader). x.resp.body_data ++ r.input_file_stream) no_file
        ∙ append-nil x.resp.body_data
        ∙ is_text in
      (
        x,
        done
            ∙ ap
                (λ (sent : Bytes). ok (record {
                  place = attached;
                  wire = make_http_head peer.show (length sent) x.resp ++ sent;
                  types = x.types;
                  world = x.world;
                }))
                content,
        is_code,
        is_db,
      )

  -- A client posts a request with a valid token to a path that is bound to a guarded handler, in a
  -- server whose only middleware is the one for exceptions, with no exception in flight. The whole head
  -- comes in the first chunk, the peer accepts some byte at each call, and the JSON library can write
  -- the answer that the handler throws, or the plain one where it returns. Then the handler sees the
  -- user of the token, that text goes over the wire behind the head, complete and with its length, with
  -- the status that the handler leaves, the database is the handler's, and the socket is attached.
  pub http_task-Valid :
      (s : Server (World J D)) (func : J → Act J D Unit) {read : Request} (p : Posts peer read)
      (types : Types) (w : World J D) (v : Valid env (arrived p) w) (t : Bytes) (x : Did J Unit)
      (d : D)
      → lookup read.path s.handlers ≡ some (guarded env func)
      → s.process_handles ≡ app_process_exception env ∷ []
      → w.in_flight ≡ none
      → func (with_user env v.token v.body) w.db ≡ ok (x, d)
      → env.json.dump (answer_json env x) ≡ got t
      → Wired (answer_code env x) t d (http_task peer files s types w)
  http_task-Valid s func {read} p types w v t x d bound processes calm done dumped =
      Answers-Wired s p types w (answer_code env x) t d
        (handle-Valid env files s func (arrived p) types w v t x d bound processes calm done dumped)

  -- A client posts a request that is refused to a bound path of the application other than the login,
  -- with the whole head in the first chunk; the peer accepts some byte at each call, and the JSON library
  -- can write the answer with the reason. Then that text goes over the wire behind the head, complete
  -- and with its length, with the status of the reason, the database is as it was, and the socket is
  -- attached.
  pub http_task-Refused :
      {read : Request} (p : Posts peer read) (types : Types) (w : World J D)
      (fs : List (ServerFunc (World J D))) (e : Exception J) (t : Bytes)
      → lookup read.path (init env new_server).handlers ≡ some fs
      → read.path ≢ codes "/login"
      → Refused env (arrived p) w e
      → env.json.dump (json_of env e) ≡ got t
      → Wired (code_of e) t w.db (http_task peer files (init env new_server) types w)
  http_task-Refused {read} p types w fs e t bound other_path refused dumped =
      Answers-Wired (init env new_server) p types w (code_of e) t w.db
        (handle-Refused env files (arrived p) types w fs e t bound other_path refused dumped)
