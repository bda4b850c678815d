-- ===== src/Server/Static.antt =====
-- Requests for paths that no handler is bound to, and what binding does.
use calabash.Base.{
  ◌≡◌, refl, sym, ap, ◌∙◌, false, none, List, [], ◌∷◌, ◌++◌, append_assoc, append-nil, Bytes,
  bytes_eq, bytes_eq_refl, bytes_eq_iff, codes, is_empty, if◌then◌else◌, ok, Bool-cases, inl, inr,
}
use calabash.Dict.{lookup, lookup-assign}
use calabash.Request.{Request}
use calabash.Response.{
  Response, Types, set_header, set_type, set_body_data, set_code, page_not_found, not_found_page,
}
use calabash.Server.{
  Exchange, ServerFunc, Server, Files, or_none, bind, bind_all, static_file, file_response,
  handle_static, handle_found, handle,
}

-- The bytes behind a response's head.
abbrev content : Response → Bytes
content r = r.body_data ++ r.data_reader.input_file_stream

static_file-none :
    (files : Files) (static_path path : Bytes)
    → files.is_regular_file (static_path ++ path) ≡ false
    → files.is_regular_file (static_path ++ codes "/index.html") ≡ false
    → static_file files static_path path ≡ none
unfolding static_file
static_file-none files static_path path no_file no_index =
    elim (Bool-cases (is_empty static_path)) [
      | inl e ↦ rw e refl
      | inr e ↦ rw (e, no_file, no_index) refl
    ]

module _ {W : Type 0} where
  -- A request for a path that is not bound, with neither a file there nor an index page, is answered
  -- 404 with the page that says so.
  pub handle-not_found :
      (files : Files) (s : Server W) (req : Request) (types : Types) (world : W)
      → lookup req.path s.handlers ≡ none
      → files.is_regular_file (s.static_path ++ req.path) ≡ false
      → files.is_regular_file (s.static_path ++ codes "/index.html") ≡ false
      → (x : Exchange W) × (handle files s req types world ≡ ok x)
        × (x.resp.code ≡ 404)
        × (content x.resp ≡ not_found_page)
  unfolding handle handle_found handle_static file_response page_not_found set_type set_code
      set_header set_body_data
  handle-not_found files s req types world unbound no_file no_index =
      let missing = static_file-none files s.static_path req.path no_file no_index in
      (handle_static files s req types world, rw unbound refl, rw missing refl, rw missing refl)

  -- Binding a list of handlers puts them behind those that the path has, in order, and leaves every other
  -- path as it was.
  pub bind_all-appends :
      (path j : Bytes) (new : List (ServerFunc W)) (s : Server W)
      → or_none (lookup j (bind_all path new s).handlers) ≡ (
          if bytes_eq path j
          then or_none (lookup path s.handlers) ++ new
          else or_none (lookup j s.handlers))
  unfolding bind_all bind
  bind_all-appends path j [] s = elim (Bool-cases (bytes_eq path j)) [
    | inl e ↦
        let same_path : path ≡ j = (bytes_eq_iff path j).0 e in
        rw e (
          ap (λ k. or_none (lookup k s.handlers)) (sym same_path)
          ∙ sym (append-nil (or_none (lookup path s.handlers))))
    | inr e ↦ rw e refl
  ]
  bind_all-appends path j (f ∷ fs) s =
      let earlier = or_none (lookup path s.handlers) in
      bind_all-appends path j fs (bind path f s)
      ∙ rw
          (
            lookup-assign path path (earlier ++ f ∷ []) s.handlers,
            lookup-assign path j (earlier ++ f ∷ []) s.handlers,
            bytes_eq_refl path,
          )
          (elim (Bool-cases (bytes_eq path j)) [
            | inl e ↦ rw e (append_assoc earlier (f ∷ []) fs)
            | inr e ↦ rw e refl
          ])
