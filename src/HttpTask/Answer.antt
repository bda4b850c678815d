-- ===== src/HttpTask/Answer.antt =====
-- From the chunks of a request to the bytes of its response.
use calabash.Base.{◌≡◌, refl, false, List, [], ◌∷◌, ◌++◌, Bytes, codes, All, length, is_empty, ok}
use calabash.DataReader.Delivery.{Accepts, Available, Delivers}
use calabash.HttpTask.{Peer, Finished, attached, send_response, answer, http_task, nothing_sent}
use calabash.Request.{Request, empty_request, header, parse_target, test_content_type_multipart}
use calabash.Request.Body.{flatten}
use calabash.Request.Head.{IsWord, request_text}
use calabash.Request.Headers.{Header, IsHeader, emplace_all}
use calabash.Request.Whole.{finished, parse-request_text}
use calabash.Response.{Types, make_http_head}
use calabash.Response.Wire.{get_data_reader-wire}
use calabash.Server.{Exchange, Server, Files, handle}

module _ {W : Type 0} (peer : Peer) (files : Files) (server : Server W)
    (accepts : Accepts peer.send) (available : Available peer.readsome) where
  -- The bytes of a response: its head, its body and its file.
  abbrev pub response_text : Exchange W → Bytes
  response_text x =
      let content = x.resp.body_data ++ x.resp.data_reader.input_file_stream in
      make_http_head peer.show (length content) x.resp ++ content

  abbrev pub answered : Exchange W → Finished W
  answered x = record { place = attached; wire = response_text x; types = x.types; world = x.world }

  send_response-eq :
      (x : Exchange W)
      → x.resp.data_reader.stream_size ≡ length x.resp.data_reader.input_file_stream
      → send_response peer files server x ≡ ok (answered x)
  unfolding send_response Delivers
  send_response-eq x whole =
      let (t, e, wire) =
        get_data_reader-wire peer.send peer.readsome accepts available peer.show x.resp nothing_sent
          whole in
      rw (e, wire) refl

  -- A request with plain words, at least one plain header and a target that is read, whose content type
  -- is not multipart and whose `Content-Length` is the size of its body, arrives with its whole head in
  -- the first chunk and the rest of its body in chunks that are not empty; the peer accepts some byte at
  -- each call and the file is readable. If the server handles the request that was sent, with no
  -- exception leaving it, then all of its response goes over the wire, once and in order, and the socket
  -- is attached for the next request.
  pub http_task-answers :
      (method target version first : Bytes) (h : Header) (hs : List Header) (chunks : List Bytes)
      (read : Request) (types : Types) (world : W) (x : Exchange W)
      → IsWord method
      → IsWord target
      → IsWord version
      → All IsHeader (h ∷ hs)
      → parse_target target (record empty_request {
        method = method;
        path = target;
        version = version;
        headers = emplace_all (h ∷ hs) [];
      })
        ≡ ok read
      → test_content_type_multipart (header read (codes "Content-Type")) ≡ false
      → peer.strtol (header read (codes "Content-Length")) ≡ length (first ++ flatten chunks)
      → All (λ c. is_empty c ≡ false) chunks
      → peer.chunks ≡ request_text method target version (h ∷ hs) first ∷ chunks
      → handle files server
          (finished read peer.ip (length (first ++ flatten chunks)) (first ++ flatten chunks))
          types
          world
        ≡ ok x
      → x.resp.data_reader.stream_size ≡ length x.resp.data_reader.input_file_stream
      → http_task peer files server types world ≡ ok (answered x)
  unfolding http_task answer
  http_task-answers method target version first h hs chunks read types world x hm ht hv v et multi
        size hc sent handled whole =
      rw
        (
          sent,
          parse-request_text peer.strtol peer.stale peer.ip method target version first h hs chunks
              empty_request read hm ht hv v et multi size hc,
          handled,
          send_response-eq x whole,
        )
        refl
