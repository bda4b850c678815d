-- ===== src/HttpTask.antt =====
-- src/web/http_task.cpp: what a worker does with a socket that has a request. The socket is the chunks
-- that it delivers, its address and what it accepts; the log line is left out.
pub mod Answer
mod Tests
use calabash.Base.{ℕ, ◌≡◌, Bool, true, false, List, [], Bytes, Outcome, ok, ◌>>=◌}
use calabash.DataReader.{Sent, buffer_read}
use calabash.Request.{Request, empty_request, Parsed, parse}
use calabash.Response.{Types, get_data_reader}
use calabash.Server.{Exchange, Server, Files, handle}

-- Where the socket goes at the end: back to the poller, or to its end.
pub data Place : Type 0 where
  attached removed : Place

-- The world of one task: the platform and the peer.
pub record Peer : Type 0 where
  pub strtol : Bytes → ℕ
  pub stale : Bytes
  pub ip : Bytes
  pub chunks : List Bytes
  pub send : ℕ → Bytes → ℕ
  pub readsome : Bytes → ℕ
  pub show : ℕ → Bytes

-- What a task leaves.
pub record Finished (W : Type 0) : Type 0 where
  pub place : Place
  pub wire : Bytes
  pub types : Types
  pub world : W

abbrev pub nothing_sent : Sent
nothing_sent = record { wire = []; calls = 0 }

module _ {W : Type 0} (peer : Peer) (files : Files) (server : Server W) where
  -- The response is sent, and the socket attached again.
  pub send_response : Exchange W → Outcome (Finished W)
  send_response x = do
    sent ← buffer_read peer.send peer.readsome (get_data_reader peer.show x.resp) nothing_sent
    ok (record { place = attached; wire = sent.wire; types = x.types; world = x.world })

  -- The two branches on the parser's result.
  pub answer : Bool → Request → Types → W → Outcome (Finished W)
  unfolding send_response
  answer true req types world = do x ← handle files server req types world; send_response x
  answer false req types world =
      ok (record { place = removed; wire = []; types = types; world = world })

  pub http_task : Types → W → Outcome (Finished W)
  unfolding answer
  http_task types world = do
    p ← parse peer.strtol peer.stale peer.ip peer.chunks empty_request
    answer p.result p.req types world
