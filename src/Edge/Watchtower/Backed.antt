-- ===== src/Edge/Watchtower/Backed.antt =====
-- crates/fortis-edge/src/swap/mod.rs, `watch`: an HTLC that the watchtower takes a job for is a leg of
-- the match.
use fortis.Common.{ℕ, ◌≡◌, Option, some, Result, ok, err}
use fortis.Terms.{SwapRole}
use fortis.Htlc.{Crate}
use fortis.Edge.Table.{Table}
use fortis.Edge.Records.{Match, WatchJob}
use fortis.Edge.Store.{Db, get_match}
use fortis.Edge.Messages.{Relay, Decoder}
use fortis.Edge.Messages.Chained.{ChainReader}
use fortis.Edge.Messages.Posts.{role_in}
use fortis.Edge.Messages.Recorded.{Funded}
use fortis.Edge.Watchtower.{Codec}
use fortis.Edge.Watchtower.Jobs.{Tower, put_watch}
use fortis.Edge.Watchtower.Handing.{WatchReq, is_refund, may_reinstate}
use fortis.Edge.Watchtower.Handed.{IsSound}

module _ {db : Db} (B : Crate) (point : ℕ → Option ℕ) (chain : Option ChainReader)
    (others : ℕ → Relay db → Relay db) where
  module _ {T : Table WatchJob} (C : Codec) (D : Decoder) (id : ℕ) (presented : Option ℕ)
      (w : WatchReq) (t : Tower db T) where
    -- What a request leaves: the jobs as they were, or one more, sound and of a leg of the match.
    pub data Handed : Tower db T × Result ℕ (Unit {0}) → Type 0 where
      refused : (r : Relay db) (code : ℕ) → Handed (record t { relay = r }, err code)
      handed :
          (m : Match) (role : SwapRole) (job : WatchJob) (r : Relay db)
          → get_match db t.relay.store id ≡ some m
          → role_in presented m ≡ some role
          → IsSound C D role m.id w job
          → Funded B point chain others m job.chain job.htlc (is_refund job.kind) t.relay r
          → Handed (
            put_watch job (record t { relay = may_reinstate chain others job job.match_id r }),
            ok tt,
          )
