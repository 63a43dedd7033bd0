-- ===== src/Edge/Messages/Interleaved.antt =====
-- crates/fortis-edge/src/swap/mod.rs, `post_message`: what a match records stays while messages
-- interrupt one another.
use fortis.Common.{ℕ, Option, Result}
use fortis.Htlc.{Crate}
use fortis.Edge.Store.{Db}
use fortis.Edge.Messages.{Relay, Decoder, Msg}
use fortis.Edge.Messages.Chained.{ChainReader}
use fortis.Edge.Messages.Posts.{post_message}
use fortis.Edge.Messages.Lasting.{Lasts, still, then_lasts}
use fortis.Edge.Messages.Requests.{post_message-Lasts}

-- One request: what it presents, and what the chain shows while it is handled.
pub record Call : Type 0 where
  pub chain : Option ChainReader
  pub now : ℕ
  pub id : ℕ
  pub presented : Option ℕ
  pub body : Result ℕ Msg

-- Messages one after another, and for each the others that begin and end wherever it is without the
-- lock, to any depth.
pub data Calls : Type 0 where
  no_more : Calls
  next : Call → (ℕ → Calls) → Calls → Calls

module _ {db : Db} (B : Crate) (point : ℕ → Option ℕ) (D : Decoder) where
  unfoldable pub run_calls : Calls → Relay db → Relay db
  run_calls no_more r = r
  run_calls (next c during rest) r =
      run_calls rest
        (post_message B point c.chain (λ i. run_calls (during i)) D c.now c.id c.presented c.body
          r).0

  -- Over any messages of any parties, each interrupted by others that begin and end while it is
  -- without the lock, and those in turn: a store that holds each match under its id still does, and
  -- each match keeps its terms, and the keys, the hashlock, the fundings and the release that it had
  -- recorded.
  pub run_calls-Lasts : (calls : Calls) (r : Relay db) → Lasts r (run_calls calls r)
  unfolding run_calls
  run_calls-Lasts no_more r = still r
  run_calls-Lasts (next c during rest) r =
      let after =
        (post_message B point c.chain (λ i. run_calls (during i)) D c.now c.id c.presented c.body
          r).0 in
      then_lasts r after _
        (post_message-Lasts B point c.chain (λ i. run_calls (during i))
          (λ i t. run_calls-Lasts (during i) t) D c.now c.id c.presented c.body r)
        (run_calls-Lasts rest after)
