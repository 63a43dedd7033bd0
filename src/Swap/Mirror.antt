-- ===== src/Swap/Mirror.antt =====
-- crates/wallet-core/src/swap.rs: the contract that one wallet funds is the one that the other
-- expects.
use fortis.Common.{List, ℕ, ◌≡◌, ◌∙◌, refl, sym, ap, some, Result, ok, err, ◌>>=◌, arith}
use fortis.Chain.{ChainParams, sighash_variant}
use fortis.Terms.{SwapTerms, SwapRole, initiator, participant}
use fortis.Error.{WalletError}
use fortis.Htlc.{Op, Crate, HtlcContract, try_build, script_of, funding_output}
use fortis.Swap.{
  SwapMachine, new_machine, params_from_terms, build_our_contract, expected_their_contract,
  verify_their_output, or_panic,
}

-- The counterparty's role.
abbrev pub other : SwapRole → SwapRole
other initiator = participant
other participant = initiator

value_of_ok :
    (d c : HtlcContract)
    → ◌≡◌ {A = Result WalletError HtlcContract} (ok d) (ok c)
    → d.value ≡ c.value
value_of_ok d c e = value_of (cc e)
  where
    value_of : d ≡ c → d.value ≡ c.value
    value_of e = ap (λ (x : HtlcContract). x.value) e

module _ (B : Crate) (chain : ChainParams) where
  try_build_value :
      (version h r f l v : ℕ) (c : HtlcContract)
      → try_build B chain version h r f l v ≡ ok c
      → c.value ≡ v
  unfolding try_build
  try_build_value version h r f l v c e = go (script_of B version h r f l) e
    where
      go :
          (ws : Result WalletError (List Op))
          → (ws >>= λ s. ok (record {
            version = version;
            witness_script = s;
            script_pubkey = B.p2wsh s;
            value = v;
            hashlock = h;
            locktime = l;
            sighash_variant = sighash_variant chain;
          }))
            ≡ ok c
          → c.value ≡ v
      go (err x) e = absurd (cc e)
      go (ok s) e = sym (value_of_ok _ c e)

  -- The wallets' views of one leg, from what they build it of.
  accepted :
      (m : SwapMachine) (version h r f l v : ℕ) (c : HtlcContract)
      → m.params.recv_amount ≡ v
      → expected_their_contract B chain m.params ≡ or_panic (try_build B chain version h r f l v)
      → try_build B chain version h r f l v ≡ ok c
      → verify_their_output B (funding_output c) chain m ≡ ok (record m { their_contract = some c })
  unfolding verify_their_output funding_output
  accepted m version h r f l v c a e t =
      rw (e ∙ ap or_panic t) (ground (arith, a, try_build_value version h r f l v c t))

  -- What a wallet builds, from the arguments that it builds it of.
  built :
      (r : Result WalletError HtlcContract) (m m' : SwapMachine) (c : HtlcContract)
      → ◌>>=◌ {B = HtlcContract × SwapMachine} r (λ d. ok (d, record m { our_contract = some d }))
        ≡ ok (c, m')
      → (r ≡ ok c) × (m'.our_contract ≡ some c)
  built (err x) m m' c e = absurd (cc e)
  built (ok d) m m' c e = (cc e, kept d m m' c (cc e) (cc e))
    where
      kept :
          (d : HtlcContract) (m m' : SwapMachine) (c : HtlcContract)
          → m' ≡ record m { our_contract = some d }
          → d ≡ c
          → m'.our_contract ≡ some c
      kept d m m' c e f = ap (λ x. x.our_contract) e ∙ ap (λ x. some x) f

-- The contract that a wallet builds for its leg of a match is the one that the counterparty
-- expects of the same terms with the same hashlock: the output that funds it passes the
-- counterparty's check, which then holds this very contract.
pub build_our_contract-verify_their_output :
    (B : Crate) (chain : ChainParams) (t : SwapTerms) (role : SwapRole) (ours theirs : ℕ × ℕ)
    (hashlock our_id their_id : ℕ) (c : HtlcContract) (m : SwapMachine)
    → build_our_contract B chain
        (new_machine (params_from_terms t role ours theirs hashlock our_id))
      ≡ ok (c, m)
    → (m.our_contract ≡ some c)
      × (verify_their_output B
            (funding_output c)
            chain
            (new_machine (params_from_terms t (other role) theirs ours hashlock their_id))
          ≡ ok
              (record (new_machine
                (params_from_terms t (other role) theirs ours hashlock their_id)) {
                  their_contract = some c;
                }))
unfolding build_our_contract params_from_terms expected_their_contract
build_our_contract-verify_their_output B chain t initiator (ox, ob) (tx, tb) h i k c m e =
    let b =
      built B chain _ (new_machine (params_from_terms t initiator (ox, ob) (tx, tb) h i)) m c e in
    (
      b.1,
      accepted B chain (new_machine (params_from_terms t participant (tx, tb) (ox, ob) h k))
          t.contract_version h tx ox t.xbt_locktime t.xbt_sat c refl refl b.0,
    )
build_our_contract-verify_their_output B chain t participant (ox, ob) (tx, tb) h i k c m e =
    let b =
      built B chain _ (new_machine (params_from_terms t participant (ox, ob) (tx, tb) h i)) m c e in
    (
      b.1,
      accepted B chain (new_machine (params_from_terms t initiator (tx, tb) (ox, ob) h k))
          t.contract_version h tb ob t.btc_locktime t.btc_sat c refl refl b.0,
    )
