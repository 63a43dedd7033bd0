-- ===== src/Tests/TermsRuns.antt =====
-- Terms of a mainnet match, as the tests of crates/wallet-core/src/swap_terms.rs build them.
use fortis.Common.{ℕ, ◌+◌, ◌≡◌, refl, ◌↔◌, ok, err}
use fortis.Error.{terms_rejected}
use fortis.Error
use fortis.Terms.{SwapTerms, initiator, btc_for_xbt, validate_terms, network_params, swap_timelocks}
use fortis.Terms.Accepted.{IsAcceptable, validate_terms_iff}

abbrev pub matched_at : ℕ
matched_at = 1_800_000_000

abbrev pub mainnet_terms : SwapTerms
mainnet_terms = record {
  match_id = 1;
  network = "bitcoin";
  xbt_sat = 100_000_000;
  btc_sat = 1_120_000;
  price_sat_per_xbt = 1_120_000;
  fee_bps = 50;
  fee_address = "bc1qfee";
  matched_at = matched_at;
  xbt_locktime = matched_at + 172_800;
  btc_locktime = matched_at + 86_400;
  xbt_confs = 6;
  btc_confs = 2;
  accept_by = matched_at + 120;
  initiator_fund_by = matched_at + 1920;
  contract_version = 2;
}

rejects_price_below_limit :
    validate_terms mainnet_terms 1_120_001 initiator (matched_at + 10)
    ≡ err (terms_rejected Error.worse_than_limit)
unfolding validate_terms network_params btc_for_xbt swap_timelocks
rejects_price_below_limit = refl

rounds_down : btc_for_xbt 1 1_120_000 ≡ 0
unfolding btc_for_xbt
rounds_down = refl

validate_terms_iff_example :
    (validate_terms mainnet_terms 1_120_000 initiator (matched_at + 10) ≡ ok tt)
    ↔ IsAcceptable mainnet_terms 1_120_000 initiator (matched_at + 10)
validate_terms_iff_example = validate_terms_iff mainnet_terms 1_120_000 initiator (matched_at + 10)
