-- ===== src/Driver/Run/Swaps.antt =====
-- What a successful run of `run_semantic_evidence_verifier` of drivers/kaspa-devnet/src/main.rs shows
-- of the swaps on file.
use kurrent.Base.{Bool, String, ◌≡◌, ◌≢◌}
use kurrent.Driver.{Host, ok}
use kurrent.Driver.Eligibility.{Models}
use kurrent.Driver.Lane.{SeqCommit}
use kurrent.Driver.Records.Laws.{JsonFile}
use kurrent.Driver.Require.Laws.{Typed}
use kurrent.Driver.Run.{Disk, Written, run_semantic_evidence_verifier}
use kurrent.Driver.Run.Evidence.{evidence_of}
use kurrent.Driver.Hashlock.Evidence.{DirectionFor}
use kurrent.External.{External}
use kurrent.Swap.{LnSwapEvidence}
use kurrent.Swap.Outcomes.{IsSwap, validate_ln_swap_iff}
use kurrent.Types.{ChannelReceipt}

module _ (d : Host) (k : SeqCommit) (x : External) (ms : Models d) (disk : Disk) (debug : Bool)
    (output_dir : String) (w : Written) where
  -- The file holds a swap with its receipt, opened by the preimage of the payment hash.
  abbrev pub SwapOn : String → String → Type 0
  SwapOn file_name payment_hash =
      (report : d.Value) × JsonFile d (d.join output_dir file_name) report
      × (swap : LnSwapEvidence) × Typed d d.swap_evidence_from_value report
          "/model_validation/swap_evidence" swap
      × (receipt : ChannelReceipt) × Typed d d.receipt_from_value report "/model_validation/receipt"
          receipt
      × IsSwap x swap receipt
      × (swap.ln_payment_hash ≡ payment_hash)

  direction_SwapOn :
      (ln : d.Value) (label file_name payment_hash : String)
      → DirectionFor d x output_dir ln label file_name payment_hash
      → SwapOn file_name payment_hash
  direction_SwapOn ln label file_name payment_hash
        (
          _,
          _,
          _,
          report,
          _,
          _,
          _,
          _,
          _,
          file,
          (
            _,
            (
              _,
              _,
              (
                _,
                (
                  _,
                  _,
                  (
                    _,
                    (_, _, (_, (_, _, (_, (_, (swap, s, (receipt, r, (valid, (amounts, _))))))))),
                  ),
                ),
              ),
            ),
          ),
        ) =
      (report, file, swap, s, receipt, r, (validate_ln_swap_iff x swap receipt).0 valid, amounts.0)

  -- The files of both directions hold such a swap, with different payment hashes.
  abbrev pub ShowsSwaps : Type 0
  ShowsSwaps =
      (first : String) × (second : String) × SwapOn "kurrent-live-ln-to-kaspa-evidence.json" first
      × SwapOn "kurrent-live-kaspa-to-ln-evidence.json" second
      × (first ≢ second)

  -- After a successful run the evidence files of both directions hold a swap that is valid with the
  -- receipt beside it: its preimage opens its payment hash, the receipt names its outpoints, script
  -- hash, id and direction. The two payment hashes differ. Whether a swap has the direction of its
  -- file is not said.
  pub run-ShowsSwaps :
      run_semantic_evidence_verifier d k x ms disk debug output_dir ≡ ok w → ShowsSwaps
  run-ShowsSwaps h =
      let (ln, first, second, _, _, one, other, apart) =
        (evidence_of d k x ms disk debug output_dir w h).1.1.1.1.1.0 in
      (
        first,
        second,
        direction_SwapOn ln "ln-to-kaspa" _ first one,
        direction_SwapOn ln "kaspa-to-ln" _ second other,
        apart,
      )
