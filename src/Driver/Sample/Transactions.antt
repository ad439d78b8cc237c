-- ===== src/Driver/Sample/Transactions.antt =====
-- The sample transactions of the driver.
use kurrent.Base.{
  List, String, [], as_bytes, if◌then◌else◌, list_eq, nat_eq, replicate, ℕ, ◌==◌, ◌∷◌,
}
use kurrent.Bytes.{Bytes}
use kurrent.Driver.{Transaction, TransactionOutput}

-- A transaction on a lane that spends an outpoint.
abbrev transaction : String → String → ℕ → List TransactionOutput → ℕ → Transaction
transaction id previous sequence outputs lane = record {
  id = id;
  inputs =
      record {
        previous_outpoint = record { transaction_id = previous; index = 0 };
        sequence = sequence;
      }
      ∷ [];
  outputs = outputs;
  payload = [];
  subnetwork_id = lane ∷ replicate 19 0;
}

abbrev output : ℕ → TransactionOutput
output value = record { value = value; script_version = 0; script = [] }

-- On the channel's lane: the funding "f", the update "u", the settlement "s", the stale attempt "t",
-- the early refund "e" and the mature one "r", the materialisation "m", and the markers "t0" and "t1".
abbrev on_lane : Bytes → Transaction
on_lane file =
    if file == as_bytes "f"
    then transaction "f" "g" 0 (output 9 ∷ []) 0
    else (if file == as_bytes "u"
        then transaction "u" "f" 0 (output 8 ∷ []) 0
        else (if file == as_bytes "s"
            then transaction "s" "u" 0 (output 3 ∷ output 5 ∷ []) 0
            else (if file == as_bytes "t"
                then transaction "t" "u" 0 (output 8 ∷ []) 0
                else (if file == as_bytes "e"
                    then transaction "e" "f" 119 (output 8 ∷ []) 0
                    else (if file == as_bytes "r"
                        then transaction "r" "f" 120 (output 8 ∷ []) 0
                        else (if file == as_bytes "m"
                            then transaction "m" "f" 0 (output 3 ∷ output 5 ∷ []) 0
                            else (if file == as_bytes "t0"
                                then transaction "t0" "s" 0 (output 20 ∷ []) 0
                                else transaction "t1" "s" 0 (output 20 ∷ []) 0)))))))

-- On another lane: the rejected updates "n" and "p" and settlements "o" and "q", and a marker "w".
abbrev pub transactions : Bytes → Transaction
transactions file =
    if file == as_bytes "n"
    then transaction "n" "f" 0 (output 8 ∷ []) 1
    else (if file == as_bytes "p"
        then transaction "p" "f" 0 (output 8 ∷ []) 1
        else (if file == as_bytes "o"
            then transaction "o" "u" 0 (output 3 ∷ output 5 ∷ []) 1
            else (if file == as_bytes "q"
                then transaction "q" "u" 0 (output 3 ∷ output 5 ∷ []) 1
                else (if file == as_bytes "w" then transaction "w" "s" 0 [] 1 else on_lane file))))
