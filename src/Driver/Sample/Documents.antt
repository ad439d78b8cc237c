-- ===== src/Driver/Sample/Documents.antt =====
-- The document of each file of the sample evidence.
use kurrent.Base.{as_bytes, if◌then◌else◌, list_eq, nat_eq, ◌==◌}
use kurrent.Bytes.{Bytes}
use kurrent.Driver.Sample.Places.{Cursor, digest_a, digest_b}
use kurrent.Driver.Sample.Channel.{monitor_document, state_document}
use kurrent.Driver.Sample.Settlement.{eligibility_document, sponsored_document}
use kurrent.Driver.Sample.Payments.{factory_document, hashlock_document, refund_document}

-- The document of a file.
abbrev pub document : Bytes → Cursor
document file =
    if file == as_bytes "kurrent-live-state-channel-evidence.json"
    then state_document
    else (if file == as_bytes "kurrent-live-lane-monitor-evidence.json"
        then monitor_document
        else (if file == as_bytes "kurrent-live-settlement-eligibility-evidence.json"
            then eligibility_document
            else (if file == as_bytes "kurrent-live-fee-sponsored-displacement-evidence.json"
                then sponsored_document
                else (if file == as_bytes "kurrent-live-factory-evidence.json"
                    then factory_document
                    else (if file == as_bytes "kurrent-live-refund-evidence.json"
                        then refund_document
                        else hashlock_document (
                            if file == as_bytes "kurrent-live-kaspa-to-ln-evidence.json"
                            then digest_b
                            else digest_a))))))
