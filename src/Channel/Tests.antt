-- ===== src/Channel/Tests.antt =====
-- Runs of `validate_channel_update` on the sample channel, and the theorems about it there.
use kurrent.Base.{list_eq, nat_eq, option_eq, pair_eq, string_eq, ◌≢◌}
use kurrent.Channel.{validate_channel_update}
use kurrent.Channel.Panics.{validate_channel_update-ne-panic}
use kurrent.Errors.{panic}
use kurrent.Fixtures.{
  config, funding, second_update, template, zero_external, zero_external-ExternalLaws,
}

validate_channel_update-ne-panic_example :
    validate_channel_update zero_external config funding second_update template ≢ panic
validate_channel_update-ne-panic_example =
    validate_channel_update-ne-panic zero_external zero_external-ExternalLaws config funding
      second_update template
