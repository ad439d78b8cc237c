-- ===== src/Normative/Amounts/Tests.antt =====
-- The theorems on amounts at concrete inputs.
use kurrent.Base.{◌+◌, ◌↔◌, ◌≡◌, ◌≤◌}
use kurrent.Errors.{ok}
use kurrent.Normative.Amounts.{a_only, from_values, max_script_amount}
use kurrent.Normative.Amounts.Laws.{Describes, from_values_iff}

from_values_iff_example :
    (from_values 7 0 7 ≡ ok a_only) ↔ ((7 + 0 ≡ 7) × (7 ≤ max_script_amount) × Describes a_only 7 0)
from_values_iff_example = from_values_iff 7 0 7 a_only
