-- ===== src/Canonical.antt =====
-- The decline taxonomy of packages/canonical/src/decline-taxonomy.ts: canonical decline codes,
-- their family, and whether a code is ever retried on the same card.
use ax10m.Common.{Bool, true, false, if◌then◌else◌}

pub data DeclineFamily : Type 0 where
  soft hard gray : DeclineFamily

pub data DeclineCode : Type 0 where
  insufficient_funds issuer_unavailable processing_error velocity_limit_exceeded : DeclineCode
  authentication_required try_again_later : DeclineCode
  lost_card stolen_card closed_account invalid_card pickup_card card_not_supported : DeclineCode
  revocation_of_authorization : DeclineCode
  do_not_honor fraudulent expired_card : DeclineCode
  unmapped : DeclineCode

-- The table `DECLINE_FAMILY`; `unmapped` is `DeclineCode.Unknown`.
unfoldable pub decline_family : DeclineCode → DeclineFamily
decline_family insufficient_funds = soft
decline_family issuer_unavailable = soft
decline_family processing_error = soft
decline_family velocity_limit_exceeded = soft
decline_family authentication_required = soft
decline_family try_again_later = soft
decline_family lost_card = hard
decline_family stolen_card = hard
decline_family closed_account = hard
decline_family invalid_card = hard
decline_family pickup_card = hard
decline_family card_not_supported = hard
decline_family revocation_of_authorization = hard
decline_family do_not_honor = gray
decline_family fraudulent = gray
decline_family expired_card = gray
decline_family unmapped = gray

unfoldable pub family_of : DeclineCode → DeclineFamily
unfolding decline_family
family_of code = decline_family code

-- `family === DeclineFamily.Hard`
abbrev pub is_hard : DeclineFamily → Bool
is_hard hard = true
is_hard _ = false

-- `code === DeclineCode.ExpiredCard`
abbrev pub is_expired : DeclineCode → Bool
is_expired expired_card = true
is_expired _ = false

-- `code === DeclineCode.Fraudulent`
abbrev pub is_fraud : DeclineCode → Bool
is_fraud fraudulent = true
is_fraud _ = false

unfoldable pub is_retriable : DeclineCode → Bool
unfolding family_of
is_retriable code =
    if is_hard (family_of code)
    then false
    else (if is_expired code then false else (if is_fraud code then false else true))
