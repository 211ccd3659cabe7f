-- ===== src/Environments/Lease.antt =====
-- internal/environments/lease.go. A time is an integer of nanoseconds; a duration is an int64 of
-- nanoseconds. `time.ParseDuration`, `%q` and the RFC 3339 format belong to Go's library and are
-- the fields of `GoTexts`.
pub mod Grant
use marstack_govern.Prelude.{
  ℕ, ◌+◌, ◌*◌, ◌-◌, ◌/◌, ◌%◌, ℤ, pos, negsuc, pos_part, leb_ℤ, ltb_ℤ, ltb, ◌==◌, ◌+ℤ◌, ◌-ℤ◌, add64,
  wrap64, String, concat, str_eq, format_nat, Bool, true, false, not, ◌&&◌, List, [], ◌∷◌, Option,
  none, some, Result, ok, err, if◌then◌else◌,
}

abbrev pub minute : ℕ
minute = 60000000000

-- DefaultTTL, 48 hours, and MaxTTL, 7 days.
abbrev pub default_ttl : ℤ
default_ttl = pos (48 * 60 * minute)

abbrev pub max_ttl : ℤ
max_ttl = pos (7 * 24 * 60 * minute)

pub record GoTexts : Type 0 where
  pub parse_duration : String → Option ℤ  -- `none` for its error
  pub quote : String → String
  pub format_time : ℤ → String

pub record Lease : Type 0 where
  pub started_at : ℤ
  pub expires_at : ℤ
  pub granted : ℤ
  pub clamped : Bool

-- `Lease.Expired`
unfoldable pub expired : Lease → ℤ → Bool
expired l now = not (ltb_ℤ now l.expires_at)

-- `Lease.Remaining`. The lease of an environment ends at most seven days from its start, so the
-- difference of the times is a duration.
unfoldable pub remaining : Lease → ℤ → ℤ
unfolding expired
remaining l now = if expired l now then pos 0 else l.expires_at -ℤ now

pub record Renewal : Type 0 where
  pub extend : String
  pub reason : String
  pub granted_by : String
  pub granted_at : Option ℤ

-- `parseTTL`
unfoldable pub parse_ttl : GoTexts → String → ℤ → Result ℤ
parse_ttl go value fallback =
    if str_eq value "" then ok fallback else elim (go.parse_duration value) [
      | none ↦ err (concat (go.quote value) " is not a duration")
      | some parsed ↦
          if leb_ℤ parsed (pos 0)
          then err (concat (go.quote value) " is not a lease anyone can use")
          else ok parsed
    ]

-- The loop of `LeaseOf` over the renewals.
unfoldable pub extended : GoTexts → ℤ → List Renewal → Result ℤ
extended go granted [] = ok granted
extended go granted (r ∷ rs) = elim (parse_ttl go r.extend (pos 0)) [
  | err e ↦ err (concat "renewal granted by " (concat r.granted_by (concat ": " e)))
  | ok extension ↦ extended go (add64 granted extension) rs
]

unfoldable pub lease_from : ℤ → ℤ → Lease
lease_from started granted =
    let clamped = ltb_ℤ max_ttl granted in
    let kept = if clamped then max_ttl else granted in
    record { started_at = started; expires_at = started +ℤ kept; granted = kept; clamped = clamped }

-- The start that the status records, or else the creation.
abbrev pub start_of : ℤ → Option ℤ → ℤ
start_of created none = created
start_of created (some at) = at

-- `LeaseOf`, of the spec's TTL and renewals, the creation time, and the start in the status.
unfoldable pub lease_of : GoTexts → String → List Renewal → ℤ → Option ℤ → Result Lease
lease_of go ttl renewals created started_at = elim (parse_ttl go ttl default_ttl) [
  | err e ↦ err (concat "spec.ttl: " e)
  | ok requested ↦ elim (extended go requested renewals) [
    | err e ↦ err e
    | ok granted ↦ ok (lease_from (start_of created started_at) granted)
  ]
]

-- `FormatTTL`: the duration rounded to the minute, half a minute up.
unfoldable pub rounded_minutes : ℤ → ℕ
rounded_minutes (pos n) = (n + 30000000000) / minute
rounded_minutes (negsuc n) = 0

unfoldable pub format_ttl : ℤ → String
unfolding rounded_minutes
format_ttl value =
    let minutes = if rounded_minutes value == 0 then 1 else rounded_minutes value in
    let hours = minutes / 60 in
    let rest = minutes - hours * 60 in
    if ltb 0 hours && ltb 0 rest
    then concat (format_nat hours) (concat "h" (concat (format_nat rest) "m"))
    else if ltb 0 hours
    then concat (format_nat hours) "h"
    else concat (format_nat rest) "m"
