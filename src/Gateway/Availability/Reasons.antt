-- ===== src/Gateway/Availability/Reasons.antt =====
-- What a row without a reason has passed: `modelAvailability` of internal/gateway/availability.go.
use sub_lane.Base.{
  ℕ, ◌-◌, max, String, ◌≡◌, ◌↔◌, refl, sym, ap, subst, Bool, true, false, not, ◌||◌, Option, none,
  some, arith, if◌then◌else◌, ◌==◌, string_eq, nat_eq, int_eq,
}
use sub_lane.Failure.{Failure, quota}
use sub_lane.Groups.{ModelPolicy, allows_provider, allows_resource}
use sub_lane.Gateway.State.{unix}
use sub_lane.Gateway.Catalog.{catalog_model_id}
use sub_lane.Gateway.Quota.{QuotaState, unknown, stale, unsupported, available, exhausted}
use sub_lane.Gateway.Admission.{account_admission, model_admission}
use sub_lane.Gateway.Service.{model_key_eq}
use sub_lane.Gateway.Selection.{Row, provider_enabled, quota_admission, quota_decision}
use sub_lane.Gateway.Availability.{
  Seen, Outlook, is_supported, is_known, admission_reason, quota_of, reason_of,
}

-- A row that gives no reason but for its quota has passed every test.
abbrev pub Passed : Outlook → ModelPolicy → String → Seen → Type 0
Passed o policy model x =
    (provider_enabled o.codex_only x.account.provider ≡ true)
    × (x.account.enabled ≡ true)
    × ((x.account.status == "reauth_required") ≡ false)
    × (allows_provider policy x.account.provider ≡ true)
    × (allows_resource policy x.account.provider model ≡ true)
    × (is_known o x model ≡ true)
    × (is_supported o x model ≡ true)
    × (account_admission o.health o.now x.account ≡ none)
    × (model_admission (x.limits (catalog_model_id model)) (unix o.now) model ≡ none)

passes :
    (b : Bool) (e : Failure) (rest : Option Failure)
    → (if b then some e else rest) ≡ none
    → (b ≡ false) × (rest ≡ none)
passes true e rest h = ground (arith, h)
passes false e rest h = (refl, h)

passed :
    (b : Bool) (e : Failure) (rest : Option Failure)
    → b ≡ false
    → rest ≡ none
    → (if b then some e else rest) ≡ none
passed true e rest blocked h = ground (arith, blocked)
passed false e rest blocked h = h

both_none :
    (first rest : Option Failure)
    → elim first [ some e ↦ some e | none ↦ rest ] ≡ none
    → (first ≡ none) × (rest ≡ none)
both_none (some e) rest h = ground (arith, h)
both_none none rest h = (refl, h)

none_of_both :
    (first rest : Option Failure)
    → first ≡ none
    → rest ≡ none
    → elim first [ some e ↦ some e | none ↦ rest ] ≡ none
none_of_both (some e) rest h k = ground (arith, h)
none_of_both none rest h k = k

pub admission_reason-Passed :
    (o : Outlook) (policy : ModelPolicy) (model : String) (x : Seen)
    → admission_reason o policy model x ≡ none
    → Passed o policy model x
unfolding admission_reason
admission_reason-Passed o policy model x h =
    let (a, h1) = passes (not (provider_enabled o.codex_only x.account.provider)) _ _ h in
    let (b, h2) = passes (not x.account.enabled) _ _ h1 in
    let (c, h3) = passes (x.account.status == "reauth_required") _ _ h2 in
    let (d, h4) =
      passes
        (not (allows_provider policy x.account.provider)
          || not (allows_resource policy x.account.provider model))
        _ _ h3 in
    let (k, h5) = passes (not (is_known o x model)) _ _ h4 in
    let (s, h6) = passes (not (is_supported o x model)) _ _ h5 in
    let (admitted, limit) = both_none (account_admission o.health o.now x.account) _ h6 in
    (
      ground (arith, a),
      ground (arith, b),
      c,
      ground (arith, d),
      ground (arith, d),
      ground (arith, k),
      ground (arith, s),
      admitted,
      limit,
    )

pub Passed-admission_reason :
    (o : Outlook) (policy : ModelPolicy) (model : String) (x : Seen)
    → Passed o policy model x
    → admission_reason o policy model x ≡ none
unfolding admission_reason
Passed-admission_reason o policy model x (a, b, c, d, r, k, s, admitted, limit) =
    passed (not (provider_enabled o.codex_only x.account.provider)) _ _ (ap not a) (
      passed (not x.account.enabled) _ _ (ap not b) (
        passed (x.account.status == "reauth_required") _ _ c (
          passed
            (not (allows_provider policy x.account.provider)
              || not (allows_resource policy x.account.provider model))
            _ _ (ground (arith, d, r))
            (passed (not (is_known o x model)) _ _ (ap not k) (
              passed (not (is_supported o x model)) _ _ (ap not s)
                (none_of_both (account_admission o.health o.now x.account) _ admitted limit))))))

quota_shown :
    (state : QuotaState) (retry now : ℕ)
    → (elim state [ exhausted ↦ some (quota (max 1 (retry - now))) | _ ↦ none ] ≡ none)
      ↔ (elim state [ exhausted ↦ some (max 1 (retry - now)) | _ ↦ none ] ≡ none)
quota_shown exhausted retry now = (λ h. ground (arith, h), λ h. ground (arith, h))
quota_shown unknown retry now = (λ h. refl, λ h. refl)
quota_shown stale retry now = (λ h. refl, λ h. refl)
quota_shown unsupported retry now = (λ h. refl, λ h. refl)
quota_shown available retry now = (λ h. refl, λ h. refl)

-- A quota turns a row away when it is exhausted, in both.
pub quota_reason-none :
    (o : Outlook) (policy : ModelPolicy) (model : String) (x : Seen) (row : Row)
    → quota_of o model x ≡ quota_decision row model o.now
    → admission_reason o policy model x ≡ none
    → (reason_of o policy model x ≡ none) ↔ (quota_admission row model o.now ≡ none)
unfolding reason_of quota_admission
quota_reason-none o policy model x row same admitted =
    rw (reason_of, admitted)
      (subst
        (λ d.
          (elim d.state [ exhausted ↦ some (quota (max 1 (d.retry_at - unix o.now))) | _ ↦ none ]
            ≡ none)
          ↔ (quota_admission row model o.now ≡ none))
        (sym same)
        (quota_shown (quota_decision row model o.now).state
          (quota_decision row model o.now).retry_at (unix o.now)))

pub reason_of-admission :
    (o : Outlook) (policy : ModelPolicy) (model : String) (x : Seen)
    → reason_of o policy model x ≡ none
    → admission_reason o policy model x ≡ none
unfolding reason_of
reason_of-admission o policy model x h =
    let (admitted, rest) = both_none (admission_reason o policy model x) _ h in admitted
