-- ===== src/Failure.antt =====
-- The error values of the gateway and of what it calls: internal/gateway, internal/accounts,
-- internal/groups, internal/allocations, internal/upstream, internal/content. `errors.Is` walks
-- a value's chain of `Unwrap`, which is a list here.
use sub_lane.Base.{
  ℕ, String, ◌≡◌, refl, ◌⊎◌, inl, inr, Bool, true, false, ◌||◌, List, [], ◌∷◌, arith, nat_beq,
  if◌then◌else◌, ◌==◌, string_eq, nat_eq, int_eq,
}

-- The `errors.New` values, under the part of the program that owns them.
pub data Sentinel : Type 0 where
  -- internal/upstream
  invalid_input continuation interrupted invalid_response upstream_error : Sentinel
  -- internal/accounts
  provider_disabled account_not_found account_disabled reauthorize refresh_failed : Sentinel
  -- internal/groups
  group_unavailable : Sentinel
  -- internal/content
  content_blocked content_unavailable : Sentinel
  -- internal/gateway
  affinity_unavailable model_conflict no_account gateway_busy affinity_limit : Sentinel
  account_busy account_queue_full account_wait_timeout account_cooling model_cooling : Sentinel
  quota_exhausted member_busy member_rate model_not_allowed : Sentinel
  catalog_unavailable model_unavailable allocation_accounting context_limit : Sentinel
  -- internal/allocations
  allocation_quota allocation_pending allocation_risk allocation_unpriced : Sentinel
  allocation_unavailable allocation_input allocation_settlement : Sentinel
  unknown_window_override allocation_not_found : Sentinel
  version_required version_conflict effective_required effective_conflict : Sentinel
  state_conflict initial_schedule funding_gap member_conflict : Sentinel
  -- context
  canceled deadline_exceeded : Sentinel

-- Pointers to distinct errors differ: a number for each.
abbrev pub number : Sentinel → ℕ
number invalid_input = 0
number continuation = 1
number interrupted = 2
number invalid_response = 3
number upstream_error = 4
number provider_disabled = 5
number account_not_found = 6
number account_disabled = 7
number reauthorize = 8
number refresh_failed = 9
number group_unavailable = 10
number content_blocked = 11
number content_unavailable = 12
number affinity_unavailable = 13
number model_conflict = 14
number no_account = 15
number gateway_busy = 16
number affinity_limit = 17
number account_busy = 18
number account_queue_full = 19
number account_wait_timeout = 20
number account_cooling = 21
number model_cooling = 22
number quota_exhausted = 23
number member_busy = 24
number member_rate = 25
number model_not_allowed = 26
number catalog_unavailable = 27
number model_unavailable = 28
number allocation_accounting = 29
number context_limit = 30
number allocation_quota = 31
number allocation_pending = 32
number allocation_risk = 33
number allocation_unpriced = 34
number allocation_unavailable = 35
number allocation_input = 36
number allocation_settlement = 37
number canceled = 38
number deadline_exceeded = 39
number unknown_window_override = 40
number allocation_not_found = 41
number version_required = 42
number version_conflict = 43
number effective_required = 44
number effective_conflict = 45
number state_conflict = 46
number initial_schedule = 47
number funding_gap = 48
number member_conflict = 49

-- A value of Go's `error`.
pub data Failure : Type 0 where
  plain : Sentinel → Failure
  -- &CoolingError{RetryAfter, Model}
  cooling : ℕ → String → Failure
  -- &QuotaError{RetryAfter}
  quota : ℕ → Failure
  -- &MemberRateError{RetryAfter}
  member_rate_limited : ℕ → Failure
  -- *upstream.UpstreamError{Status, RetryAfter, LimitedModel}
  rejected : ℕ → String → String → Failure
  -- an error of the database, which no sentinel names
  store : Failure

-- The value and what `Unwrap` leads to.
abbrev pub chain : Failure → List Sentinel
chain (plain account_queue_full) = account_queue_full ∷ account_busy ∷ []
chain (plain account_wait_timeout) = account_wait_timeout ∷ account_busy ∷ []
chain (plain s) = s ∷ []
chain (cooling r m) = (if m == "" then account_cooling else model_cooling) ∷ []
chain (quota r) = quota_exhausted ∷ []
chain (member_rate_limited r) = member_rate ∷ []
chain (rejected s r m) = []
chain store = []

abbrev pub names : Sentinel → List Sentinel → Bool
names s [] = false
names s (t ∷ ts) = nat_beq (number t) (number s) || names s ts

-- errors.Is(e, s)
abbrev pub is : Failure → Sentinel → Bool
is e s = names s (chain e)

pub data Result {ℓ} (V : Type ℓ) : Type ℓ where
  err : Failure → Result V
  ok : V → Result V

infixr 4 ◌>>◌
abbrev pub ◌>>◌ {ℓ} : {V : Type ℓ} → Result (Unit {0}) → Result V → Result V
err failed >> next = err failed
ok done >> next = next

infixl 5 ◌>>=◌
abbrev pub ◌>>=◌ {ℓ κ} : {V : Type ℓ} {W : Type κ} → Result V → (V → Result W) → Result W
err failed >>= next = err failed
ok value >>= next = next value

-- `if failed { return err }`
abbrev pub unless : Bool → Failure → Result (Unit {0})
unless true e = err e
unless false e = ok tt

pub Result-cases {ℓ} :
    {V : Type ℓ} (r : Result V) → ((e : Failure) × (r ≡ err e)) ⊎ ((v : V) × (r ≡ ok v))
Result-cases (err e) = inl (e, refl)
Result-cases (ok v) = inr (v, refl)

-- A guard before a computation that succeeds has let it through.
pub unless_ok {ℓ} :
    {B : Type ℓ} (b : Bool) (e : Failure) (k : Result B) (v : B)
    → (unless b e >> k) ≡ ok v
    → (b ≡ false) × (k ≡ ok v)
unless_ok true e k v h = absurd (ground arith)
unless_ok false e k v h = (refl, h)

-- So does a computation with no value.
pub seq_ok {ℓ} :
    {V : Type ℓ} (m : Result (Unit {0})) (k : Result V) (v : V)
    → (m >> k) ≡ ok v
    → (m ≡ ok tt) × (k ≡ ok v)
seq_ok (err e) k v h = absurd (ground arith)
seq_ok (ok tt) k v h = (refl, h)

-- A chain that succeeds has a first value that it goes on with.
pub bind_ok {ℓ κ} :
    {V : Type ℓ} {W : Type κ} (m : Result V) (next : V → Result W) (w : W)
    → (m >>= next) ≡ ok w
    → (v : V) × (m ≡ ok v) × (next v ≡ ok w)
bind_ok (err e) next w h = absurd (ground arith)
bind_ok (ok v) next w h = (v, refl, h)

pub ok_injective {ℓ} : {V : Type ℓ} {x y : V} → ok x ≡ ok y → x ≡ y
ok_injective h = ground arith
