-- ===== src/Allowance/Fair.antt =====
-- What the rules that `normalize` accepts are: internal/allocations/allocations.go.
use sub_lane.Base.{
  In, all-In, ℕ, ◌+◌, ◌≤◌, ◌<◌, ◌≡◌, refl, sym, ap, ◌∙◌, subst, inl, inr, Bool, true, false, not,
  ◌&&◌, ◌||◌, List, [], ◌∷◌, map, arith, ltb, ltb→lt, Bool-cases, ℤ, under, over, nat_of, pos,
  negsuc, ◌==◌, string_eq, nat_eq, int_eq,
}
use sub_lane.Failure.{Result, ◌>>◌, ◌>>=◌, unless, Result-cases, unless_ok, err, ok}
use sub_lane.Allowance.{
  Condition, Share, Rate, Config, Window, Revision, member_limit, window_total, duration_windows,
  effective_windows,
}
use sub_lane.Allowance.Laws.{shares, limits, limits-le}
use sub_lane.Allowance.Normalize.{
  DraftWindow, DraftShare, Draft, is_empty, valid_period, has_share, valid_member_limit, refused,
  bad_shape, bad_total, bad_window, check_durations, check_draft_windows, check_shares, check_rates,
  priced_config, condition_of, share_of, config_of, normalize,
}
use sub_lane.Allowance.Normalize.Order.{Ascending, sort-Ascending, shares-sort, sort-In, In-map}
use sub_lane.Allowance.Normalize.Members.{shares_valid, shares_sum, shares-Distinct}

unfoldable pub member_limits : Config → Window → List Share → ℕ
unfolding member_limit
member_limits c w [] = 0
member_limits c w (m ∷ ms) = member_limit c m w + member_limits c w ms

-- What `normalize` promises: the members are in order, each once; where the mode is not "windows",
-- each has something of every window; where they share a total, their limits are no more than it;
-- and a window's duration is never 0.
pub record IsFair (c : Config) : Type 0 where
  pub ascending : Ascending c.members
  pub positive :
      (c.mode == "windows") ≡ false
      → (id anchor now : ℕ) (calendar : ℕ × ℕ) (w : Window)
      → In w (effective_windows (record { id = id; config = c; anchor = anchor }) now calendar)
      → (m : Share) → In m c.members
      → 0 < member_limit c m w
  pub within :
      (c.mode == "ratio") ≡ true → (w : Window) → member_limits c w c.members ≤ window_total c w
  pub lasting :
      (c.period == "durations") ≡ true → (x : Condition) → In x c.windows → 3600 ≤ x.seconds

-- What the tests of `normalize` have shown.
record Accepted (d : Draft) (c : Config) : Type 0 where
  sum : ℕ
  counted : check_shares d [] d.members ≡ ok sum
  windowed : check_draft_windows d ≡ ok tt
  whole : (d.mode == "ratio" && ltb 10000 sum) ≡ false
  rates : List Rate
  built : c ≡ config_of d rates

-- The shape of `normalize`: guards, a loop that counts, guards, a loop that builds.
tests_passed :
    {A : Type 0} (bad : Bool) (windowed : Result (Unit {0})) (counted : Result ℕ) (late : ℕ → Bool)
    (priced : Result A) (build : A → Config) (c : Config)
    → (unless bad refused
        >> (windowed
            >> (counted >>= λ sum.
                unless (late sum) refused >> (priced >>= λ rates. ok (build rates)))))
      ≡ ok c
    → (windowed ≡ ok tt)
      × ((sum : ℕ) × (counted ≡ ok sum) × (late sum ≡ false))
      × ((rates : A) × (c ≡ build rates))
tests_passed true windowed counted late priced build c h = absurd (ground arith)
tests_passed false (err e) counted late priced build c h = absurd (ground arith)
tests_passed false (ok tt) (err e) late priced build c h = absurd (ground arith)
tests_passed false (ok tt) (ok sum) late (err e) build c h = absurd (ground arith)
tests_passed false (ok tt) (ok sum) late (ok rates) build c h =
    (refl, (sum, refl, ground arith), (rates, ground arith))

accepted : (d : Draft) (c : Config) → normalize d ≡ ok c → Accepted d c
accepted d c h =
    let (windowed, (sum, counted, whole), (rates, built)) =
      tests_passed (bad_shape d || not (valid_period d) || bad_total d) (check_draft_windows d)
        (check_shares d [] d.members)
        (λ n. (d.mode == "ratio" && ltb 10000 n) || (priced_config d && is_empty d.rates))
        (check_rates [] d.rates) (config_of d) c (unfold normalize in h) in
    record {
      sum = sum;
      counted = counted;
      windowed = windowed;
      whole = ground arith;
      rates = rates;
      built = built;
    }

duration_windows-limit :
    (now anchor : ℕ) (cs : List Condition) (w : Window)
    → In w (duration_windows now anchor cs)
    → (x : Condition) × In x cs × (w.limit ≡ x.limit)
unfolding duration_windows
duration_windows-limit now anchor [] w i = absurd i
duration_windows-limit now anchor (c ∷ cs) w (inl e) = (c, inl refl, ap (λ v. v.limit) e)
duration_windows-limit now anchor (c ∷ cs) w (inr i) =
    let (x, m, e) = duration_windows-limit now anchor cs w i in (x, inr m, e)

long_enough : (n : ℤ) → under n 3600 ≡ false → 3600 ≤ nat_of n
long_enough (pos n) h = ground arith
long_enough (negsuc n) h = cc

durations_last :
    (ratio : Bool) (seen all_seen : List ℤ) (ws : List DraftWindow)
    → check_durations ratio seen ws ≡ ok all_seen
    → (w : DraftWindow) → In w ws
    → 3600 ≤ nat_of w.seconds
unfolding check_durations bad_window
durations_last ratio seen all_seen [] h w i = absurd i
durations_last ratio seen all_seen (x ∷ xs) h w i =
    let (passed, more) =
      unless_ok (bad_window ratio seen x) refused (check_durations ratio (x.seconds ∷ seen) xs)
        all_seen h in
    elim i [
      | inl same ↦ rw same (long_enough x.seconds (ground arith))
      | inr later ↦ durations_last ratio (x.seconds ∷ seen) all_seen xs more w later
    ]

draft_windows_last :
    (d : Draft)
    → check_draft_windows d ≡ ok tt
    → (d.period == "durations") ≡ true
    → (w : DraftWindow) → In w d.windows
    → 3600 ≤ nat_of w.seconds
unfolding check_draft_windows
draft_windows_last d h p w i =
    elim (Result-cases (check_durations (d.mode == "ratio") [] d.windows)) [
      | inl (e, failed) ↦ absurd (ground arith)
      | inr (seen, passed) ↦ durations_last (d.mode == "ratio") [] seen d.windows passed w i
    ]

over_positive : (n : ℤ) → over n 0 ≡ true → 0 < nat_of n
over_positive (pos n) h = ground arith
over_positive (negsuc n) h = cc

effective_windows-durations :
    (r : Revision) (now : ℕ) (calendar : ℕ × ℕ)
    → (r.config.period == "durations") ≡ true
    → effective_windows r now calendar ≡ duration_windows now r.anchor r.config.windows
unfolding effective_windows
effective_windows-durations r now calendar h = rw h

-- A member has something of a window with a limit of its own, and of a day's or a month's total.
duration_positive :
    (d : Draft) (rates : List Rate) (m : DraftShare) (y : DraftWindow) (w : Window)
    → valid_member_limit d m ≡ true
    → (d.mode == "windows") ≡ false
    → (d.period == "durations") ≡ true
    → In y d.windows
    → w.limit ≡ nat_of y.limit
    → 0 < member_limit (config_of d rates) (share_of m) w
unfolding valid_member_limit member_limit config_of
duration_positive d rates m y w v mode lasting i e = elim (Bool-cases (d.mode == "ratio")) [
  | inl ratio ↦
      rw (ratio, lasting, e) (ltb→lt _ _ (all-In (has_share m) d.windows y (ground arith) i))
  | inr other ↦ rw (other, mode) (over_positive m.limit (ground arith))
]

calendar_positive :
    (d : Draft) (rates : List Rate) (m : DraftShare) (w : Window)
    → valid_member_limit d m ≡ true
    → (d.mode == "windows") ≡ false
    → (d.period == "durations") ≡ false
    → 0 < member_limit (config_of d rates) (share_of m) w
unfolding valid_member_limit member_limit config_of
calendar_positive d rates m w v mode calendar = elim (Bool-cases (d.mode == "ratio")) [
  | inl ratio ↦ rw (ratio, calendar) (ltb→lt _ _ (ground arith))
  | inr other ↦ rw (other, mode) (over_positive m.limit (ground arith))
]

member_positive :
    (d : Draft) (rates : List Rate) (m : DraftShare)
    → valid_member_limit d m ≡ true
    → (d.mode == "windows") ≡ false
    → (id anchor now : ℕ) (calendar : ℕ × ℕ) (w : Window)
    → In w (
        effective_windows
          (record { id = id; config = config_of d rates; anchor = anchor })
          now
          calendar)
    → 0 < member_limit (config_of d rates) (share_of m) w
unfolding config_of
member_positive d rates m v mode id anchor now calendar w i =
    elim (Bool-cases (d.period == "durations")) [
      | inr other ↦ calendar_positive d rates m w v mode other
      | inl lasting ↦
          let r =
            let made : Revision = record { id = id; config = config_of d rates; anchor = anchor } in
            made in
          let inside : In w (duration_windows now anchor (map condition_of d.windows)) =
            subst (In w) (effective_windows-durations r now calendar lasting) i in
          let (x, m', e) =
            duration_windows-limit now anchor (map condition_of d.windows) w inside in
          let (y, n, e') = In-map condition_of d.windows x m' in
          duration_positive d rates m y w v mode lasting n (e ∙ ap (λ c. c.limit) e')
    ]

member_limits-ratio :
    (c : Config) (w : Window) (ms : List Share)
    → (c.mode == "ratio") ≡ true
    → member_limits c w ms ≡ limits (window_total c w) ms
unfolding member_limits limits member_limit window_total
member_limits-ratio c w [] h = refl
member_limits-ratio c w (m ∷ ms) h = ground (arith, member_limits-ratio c w ms h)

config_shares :
    (d : Draft) (rates : List Rate) (sum : ℕ)
    → check_shares d [] d.members ≡ ok sum
    → (d.mode == "ratio" && ltb 10000 sum) ≡ false
    → ((config_of d rates).mode == "ratio") ≡ true
    → shares (config_of d rates).members ≤ 10000
unfolding config_of
config_shares d rates sum counted whole ratio =
    let small : ltb 10000 sum ≡ false = ground arith in
    ground (arith, shares-sort (map share_of d.members), shares_sum d [] d.members sum counted)

config_of-IsFair :
    (d : Draft) (rates : List Rate) (sum : ℕ)
    → check_shares d [] d.members ≡ ok sum
    → check_draft_windows d ≡ ok tt
    → (d.mode == "ratio" && ltb 10000 sum) ≡ false
    → IsFair (config_of d rates)
config_of-IsFair d rates sum counted windowed whole = record {
  ascending =
      unfold config_of in
      sort-Ascending (map share_of d.members) (shares-Distinct d [] d.members sum counted);
  positive = λ mode id anchor now calendar w i m k.
      let (x, n, e) =
        In-map share_of d.members m (sort-In m (map share_of d.members) (unfold config_of in k)) in
      rw e (
        member_positive d rates x (shares_valid d [] d.members sum counted x n)
          (unfold config_of in mode) id anchor now calendar w i);
  within = λ ratio w.
      rw (member_limits-ratio (config_of d rates) w (config_of d rates).members ratio) (
        limits-le (window_total (config_of d rates) w) (config_of d rates).members
          (config_shares d rates sum counted whole ratio));
  lasting = λ lasting x i.
      let (y, n, e) = In-map condition_of d.windows x (unfold config_of in i) in
      rw e (draft_windows_last d windowed (unfold config_of in lasting) y n);
}

-- Rules that `normalize` accepts are fair: its members are in order, each once; where the mode is
-- not "windows", each member has something of every window; where they share a total, their limits
-- together are no more than it; and no window's duration is 0.
pub normalize-IsFair : (d : Draft) (c : Config) → normalize d ≡ ok c → IsFair c
normalize-IsFair d c h =
    let a = accepted d c h in
    subst IsFair (sym a.built) (config_of-IsFair d a.rates a.sum a.counted a.windowed a.whole)
