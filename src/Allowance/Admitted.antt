-- ===== src/Allowance/Admitted.antt =====
-- What an allowance that lets a request through has established.
use sub_lane.Base.{
  any, In, ℕ, ◌+◌, ◌≤◌, ◌<◌, String, ◌≡◌, refl, ap, ◌∙◌, subst, ◌⊎◌, inl, inr, Bool, true, false,
  not, ◌&&◌, List, [], ◌∷◌, arith, Bool-cases, ◌==◌, string_eq, nat_eq, int_eq,
}
use sub_lane.Failure.{
  Result, ◌>>◌, ◌>>=◌, unless, unless_ok, bind_ok, allocation_risk, allocation_unpriced, plain, err,
  ok,
}
use sub_lane.Allowance.{
  Share, Config, Window, Revision, reservation, window_total, entry_mode, effective_windows,
}
use sub_lane.Allowance.Check.{
  Ledger, MemberUsage, member_usage, member_room, is_risky, GroupUsage, group_usage, check_member,
  check_group, with_risk, check_shared, check_window, check_windows, check_members, authorize,
  check,
}

-- A window with no limit, or one that is not used up, has a place among four open requests, and
-- holds what is used and held back within the limit.
abbrev pub IsWithin : MemberUsage → Type 0
IsWithin u =
    (u.unlimited ≡ true) ⊎ ((u.used < u.limit) × (u.active < 4) × (u.used + u.held ≤ u.limit))

check_member-IsWithin : (u : MemberUsage) → check_member u ≡ ok false → IsWithin u
unfolding check_member is_risky member_room reservation
check_member-IsWithin u h = ground arith

-- A shared budget that is not used up and has room for one more reservation.
pub record IsShared (led : Ledger) (c : Config) (ws : List Window) (w : Window) (u : MemberUsage)
    : Type 0 where
  pub group : GroupUsage
  pub read : group_usage led c ws w ≡ ok group
  pub not_used_up : group.used < window_total c w
  pub has_room : reservation u.limit ≤ group.room

check_group-ok :
    (c : Config) (w : Window) (u : MemberUsage) (g : GroupUsage)
    → check_group c w u (ok g) ≡ ok false
    → (g.used < window_total c w) × (reservation u.limit ≤ g.room)
unfolding check_group
check_group-ok c w u g h = ground arith

with_risk-false :
    (risky : Bool) (m : Result Bool)
    → with_risk risky m ≡ ok false
    → (risky ≡ false) × (m ≡ ok false)
with_risk-false risky (err e) h = absurd (ground arith)
with_risk-false true (ok other) h = absurd (ground arith)
with_risk-false false (ok other) h = (refl, h)

check_group-IsShared :
    (led : Ledger) (c : Config) (ws : List Window) (w : Window) (u : MemberUsage)
    (m : Result GroupUsage)
    → group_usage led c ws w ≡ m
    → check_group c w u m ≡ ok false
    → IsShared led c ws w u
unfolding check_group
check_group-IsShared led c ws w u (err e) read h = absurd (ground arith)
check_group-IsShared led c ws w u (ok g) read h =
    let (left, room) = check_group-ok c w u g h in
    record { group = g; read = read; not_used_up = left; has_room = room }

check_shared-IsShared :
    (led : Ledger) (c : Config) (ws : List Window) (w : Window) (u : MemberUsage) (risky : Bool)
    → check_shared led c ws w u risky ≡ ok false
    → (risky ≡ false) × (((c.mode == "ratio") ≡ false) ⊎ IsShared led c ws w u)
unfolding check_shared
check_shared-IsShared led c ws w u risky h = elim (Bool-cases (c.mode == "ratio")) [
  | inr plain' ↦ (ground (arith, plain', h), inl plain')
  | inl ratio ↦
      let (calm, shared) =
        with_risk-false risky (check_group c w u (group_usage led c ws w))
          (ground (arith, ratio, h)) in
      (calm, inr (check_group-IsShared led c ws w u (group_usage led c ws w) refl shared))
]

-- What holds for one window of a member whose request is let through.
pub record IsCovered (led : Ledger) (c : Config) (ws : List Window) (m : Share) (w : Window)
    : Type 0 where
  pub usage : MemberUsage
  pub read : member_usage led c ws m w ≡ ok usage
  pub within : IsWithin usage
  pub shared : ((c.mode == "ratio") ≡ false) ⊎ IsShared led c ws w usage

check_window-IsCovered :
    (led : Ledger) (c : Config) (ws : List Window) (m : Share) (w : Window)
    → check_window led c ws m w ≡ ok false
    → IsCovered led c ws m w
unfolding check_window
check_window-IsCovered led c ws m w h =
    let (u, read, h₁) =
      bind_ok (member_usage led c ws m w)
        (λ u. check_member u >>= λ risky. check_shared led c ws w u risky) false h in
    let (risky, member, h₂) = bind_ok (check_member u) (check_shared led c ws w u) false h₁ in
    let (calm, shared) = check_shared-IsShared led c ws w u risky h₂ in
    record {
      usage = u;
      read = read;
      within = check_member-IsWithin u (member ∙ ap ok calm);
      shared = shared;
    }

check_windows-IsCovered :
    (led : Ledger) (c : Config) (ws rest : List Window) (m : Share) (w : Window)
    → check_windows led c ws m rest ≡ ok false
    → In w rest
    → IsCovered led c ws m w
unfolding check_windows
check_windows-IsCovered led c ws [] m w h inside = absurd inside
check_windows-IsCovered led c ws (v ∷ rest) m w h inside =
    let (risky, one, others) =
      bind_ok (check_window led c ws m v) (λ risky. with_risk risky (check_windows led c ws m rest))
        false h in
    let (calm, later) = with_risk-false risky (check_windows led c ws m rest) others in
    elim inside [
      | inl here ↦ rw here (check_window-IsCovered led c ws m v (one ∙ ap ok calm))
      | inr after ↦ check_windows-IsCovered led c ws rest m w later after
    ]

check_members-IsCovered :
    (led : Ledger) (c : Config) (ws : List Window) (user : ℕ) (ms : List Share) (m : Share)
    (w : Window)
    → check_members led c ws user ms ≡ ok tt
    → In m ms
    → m.user_id ≡ user
    → In w ws
    → IsCovered led c ws m w
unfolding check_members
check_members-IsCovered led c ws user [] m w h inside same shown = absurd inside
check_members-IsCovered led c ws user (n ∷ ms) m w h inside same shown =
    elim (Bool-cases (n.user_id == user)) [
      | inr other ↦ elim inside [
        | inl here ↦ absurd (ground (arith, ap (λ (x : Share). x.user_id) here, same, other))
        | inr after ↦
            check_members-IsCovered led c ws user ms m w (ground (arith, other, h)) after same shown
      ]
      | inl its ↦
          let own : (check_windows led c ws n ws >>= λ risky.
          unless risky (plain allocation_risk) >> check_members led c ws user ms)
              ≡ ok tt =
            ground (arith, its, h) in
          let (risky, windows, on) =
            bind_ok (check_windows led c ws n ws)
              (λ risky. unless risky (plain allocation_risk) >> check_members led c ws user ms) tt
              own in
          let (calm, rest) =
            unless_ok risky (plain allocation_risk) (check_members led c ws user ms) tt on in
          elim inside [
            | inl here ↦
                rw here (check_windows-IsCovered led c ws ws n w (windows ∙ ap ok calm) shown)
            | inr after ↦ check_members-IsCovered led c ws user ms m w rest after same shown
          ]
    ]

pub then_ok : (m : Result (Unit {0})) (s r : Revision) → (m >> ok s) ≡ ok r → (m ≡ ok tt) × (s ≡ r)
then_ok (err e) s r h = absurd (ground arith)
then_ok (ok tt) s r h = (refl, ground arith)

pub check-IsCovered :
    (led : Ledger) (user group : ℕ) (model : String) (now : ℕ) (calendar : Config → ℕ × ℕ)
    (r : Revision) (m : Share) (w : Window)
    → check led user group model now calendar ≡ ok r
    → In m r.config.members
    → m.user_id ≡ user
    → In w (effective_windows r now (calendar r.config))
    → IsCovered led r.config (effective_windows r now (calendar r.config)) m w
unfolding check
check-IsCovered led user group model now calendar r m w h inside same shown =
    let unpriced = λ (s : Revision).
      entry_mode s.config == "amount" && not (any (λ rate. rate.model == model) s.config.rates) in
    let members = λ (s : Revision).
      check_members led s.config (effective_windows s now (calendar s.config)) user s.config.members
      >> ok s in
    let (s, allowed, priced) =
      bind_ok (authorize led user group)
        (λ s. unless (unpriced s) (plain allocation_unpriced) >> members s) r h in
    let (rated, on) = unless_ok (unpriced s) (plain allocation_unpriced) (members s) r priced in
    let (checked, it) =
      then_ok
        (check_members led s.config (effective_windows s now (calendar s.config)) user
          s.config.members)
        s r on in
    let checked' : check_members led r.config (effective_windows r now (calendar r.config)) user
          r.config.members
        ≡ ok tt =
      subst
        (λ (x : Revision).
          check_members led x.config (effective_windows x now (calendar x.config)) user
            x.config.members
          ≡ ok tt)
        it checked in
    check_members-IsCovered led r.config (effective_windows r now (calendar r.config)) user
      r.config.members m w checked' inside same shown
