-- ===== src/Allowance/Funded.antt =====
-- When a shared budget covers a change of its members: `checkFunding` of
-- internal/allocations/changes.go, against the readings of the accounting that it is made of.
use text.Mathlib.TextEquality.{}
use sub_lane.Base.{
  ℕ, ◌+◌, ◌-◌, ◌≤◌, ◌≡◌, ◌⊎◌, ◌↔◌, ◌∙◌, refl, sym, ap, subst, inl, inr, Bool, true, false, ◌&&◌,
  List, [], ◌∷◌, In, any-In, In-any, arith, ltb, any, Bool-cases, ◌==◌, string_eq, nat_eq,
  nat_beq_iff,
}
use sub_lane.Failure.{seq_ok, ok, plain, ◌>>=◌, unless, bind_ok, ok_injective, funding_gap}
use sub_lane.Allowance.{
  Share, Config, Window, Revision, member_limit, window_total, effective_windows,
}
use sub_lane.Allowance.Check.{
  Ledger, Entry, MemberUsage, member_usage, reservations, active_entries, reserve,
}
use sub_lane.Allowance.Funding.{
  group_taken, members_need, old_limit, is_raised, fund_window, fund_windows, check_funding,
}

abbrev pub total_of : List ℕ → ℕ
total_of [] = 0
total_of (x ∷ xs) = x + total_of xs

abbrev nobody : Share
nobody = record { user_id = 0; limit = 0; overrides = [] }

-- What all users together have used of a window, and what is held back for their open requests.
abbrev pub IsTaken : Ledger → Config → List Window → Window → ℕ → Type 0
IsTaken led c ws w taken =
    (used : ℕ) × (rows : List Entry) × (counted : ℕ × ℕ) × (led.group_used w ≡ ok used)
    × (active_entries led c ws 0 nobody ≡ ok rows)
    × (reserve led 0 w rows ≡ ok counted)
    × (taken ≡ used + counted.1)

-- What is left of a member's limit after what it has used and what is held back for it.
abbrev pub IsRest : Ledger → Config → List Window → Window → Share → ℕ → Type 0
IsRest led c ws w m x =
    (used : ℕ) × (led.member_used m.user_id w ≡ ok used)
    × ((((c.mode == "windows" && member_limit c m w == 0) ≡ true) × (x ≡ 0))
        ⊎ (((c.mode == "windows" && member_limit c m w == 0) ≡ false)
            × (rows : List Entry) × (counted : ℕ × ℕ) × (active_entries led c ws m.user_id m
                ≡ ok rows)
            × (reserve led m.user_id w rows ≡ ok counted)
            × (x ≡ member_limit c m w - (used + counted.1))))

abbrev pub AreRests : Ledger → Config → List Window → Window → List Share → List ℕ → Type 0
AreRests led c ws w [] [] = Unit
AreRests led c ws w (m ∷ ms) (x ∷ xs) = IsRest led c ws w m x × AreRests led c ws w ms xs
AreRests led c ws w _ _ = ⊥

-- A member gets nothing, or no more than its share of before.
abbrev pub IsNoMore : Config → Config → Window → Share → Type 0
IsNoMore current proposed w m =
    (member_limit proposed m w ≡ 0)
    ⊎ ((old : Share) × In old current.members
        × (old.user_id ≡ m.user_id)
        × (member_limit proposed m w ≤ member_limit current old w))

-- What is taken of a window and what is left to each member are within its total, or no member gets
-- more of it than before.
abbrev pub IsFunded : Ledger → Config → Config → List Window → Window → Type 0
IsFunded led current proposed ws w =
    (taken : ℕ) × (xs : List ℕ) × IsTaken led current ws w taken
    × AreRests led proposed ws w proposed.members xs
    × ((taken + total_of xs ≤ window_total current w)
        ⊎ ((m : Share) → In m proposed.members → IsNoMore current proposed w m))

group_taken-IsTaken :
    (led : Ledger) (c : Config) (ws : List Window) (w : Window) (taken : ℕ)
    → (group_taken led c ws w ≡ ok taken) ↔ IsTaken led c ws w taken
unfolding group_taken reservations
group_taken-IsTaken led c ws w taken = (
  λ h.
      let (used, read, h1) = bind_ok (led.group_used w) _ taken h in
      let (counted, counts, h2) =
        bind_ok (active_entries led c ws 0 nobody >>= reserve led 0 w) _ taken h1 in
      let (rows, listed, h3) = bind_ok (active_entries led c ws 0 nobody) _ counted counts in
      (used, rows, counted, read, listed, h3, ground (arith, h2)),
  λ t.
      let (used, rows, counted, read, listed, held, total) = t in
      rw (read, listed, held, total) refl,
)

minus_twice : (a b c : ℕ) → a - b - c ≡ a - (b + c)
minus_twice a b c = omega arith

member_usage-IsRest :
    (led : Ledger) (c : Config) (ws : List Window) (w : Window) (m : Share) (u : MemberUsage)
    → member_usage led c ws m w ≡ ok u
    → IsRest led c ws w m (u.limit - u.used - u.held)
unfolding member_usage reservations
member_usage-IsRest led c ws w m u h =
    let (used, read, h1) = bind_ok (led.member_used m.user_id w) _ u h in
    elim (Bool-cases (c.mode == "windows" && member_limit c m w == 0)) [
      | inl free ↦
          let got : MemberUsage.limit u ≡ 0 = ground (arith, rw (free) at h1) in
          (used, read, inl (free, ground (arith, got)))
      | inr held ↦
          let (counted, counts, h2) =
            bind_ok (active_entries led c ws m.user_id m >>= reserve led m.user_id w) _ u
              (rw (held) at h1) in
          let (rows, listed, h3) = bind_ok (active_entries led c ws m.user_id m) _ counted counts in
          (
            used,
            read,
            inr (
              held,
              rows,
              counted,
              listed,
              h3,
              subst
                  (λ (v : MemberUsage).
                    v.limit - v.used - v.held ≡ member_limit c m w - (used + counted.1))
                  (ok_injective h2) (minus_twice (member_limit c m w) used counted.1),
            ),
          )
    ]

IsRest-member_usage :
    (led : Ledger) (c : Config) (ws : List Window) (w : Window) (m : Share) (x : ℕ)
    → IsRest led c ws w m x
    → (u : MemberUsage) × (member_usage led c ws m w ≡ ok u) × (u.limit - u.used - u.held ≡ x)
unfolding member_usage reservations
IsRest-member_usage led c ws w m x (used, read, inl (free, none_left)) =
    let none_due : member_limit c m w ≡ 0 = (nat_beq_iff (member_limit c m w) 0).0 (ground arith) in
    (
      record { limit = member_limit c m w; unlimited = true; used = used; active = 0; held = 0 },
      rw (read, free) refl,
      rw (none_due, none_left) (omega arith),
    )
IsRest-member_usage led c ws w m x (used, read, inr (held, rows, counted, listed, counts, left)) = (
  record {
    limit = member_limit c m w;
    unlimited = false;
    used = used;
    active = counted.0;
    held = counted.1;
  },
  rw (read, held, listed, counts) refl,
  minus_twice (member_limit c m w) used counted.1 ∙ sym left,
)

members_need-AreRests :
    (led : Ledger) (c : Config) (ws : List Window) (w : Window) (ms : List Share) (need : ℕ)
    → members_need led c ws w ms ≡ ok need
    → (xs : List ℕ) × AreRests led c ws w ms xs × (need ≡ total_of xs)
unfolding members_need
members_need-AreRests led c ws w [] need h = ([], tt, sym (ok_injective h))
members_need-AreRests led c ws w (m ∷ ms) need h =
    let (u, read, h1) = bind_ok (member_usage led c ws m w) _ need h in
    let (others, needs, h2) = bind_ok (members_need led c ws w ms) _ need h1 in
    let (xs, rests, total) = members_need-AreRests led c ws w ms others needs in
    (
      (u.limit - u.used - u.held) ∷ xs,
      (member_usage-IsRest led c ws w m u read, rests),
      sym (ok_injective h2) ∙ ap (λ t. (u.limit - u.used - u.held) + t) total,
    )

AreRests-members_need :
    (led : Ledger) (c : Config) (ws : List Window) (w : Window) (ms : List Share) (xs : List ℕ)
    → AreRests led c ws w ms xs
    → members_need led c ws w ms ≡ ok (total_of xs)
unfolding members_need
AreRests-members_need led c ws w [] [] rests = refl
AreRests-members_need led c ws w [] (x ∷ xs) rests = absurd rests
AreRests-members_need led c ws w (m ∷ ms) [] rests = absurd rests
AreRests-members_need led c ws w (m ∷ ms) (x ∷ xs) (first, rests) =
    let (u, read, left) = IsRest-member_usage led c ws w m x first in
    rw (read, AreRests-members_need led c ws w ms xs rests, left) refl

-- The limit that a user has had.
old_limit-cases :
    (c : Config) (w : Window) (user found : ℕ) (ms : List Share)
    → ((old_limit c w user found ms ≡ found)
        × ((m : Share) → In m ms → (m.user_id == user) ≡ false))
      ⊎ ((m : Share) × In m ms
          × (m.user_id ≡ user)
          × (old_limit c w user found ms ≡ member_limit c m w))
unfolding old_limit
old_limit-cases c w user found [] = inl (refl, λ m nothing. elim nothing [ ])
old_limit-cases c w user found (m ∷ ms) = elim (Bool-cases (m.user_id == user)) [
  | inl own ↦ elim (old_limit-cases c w user (member_limit c m w) ms) [
    | inr (later, member, same, limit) ↦ inr (later, inr member, same, rw (own) limit)
    | inl (first, others) ↦ inr (m, inl refl, (nat_beq_iff m.user_id user).0 own, rw (own) first)
  ]
  | inr other ↦ elim (old_limit-cases c w user found ms) [
    | inr (later, member, same, limit) ↦ inr (later, inr member, same, rw (other) limit)
    | inl (first, others) ↦ inl (
      rw (other) first,
      λ t member. elim member [
        | inl same ↦ subst (λ (v : Share). (v.user_id == user) ≡ false) (sym same) other
        | inr later ↦ others t later
      ],
    )
  ]
]

-- No two members are of one user.
abbrev pub HasApart : List Share → Type 0
HasApart ms = (a b : Share) → In a ms → In b ms → a.user_id ≡ b.user_id → a ≡ b

raised-IsNoMore :
    (current proposed : Config) (w : Window) (m : Share)
    → is_raised current proposed w m ≡ false
    → IsNoMore current proposed w m
unfolding is_raised
raised-IsNoMore current proposed w m h =
    elim (old_limit-cases current w m.user_id 0 current.members) [
      | inl (none_had, others) ↦ inl (ground arith)
      | inr (old, member, same, limit) ↦ inr (old, member, same, ground arith)
    ]

IsNoMore-raised :
    (current proposed : Config) (w : Window) (m : Share)
    → HasApart current.members
    → IsNoMore current proposed w m
    → is_raised current proposed w m ≡ false
unfolding is_raised
IsNoMore-raised current proposed w m apart (inl nothing) = ground arith
IsNoMore-raised current proposed w m apart (inr (old, member, same, within)) =
    elim (old_limit-cases current w m.user_id 0 current.members) [
      | inl (none_had, others) ↦
          absurd (ground (arith, others old member, (nat_beq_iff old.user_id m.user_id).1 same))
      | inr (last, listed, own, limit) ↦
          let one : member_limit current last w ≡ member_limit current old w =
            ap (λ (v : Share). member_limit current v w)
              (apart last old listed member (own ∙ sym same)) in
          ground arith
    ]

none-any :
    (p : Share → Bool) (ms : List Share) → ((m : Share) → In m ms → p m ≡ false) → any p ms ≡ false
none-any p ms none_is = elim (Bool-cases (any p ms)) [
  | inl some_is ↦
      let (m, member, is_so) = any-In p ms some_is in absurd (ground (arith, none_is m member))
  | inr none_so ↦ none_so
]

any-none :
    (p : Share → Bool) (ms : List Share) (m : Share) → any p ms ≡ false → In m ms → p m ≡ false
any-none p ms m none_so member = ground (arith, In-any p ms m member)

unless-false : (b : Bool) → unless b (plain funding_gap) ≡ ok tt → b ≡ false
unless-false true h = absurd (ground (arith, h))
unless-false false h = refl

module _ (led : Ledger) (current proposed : Config) (ws : List Window) where
  fund_window-IsFunded :
      (w : Window)
      → fund_window led current proposed ws w ≡ ok tt
      → IsFunded led current proposed ws w
  unfolding fund_window
  fund_window-IsFunded w h =
      let (taken, took, h1) = bind_ok (group_taken led current ws w) _ tt h in
      let (need, needs, h2) = bind_ok (members_need led proposed ws w proposed.members) _ tt h1 in
      let (xs, rests, total) =
        members_need-AreRests led proposed ws w proposed.members need needs in
      (
        taken,
        xs,
        (group_taken-IsTaken led current ws w taken).0 took,
        rests,
        elim (Bool-cases (ltb (window_total current w) (taken + need))) [
          | inr within ↦ inl (ground (arith, total))
          | inl over ↦
              let none_raised : any (is_raised current proposed w) proposed.members ≡ false =
                ground (arith, unless-false _ h2, over) in
              inr (λ m member.
                raised-IsNoMore current proposed w m
                  (any-none (is_raised current proposed w) proposed.members m none_raised member))
        ],
      )

  IsFunded-fund_window :
      (w : Window)
      → HasApart current.members
      → IsFunded led current proposed ws w
      → fund_window led current proposed ws w ≡ ok tt
  unfolding fund_window
  IsFunded-fund_window w apart (taken, xs, took, rests, covered) =
      let raised = any (is_raised current proposed w) proposed.members in
      let passes : (ltb (window_total current w) (taken + total_of xs) && raised) ≡ false =
        elim covered [
          | inl within ↦ ground arith
          | inr no_more ↦ ground (
            arith,
            none-any (is_raised current proposed w) proposed.members
                (λ m member. IsNoMore-raised current proposed w m apart (no_more m member)),
          )
        ] in
      rw
        (
          (group_taken-IsTaken led current ws w taken).1 took,
          AreRests-members_need led proposed ws w proposed.members xs rests,
          passes,
        )
        refl

  fund_windows-IsFunded :
      (rest : List Window) (w : Window)
      → fund_windows led current proposed ws rest ≡ ok tt
      → In w rest
      → IsFunded led current proposed ws w
  unfolding fund_windows
  fund_windows-IsFunded [] w h among = absurd among
  fund_windows-IsFunded (x ∷ rest) w h among =
      let (first, later) = seq_ok (fund_window led current proposed ws x) _ tt h in
      elim among [
        | inl here ↦
            subst (IsFunded led current proposed ws) (sym here) (fund_window-IsFunded x first)
        | inr there ↦ fund_windows-IsFunded rest w later there
      ]

  IsFunded-fund_windows :
      (rest : List Window)
      → HasApart current.members
      → ((w : Window) → In w rest → IsFunded led current proposed ws w)
      → fund_windows led current proposed ws rest ≡ ok tt
  unfolding fund_windows
  IsFunded-fund_windows [] apart funded = refl
  IsFunded-fund_windows (x ∷ rest) apart funded =
      rw (IsFunded-fund_window x apart (funded x (inl refl)))
        (IsFunded-fund_windows rest apart (λ w later. funded w (inr later)))

pub check_funding_covers :
    (led : Ledger) (current : Revision) (proposed : Config) (now : ℕ) (calendar : ℕ × ℕ)
    (w : Window)
    → (current.config.mode == "ratio") ≡ true
    → check_funding led current proposed now calendar ≡ ok tt
    → In w (effective_windows current now calendar)
    → IsFunded led current.config proposed (effective_windows current now calendar) w
unfolding check_funding
check_funding_covers led current proposed now calendar w ratio h among =
    fund_windows-IsFunded led current.config proposed (effective_windows current now calendar)
      (effective_windows current now calendar) w (rw ratio at h) among

-- Where the rules are shares of a budget and no two members are of one user, a change of members is
-- let through exactly if for every window in force: all users' use and what is held back, and what
-- each member's use and what is held back for it leave of its limit, can be read, and these are
-- together within the total, or each member gets nothing or no more than its own share of before.
pub check_funding-IsFunded :
    (led : Ledger) (current : Revision) (proposed : Config) (now : ℕ) (calendar : ℕ × ℕ)
    → (current.config.mode == "ratio") ≡ true
    → HasApart current.config.members
    → let ws = effective_windows current now calendar in
      (check_funding led current proposed now calendar ≡ ok tt)
      ↔ ((w : Window) → In w ws → IsFunded led current.config proposed ws w)
unfolding check_funding
check_funding-IsFunded led current proposed now calendar ratio apart = (
  λ h w among. check_funding_covers led current proposed now calendar w ratio h among,
  λ funded. rw (ratio) (
      IsFunded-fund_windows led current.config proposed (effective_windows current now calendar)
        (effective_windows current now calendar) apart funded),
)
