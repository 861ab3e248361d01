-- ===== src/Allowance/Laws.antt =====
-- Laws of the numbers of an allowance: windows, shares, reservations and costs.
use sub_lane.Base.{ℕ, ◌+◌, ◌-◌, ◌*◌, ◌/◌, ◌≤◌, ◌<◌, ◌≡◌, refl, ap, ◌⊎◌, List, [], ◌∷◌, arith}
use sub_lane.Failure.{ok}
use sub_lane.Allowance.{Share, Rate, ratio_limit, duration_window, exact_cost, cost}

-- A window of a duration that is not 0 has that length and starts at the anchor or later; once the
-- anchor has passed it holds the present instant.
pub duration_window_lem :
    (now anchor seconds : ℕ)
    → 0 < seconds
    → let w = duration_window now anchor seconds in
      (w.stop ≡ w.start + seconds)
      × (anchor ≤ w.start)
      × ((now < anchor) ⊎ ((w.start ≤ now) × (now < w.stop)))
unfolding duration_window
duration_window_lem now anchor seconds p = ground arith

pub quotient_unique : (x q s : ℕ) → q * s ≤ x → x < q * s + s → x / s ≡ q
quotient_unique x q s from until = grind arith

passed_window :
    (now anchor seconds : ℕ)
    → anchor ≤ now
    → (duration_window now anchor seconds).start ≡ anchor + (now - anchor) / seconds * seconds
unfolding duration_window
passed_window now anchor seconds h = ground arith

window_length :
    (now anchor seconds : ℕ)
    → (duration_window now anchor seconds).stop
      ≡ (duration_window now anchor seconds).start + seconds
unfolding duration_window
window_length now anchor seconds = refl

-- Every instant that a window holds, once its anchor has passed, has a window that starts with it.
pub duration_window_stable :
    (now later anchor seconds : ℕ)
    → 0 < seconds
    → anchor ≤ now
    → (duration_window now anchor seconds).start ≤ later
    → later < (duration_window now anchor seconds).stop
    → (duration_window later anchor seconds).start ≡ (duration_window now anchor seconds).start
duration_window_stable now later anchor seconds p passed from until =
    let starts = passed_window now anchor seconds passed in
    let reached : anchor ≤ later = omega (arith, starts) in
    let same =
      quotient_unique (later - anchor) ((now - anchor) / seconds) seconds (omega (arith, starts))
        (omega (arith, starts, window_length now anchor seconds)) in
    let again : (later - anchor) / seconds * seconds ≡ (now - anchor) / seconds * seconds =
      ap (λ n. n * seconds) same in
    omega (arith, starts, passed_window later anchor seconds reached, again)

unfoldable pub shares : List Share → ℕ
shares [] = 0
shares (m ∷ ms) = m.limit + shares ms

unfoldable pub limits : ℕ → List Share → ℕ
unfolding ratio_limit
limits total [] = 0
limits total (m ∷ ms) = ratio_limit total m.limit + limits total ms

limits-shares : (total : ℕ) (ms : List Share) → 10000 * limits total ms ≤ total * shares ms
unfolding limits shares
limits-shares total [] = omega arith
limits-shares total (m ∷ ms) = grind (arith, limits-shares total ms)

-- Members whose shares are no more than the whole have limits that are no more than the total.
pub limits-le : (total : ℕ) (ms : List Share) → shares ms ≤ 10000 → limits total ms ≤ total
limits-le total ms h = grind (arith, limits-shares total ms)

-- A charge is the exact price rounded up: no less than it, less than one more micro-USD, and not 0
-- unless the price is.
pub cost_lem :
    (r : Rate) (input output cached charge : ℕ)
    → cost r input output cached ≡ ok charge
    → (cached ≤ input)
      × (exact_cost r input output cached ≤ 1000000 * charge)
      × (1000000 * charge < exact_cost r input output cached + 1000000)
      × (charge ≤ 9223372036854775807)
unfolding cost
cost_lem r input output cached charge h = ground arith
