-- ===== src/Allowance/Charged.antt =====
-- What ending a request does to an allowance's table of entries: internal/allocations/runtime.go.
use sub_lane.Failure.{
  Failure, Result, ◌>>◌, ◌>>=◌, unless, allocation_input, allocation_settlement, plain, err, ok,
}
use sub_lane.Base.{
  lookup, insert, lookup-insert, lookup-insert_self, ℕ, ◌+◌, String, ◌≡◌, refl, sym, ◌∙◌, subst,
  ◌⊎◌, inl, inr, Bool, true, false, not, ◌&&◌, ◌||◌, some, [], ◌∷◌, arith, if◌then◌else◌,
  Bool-cases, ℤ, under, nat_of, pos, negsuc, ◌==◌, string_eq, nat_eq, int_eq,
}
use sub_lane.Allowance.{Config}
use sub_lane.Allowance.Entries.{
  EntryState, is_active, is_pending, is_settled, EntryRow, Entries, falls, used, Completion,
  repeats, bad_numbers, charge, end_state, finished, finish_row, finish_entry, active, pending,
  settled,
}

-- What a row adds to the usage that a query reads.
abbrev pub share_in : ℕ → ℕ → ℕ → ℕ → String → EntryRow → ℕ
share_in scheme user from to mode e =
    if falls scheme user from to mode e && is_settled e.state then e.cost else 0

module _ (scheme user from to : ℕ) (mode : String) where
  used-cons :
      (id : String) (e : EntryRow) (table : Entries)
      → used scheme user from to mode ((id, e) ∷ table)
        ≡ share_in scheme user from to mode e + used scheme user from to mode table
  unfolding used
  used-cons id e table =
      elim (Bool-cases (falls scheme user from to mode e && is_settled e.state)) [
        | inl counts ↦ rw counts
        | inr other ↦ rw other (omega arith)
      ]

  pub used-insert :
      (id : String) (e written : EntryRow) (table : Entries)
      → lookup id table ≡ some e
      → used scheme user from to mode (insert id written table)
          + share_in scheme user from to mode e
        ≡ used scheme user from to mode table + share_in scheme user from to mode written
  unfolding insert lookup
  used-insert id e written [] h = absurd (ground arith)
  used-insert id e written ((at, x) ∷ rest) h = elim (Bool-cases (at == id)) [
    | inl here ↦
        let same : x ≡ e = ground (arith, rw here at h) in
        rw (here, used-cons id written rest, used-cons at x rest, same) (omega arith)
    | inr later ↦
        rw (later, used-cons at x rest, used-cons at x (insert id written rest))
          (omega (arith, used-insert id e written rest (rw later at h)))
  ]

-- A request that is charged: its row was not settled and now says how it ended, no other row has
-- changed, and every query's usage has grown by the price, if the row falls under the query and
-- the request is settled, and else not at all.
pub record IsCharged (config_of : ℕ → Result Config) (id : String) (e : EntryRow) (c : Completion)
    (now : ℕ) (manual : Bool) (table written : Entries) : Type 0 where
  pub unsettled : is_settled e.state ≡ false
  pub valid : bad_numbers c ≡ false
  pub price : ℕ
  pub priced : charge config_of e c ≡ ok price
  pub row : lookup id written ≡ some (finished e c now manual price)
  pub others : (other : String) → (id == other) ≡ false → lookup other written ≡ lookup other table
  pub usage :
      (scheme user from to : ℕ) (mode : String)
      → used scheme user from to mode written
        ≡ used scheme user from to mode table
          + (if falls scheme user from to mode e && is_settled (end_state c) then price else 0)

share_in-unsettled :
    (scheme user from to : ℕ) (mode : String) (e : EntryRow)
    → is_settled e.state ≡ false
    → share_in scheme user from to mode e ≡ 0
share_in-unsettled scheme user from to mode e h =
    elim (Bool-cases (falls scheme user from to mode e)) [ inl f ↦ rw (f, h) | inr f ↦ rw f ]

settled-priced :
    (s : EntryState) (counts : Bool) (price : ℕ)
    → (if counts && is_settled s then (if is_pending s then 0 else price) else 0)
      ≡ (if counts && is_settled s then price else 0)
settled-priced active counts price = ground arith
settled-priced pending counts price = ground arith
settled-priced settled counts price = ground arith

written-IsCharged :
    (config_of : ℕ → Result Config) (id : String) (e : EntryRow) (c : Completion) (now : ℕ)
    (manual : Bool) (table : Entries) (price : ℕ)
    → lookup id table ≡ some e
    → is_settled e.state ≡ false
    → bad_numbers c ≡ false
    → charge config_of e c ≡ ok price
    → IsCharged config_of id e c now manual table (insert id (finished e c now manual price) table)
written-IsCharged config_of id e c now manual table price found unsettled valid priced = record {
  unsettled = unsettled;
  valid = valid;
  price = price;
  priced = priced;
  row = lookup-insert_self id (finished e c now manual price) table;
  others =
      λ other differs. rw (lookup-insert id other (finished e c now manual price) table, differs);
  usage = λ scheme user from to mode. omega (
    arith,
    used-insert scheme user from to mode id e (finished e c now manual price) table found,
    share_in-unsettled scheme user from to mode e unsettled,
    settled-priced (end_state c) (falls scheme user from to mode e) price,
  );
}

-- The shape of `Finish`: two ways to leave the row, two guards, and the price.
guards_passed :
    (skip again refuse bad : Bool) (unlike wrong : Failure) (priced : Result ℕ)
    (write : ℕ → Entries) (table written : Entries)
    → (if skip
        then ok table
        else if again
        then ok table
        else unless refuse unlike >> (unless bad wrong >> (priced >>= λ price. ok (write price))))
      ≡ ok written
    → ((written ≡ table) × ((skip || again) ≡ true))
      ⊎ ((skip ≡ false)
          × (again ≡ false)
          × (refuse ≡ false)
          × (bad ≡ false)
          × ((price : ℕ) × (priced ≡ ok price) × (written ≡ write price)))
guards_passed true again refuse bad unlike wrong priced write table written h =
    inl (ground arith, refl)
guards_passed false true refuse bad unlike wrong priced write table written h =
    inl (ground arith, refl)
guards_passed false false true bad unlike wrong priced write table written h = absurd (ground arith)
guards_passed false false false true unlike wrong priced write table written h =
    absurd (ground arith)
guards_passed false false false false unlike wrong (err e) write table written h =
    absurd (ground arith)
guards_passed false false false false unlike wrong (ok price) write table written h =
    inr (refl, refl, refl, refl, (price, refl, ground arith))

unsettled :
    (manual less fewer : Bool) (s : EntryState)
    → (not manual && not (is_active s)) ≡ false
    → (manual && (not (is_pending s) || less || fewer)) ≡ false
    → is_settled s ≡ false
unsettled manual less fewer active h k = refl
unsettled manual less fewer pending h k = refl
unsettled true less fewer settled h k = cc
unsettled false less fewer settled h k = cc

finish_entry-found :
    (config_of : ℕ → Result Config) (id : String) (e : EntryRow) (c : Completion) (now : ℕ)
    (manual : Bool) (table : Entries)
    → lookup id table ≡ some e
    → finish_entry config_of id c now manual table ≡ finish_row config_of id e c now manual table
unfolding finish_entry
finish_entry-found config_of id e c now manual table found = rw (found, finish_entry)

-- The request's end says nothing new: the gateway's, of a row that is not open, or one by hand
-- that repeats the row.
abbrev pub repeats_end : Bool → EntryRow → Completion → Bool
repeats_end manual e c = (not manual && not (is_active e.state)) || (manual && repeats e c)

-- A request that ends with no error is charged exactly once: an end that says nothing new leaves
-- the table as it is, and any other settles a row that was not settled: the row says how it
-- ended, no other row changes, and the usage that a query reads grows by the price of the request
-- by its own rules where the query covers it and it is settled, and else not at all.
pub finish_entry-IsCharged :
    (config_of : ℕ → Result Config) (id : String) (e : EntryRow) (c : Completion) (now : ℕ)
    (manual : Bool) (table written : Entries)
    → lookup id table ≡ some e
    → finish_entry config_of id c now manual table ≡ ok written
    → ((written ≡ table) × (repeats_end manual e c ≡ true))
      ⊎ IsCharged config_of id e c now manual table written
unfolding finish_row
finish_entry-IsCharged config_of id e c now manual table written found h =
    let less = under c.input e.input_tokens in
    let fewer = under c.output e.output_tokens in
    let row = sym (finish_entry-found config_of id e c now manual table found) ∙ h in
    elim (guards_passed (not manual && not (is_active e.state)) (manual && repeats e c)
      (manual && (not (is_pending e.state) || less || fewer)) (bad_numbers c)
      (plain allocation_settlement) (plain allocation_input) (charge config_of e c)
      (λ price. insert id (finished e c now manual price) table) table written row) [
        | inl same ↦ inl same
        | inr (skip, again, refuse, valid, (price, priced, e')) ↦ inr (
            subst (IsCharged config_of id e c now manual table) (sym e') (
              written-IsCharged config_of id e c now manual table price found
                (unsettled manual less fewer e.state skip refuse) valid priced))
      ]

not_negative : (n : ℤ) → under n 0 ≡ false → (n == pos (nat_of n)) ≡ true
not_negative (pos n) h = ground arith
not_negative (negsuc n) h = cc

end_state-closes : (c : Completion) → is_active (end_state c) ≡ false
end_state-closes c = ground arith

-- A row that was charged says its own end already.
charged-repeats_end :
    (e : EntryRow) (c : Completion) (now : ℕ) (manual : Bool) (price : ℕ)
    → bad_numbers c ≡ false
    → (manual ≡ true → is_settled (end_state c) ≡ true)
    → repeats_end manual (finished e c now manual price) c ≡ true
charged-repeats_end e c now false price valid closes = rw (end_state-closes c)
charged-repeats_end e c now true price valid closes = rw (
  closes refl,
  not_negative c.input (ground arith),
  not_negative c.output (ground arith),
  not_negative c.cached (ground arith),
)

left_alone :
    {A : Type 0} (skip again : Bool) (this rest : A)
    → (skip || again) ≡ true
    → (if skip then this else if again then this else rest) ≡ this
left_alone true again this rest h = refl
left_alone false true this rest h = refl
left_alone false false this rest h = cc

stale-finish_entry :
    (config_of : ℕ → Result Config) (id : String) (e : EntryRow) (c : Completion) (now : ℕ)
    (manual : Bool) (table : Entries)
    → lookup id table ≡ some e
    → repeats_end manual e c ≡ true
    → finish_entry config_of id c now manual table ≡ ok table
unfolding finish_row
stale-finish_entry config_of id e c now manual table found stale =
    finish_entry-found config_of id e c now manual table found
    ∙ left_alone (not manual && not (is_active e.state)) (manual && repeats e c) (ok table) _ stale

-- Ending a request twice with the same numbers is ending it once, whenever the second end comes, if
-- an end by hand settles it.
pub finish_twice :
    (config_of : ℕ → Result Config) (id : String) (e : EntryRow) (c : Completion) (now later : ℕ)
    (manual : Bool) (table written : Entries)
    → lookup id table ≡ some e
    → (manual ≡ true → is_settled (end_state c) ≡ true)
    → finish_entry config_of id c now manual table ≡ ok written
    → finish_entry config_of id c later manual written ≡ ok written
finish_twice config_of id e c now later manual table written found closes h =
    elim (finish_entry-IsCharged config_of id e c now manual table written found h) [
      | inl (same, stale) ↦
          rw same (stale-finish_entry config_of id e c later manual table found stale)
      | inr charged ↦
          stale-finish_entry config_of id (finished e c now manual charged.price) c later manual
            written charged.row
            (charged-repeats_end e c now manual charged.price charged.valid closes)
    ]
