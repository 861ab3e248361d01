-- ===== src/Alerts/Acknowledged.antt =====
-- What the rows say of their destination is what it has acknowledged:
-- internal/alerts/alerts.go.
use sub_lane.Base.{
  In, ℕ, ◌-◌, String, ◌≡◌, refl, sym, ap, ◌∙◌, subst, ◌⊎◌, inl, inr, Bool, true, false, none, some,
  [], ◌∷◌, if◌then◌else◌, Bool-cases, over, ◌==◌, string_eq, nat_eq, int_eq,
}
use text.Mathlib.TextEquality.{eq_iff}
use sub_lane.Alerts.{
  AlertState, Rows, save_state, Poll, observe, attempt, Event, event_of, mark_delivered,
  finish_delivery, fail_delivery, Configuration, Input, Outside, update,
}
use sub_lane.Alerts.Observed.{observe-Kept}
use sub_lane.Alerts.Saved.{save_state-In, Told, Kept-carry, Kept-like}
use sub_lane.Alerts.Settings.{update-IsUpdated}
use sub_lane.Alerts.Deliveries.{
  Workspace, Step, Reach, Held, IsKept, begin, look, pass, book, stop, accept, refuse, lose, change,
  test, start, next,
}
use sub_lane.Alerts.Marked.{
  finish_delivery-In, fail_delivery-In, mark_delivered-event, mark_delivered-other,
  mark_failed-event, attempt-event, Told-more, mark_delivered-Told,
}

module _ (ids : ℕ → String) (distinct : (j k : ℕ) → ids j ≡ ids k → j ≡ k) where
  -- Where nothing new is held.
  fewer-IsKept :
      (w v : Workspace)
      → IsKept ids w
      → v.next_id ≡ w.next_id
      → v.heard ≡ w.heard
      → ((s : AlertState) → Held v s → Held w s)
      → IsKept ids v
  fewer-IsKept w v known ids_same heard_same fewer =
      rw (ids_same, heard_same)
        (Kept-like ids distinct w.next_id w.heard known
          (λ s hs. (s, fewer s hs, refl, λ knows. knows)))

  look-IsKept :
      (w : Workspace) (o : Poll) (listed : Rows)
      → IsKept ids w
      → w.sending ≡ none
      → ((s : AlertState) → In s listed → In s (observe ids o w.next_id w.rows).0)
      → IsKept ids (record w {
        rows = (observe ids o w.next_id w.rows).0;
        next_id = (observe ids o w.next_id w.rows).1;
        pending = listed;
      })
  look-IsKept w o listed known idle from =
      Kept-like ids distinct (observe ids o w.next_id w.rows).1 w.heard
        (observe-Kept ids distinct o w.next_id w.heard w.rows (
          Kept-like ids distinct w.next_id w.heard known
            (λ s member. (s, inl member, refl, λ knows. knows))))
        (λ s hs. elim hs [
          | inl member ↦ (s, member, refl, λ knows. knows)
          | inr (inl member) ↦ (s, from s member, refl, λ knows. knows)
          | inr (inr busy) ↦ absurd (cc (sym idle ∙ busy))
        ])

  book-IsKept :
      (w : Workspace) (now : ℕ) (s : AlertState) (rest : Rows)
      → IsKept ids w
      → w.pending ≡ s ∷ rest
      → IsKept ids (record w {
        rows = save_state (attempt now s) w.rows;
        pending = rest;
        sending = some (attempt now s);
        remaining = w.remaining - 1;
      })
  book-IsKept w now s rest known listed =
      let here : In s w.pending = rw (listed) (inl refl) in
      let later : (t : AlertState) → In t rest → In t w.pending =
        λ t member. rw (listed) (inr member) in
      let same = attempt-event now s in
      let booked : (t : AlertState)
          → t ≡ attempt now s
          → (r : AlertState) × Held w r
            × (event_of t ≡ event_of r)
            × (t.delivered_active ≡ true → r.delivered_active ≡ true) =
        λ t e. (
          s,
          inr (inl here),
          rw (e) same.0,
          λ knows. sym same.1 ∙ ap AlertState.delivered_active (sym e) ∙ knows,
        ) in
      Kept-like ids distinct w.next_id w.heard known (λ t ht. elim ht [
        | inl member ↦ elim (save_state-In (attempt now s) t w.rows member) [
          | inl old ↦ (t, inl old, refl, λ knows. knows)
          | inr new ↦ booked t new
        ]
        | inr (inl member) ↦ (t, inr (inl (later t member)), refl, λ knows. knows)
        | inr (inr busy) ↦ booked t (cc)
      ])

  accept-IsKept :
      (w : Workspace) (now : ℕ) (s : AlertState)
      → IsKept ids w
      → w.sending ≡ some s
      → IsKept ids (record w {
        rows = finish_delivery now s.event_id w.rows;
        sending = none;
        heard = event_of s ∷ w.heard;
      })
  accept-IsKept w now s known busy =
      Kept-carry ids distinct w.next_id w.heard (event_of s ∷ w.heard) known
        (λ t ht. elim ht [
          | inl member ↦
              let (r, old, same) = finish_delivery-In now s.event_id w.rows t member in
              (r, inl old, ap event_of same ∙ mark_delivered-event now s.event_id r)
          | inr (inl member) ↦ (t, inr (inl member), refl)
          | inr (inr done) ↦ absurd (cc done)
        ])
        (λ t ht. elim ht [
          | inl member ↦
              let (r, old, same) = finish_delivery-In now s.event_id w.rows t member in
              subst (Told (event_of s ∷ w.heard)) (sym same) (
                mark_delivered-Told now w.heard s r
                  (λ carried. known.alike r s (inl old) (inr (inr busy)) carried)
                  (known.told r (inl old)))
          | inr (inl member) ↦ Told-more (event_of s) w.heard t (known.told t (inr (inl member)))
          | inr (inr done) ↦ absurd (cc done)
        ])

  refuse-IsKept :
      (w : Workspace) (s : AlertState)
      → IsKept ids w
      → IsKept ids (record w { rows = fail_delivery s.event_id w.rows; sending = none })
  refuse-IsKept w s known = Kept-like ids distinct w.next_id w.heard known (λ t ht. elim ht [
    | inl member ↦
        let (r, old, same) = fail_delivery-In s.event_id w.rows t member in
        let (event, tells) = mark_failed-event s.event_id r in
        (
          r,
          inl old,
          ap event_of same ∙ event,
          λ knows. sym tells ∙ ap AlertState.delivered_active (sym same) ∙ knows,
        )
    | inr (inl member) ↦ (t, inr (inl member), refl, λ knows. knows)
    | inr (inr done) ↦ absurd (cc done)
  ])

  lose-IsKept :
      (w : Workspace) (s : AlertState) (accepted : Bool)
      → IsKept ids w
      → IsKept ids (record w {
        pending = [];
        sending = none;
        heard = if accepted then event_of s ∷ w.heard else w.heard;
      })
  lose-IsKept w s accepted known =
      Kept-carry ids distinct w.next_id w.heard _ known
        (λ t ht. elim ht [
          | inl member ↦ (t, inl member, refl)
          | inr (inl nothing) ↦ elim nothing [ ]
          | inr (inr done) ↦ absurd (cc done)
        ])
        (λ t ht. elim ht [
          | inl member ↦
              elim accepted as (λ b. Told (if b then event_of s ∷ w.heard else w.heard) t) [
                | true ↦ Told-more (event_of s) w.heard t (known.told t (inl member))
                | false ↦ known.told t (inl member)
              ]
          | inr (inl nothing) ↦ elim nothing [ ]
          | inr (inr done) ↦ absurd (cc done)
        ])

  change-IsKept :
      (w : Workspace) (x : Outside) (input : Input) (cfg : Configuration) (rows : Rows)
      → IsKept ids w
      → update x input w.config w.rows ≡ inr (cfg, rows)
      → IsKept ids (record w { config = cfg; rows = rows })
  change-IsKept w x input cfg rows known h =
      fewer-IsKept w (record w { config = cfg; rows = rows }) known refl refl
        (λ s hs. elim hs [
          | inl member ↦ elim (update-IsUpdated x input w.config cfg w.rows rows h).all_or_none [
            | inl gone ↦ elim (subst (In s) gone member) [ ]
            | inr same ↦ inl (subst (In s) same member)
          ]
          | inr others ↦ inr others
        ])

  fewer_pending :
      (w : Workspace) (cfg : Configuration) (rest : Rows) (left : ℕ)
      → IsKept ids w
      → ((s : AlertState) → In s rest → In s w.pending)
      → IsKept ids (record w { raw = cfg; pending = rest; remaining = left })
  fewer_pending w cfg rest left known from =
      fewer-IsKept w (record w { raw = cfg; pending = rest; remaining = left }) known refl refl
        (λ s hs. elim hs [
          | inl member ↦ inl member
          | inr (inl member) ↦ inr (inl (from s member))
          | inr (inr busy) ↦ inr (inr busy)
        ])

  Step-IsKept : {w v : Workspace} → IsKept ids w → Step ids w v → IsKept ids v
  Step-IsKept known (begin w left idle most) =
      fewer_pending w w.config [] left known (λ s nothing. elim nothing [ ])
  Step-IsKept known (look w o listed idle current enabled from) =
      look-IsKept w o listed known idle from
  Step-IsKept known (pass w now s rest idle listed over) =
      fewer_pending w w.raw rest w.remaining known (λ t member. rw (listed) (inr member))
  Step-IsKept known (book w now s rest idle listed due current) =
      book-IsKept w now s rest known listed
  Step-IsKept known (stop w idle) =
      fewer_pending w w.raw [] w.remaining known (λ s nothing. elim nothing [ ])
  Step-IsKept known (accept w now s busy) = accept-IsKept w now s known busy
  Step-IsKept known (refuse w s busy) = refuse-IsKept w s known
  Step-IsKept known (lose w s accepted busy) = lose-IsKept w s accepted known
  Step-IsKept known (change w x input cfg rows h) = change-IsKept w x input cfg rows known h
  Step-IsKept known (test w now opened cfg h) =
      fewer-IsKept w (record w { config = cfg }) known refl refl (λ s hs. hs)

  -- However checks, deliveries, updates and tests interleave, and whatever the destination answers:
  -- where the identifiers of events are distinct, two states of one event agree on what it says, and
  -- an incident that counts as reported has had a firing event of its own acknowledged.
  pub Reach-IsKept : {w : Workspace} → Reach ids w → IsKept ids w
  Reach-IsKept (start cfg) = record {
    alike = λ s t hs ht same. absurd (nobody s hs);
    issued = λ s hs. absurd (nobody s hs);
    told = λ s hs. absurd (nobody s hs);
  }
    where
      nobody : (s : AlertState) → In s [] ⊎ In s [] ⊎ (none ≡ some s) → ⊥
      nobody s (inl nothing) = nothing
      nobody s (inr (inl nothing)) = nothing
      nobody s (inr (inr h)) = cc
  Reach-IsKept (next reach step) = Step-IsKept (Reach-IsKept reach) step

  -- An acknowledgement that comes late, after any steps of others, marks only rows that carry the
  -- event that was sent: each row after it is a row of before, or carries that event, with the
  -- status that was sent as the status delivered.
  pub accept-IsApt :
      (w : Workspace) (now : ℕ) (sent row : AlertState)
      → Reach ids w
      → w.sending ≡ some sent
      → In row (finish_delivery now sent.event_id w.rows)
      → In row w.rows ⊎ ((event_of row ≡ event_of sent) × (row.delivered_active ≡ sent.active))
  unfolding mark_delivered event_of
  accept-IsApt w now sent row reach busy member =
      let (t, old, same) = finish_delivery-In now sent.event_id w.rows row member in
      elim (Bool-cases (t.event_id == sent.event_id)) [
        | inl carries ↦
            let alike =
              (Reach-IsKept reach).alike t sent (inl old) (inr (inr busy))
                ((eq_iff t.event_id sent.event_id).0 carries) in
            inr (
              ap event_of same ∙ mark_delivered-event now sent.event_id t ∙ alike,
              ap AlertState.delivered_active same
                  ∙ rw (carries, mark_delivered) (ap Event.firing alike),
            )
        | inr other ↦ inl (
            subst (λ r. In r w.rows) (sym (same ∙ mark_delivered-other now sent.event_id t other))
              old)
      ]
