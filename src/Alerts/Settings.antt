-- ===== src/Alerts/Settings.antt =====
-- What Update and Test of internal/alerts store.
use text.Mathlib.TextEquality.{eq_iff}
use sub_lane.Base.{
  some, ℕ, ◌+◌, ◌≤◌, ◌<◌, String, ◌≡◌, refl, sym, ap, ◌∙◌, subst, ◌⊎◌, inl, inr, Bool, true, false,
  not, ◌&&◌, ◌||◌, [], arith, ltb, if◌then◌else◌, Bool-cases, ℤ, under, over, nat_of, pos, negsuc,
  ◌==◌, string_eq, nat_eq, int_eq,
}
use sub_lane.Alerts.{
  Rows, Configuration, Input, AlertError, Outside, new_endpoint, store_settings, update,
  reserve_test, invalid_settings, store_failed, test_cooling, delivery_failed,
}

-- What follows a refusal that was not made.
not_refused {ℓ} :
    {A : Type ℓ} (refused : Bool) (e : AlertError) (rest : AlertError ⊎ A) (v : A)
    → (if refused then inl e else rest) ≡ inr v
    → (refused ≡ false) × (rest ≡ inr v)
not_refused true e rest v h = absurd (ground arith)
not_refused false e rest v h = (refl, h)

-- The result of an update.
pub record IsUpdated (x : Outside) (input : Input) (old new : Configuration) (rows left : Rows)
    : Type 0 where
  pub configured : new.enabled ≡ true → (new.endpoint == "") ≡ false
  pub asked : (new.enabled ≡ input.enabled) × (new.model_alerts ≡ input.model_alerts)
  pub percentage : (pos new.quota_threshold ≡ input.quota_threshold) × (new.quota_threshold ≤ 99)
  pub tested : new.tested_at ≡ old.tested_at
  pub vetted :
      (new.endpoint ≡ old.endpoint)
      ⊎ (new.endpoint ≡ "")
      ⊎ ((x.valid input.url ≡ true) × (x.sealed ≡ some new.endpoint))
  -- the incidents
  pub all_or_none : (left ≡ []) ⊎ (left ≡ rows)
  pub moved : (new.endpoint == old.endpoint) ≡ false → left ≡ []
  pub silenced : new.enabled ≡ false → left ≡ []
  pub kept : input.url ≡ "" → input.clear ≡ false → new.enabled ≡ true → left ≡ rows

threshold_bounds :
    (n : ℤ) → (under n 0 || over n 99) ≡ false → (pos (nat_of n) ≡ n) × (nat_of n ≤ 99)
threshold_bounds (pos n) h = (refl, ground arith)
threshold_bounds (negsuc n) h = absurd (ground (arith, h))

none_of : (a b c : Bool) → (not a || b || not c) ≡ false → (a ≡ true) × (b ≡ false) × (c ≡ true)
none_of a b c h = ground arith

guarded : (a : Bool) (e : String) → (a && e == "") ≡ false → a ≡ true → (e == "") ≡ false
guarded a e h on = rw (← h) (rw (on) refl)

stored {ℓ} :
    {A : Type ℓ} (commits : Bool) (v w : A)
    → (if commits then inr v else inl store_failed) ≡ inr w
    → v ≡ w
stored true v w h = ground arith
stored false v w h = absurd (ground arith)

new_endpoint-kept :
    (x : Outside) (input : Input) (old endpoint : String)
    → (not (input.url == "") || input.clear || not input.enabled) ≡ false
    → new_endpoint x input old ≡ inr endpoint
    → (endpoint ≡ old) × (input.enabled ≡ true)
unfolding new_endpoint
new_endpoint-kept x input old endpoint same h =
    let (no_url, unclear, on) = none_of (input.url == "") input.clear input.enabled same in
    let made : inr old ≡ inr endpoint = rw (no_url, unclear, new_endpoint) at h in (cc, on)

new_endpoint-vetted :
    (x : Outside) (input : Input) (old endpoint : String)
    → new_endpoint x input old ≡ inr endpoint
    → (endpoint ≡ old) ⊎ (endpoint ≡ "") ⊎ ((x.valid input.url ≡ true) × (x.sealed ≡ some endpoint))
unfolding new_endpoint
new_endpoint-vetted x input old endpoint h = ground (arith, h)

all_or :
    (b : Bool) (rows : Rows) → ((if b then [] else rows) ≡ []) ⊎ ((if b then [] else rows) ≡ rows)
all_or true rows = inl refl
all_or false rows = inr refl

cleared : (a b c : Bool) → c ≡ false → (a || b || not c) ≡ true
cleared a b c h = ground (arith, h)

stays : (a b c : Bool) → a ≡ true → b ≡ false → c ≡ true → (not a || b || not c) ≡ false
stays a b c h k l = ground (arith, h, k, l)

store_settings-IsUpdated :
    (x : Outside) (input : Input) (old new : Configuration) (rows left : Rows) (endpoint : String)
    → (under input.quota_threshold 0 || over input.quota_threshold 99) ≡ false
    → new_endpoint x input old.endpoint ≡ inr endpoint
    → store_settings x input old rows endpoint ≡ inr (new, left)
    → IsUpdated x input old new rows left
unfolding store_settings
store_settings-IsUpdated x input old new rows left endpoint range made h =
    let (allowed, done) =
      not_refused (input.enabled && endpoint == "") invalid_settings _ (new, left) h in
    let same = stored x.commits _ (new, left) done in
    subst (λ v. IsUpdated x input old v.0 rows v.1) same
      (record {
        configured = guarded input.enabled endpoint allowed;
        asked = (refl, refl);
        percentage = threshold_bounds input.quota_threshold range;
        tested = refl;
        vetted = new_endpoint-vetted x input old.endpoint endpoint made;
        all_or_none = all_or (not (input.url == "") || input.clear || not input.enabled) rows;
        moved = λ differs.
            elim (Bool-cases (not (input.url == "") || input.clear || not input.enabled)) [
              | inl new_history ↦ rw (new_history) refl
              | inr same_history ↦
                  let (kept, on) =
                    new_endpoint-kept x input old.endpoint endpoint same_history made in
                  absurd (ground (arith, eq_iff endpoint old.endpoint, kept, differs))
            ];
        silenced = λ off. rw (cleared (not (input.url == "")) input.clear input.enabled off) refl;
        kept = λ no_url unclear on.
            rw
              (stays (input.url == "") input.clear input.enabled ((eq_iff input.url "").1 no_url)
                unclear on)
              refl;
      })

with_endpoint :
    (x : Outside) (input : Input) (old new : Configuration) (rows left : Rows)
    (made : AlertError ⊎ String)
    → made ≡ new_endpoint x input old.endpoint
    → (under input.quota_threshold 0 || over input.quota_threshold 99) ≡ false
    → elim made as (λ _. AlertError ⊎ (Configuration × Rows)) [
      | inl e ↦ inl e
      | inr endpoint ↦ store_settings x input old rows endpoint
    ]
      ≡ inr (new, left)
    → IsUpdated x input old new rows left
with_endpoint x input old new rows left (inl e) made range h = absurd (ground arith)
with_endpoint x input old new rows left (inr endpoint) made range h =
    store_settings-IsUpdated x input old new rows left endpoint range (sym made) h

pub update-IsUpdated :
    (x : Outside) (input : Input) (old new : Configuration) (rows left : Rows)
    → update x input old rows ≡ inr (new, left)
    → IsUpdated x input old new rows left
unfolding update
update-IsUpdated x input old new rows left h =
    let (_, rest) =
      not_refused (input.clear && (input.enabled || not (input.url == ""))) invalid_settings _
        (new, left) h in
    let (range, settled) =
      not_refused (under input.quota_threshold 0 || over input.quota_threshold 99) invalid_settings
        _ (new, left) rest in
    with_endpoint x input old new rows left (new_endpoint x input old.endpoint) refl range settled

-- Any number of updates that succeed, each with the incidents that it finds.
pub data Edited : Configuration → Configuration → Type 0 where
  unedited : (c : Configuration) → Edited c c
  edit :
      (a b c : Configuration) (x : Outside) (input : Input) (rows left : Rows)
      → Edited a b
      → update x input b rows ≡ inr (c, left)
      → Edited a c

Edited-tested : {a b : Configuration} → Edited a b → b.tested_at ≡ a.tested_at
Edited-tested (unedited c) = refl
Edited-tested (edit a b c x input rows left before h) =
    (update-IsUpdated x input b c rows left h).tested ∙ Edited-tested before

reserve_test-booked :
    (now : ℕ) (opened commits : Bool) (cfg booked : Configuration)
    → reserve_test now opened commits cfg ≡ inr booked
    → (booked.tested_at ≡ now) × ((ltb 0 cfg.tested_at && ltb now (cfg.tested_at + 60)) ≡ false)
unfolding reserve_test
reserve_test-booked now opened commits cfg booked h =
    let (_, warm) = not_refused (cfg.endpoint == "") invalid_settings _ booked h in
    let (cool, rest) =
      not_refused (ltb 0 cfg.tested_at && ltb now (cfg.tested_at + 60)) test_cooling _ booked
        warm in
    let (_, done) = not_refused (not opened) delivery_failed _ booked rest in
    (
      ap Configuration.tested_at
          (sym (stored commits (record cfg { tested_at = now }) booked done)),
      cool,
    )

-- Between two tests that are booked there are at least sixty seconds, however often the settings
-- are updated in between.
pub reserve_test_apart :
    (first second : ℕ) (opened commits opened' commits' : Bool) (a b c d : Configuration)
    → 0 < first
    → reserve_test first opened commits a ≡ inr b
    → Edited b c
    → reserve_test second opened' commits' c ≡ inr d
    → first + 60 ≤ second
reserve_test_apart first second opened commits opened' commits' a b c d positive one between two =
    let (booked, _) = reserve_test-booked first opened commits a b one in
    let (_, cool) = reserve_test-booked second opened' commits' c d two in
    let known : c.tested_at ≡ first = Edited-tested between ∙ booked in
    ground (arith, known, cool, positive)
