-- ===== src/Fleet.antt =====
-- The outputs of the dock share one API client: src/outputs/egress-link-output.cpp together with
-- the counters and syncUplinkStatus of src/api-client.cpp.
use src_link.Prelude.{
  ℕ, zero, suc, ◌+◌, ◌≡◌, ◌∙◌, some, ltb, Bool, if◌then◌else◌, List, [], ◌∷◌, arith, if◌then◌else◌,
  Bool, ltb, sym,
}
use src_link.Prelude.Int.{ℤ, pos, ◌+ℤ◌, int_laws}
use src_link.ApiClient.Uplink.{
  Uplink, UplinkStatus, next_uplink_status, sync_uplink_status, sync_uplink_status-agrees,
}
use src_link.Schema.{UplinkInfo}
use src_link.Egress.State.{Output}
use src_link.Egress.Step.{Event, step}
use src_link.Egress.Counters.{active_weight, stand_by_weight, Counted, step-Counted}

-- An event at the output of that index, which works on the shared API client. There is no event at
-- an index out of range.
unfoldable pub dispatch : ℕ → Event → Uplink → List Output → Uplink × List Output
dispatch i e api [] = (api, [])
dispatch zero e api (o ∷ os) = let o' = step e (record o { api = api }) in (o'.api, o' ∷ os)
dispatch (suc i) e api (o ∷ os) = let (api', os') = dispatch i e api os in (api', o ∷ os')

unfoldable pub run : List (ℕ × Event) → Uplink → List Output → Uplink × List Output
unfolding dispatch
run [] api os = (api, os)
run ((i, e) ∷ es) api os = let (api', os') = dispatch i e api os in run es api' os'

abbrev pub total_active : List Output → ℕ
total_active [] = 0
total_active (o ∷ os) = active_weight o.status + total_active os

abbrev pub total_stand_by : List Output → ℕ
total_stand_by [] = 0
total_stand_by (o ∷ os) = stand_by_weight o.status + total_stand_by os

-- The counters are `a` and `b` more than the outputs account for.
pub record Counts (a b : ℤ) (api : Uplink) (os : List Output) : Type 0 where
  pub active : api.active_outputs ≡ a +ℤ pos (total_active os)
  pub stand_by : api.stand_by_outputs ≡ b +ℤ pos (total_stand_by os)

split_first : (a : ℤ) (x y : ℕ) → a +ℤ pos (x + y) ≡ a +ℤ pos x +ℤ pos y
split_first a x y = omega int_laws

split_rest : (a : ℤ) (x y : ℕ) → a +ℤ pos (x + y) ≡ a +ℤ pos y +ℤ pos x
split_rest a x y = omega int_laws

module _ (a b : ℤ) (o : Output) where
  -- Count the first output among the others.
  Counts-rest :
      (api : Uplink) (os : List Output)
      → Counts a b api (o ∷ os)
      → Counts (a +ℤ pos (active_weight o.status)) (b +ℤ pos (stand_by_weight o.status)) api os
  Counts-rest api os h = record {
    active = h.active ∙ split_first a _ _;
    stand_by = h.stand_by ∙ split_first b _ _;
  }

  Counts-cons :
      (api : Uplink) (os : List Output)
      → Counts (a +ℤ pos (active_weight o.status)) (b +ℤ pos (stand_by_weight o.status)) api os
      → Counts a b api (o ∷ os)
  Counts-cons api os h = record {
    active = h.active ∙ sym (split_first a _ _);
    stand_by = h.stand_by ∙ sym (split_first b _ _);
  }

  -- Count the others as a whole.
  Counts-first :
      (api : Uplink) (os : List Output)
      → Counts a b api (o ∷ os)
      → Counted (a +ℤ pos (total_active os)) (b +ℤ pos (total_stand_by os)) (record o { api = api })
  Counts-first api os h = record {
    active = h.active ∙ split_rest a _ _;
    stand_by = h.stand_by ∙ split_rest b _ _;
  }

  Counts-from_first :
      (os : List Output)
      → Counted (a +ℤ pos (total_active os)) (b +ℤ pos (total_stand_by os)) o
      → Counts a b o.api (o ∷ os)
  Counts-from_first os h = record {
    active = h.active ∙ sym (split_rest a _ _);
    stand_by = h.stand_by ∙ sym (split_rest b _ _);
  }

dispatch-Counts :
    (i : ℕ) (e : Event) (a b : ℤ) (api : Uplink) (os : List Output)
    → Counts a b api os
    → Counts a b (dispatch i e api os).0 (dispatch i e api os).1
unfolding dispatch
dispatch-Counts i e a b api [] h = h
dispatch-Counts zero e a b api (o ∷ os) h =
    Counts-from_first a b _ os (step-Counted _ _ e _ (Counts-first a b o api os h))
dispatch-Counts (suc i) e a b api (o ∷ os) h =
    Counts-cons a b o _ _ (dispatch-Counts i e _ _ api os (Counts-rest a b o api os h))

-- After any events at any of the outputs, in any order, the two counters of the API client exceed
-- the number of outputs that count as active, and of those that stand by, by what they exceeded them
-- before.
pub run-Counts :
    (es : List (ℕ × Event)) (a b : ℤ) (api : Uplink) (os : List Output)
    → Counts a b api os
    → Counts a b (run es api os).0 (run es api os).1
unfolding run
run-Counts [] a b api os h = h
run-Counts ((i, e) ∷ es) a b api os h = run-Counts es a b _ _ (dispatch-Counts i e a b api os h)

-- What the server should be told, from the statuses of the outputs alone.
abbrev pub fleet_status : List Output → UplinkStatus
fleet_status os =
    if ltb 0 (total_active os)
    then UplinkStatus.active
    else if ltb 0 (total_stand_by os)
    then UplinkStatus.standby
    else UplinkStatus.inactive

counted_status :
    (api : Uplink) (os : List Output)
    → Counts (pos 0) (pos 0) api os
    → next_uplink_status api ≡ fleet_status os
unfolding ◌+ℤ◌
counted_status api os h = rw (h.active, h.stand_by) (ground arith)

-- If the counters fit the outputs at first, then after any events a sync of an API client that has an
-- uplink leaves the uplink's status at what the outputs' statuses alone say: active if some output
-- counts as active, else standby if some output stands by, else inactive.
pub run-fleet_status :
    (es : List (ℕ × Event)) (force : Bool) (api : Uplink) (os : List Output) (u : UplinkInfo)
    → Counts (pos 0) (pos 0) api os
    → (run es api os).0.uplink ≡ some u
    → (sync_uplink_status force (run es api os).0).uplink_status ≡ fleet_status (run es api os).1
run-fleet_status es force api os u h e =
    (sync_uplink_status-agrees force _ u e).0 ∙ counted_status _ _ (run-Counts es _ _ api os h)
