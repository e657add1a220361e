-- ===== src/Egress/Counters.antt =====
-- The counters of the API client and the status of an output (setStatus, syncUplinkStatus and the
-- handlers of src/outputs/egress-link-output.cpp).
use src_link.Prelude.{ℕ, ◌≡◌, arith, Bool-cases, inl, inr}
use src_link.Prelude.Int.{ℤ, pos, ◌+ℤ◌, fall, rise}
use src_link.ApiClient.Uplink.{Uplink, sync_uplink_status}
use src_link.Egress.State.{Status, is_status, Obs, Output}
use src_link.Egress.Start.{sync}
use src_link.Egress.Step.{Event, step}
use src_link.Egress.Frame.{Same}
use src_link.Egress.Carry.Turn.{step-keep}
use src_link.Egress.Status.{set_status, leave_status, enter_status}

-- How an output counts, by its status.
abbrev pub active_weight : Status → ℕ
active_weight Status.activating = 1
active_weight Status.active = 1
active_weight Status.reconnecting = 1
active_weight _ = 0

abbrev pub stand_by_weight : Status → ℕ
stand_by_weight Status.stand_by = 1
stand_by_weight _ = 0

-- The counters are those of the other outputs, `a` and `b`, with this output's share.
pub record Counted (a b : ℤ) (o : Output) : Type 0 where
  pub active : o.api.active_outputs ≡ a +ℤ pos (active_weight o.status)
  pub stand_by : o.api.stand_by_outputs ≡ b +ℤ pos (stand_by_weight o.status)

record Balanced (a b : ℤ) (n m : ℕ) (api : Uplink) : Type 0 where
  active : api.active_outputs ≡ a +ℤ pos n
  stand_by : api.stand_by_outputs ≡ b +ℤ pos m

module _ (a b : ℤ) where
  leave_status-Balanced :
      (s : Status) (api : Uplink)
      → Balanced a b (active_weight s) (stand_by_weight s) api
      → Balanced a b 0 0 (leave_status s api)
  leave_status-Balanced Status.activating api h = record {
    active = fall a _ h.active;
    stand_by = h.stand_by;
  }
  leave_status-Balanced Status.active api h = record {
    active = fall a _ h.active;
    stand_by = h.stand_by;
  }
  leave_status-Balanced Status.stand_by api h = record {
    active = h.active;
    stand_by = fall b _ h.stand_by;
  }
  leave_status-Balanced Status.reconnecting api h = record {
    active = fall a _ h.active;
    stand_by = h.stand_by;
  }
  leave_status-Balanced Status.inactive api h = h
  leave_status-Balanced _ api h = h

  enter_status-Balanced :
      (s : Status) (api : Uplink)
      → Balanced a b 0 0 api
      → Balanced a b (active_weight s) (stand_by_weight s) (enter_status s api)
  enter_status-Balanced Status.activating api h = record {
    active = rise a _ h.active;
    stand_by = h.stand_by;
  }
  enter_status-Balanced Status.active api h = record {
    active = rise a _ h.active;
    stand_by = h.stand_by;
  }
  enter_status-Balanced Status.stand_by api h = record {
    active = h.active;
    stand_by = rise b _ h.stand_by;
  }
  enter_status-Balanced Status.reconnecting api h = record {
    active = rise a _ h.active;
    stand_by = h.stand_by;
  }
  enter_status-Balanced Status.inactive api h = h
  enter_status-Balanced _ api h = h

  pub set_status-Counted :
      (w : Obs) (s : Status) (o : Output) → Counted a b o → Counted a b (set_status w s o)
  unfolding set_status
  set_status-Counted w s o h = elim (Bool-cases (is_status o.status s)) [
    | inl e ↦ rw e h
    | inr e ↦ rw e (record { active = moved.active; stand_by = moved.stand_by })
  ]
    where
      moved :
          Balanced a b
            (active_weight s)
            (stand_by_weight s)
            (enter_status s (leave_status o.status o.api))
      moved = enter_status-Balanced s _ (
          leave_status-Balanced o.status o.api
            (record { active = h.active; stand_by = h.stand_by }))

  sync-Counted : (o : Output) → Counted a b o → Counted a b (sync o)
  unfolding sync_uplink_status
  sync-Counted o h = record {
    active = ground (arith, h.active);
    stand_by = ground (arith, h.stand_by);
  }

  frame-Counted : (o o' : Output) → Same o o' → Counted a b o → Counted a b o'
  frame-Counted o o' same h = record {
    active = rw (same.api, same.status) h.active;
    stand_by = rw (same.api, same.status) h.stand_by;
  }

  -- Whatever happens to an output, the two counters of the API client move by the change of this
  -- output's own share: they stay the share of the others plus one if it counts as active (activating,
  -- active or reconnecting), and plus one if it stands by.
  pub step-Counted : (e : Event) (o : Output) → Counted a b o → Counted a b (step e o)
  step-Counted e o h =
      step-keep (Counted a b)
        (record {
          frame = frame-Counted;
          keep_status = set_status-Counted;
          keep_sync = sync-Counted;
        })
        e o h
