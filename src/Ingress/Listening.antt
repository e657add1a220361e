-- ===== src/Ingress/Listening.antt =====
-- The ports of the ingress sources (captureSettings of src/sources/ingress-link-source.cpp with
-- getFreePort and releasePort of src/api-client.cpp).
use src_link.Ingress.Allocated.{handle-Allocates, Allocates, put_connection-port}
use src_link.Schema.Array.{find}
use src_link.Schema.{get_id}
use src_link.Ingress.{Ingress, SourceSettings, ClientSettings}
use src_link.Egress.Link.{Qt}
use src_link.Ingress.Downlink.{
  offers, has_stage, has_connection, reconnection_needed, SourceEvent, reset_decoder,
  on_downlink_ready, on_settings_update, on_stages_ready, on_login_succeeded, on_logout_succeeded,
  on_delete_downlink_succeeded, on_put_downlink_failed, handle, put_failed, delete_succeeded,
  downlink_ready, stages_ready, login_succeeded, logout_succeeded, settings_updated,
}
use src_link.Prelude.{
  str_eq, subst, inr, ◌∙◌, sym, ap, ◌-◌, inl, ◌+◌, Bool-cases, branch, String, refl, not, ◌||◌,
  All-both, arith, All, true, ◌==◌, if◌then◌else◌, Bool, ◌≡◌, List, ℕ,
}
use src_link.Ingress.Capture.{
  is_selected, put_connection, new_request, reallocate_port, capture_settings,
}
use src_link.ApiClient.Ports.{free_port_from-Found, release_port, get_free_port, Ports}

-- A port of a source is marked as used, and not that of another source; port 0 is no port.
abbrev pub marked : Ports → ℕ → Bool
marked used p = (p == 0) || used p

abbrev pub differs : ℕ → ℕ → Bool
differs port p = (port == 0) || not (p == port)

-- A source listens on `port`, and the other sources on `others`.
pub record Listens (used : Ports) (port : ℕ) (others : List ℕ) : Type 0 where
  pub own : marked used port ≡ true
  pub rest : All (λ p. marked used p ≡ true) others
  pub apart : All (λ p. differs port p ≡ true) others

abbrev vacate : ℕ → Ports → Ports
vacate port used = if port == 0 then used else release_port port used

vacate-marked :
    (used : Ports) (port p : ℕ)
    → marked used p ≡ true
    → differs port p ≡ true
    → marked (vacate port used) p ≡ true
unfolding release_port
vacate-marked used port p h k = ground arith

keep_marked :
    (used used' : Ports) (p : ℕ)
    → (used p ≡ true → used' p ≡ true)
    → marked used p ≡ true
    → marked used' p ≡ true
keep_marked used used' p k h = ground arith

free-differs :
    (used : Ports) (port p : ℕ)
    → (used port ≡ true → port ≡ 0)
    → marked used p ≡ true
    → differs port p ≡ true
free-differs used port p f h = elim (Bool-cases (p == port)) [
  | inl e ↦
      let same : p ≡ port = ground arith in
      let busy = ap (marked used) (sym same) ∙ h in ground arith
  | inr e ↦ ground arith
]

get_free_port-Listens :
    (min max : ℕ) (used : Ports) (others : List ℕ)
    → All (λ p. marked used p ≡ true) others
    → Listens (get_free_port min max used).1 (get_free_port min max used).0 others
unfolding get_free_port
get_free_port-Listens min max used others h =
    let found = free_port_from-Found (max + 1 - min) min used in
    record {
      own = ground (arith, found.marked);
      rest =
          All-both others
            (λ p a b. keep_marked used (get_free_port min max used).1 p (found.kept p) a) h h;
      apart = All-both others (λ p a b. free-differs used _ p found.free a) h h;
    }

no_port-Listens :
    (used : Ports) (others : List ℕ)
    → All (λ p. marked used p ≡ true) others
    → Listens used 0 others
no_port-Listens used others h = record {
  own = refl;
  rest = h;
  apart = All-both others (λ p a b. refl) h h;
}

capture_settings-Listens :
    (qt : Qt) (client : ClientSettings) (settings : SourceSettings) (stream_id : String)
    (used : Ports) (s : Ingress) (others : List ℕ)
    → Listens used s.request.port others
    → Listens
        (capture_settings qt client settings stream_id used s).0
        (capture_settings qt client settings stream_id used s).1.request.port
        others
unfolding capture_settings reallocate_port new_request
capture_settings-Listens qt client settings stream_id used s others h =
    let left = All-both others (λ p a b. vacate-marked used s.request.port p a b) h.rest h.apart in
    branch (λ (r : ℕ × Ports). Listens r.1 r.0 others) settings.relay _ _
      (λ _. no_port-Listens _ others left)
      λ _. get_free_port-Listens client.port_min client.port_max _ others left

same_port :
    (used : Ports) (others : List ℕ) (b : Bool) (x y : Ingress)
    → Listens used x.request.port others
    → Listens used y.request.port others
    → Listens used (if b then x else y).request.port others
same_port used others b x y h k =
    branch (λ z. Listens used z.request.port others) b x y (λ _. h) (λ _. k)

put_connection-Listens :
    (used : Ports) (others : List ℕ) (s : Ingress)
    → Listens used s.request.port others
    → Listens used (put_connection s).request.port others
put_connection-Listens used others s h =
    subst (λ p. Listens used p others) (sym (put_connection-port s)) h

own_port :
    (qt : Qt) (e : SourceEvent) (used : Ports) (s : Ingress) (others : List ℕ)
    → Listens used s.request.port others
    → Listens (handle qt e used s).0 (handle qt e used s).1.request.port others
unfolding handle on_put_downlink_failed on_delete_downlink_succeeded on_logout_succeeded
    on_login_succeeded on_stages_ready on_settings_update on_downlink_ready reset_decoder
own_port qt (put_failed id) used s others h = same_port used others (str_eq id s.uuid) _ _ h h
own_port qt (delete_succeeded id) used s others h = same_port used others (str_eq id s.uuid) _ _ h h
own_port qt (downlink_ready c) used s others h =
    same_port used others (str_eq (get_id c) s.uuid) _ _
      (same_port used others (reconnection_needed c s) _ _ h h) h
own_port qt (stages_ready stages) used s others h =
    same_port used others (has_connection s.connection || not (is_selected s.request)) _ _ h (
      same_port used others (has_stage (find (offers s.request) stages)) _ _
        (put_connection-Listens used others s h) h)
own_port qt login_succeeded used s others h =
    same_port used others (has_connection s.connection) _ _ h
      (put_connection-Listens used others s h)
own_port qt logout_succeeded used s others h = h
own_port qt (settings_updated client settings id) used s others h =
    put_connection-Listens (capture_settings qt client settings id used s).0 others
      (capture_settings qt client settings id used s).1
      (capture_settings-Listens qt client settings id used s others h)

-- Whatever happens to a source that listens on a port of its own, or on none: its port is marked
-- as used afterwards, is the port of no other source, and the ports of the others stay marked.
-- When the source captures its settings, its port is afterwards the first one of the range that no
-- one else uses, or none if it uses a relay or there is none, and just the ports of the others and
-- that one are in use; in all other events the port and the ports in use stay as they were.
pub handle-Listens :
    (qt : Qt) (e : SourceEvent) (used : Ports) (s : Ingress) (others : List ℕ)
    → Listens used s.request.port others
    → Listens (handle qt e used s).0 (handle qt e used s).1.request.port others
      × Allocates e used s.request.port (handle qt e used s).0 (handle qt e used s).1.request.port
handle-Listens qt e used s others h = (own_port qt e used s others h, handle-Allocates qt e used s)
