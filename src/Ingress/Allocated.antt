-- ===== src/Ingress/Allocated.antt =====
-- Which port a source takes (captureSettings of src/sources/ingress-link-source.cpp with getFreePort and
-- releasePort of src/api-client.cpp).
use src_link.Schema.{get_id}
use src_link.Dock.Slots.{on_logout_succeeded}
use src_link.Egress.Link.{Qt}
use src_link.Ingress.{SourceSettings, ClientSettings, Ingress}
use src_link.Ingress.Downlink.{
  logout_succeeded, offers, has_stage, has_connection, reconnection_needed, reset_decoder,
  on_downlink_ready, on_settings_update, login_succeeded, on_stages_ready, stages_ready,
  downlink_ready, on_login_succeeded, delete_succeeded, on_delete_downlink_succeeded, put_failed,
  on_put_downlink_failed, settings_updated, SourceEvent, handle,
}
use src_link.Ingress.Capture.{
  is_selected, new_request, capture_settings, put_connection, reallocate_port,
}
use src_link.ApiClient.Ports.{get_free_port, Ports, release_port, free_port_from}
use src_link.Schema.Array.{first, find}
use src_link.Prelude.{
  str_eq, inr, String, ap, inl, zero, Bool-cases, ◌-◌, ◌∙◌, refl, ◌+◌, suc, arith, ◌||◌, ◌&&◌, ◌≡◌,
  not, ◌==◌, if◌then◌else◌, List, Bool, Option, ℕ, true, false, none, some, [], ◌∷◌,
}

-- The ports that others use: those in use but for the source's own.
abbrev pub held : Ports → ℕ → ℕ → Bool
held used port p = used p && ((port == 0) || not (p == port))

abbrev pub range : ℕ → ℕ → List ℕ
range zero i = []
range (suc count) i = i ∷ range count (i + 1)

-- The first port from `lo` to `hi` that no one uses.
abbrev pub first_free : ℕ → ℕ → Ports → Option ℕ
first_free lo hi used = first (λ p. not (used p)) (range (hi + 1 - lo) lo)

abbrev pub port_number : Option ℕ → ℕ
port_number none = 0
port_number (some p) = p

abbrev pub is_port : ℕ → Option ℕ → Bool
is_port p none = false
is_port p (some q) = p == q

-- A source takes `taken`, out of what the others hold, or leaves its port.
abbrev Takes : Option ℕ → ℕ → Ports → Ports → ℕ → Type 0
Takes taken port used used' port' =
    (port' ≡ port_number taken) × ((p : ℕ) → used' p ≡ held used port p || is_port p taken)

abbrev Leaves : ℕ → Ports → Ports → ℕ → Type 0
Leaves port used used' port' = (port' ≡ port) × ((p : ℕ) → used' p ≡ used p)

-- Which ports are in use after an event, and which one is the source's.
abbrev pub Allocates : SourceEvent → Ports → ℕ → Ports → ℕ → Type 0
Allocates (settings_updated client settings id) used port used' port' =
    Takes
      (if settings.relay then none else first_free client.port_min client.port_max (held used port))
      port used used' port'
Allocates (put_failed id) used port used' port' = Leaves port used used' port'
Allocates (delete_succeeded id) used port used' port' = Leaves port used used' port'
Allocates (downlink_ready c) used port used' port' = Leaves port used used' port'
Allocates (stages_ready stages) used port used' port' = Leaves port used used' port'
Allocates login_succeeded used port used' port' = Leaves port used used' port'
Allocates logout_succeeded used port used' port' = Leaves port used used' port'

free_port_from-first :
    (count i : ℕ) (used : Ports)
    → let taken = first (λ p. not (used p)) (range count i) in
      ((free_port_from count i used).0 ≡ port_number taken)
      × ((p : ℕ) → (free_port_from count i used).1 p ≡ used p || is_port p taken)
unfolding free_port_from first
free_port_from-first zero i used = (refl, λ p. ground arith)
free_port_from-first (suc count) i used =
    let (port, marks) = free_port_from-first count (i + 1) used in
    elim (Bool-cases (used i)) [
      | inl busy ↦ rw (busy, free_port_from) (port, marks)
      | inr open_port ↦ rw (open_port, free_port_from) (refl, λ p. ground arith)
    ]

first-agree : (p q : ℕ → Bool) (xs : List ℕ) → ((x : ℕ) → p x ≡ q x) → first p xs ≡ first q xs
unfolding first
first-agree p q [] h = refl
first-agree p q (x ∷ xs) h = ground (arith, h x, first-agree p q xs h)

released-held :
    (used : Ports) (port p : ℕ)
    → (if port == 0 then used else release_port port used) p ≡ held used port p
unfolding release_port
released-held used port p = ground arith

reallocate_port-Takes :
    (client : ClientSettings) (relay : Bool) (port : ℕ) (used : Ports)
    → let r = reallocate_port client relay port used in
      Takes
        (if relay then none else first_free client.port_min client.port_max (held used port))
        port
        used
        r.1
        r.0
unfolding reallocate_port get_free_port
reallocate_port-Takes client true port used = (refl, λ p. released-held used port p ∙ ground arith)
reallocate_port-Takes client false port used =
    let used' = if port == 0 then used else release_port port used in
    let count = client.port_max + 1 - client.port_min in
    let same =
      first-agree (λ p. not (used' p)) (λ p. not (held used port p)) (range count client.port_min)
        λ p. ap not (released-held used port p) in
    let (found, marks) = free_port_from-first count client.port_min used' in
    (
      found ∙ ap port_number same,
      λ p.
          marks p
          ∙ ap
              (λ (b : Bool).
                b || is_port p (first (λ p. not (used' p)) (range count client.port_min)))
              (released-held used port p)
          ∙ ap (λ (r : Option ℕ). held used port p || is_port p r) same,
    )

pub put_connection-port : (s : Ingress) → (put_connection s).request.port ≡ s.request.port
unfolding put_connection
put_connection-port s = ground arith

if-port :
    (b : Bool) (x y : Ingress) (port : ℕ)
    → x.request.port ≡ port
    → y.request.port ≡ port
    → (if b then x else y).request.port ≡ port
if-port true x y port h k = h
if-port false x y port h k = k

capture_settings-Takes :
    (qt : Qt) (client : ClientSettings) (settings : SourceSettings) (id : String) (used : Ports)
    (s : Ingress)
    → let r = capture_settings qt client settings id used s in
      Takes
        (if settings.relay
          then none
          else first_free client.port_min client.port_max (held used s.request.port))
        s.request.port
        used
        r.0
        r.1.request.port
unfolding capture_settings new_request
capture_settings-Takes qt client settings id used s =
    reallocate_port-Takes client settings.relay s.request.port used

pub handle-Allocates :
    (qt : Qt) (e : SourceEvent) (used : Ports) (s : Ingress)
    → Allocates e used s.request.port (handle qt e used s).0 (handle qt e used s).1.request.port
unfolding handle on_put_downlink_failed on_delete_downlink_succeeded on_logout_succeeded
    on_login_succeeded on_stages_ready on_settings_update on_downlink_ready reset_decoder
handle-Allocates qt (put_failed id) used s =
    (if-port (str_eq id s.uuid) _ _ s.request.port refl refl, λ p. refl)
handle-Allocates qt (delete_succeeded id) used s =
    (if-port (str_eq id s.uuid) _ _ s.request.port refl refl, λ p. refl)
handle-Allocates qt (downlink_ready c) used s = (
  if-port (str_eq (get_id c) s.uuid) _ _ s.request.port
      (if-port (reconnection_needed c s) _ _ s.request.port refl refl) refl,
  λ p. refl,
)
handle-Allocates qt (stages_ready stages) used s = (
  if-port (has_connection s.connection || not (is_selected s.request)) _ _ s.request.port refl (
      if-port (has_stage (find (offers s.request) stages)) _ _ s.request.port
        (put_connection-port s) refl),
  λ p. refl,
)
handle-Allocates qt login_succeeded used s = (
  if-port (has_connection s.connection) _ _ s.request.port refl (put_connection-port s),
  λ p. refl,
)
handle-Allocates qt logout_succeeded used s = (refl, λ p. refl)
handle-Allocates qt (settings_updated client settings id) used s =
    let (port, marks) = capture_settings-Takes qt client settings id used s in
    (put_connection-port (capture_settings qt client settings id used s).1 ∙ port, marks)
